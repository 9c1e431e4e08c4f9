-- ===== src/Vfs/Registry.antt =====
-- vfs_backend.cc: `xOpen`, `xClose`, `xDelete`, `xAccess`, with `g_open_files` and
-- `g_in_memory_journal_paths`. The mutexes are not modelled: each call is one step.
pub mod Exclusive
use sqlite_on_gcs_rapid.Base.{
  ℕ, List, Option, none, some, Bool, true, false, not, ◌&&◌, if◌then◌else◌,
}
use sqlite_on_gcs_rapid.Status.{Result, ok, err, not_found}
use sqlite_on_gcs_rapid.Status
use sqlite_on_gcs_rapid.Storage.{Storage}
use sqlite_on_gcs_rapid.Table.{MetadataBlock, fresh}
use sqlite_on_gcs_rapid.Mapper.{MapperOf}
use sqlite_on_gcs_rapid.Recovery.{init}
use sqlite_on_gcs_rapid.Vfs.{
  Code, sqlite_ok, cantopen, busy, ioerr_delete, FilePath, contains, insert, erase, is_gcs,
  gcs_name, OpenFlags, is_journal, AppendOnlyFile,
}

-- The two global sets.
pub record World : Type 0 where
  pub open_files : List FilePath
  pub journal_paths : List FilePath

-- What other code answers to this call: the default VFS, the factories of the storages, the client
-- of Cloud Storage.
pub record Backends (S : Storage) : Type 0 where
  pub memory : S.State
  pub gcs_create : List ℕ → List ℕ → Result S.State
  pub local_open : FilePath → Result S.State
  pub gcs_delete : List ℕ → List ℕ → Result (Unit {0})
  pub gcs_exists : List ℕ → List ℕ → Bool
  pub default_open : FilePath → OpenFlags → Code
  pub default_delete : FilePath → Bool → Code
  pub default_access : FilePath → Bool → Code × Option ℕ

-- The files that the VFS leaves to the default one.
unfoldable pub is_foreign : FilePath → OpenFlags → Bool
unfolding is_gcs is_journal
is_foreign path flags = not (is_gcs path) && not (is_journal flags) && not flags.main_db

module _ (meta : MetadataBlock) (S : Storage) (env : Backends S) where
  abbrev to_option {ℓ} : {A : Type ℓ} → Result A → Option A
  to_option (ok a) = some a
  to_option (err _) = none

  abbrev create_named : Option (List ℕ × List ℕ) → Option S.State
  create_named none = none
  create_named (some (bucket, object)) = to_option (env.gcs_create bucket object)

  -- The storage of a path; `none` if it cannot be had.
  unfoldable pub make_storage : FilePath → OpenFlags → Option S.State
  unfolding is_gcs is_journal gcs_name
  make_storage path flags =
      if is_journal flags
      then some env.memory
      else if is_gcs path
      then create_named (gcs_name path)
      else to_option (env.local_open path)

  abbrev pub Opened : Type 0
  Opened = Code × Option (AppendOnlyFile meta S) × World

  abbrev pub register : FilePath → World → Result (Unit {0}) × MapperOf S → Opened
  register path w (err _, m) = (cantopen, none, w)
  register path w (ok _, m) = (
    sqlite_ok,
    some (record { mapper = some m; path = path }),
    record w { open_files = insert path w.open_files },
  )

  -- The mapper over the storage, and its recovery.
  unfoldable pub open_mapper : FilePath → World → Option S.State → Opened
  unfolding insert
  open_mapper path w none = (cantopen, none, w)
  open_mapper path w (some s) =
      register path w (init meta S (record { storage = s; table = fresh }))

  unfoldable pub open_own : FilePath → OpenFlags → World → Opened
  unfolding make_storage open_mapper contains
  open_own path flags w =
      if contains path w.open_files
      then (busy, none, w)
      else let w' : World =
          (if is_journal flags
            then record w { journal_paths = insert path w.journal_paths }
            else w) in
        open_mapper path w' (make_storage path flags)

  unfoldable pub x_open : OpenFlags → Option FilePath → World → Opened
  unfolding open_own is_foreign
  x_open flags name w = if flags.wal then (cantopen, none, w) else elim name [
    | none ↦ (cantopen, none, w)
    | some path ↦
        if is_foreign path flags
        then (env.default_open path flags, none, w)
        else open_own path flags w
  ]

  unfoldable pub x_close : AppendOnlyFile meta S → World → Code × World
  unfolding erase
  x_close file w = (sqlite_ok, record w { open_files = erase file.path w.open_files })

  abbrev delete_code : Result (Unit {0}) → Code
  delete_code (ok _) = sqlite_ok
  delete_code (err Status.Code.not_found) = sqlite_ok
  delete_code (err _) = ioerr_delete

  abbrev delete_named : Option (List ℕ × List ℕ) → Code
  delete_named none = ioerr_delete
  delete_named (some (bucket, object)) = delete_code (env.gcs_delete bucket object)

  unfoldable pub x_delete : Option FilePath → Bool → World → Code × World
  unfolding contains erase is_gcs gcs_name
  x_delete none sync_dir w = (ioerr_delete, w)
  x_delete (some path) sync_dir w =
      if contains path w.journal_paths
      then (sqlite_ok, record w { journal_paths = erase path w.journal_paths })
      else if is_gcs path
      then (delete_named (gcs_name path), w)
      else (env.default_delete path sync_dir, w)

  -- `exists` says that `flags` is SQLITE_ACCESS_EXISTS.
  abbrev access_named : Bool → Option (List ℕ × List ℕ) → ℕ
  access_named exists none = 0
  access_named true (some (bucket, object)) = if env.gcs_exists bucket object then 1 else 0
  access_named false (some (bucket, object)) = 1

  -- The answer goes through `pResOut`.
  unfoldable pub x_access : Option FilePath → Bool → World → Code × Option ℕ
  unfolding contains is_gcs gcs_name
  x_access none exists w = (sqlite_ok, some 0)
  x_access (some path) exists w =
      if contains path w.journal_paths
      then (sqlite_ok, some 1)
      else if is_gcs path
      then (sqlite_ok, some (access_named exists (gcs_name path)))
      else env.default_access path exists
