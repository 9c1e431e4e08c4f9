-- ===== src/Vfs/Reopens.antt =====
-- A file that SQLite synchronises, closes and opens again.
use sqlite_on_gcs_rapid.Base.{
  ℕ, ◌≡◌, refl, ap, ◌∙◌, List, [], ◌∷◌, none, some, Bool, true, false, eq→==, Option-cases, inl,
  inr, if◌then◌else◌,
}
use sqlite_on_gcs_rapid.Status.{Result, ok, err}
use sqlite_on_gcs_rapid.Status.Returns.{Returns, done, failed}
use sqlite_on_gcs_rapid.Storage.{Storage, IsLawful}
use sqlite_on_gcs_rapid.Table.{MetadataBlock, fresh}
use sqlite_on_gcs_rapid.Mapper.{MapperOf, sync}
use sqlite_on_gcs_rapid.Recovery.{init}
use sqlite_on_gcs_rapid.Recovery.Metadata.{IsFaithful}
use sqlite_on_gcs_rapid.Session.{
  Call, writes, truncates, syncs, AllInBounds, file_after, total_after, logged_total,
}
use sqlite_on_gcs_rapid.Session.Refinement.{Represents, Restarts, sync-Restarts}
use sqlite_on_gcs_rapid.Vfs.{
  Code, sqlite_ok, cantopen, ioerr_dirty, FilePath, same_path, contains, insert, erase, OpenFlags,
  is_journal, AppendOnlyFile, keep, code_of, x_write, x_truncate, x_sync,
}
use sqlite_on_gcs_rapid.Vfs.Calls.{
  vfs_call, vfs_calls, on_ok, ShowsFile, Answers, on_ok-Answers, vfs_calls-Answers, Visible,
  shows-Visible,
}
use sqlite_on_gcs_rapid.Vfs.Registry.{
  World, Backends, is_foreign, make_storage, Opened, register, open_mapper, open_own, x_open,
  x_close,
}
use sqlite_on_gcs_rapid.Vfs.Registry.Exclusive.{contains-insert, contains-erase}

pub same_path_refl : (p : FilePath) → same_path p p ≡ true
unfolding same_path
same_path_refl [] = refl
same_path_refl (a ∷ p) = rw (eq→== a a refl) (same_path_refl p)

-- A path that is erased is not there.
pub contains-erase_same : (p : FilePath) (l : List FilePath) → contains p (erase p l) ≡ false
contains-erase_same p l = contains-erase p p l ∙ rw (same_path_refl p) refl

module _ (meta : MetadataBlock) (S : Storage) where
  -- The calls, and then `xSync`.
  unfoldable pub calls_then_sync : List Call → AppendOnlyFile meta S → Code × AppendOnlyFile meta S
  unfolding vfs_calls
  calls_then_sync cs file = on_ok meta S (x_sync meta S) (vfs_calls meta S cs file)

  -- No call changes the path.
  path-vfs_call :
      (c : Call) (file : AppendOnlyFile meta S) → (vfs_call meta S c file).1.path ≡ file.path
  unfolding vfs_call x_write x_truncate x_sync
  path-vfs_call (writes buf off) file = elim (Option-cases file.mapper) [
    | inl e ↦ rw e refl
    | inr e ↦ rw e.1 refl
  ]
  path-vfs_call (truncates n) file = elim (Option-cases file.mapper) [
    | inl e ↦ rw e refl
    | inr e ↦ rw e.1 refl
  ]
  path-vfs_call syncs file = elim (Option-cases file.mapper) [
    | inl e ↦ rw e refl
    | inr e ↦ rw e.1 refl
  ]

  path-on_ok :
      (next : AppendOnlyFile meta S → Code × AppendOnlyFile meta S) (p : FilePath)
      → ((file : AppendOnlyFile meta S) → (next file).1.path ≡ file.path)
      → (r : Code × AppendOnlyFile meta S) → r.1.path ≡ p
      → (on_ok meta S next r).1.path ≡ p
  path-on_ok next p h (sqlite_ok, file) e = h file ∙ e
  path-on_ok next p h (_, file) e = e

  path-vfs_calls :
      (cs : List Call) (file : AppendOnlyFile meta S)
      → (vfs_calls meta S cs file).1.path ≡ file.path
  unfolding vfs_calls
  path-vfs_calls [] file = refl
  path-vfs_calls (c ∷ cs) file =
      path-on_ok (vfs_calls meta S cs) file.path (path-vfs_calls cs) (vfs_call meta S c file)
        (path-vfs_call c file)

  path-calls_then_sync :
      (cs : List Call) (file : AppendOnlyFile meta S) → (calls_then_sync cs file).1.path ≡ file.path
  unfolding calls_then_sync vfs_call
  path-calls_then_sync cs file =
      path-on_ok (x_sync meta S) file.path (path-vfs_call syncs) (vfs_calls meta S cs file)
        (path-vfs_calls cs file)

module _ {S : Storage} {Holds : S.State → List ℕ → Type 0} {F : Type 0}
    (lawful : IsLawful S Holds F) {meta : MetadataBlock} (faithful : IsFaithful meta) where
  -- The answer of `xOpen`: SQLITE_OK, a file that meets `Q`, and its path among the open ones, or
  -- SQLITE_CANTOPEN and the fault.
  abbrev pub OpensAs :
      (env : Backends S) → FilePath → (AppendOnlyFile meta S → Type 0) → Opened meta S env → Type 0
  OpensAs env path Q (sqlite_ok, some file, w) =
      (file.path ≡ path) × (contains path w.open_files ≡ true) × Q file
  OpensAs env path Q (cantopen, none, w) = F
  OpensAs env path Q (_, _, w) = ⊥

  module _ (env : Backends S) (path : FilePath) (f : ℕ → ℕ) (l : ℕ) where
    register-OpensAs :
        (w : World) (r : Result (Unit {0}) × MapperOf S)
        → contains path w.open_files ≡ false
        → Returns (λ _ m. Represents Holds meta f l l m) (λ _. F) r
        → OpensAs env path (Visible lawful faithful f l) (register meta S env path w r)
    register-OpensAs w (ok u, m) h (done x) = (
      refl,
      contains-insert path path w.open_files h ∙ rw (same_path_refl path) refl,
      shows-Visible lawful faithful f l l (record { mapper = some m; path = path }) (m, refl, x),
    )
    register-OpensAs w (err c, m) h (failed x) = x

    -- `xOpen` of a file that is not open, over a storage from which `Init` recovers the file.
    pub x_open-OpensAs :
        (flags : OpenFlags) (w : World) (s : S.State)
        → flags.wal ≡ false
        → is_foreign path flags ≡ false
        → contains path w.open_files ≡ false
        → make_storage meta S env path flags ≡ some s
        → Returns
            (λ _ m. Represents Holds meta f l l m)
            (λ _. F)
            (init meta S (record { storage = s; table = fresh }))
        → OpensAs env path (Visible lawful faithful f l) (x_open meta S env flags (some path) w)
    unfolding x_open open_own open_mapper
    x_open-OpensAs flags w s plain own closed made r =
        rw (plain, own, closed, made) (opens (is_journal flags))
      where
        opens :
            (journal : Bool)
            → OpensAs env path (Visible lawful faithful f l) (
                register meta S env path
                  (if journal then record w { journal_paths = insert path w.journal_paths } else w)
                  (init meta S (record { storage = s; table = fresh })))
        opens true =
            register-OpensAs (record w { journal_paths = insert path w.journal_paths })
              (init meta S (record { storage = s; table = fresh })) closed r
        opens false =
            register-OpensAs w (init meta S (record { storage = s; table = fresh })) closed r

  -- What the mapper of an open file leaves in its storage.
  abbrev LeavesFile : (ℕ → ℕ) → ℕ → AppendOnlyFile meta S → Type 0
  LeavesFile f l file = (m : MapperOf S) × (file.mapper ≡ some m) × Restarts lawful faithful f l m

  code_of-LeavesFile :
      (file : AppendOnlyFile meta S) (f : ℕ → ℕ) (l : ℕ) (r : Result (Unit {0}) × MapperOf S)
      → Returns (λ _ m. Restarts lawful faithful f l m) (λ _. F) r
      → Answers lawful faithful
          (LeavesFile f l)
          (code_of meta S ioerr_dirty r.0, keep meta S file r.1)
  code_of-LeavesFile file f l (ok u, m) (done x) = (m, refl, x)
  code_of-LeavesFile file f l (err c, m) (failed x) = x

  x_sync-LeavesFile :
      (f : ℕ → ℕ) (n l : ℕ) (file : AppendOnlyFile meta S)
      → ShowsFile lawful faithful f n l file
      → Answers lawful faithful (LeavesFile f l) (x_sync meta S file)
  unfolding x_sync
  x_sync-LeavesFile f n l file s =
      rw s.1
        (code_of-LeavesFile file f l (sync S s.0) (sync-Restarts lawful faithful f n l s.0 s.2))

  module _ (env : Backends S) (flags : OpenFlags) (s : S.State) (w : World) (path : FilePath) where
    -- After `xClose`, an `xOpen` that gets a storage with the bytes of this file's shows `f`.
    pub record OpensAgain (f : ℕ → ℕ) (l : ℕ) (file : AppendOnlyFile meta S) : Type 0 where
      pub mapper : MapperOf S
      pub same_mapper : file.mapper ≡ some mapper
      pub bytes_held : List ℕ
      pub holds : Holds mapper.storage bytes_held
      pub opens :
          Holds s bytes_held
          → OpensAs env path
              (Visible lawful faithful f l)
              (x_open meta S env flags (some path) (x_close meta S env file w).1)

    module _ (plain : flags.wal ≡ false) (own : is_foreign path flags ≡ false)
        (made : make_storage meta S env path flags ≡ some s) where
      LeavesFile-OpensAgain :
          (f : ℕ → ℕ) (l : ℕ) (file : AppendOnlyFile meta S)
          → file.path ≡ path
          → LeavesFile f l file
          → OpensAgain f l file
      unfolding x_close
      LeavesFile-OpensAgain f l file e r = record {
        mapper = r.0;
        same_mapper = r.1;
        bytes_held = r.2.bytes_held;
        holds = r.2.holds;
        opens = λ h.
            x_open-OpensAs env path f l flags
              (record w { open_files = erase file.path w.open_files }) s plain own
              (ap (λ p. contains path (erase p w.open_files)) e
                ∙ contains-erase_same path w.open_files)
              made (r.2.reopens s h);
      }

      outcome-OpensAgain :
          (f : ℕ → ℕ) (l : ℕ) (r : Code × AppendOnlyFile meta S)
          → r.1.path ≡ path
          → Answers lawful faithful (LeavesFile f l) r
          → Answers lawful faithful (OpensAgain f l) r
      outcome-OpensAgain f l (sqlite_ok, file) e a = LeavesFile-OpensAgain f l file e a
      outcome-OpensAgain f l (_, file) e a = a

      -- On an open file of the VFS that shows `f` of size `n`, let SQLite call `xWrite`, `xTruncate`
      -- and `xSync` within the bounds and then `xSync`. A code other than SQLITE_OK comes only from a
      -- fault of the storage. If there is none and SQLite then closes the file, it can open the path
      -- again: `xOpen` that gets a storage with the same bytes returns SQLITE_OK, enters the path in
      -- `g_open_files`, and gives a file whose `xFileSize` and `xRead` answer as the specification says
      -- after the calls, with the size that it gives for the log. Only a fault of the storage makes it
      -- SQLITE_CANTOPEN, and never is it SQLITE_BUSY.
      pub calls_then_sync-OpensAgain :
          (cs : List Call) (f : ℕ → ℕ) (n l : ℕ) (file : AppendOnlyFile meta S)
          → file.path ≡ path
          → AllInBounds cs
          → ShowsFile lawful faithful f n l file
          → Answers lawful faithful
              (OpensAgain (file_after cs f) (logged_total cs l))
              (calls_then_sync meta S cs file)
      unfolding calls_then_sync
      calls_then_sync-OpensAgain cs f n l file e h a =
          outcome-OpensAgain (file_after cs f) (logged_total cs l) (calls_then_sync meta S cs file)
            (path-calls_then_sync meta S cs file ∙ e)
            (on_ok-Answers lawful faithful
              (ShowsFile lawful faithful (file_after cs f) (total_after cs n) (logged_total cs l))
              (LeavesFile (file_after cs f) (logged_total cs l)) (x_sync meta S)
              (x_sync-LeavesFile (file_after cs f) (total_after cs n) (logged_total cs l))
              (vfs_calls meta S cs file) (vfs_calls-Answers lawful faithful cs f n l file h a))
