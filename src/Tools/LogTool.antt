-- ===== src/Tools/LogTool.antt =====
-- sqlite_log_tool_main.cc: the commands `import` and `export` on a log that is a local file or an
-- object of Cloud Storage.
pub mod RoundTrip
use sqlite_on_gcs_rapid.Base.{ℕ, List, [], ◌∷◌, Option, none, some, Bool, if◌then◌else◌}
use sqlite_on_gcs_rapid.Status.{Result, ok, err}
use sqlite_on_gcs_rapid.Storage.{Storage}
use sqlite_on_gcs_rapid.Storage.Either.{EitherStorage, either_storage}
use sqlite_on_gcs_rapid.Storage.Either
use sqlite_on_gcs_rapid.Table.{MetadataBlock}
use sqlite_on_gcs_rapid.Mapper.{MapperOf}
use sqlite_on_gcs_rapid.Gcs.Status.{Answered, fine, fault, k_not_found, convert_status}
use sqlite_on_gcs_rapid.Posix.{Posix, Called, returned, failed, OpenMode}
use sqlite_on_gcs_rapid.Local.{open_local, local_storage}
use sqlite_on_gcs_rapid.ImportExport.{export_log, import_log}
use sqlite_on_gcs_rapid.Vfs.{FilePath, same_path}
use sqlite_on_gcs_rapid.Tools.{parse_gcs_path, exit_code}

-- What the tool works on: the objects of Cloud Storage, as storages of the class `G`, and the files.
-- `files` is what opening a file gives.
pub record Host (G : Storage) (P : Posix) : Type 1 where
  pub World : Type 0
  pub delete_object : List ℕ → List ℕ → World → Answered (Unit {0}) × World
  pub unlink : FilePath → World → Called P.Errno (Unit {0}) × World
  pub is_enoent : P.Errno → Bool
  pub gcs_create : List ℕ → List ℕ → World → Result G.State × World
  pub files : World → FilePath → OpenMode → Called P.Errno P.State

abbrev pub import_word : List ℕ
import_word = b'i' ∷ b'm' ∷ b'p' ∷ b'o' ∷ b'r' ∷ b't' ∷ []

abbrev pub export_word : List ℕ
export_word = b'e' ∷ b'x' ∷ b'p' ∷ b'o' ∷ b'r' ∷ b't' ∷ []

module _ (meta : MetadataBlock) {G : Storage} {P : Posix} (H : Host G P) where
  abbrev pub AnyStorage : Storage
  AnyStorage = either_storage G (local_storage P)

  -- The system calls in this world.
  abbrev pub system : H.World → Posix
  system w = record P { open_file = H.files w }

  abbrev deleted : Answered (Unit {0}) × H.World → Result (Unit {0}) × H.World
  deleted (fine _, w) = (ok tt, w)
  deleted (fault k_not_found, w) = (ok tt, w)
  deleted (fault k, w) = (err (convert_status k), w)

  abbrev unlinked : Called P.Errno (Unit {0}) × H.World → Result (Unit {0}) × H.World
  unlinked (returned _, w) = (ok tt, w)
  unlinked (failed e, w) = ((if H.is_enoent e then ok tt else err (P.errno_to_status e)), w)

  -- The codes of the two libraries have the same values.
  unfoldable pub delete_storage_path : FilePath → H.World → Result (Unit {0}) × H.World
  unfolding parse_gcs_path convert_status
  delete_storage_path path w = elim (parse_gcs_path path) [
    | some (bucket, object) ↦ deleted (H.delete_object bucket object w)
    | none ↦ unlinked (H.unlink path w)
  ]

  abbrev created : Result G.State × H.World → Result (EitherStorage G (local_storage P)) × H.World
  created (ok s, w) = (ok (Either.first s), w)
  created (err e, w) = (err e, w)

  abbrev opened : Result P.State → H.World → Result (EitherStorage G (local_storage P)) × H.World
  opened (ok s) w = (ok (Either.second s), w)
  opened (err e) w = (err e, w)

  unfoldable pub open_storage_path :
      FilePath → H.World → Result (EitherStorage G (local_storage P)) × H.World
  unfolding parse_gcs_path open_local
  open_storage_path path w = elim (parse_gcs_path path) [
    | some (bucket, object) ↦ created (H.gcs_create bucket object w)
    | none ↦ opened (open_local (system w) path) w
  ]

  -- The exit code, the world, and the mapper and raw file of the last command, if it came to them.
  abbrev pub Exit : Type 0
  Exit = ℕ × H.World × Option (MapperOf AnyStorage × Option P.State)

  abbrev pub exits : H.World → Result (Unit {0}) × (MapperOf AnyStorage × Option P.State) → Exit
  exits w (r, q) = (exit_code r, w, some q)

  abbrev pub importing : FilePath → Result (EitherStorage G (local_storage P)) × H.World → Exit
  importing raw (err e, w) = (1, w, none)
  importing raw (ok s, w) = exits w (import_log meta AnyStorage (system w) raw s)

  abbrev pub exporting : FilePath → Result (EitherStorage G (local_storage P)) × H.World → Exit
  exporting raw (err e, w) = (1, w, none)
  exporting raw (ok s, w) = exits w (export_log meta AnyStorage (system w) s raw)

  -- The log is deleted first; a failure of this is only printed.
  unfoldable pub import_command : FilePath → FilePath → H.World → Exit
  unfolding delete_storage_path open_storage_path
  import_command raw log w = importing raw (open_storage_path log (delete_storage_path log w).1)

  unfoldable pub export_command : FilePath → FilePath → H.World → Exit
  unfolding open_storage_path
  export_command log raw w = exporting raw (open_storage_path log w)

  -- `main`, by `argv` with the name of the program first.
  unfoldable pub log_tool : List (List ℕ) → H.World → Exit
  unfolding import_command export_command same_path
  log_tool (prog ∷ (mode ∷ (a ∷ (b ∷ [])))) w =
      if same_path mode import_word
      then import_command a b w
      else if same_path mode export_word
      then export_command a b w
      else (1, w, none)
  log_tool _ w = (1, w, none)
