-- ===== src/Compactor/Object.antt =====
-- compactor.cc: `CompactGcsObject`, which replaces an object by its compacted log. The client of
-- Cloud Storage and the calls on temporary files are parameters.
pub mod Compacts
use sqlite_on_gcs_rapid.Base.{ℕ, List, Option, none, some, Bool, if◌then◌else◌}
use sqlite_on_gcs_rapid.Status.{Result, ok, err, Code}
use sqlite_on_gcs_rapid.Gcs.Status.{CloudCode, k_not_found, Answered, fine, fault, convert_status}
use sqlite_on_gcs_rapid.Table.{MetadataBlock, fresh}
use sqlite_on_gcs_rapid.Mapper.{MapperOf}
use sqlite_on_gcs_rapid.Recovery.{init}
use sqlite_on_gcs_rapid.Posix.{Posix, Called, OpenMode}
use sqlite_on_gcs_rapid.Local.{open_local, local_storage}
use sqlite_on_gcs_rapid.Compactor.{OutputStream, Compaction, write_compacted_records}
use sqlite_on_gcs_rapid.Vfs.{FilePath}

-- The client, for one bucket and object, with the temporary directory. `State` is all that it works
-- on; `files` is what opening a file gives then.
pub record Client (P : Posix) (O : OutputStream) : Type 1 where
  pub State : Type 0
  pub get_object_metadata : State → Answered ℕ
  pub mkstemp : State → Option FilePath × State
  pub download_to_file : FilePath → ℕ → State → Answered (Unit {0}) × State
  pub files : State → FilePath → OpenMode → Called P.Errno P.State
  pub remove : FilePath → State → State
  pub write_object : ℕ → State → O.State × State
  pub is_failed : O.State → Bool
  pub status : O.State → Option CloudCode
  pub close : O.State → State → Answered (Unit {0}) × State
  pub destroy : O.State → State → State

-- `ConvertStatus` of a status that may be OK.
abbrev pub converted : Option CloudCode → Result (Unit {0})
converted none = ok tt
converted (some k) = err (convert_status k)

-- The code for an object without metadata.
unfoldable pub metadata_code : CloudCode → Code
unfolding convert_status
metadata_code k_not_found = Code.not_found
metadata_code k = convert_status k

module _ (meta : MetadataBlock) {P : Posix} {O : OutputStream} (C : Client P O) where
  abbrev pub Outcome : Type 0
  Outcome = Result (Unit {0}) × C.State

  -- The end of the upload.
  abbrev pub closed : Answered (Unit {0}) × C.State → Outcome
  closed (fine _, c) = (ok tt, c)
  closed (fault k, c) = (err (convert_status k), c)

  -- After `WriteCompactedRecords`. A return before `Close` destroys the stream.
  abbrev pub finish_upload : C.State → Result (Unit {0}) × Compaction (local_storage P) O → Outcome
  finish_upload c (err e, p) = (err e, C.destroy p.1 c)
  finish_upload c (ok _, p) = closed (C.close p.1 c)

  abbrev pub upload : MapperOf (local_storage P) → O.State × C.State → Outcome
  upload m (o, c) =
      if C.is_failed o
      then (converted (C.status o), C.destroy o c)
      else finish_upload c (write_compacted_records (local_storage P) O (m, o))

  -- After `Init`.
  abbrev pub initialised : ℕ → C.State → Result (Unit {0}) × MapperOf (local_storage P) → Outcome
  initialised generation c (err e, m) = (err e, c)
  initialised generation c (ok _, m) = upload m (C.write_object generation c)

  abbrev pub opened : ℕ → C.State → Result P.State → Outcome
  opened generation c (err e) = (err e, c)
  opened generation c (ok s) =
      initialised generation c (init meta (local_storage P) (record { storage = s; table = fresh }))

  -- After the download, which leaves the file to be opened.
  abbrev pub downloaded : ℕ → FilePath → Answered (Unit {0}) × C.State → Outcome
  downloaded generation path (fault k, c) = (err (convert_status k), c)
  downloaded generation path (fine _, c) =
      opened generation c (open_local (record P { open_file = C.files c }) path)

  -- `TempFileGuard`
  abbrev pub guarded : FilePath → Outcome → Outcome
  guarded path (r, c) = (r, C.remove path c)

  abbrev pub with_temp : ℕ → Option FilePath × C.State → Outcome
  with_temp generation (none, c) = (err Code.internal, c)
  with_temp generation (some path, c) =
      guarded path (downloaded generation path (C.download_to_file path generation c))

  abbrev pub with_metadata : Answered ℕ → C.State → Outcome
  with_metadata (fault k) c = (err (metadata_code k), c)
  with_metadata (fine generation) c = with_temp generation (C.mkstemp c)

  unfoldable pub compact_gcs_object : C.State → Outcome
  unfolding metadata_code
  compact_gcs_object c = with_metadata (C.get_object_metadata c) c
