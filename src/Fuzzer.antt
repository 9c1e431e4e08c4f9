-- ===== src/Fuzzer.antt =====
-- log_format_fuzzer.cc: `LLVMFuzzerTestOneInput`, which opens a log of any bytes and calls the mapper
-- with arguments out of the same bytes. The system calls are parameters.
pub mod Sound
pub mod Driver
pub mod Driven
pub mod Mutations
use sqlite_on_gcs_rapid.Base.{
  ℕ, ◌+◌, ◌-◌, ◌%◌, min, List, [], ◌∷◌, ◌++◌, Option, none, some, pos, ltb, leb, if◌then◌else◌,
  length, slice, replicate,
}
use sqlite_on_gcs_rapid.Status.{Result, ok, err}
use sqlite_on_gcs_rapid.Record.{decode_int64, of_le_bytes}
use sqlite_on_gcs_rapid.Table.{MetadataBlock, fresh}
use sqlite_on_gcs_rapid.Mapper.{MapperOf}
use sqlite_on_gcs_rapid.Recovery.{init}
use sqlite_on_gcs_rapid.Session.Requests.{AnyCall, reads, writes, truncates, serve_all}
use sqlite_on_gcs_rapid.Posix.{Posix, Called, OpenMode, write_all}
use sqlite_on_gcs_rapid.Local.{open_local, local_storage}
use sqlite_on_gcs_rapid.Vfs.{FilePath}

-- The calls on temporary files. `State` is all that they work on; `files` is what opening a file
-- gives then.
pub record FuzzHost (P : Posix) : Type 1 where
  pub State : Type 0
  pub mkstemp : State → Option (FilePath × P.State) × State
  pub close : P.State → State → State
  pub files : State → FilePath → OpenMode → Called P.Errno P.State
  pub unlink : FilePath → State → State

-- A `uint32_t` in the command bytes.
unfoldable pub u32_at : ℕ → List ℕ → ℕ
unfolding of_le_bytes
u32_at k cmd_data = of_le_bytes (slice k 4 cmd_data)

-- The call of `Read`, unless the length is 0.
unfoldable pub read_command : List ℕ → List AnyCall
unfolding u32_at
read_command cmd_data =
    let read_len = u32_at 8 cmd_data in
    if ltb 0 read_len then reads (read_len % 1048576) (decode_int64 cmd_data) ∷ [] else []

-- The call of `Write` with zeros, unless the length is 0.
unfoldable pub write_command : List ℕ → List AnyCall
unfolding u32_at
write_command cmd_data =
    let write_len = u32_at 20 cmd_data in
    if ltb 0 write_len
    then writes (replicate (write_len % 1048576) 0) (decode_int64 (slice 12 8 cmd_data)) ∷ []
    else []

-- The calls that the 32 command bytes say.
unfoldable pub commands : List ℕ → List AnyCall
unfolding read_command write_command
commands cmd_data =
    read_command cmd_data
    ++ (write_command cmd_data ++ truncates (decode_int64 (slice 24 8 cmd_data)) ∷ [])

-- The calls where the input is too short for command bytes.
unfoldable pub fallback : ℕ → List AnyCall
fallback logical_size =
    (if ltb 0 logical_size then reads (min 4096 logical_size) (pos 0) ∷ [] else [])
    ++ writes (replicate 100 0) (pos 0) ∷ []

module _ (meta : MetadataBlock) {P : Posix} (H : FuzzHost P) where
  -- After an `Init` that succeeded.
  unfoldable pub exercise : List ℕ → MapperOf (local_storage P) → MapperOf (local_storage P)
  unfolding commands fallback
  exercise input m =
      if leb 32 (length input)
      then serve_all meta (local_storage P) (commands (slice (length input - 32) 32 input)) m
      else serve_all meta (local_storage P) (fallback m.logical_size) m

  abbrev pub driven :
      List ℕ → Result (Unit {0}) × MapperOf (local_storage P) → MapperOf (local_storage P)
  driven input (err _, m) = m
  driven input (ok _, m) = exercise input m

  -- The result, the mapper at the end if there is one, and the host.
  pub record Ended : Type 0 where
    pub code : ℕ
    pub mapper : Option (MapperOf (local_storage P))
    pub host : H.State

  -- The destructors, and the end of the function.
  abbrev pub cleaned : FilePath → MapperOf (local_storage P) → H.State → Ended
  cleaned path m h = record {
    code = 0;
    mapper = some m;
    host = H.unlink path (H.close m.storage h);
  }

  abbrev pub tested : List ℕ → FilePath → Result P.State → H.State → Ended
  tested input path (err _) h = record { code = 0; mapper = none; host = H.unlink path h }
  tested input path (ok s) h =
      cleaned path
        (driven input (init meta (local_storage P) (record { storage = s; table = fresh }))) h

  -- After the loop that writes the input.
  abbrev pub input_written : List ℕ → FilePath → Result (Unit {0}) × P.State → H.State → Ended
  input_written input path (err _, fd) h = record {
    code = 0;
    mapper = none;
    host = H.unlink path (H.close fd h);
  }
  input_written input path (ok _, fd) h =
      let h' = H.close fd h in
      tested input path (open_local (record P { open_file = H.files h' }) path) h'

  abbrev pub with_temp_file : List ℕ → Option (FilePath × P.State) × H.State → Ended
  with_temp_file input (none, h) = record { code = 0; mapper = none; host = h }
  with_temp_file input (some (path, fd), h) = input_written input path (write_all P input fd) h

  unfoldable pub test_one_input : List ℕ → H.State → Ended
  unfolding exercise
  test_one_input input h = with_temp_file input (H.mkstemp h)
