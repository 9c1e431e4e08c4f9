-- ===== src/Lib.antt =====
-- sqlite-on-gcs-rapid: a SQLite VFS that keeps a database in an append-only object. SQLite calls the
-- VFS (vfs_backend.cc). An open file is a BlockMapper (block_mapper.h, block_mapper.cc), which shows
-- a random-access file over a log of 4105-byte records in an AppendOnlyStorage (storage.h): a local
-- file (local_storage.cc), an object of Cloud Storage (gcs_storage.cc), or memory for the rollback
-- journals. Writes and truncations become pending records in memory, `Sync` appends them to the log as
-- one transaction, and `Init` replays the log at the next start. The compactor (compactor.cc) rewrites
-- the log of an object, and sqlite_log_tool (import_export.cc) copies between a log and a raw file.
--
-- Files:
--   Base: the library's names that all files share, Boolean tests, lists over the native numbers.
--   Status: absl::Status, and actions whose methods may fail. The object's state stays beside an error.
--     Status/Returns says what an action returns and what it leaves when it fails.
--   Storage: the interface AppendOnlyStorage as a record of operations, and IsLawful, the contract that
--     its users rely on. A failed append may leave a part of its bytes. Storage/Memory is the class
--     InMemoryStorage of vfs_backend.cc, Storage/Either a pointer to one of two classes.
--   Record: the record format, with the int64_t in two's complement. Record/Codec has its round trips.
--   Table: the fields of BlockMapper but its storage, and what its methods do to them alone.
--   Mapper: the methods Read, Write, Truncate and Sync as the functions read, write, truncate and sync.
--     The children are about one of them each.
--   View: the logical file as a function of the position, over the storage's bytes and the table.
--   Recovery: Init. Its children are about the scan, the backward pass (Flags, Orphans), the forward
--     pass (Replay), the metadata of truncations, and Init as a whole (Inits, Paddings for
--     a log that ends within a record, Fills for both cases, and Bounds and Inputs for any
--     bytes).
--   Durability: the invariant between what the mapper shows and what the recovery rebuilds. Crashes and
--     Aborts are about a Sync that stops within what it appends.
--   Session: sequences of calls against a file that is a function of the position, with its size in the
--     mapper and its size in the log. Unsynced is about the calls before a Sync, Transactions about what
--     a crash or a failure of it leaves, Starts about a new file, Requests about calls with any arguments.
--   Posix: the system calls on a descriptor, and the loop around write. Posix/Laws says what is assumed
--     of them.
--   Local: local_storage.cc, over Posix.
--   ImportExport: import_export.cc, ImportLog and ExportLog, over Posix and any storage.
--   Vfs: the file methods xRead, xWrite, xTruncate, xSync, xFileSize and the constant ones. Vfs/Registry
--     has xOpen, xClose, xDelete and xAccess with the global sets of open files and journals.
--     Vfs/Registry/Exclusive counts the open files of a path. Vfs/Reads is about xRead, Vfs/Calls
--     about sequences of calls on a file, Vfs/Reopens about a file that is closed and opened again,
--     Vfs/Journals about the journals. Vfs/Setup has xFullPathname, RegisterAppendOnlyVfs and the
--     entry point of extension.cc. Backends has the answers of the code behind the VFS to one call:
--     in a history (Exclusive, Journals) each call has its own.
--   Gcs: gcs_storage.cc, the object of Cloud Storage: Create, Append, Sync, PRead, GetSize and the
--     destructor over the client library, the parameter Cloud. Gcs/Status is ConvertStatus, Gcs/Reads
--     is about the attempts of PRead and says what is assumed of the client, whose descriptors may be
--     stale, Gcs/Lawful is about the class as a storage, Gcs/Crashes about a process that dies and the next one.
--   Compactor: WriteCompactedRecords of compactor.cc, over any output stream. Compactor/Object is
--     CompactGcsObject. Outputs is about what is written, Commits and Recovered about its recovery.
--   Tools: the names of objects, sqlite_log_tool_main.cc (LogTool) and compactor_main.cc
--     (CompactorMain).
--   Fuzzer: log_format_fuzzer.cc, LLVMFuzzerTestOneInput as test_one_input. Fuzzer/Driver is
--     log_format_fuzzer_main.cc: Mutate, LoadFile and the loop of main. Sound, Driven and Mutations are
--     about them.
--   Tests: the properties at concrete inputs.
--
-- Numbers: sizes and offsets are natural numbers where the code has refused negative ones, and
-- integers before. The guards keep sizes at or below 1000000 blocks of 4096 bytes, so that no
-- int64_t overflows; the wrap-around is written out where a block index is encoded.
-- Loops: ReadLocked takes at least one byte in each round, so `remaining_size` rounds are enough, and
-- so for ExportLog. The loops around write, pread and read take at least one byte in a round, or end,
-- or are interrupted by a signal: as many rounds as bytes and interruptions are enough, and one more
-- where the end is seen by an empty answer. PRead of the Cloud Storage object makes 15 attempts at
-- most, as the code does: they are enough for fourteen stale descriptors in a row. The loop of the
-- fuzzer's main ends by the clock alone, so its rounds are an argument. The other loops go over lists
-- or a number of blocks that is known before.
--
-- Parameters: the class MetadataBlock that is generated from metadata.proto (Recovery/Metadata names
-- what is assumed of it), the storage under a mapper, the system calls, with the number of
-- interruptions that are still to come (Posix/Laws), the client library of Cloud Storage (Gcs/Reads,
-- and Compactor/Object/Compacts for the compactor, name what is assumed of it), the output stream
-- (Compactor/Outputs), the default VFS and the factories of the storages, and for the fuzzers the calls
-- on temporary files, the random numbers and the clock.
-- Not modelled: mutexes (each call is one step, xOpen too, so that the race between its test of
-- g_open_files and the insertion is not met), log output, error messages, pauses, close, the methods of
-- the VFS that only call the default one.
pub mod Base
pub mod Status
pub mod Storage
pub mod Record
pub mod Table
pub mod Mapper
pub mod Recovery
pub mod View
pub mod Durability
pub mod Session
pub mod Posix
pub mod Local
pub mod ImportExport
pub mod Tools
pub mod Gcs
pub mod Fuzzer
pub mod Compactor
pub mod Vfs
pub mod Tests
