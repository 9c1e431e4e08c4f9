-- ===== src/Tests/Logs.antt =====
-- The properties of the record format, the recovery, the compaction and the registry at concrete
-- inputs.
use sqlite_on_gcs_rapid.Base.{
  ℕ, ◌%◌, ◌-◌, length-append, ◌/◌, ltb, if◌then◌else◌, replicate, get_or, slice, take, drop, ◌≡◌,
  refl, sym, ap, ◌∙◌, List, [], ◌∷◌, ◌++◌, none, some, true, false, pos, negsuc, length,
  length-replicate, arith,
}
use sqlite_on_gcs_rapid.Status.Returns.{Returns}
use sqlite_on_gcs_rapid.Status.{ok, err, ◌>>=◌}
use sqlite_on_gcs_rapid.Status as AbslStatus
use sqlite_on_gcs_rapid.Storage.Memory.{
  InMemoryStorage, empty, memory_storage, Holds, memory-IsLawful,
}
use sqlite_on_gcs_rapid.Record.{
  encode_int64, decode_int64, encode_record, le_bytes, of_le_bytes, to_bits, of_bits,
}
use sqlite_on_gcs_rapid.Record.Codec.{length-encode_record, decode_int64-encode_int64}
use sqlite_on_gcs_rapid.Table.{ceil_blocks, fresh, truncate_payload, truncate_table}
use sqlite_on_gcs_rapid.View.{file_byte, At}
use sqlite_on_gcs_rapid.Mapper.Reads.{Fault}
use sqlite_on_gcs_rapid.Mapper.Truncates.{cut_record, file_byte-truncate_table}
use sqlite_on_gcs_rapid.Recovery.{
  RecoveredRecord, apply_record, next_applied, init, decode_record, decode_good, recovered_table,
  mark, apply_records, applied_flags, parse_metadata, or_corrupt,
}
use sqlite_on_gcs_rapid.Recovery.Metadata.{parse_metadata-encode_record}
use sqlite_on_gcs_rapid.Recovery.Scans.{Scans}
use sqlite_on_gcs_rapid.Recovery.Replay.{apply_all}
use sqlite_on_gcs_rapid.Recovery.Paddings.{padding_of, Unopened, padded_init_lem}
use sqlite_on_gcs_rapid.Recovery.Orphans.{recovered_table-revived, recovered_table-aborted}
use sqlite_on_gcs_rapid.Durability.{Durable}
use sqlite_on_gcs_rapid.Durability.Restart.{Reopened, recovered_table-Durable, init-Reopened}
use sqlite_on_gcs_rapid.Gcs.Status.{k_unavailable, fine, fault}
use sqlite_on_gcs_rapid.Gcs.{Cloud, GcsRapidStorage}
use sqlite_on_gcs_rapid.Gcs
use sqlite_on_gcs_rapid.Gcs.Writes.{pread-append}
use sqlite_on_gcs_rapid.Compactor.{OutputStream, write_compacted_records}
use sqlite_on_gcs_rapid.Compactor.Outputs.{
  IsStream, Reached, CutShort, compacted, write_compacted_records_lem,
}
use sqlite_on_gcs_rapid.Vfs.Registry.{World, Backends, x_open}
use sqlite_on_gcs_rapid.Vfs.Registry.Exclusive.{
  Tracked, held, Reachable-Tracked, start, step, opens,
}
use sqlite_on_gcs_rapid.Vfs.{sqlite_ok, OpenFlags, x_read}
use sqlite_on_gcs_rapid.Vfs.Reads.{Answer, x_read-Answer}
use sqlite_on_gcs_rapid.Tests.{plain, empty-Holds, sevens, sevens_mapper, sevens-IsValid, sevens-At}

-- A record of a write of block `b` in the state `g`.
abbrev block_record : ℕ → ℕ → ℕ → RecoveredRecord
block_record off b g = record { offset = off; block_index = pos b; is_good = g; new_size = none }

abbrev pub one_commit : List RecoveredRecord
one_commit = block_record 0 0 1 ∷ []

abbrev torn : List RecoveredRecord
torn = block_record 4105 1 2 ∷ []

abbrev padding_record : RecoveredRecord
padding_record = block_record 8210 0 0

abbrev one_more : List RecoveredRecord
one_more = block_record 12315 2 1 ∷ []

recovered_table-revived_example :
    recovered_table (one_commit ++ (torn ++ one_more)) fresh
    ≡ mark (
        apply_all one_more
          (apply_all torn (apply_records one_commit (applied_flags one_commit) fresh)))
recovered_table-revived_example =
    recovered_table-revived one_commit torn (block_record 12315 2 1) [] fresh
      (λ e. omega (arith, e)) (refl, tt) refl

recovered_table-aborted_example :
    recovered_table ((one_commit ++ (torn ++ padding_record ∷ [])) ++ one_more) fresh
    ≡ mark (apply_all one_more (apply_records one_commit (applied_flags one_commit) fresh))
recovered_table-aborted_example =
    recovered_table-aborted padding_record refl one_commit torn one_more fresh
      (λ e. omega (arith, e)) (refl, tt) refl

-- One committed record on the storage.
abbrev pub one_record : List ℕ
one_record = encode_record (pos 0) (replicate 4096 7) 1

one_record-Scans : Scans plain one_record 0 one_commit
unfolding encode_record encode_int64 decode_int64 decode_record decode_good le_bytes of_le_bytes
    to_bits of_bits get_or replicate slice take drop
one_record-Scans = (omega arith, refl, tt)

x_read-Answer_example :
    Answer ⊥ [] sevens 4094 5
      (x_read plain memory_storage
        (record { mapper = some sevens_mapper; path = [] })
        5
        (pos 4094)).0
x_read-Answer_example =
    x_read-Answer plain memory-IsLawful sevens_mapper [] [] 4094 5 empty-Holds sevens-IsValid
      (omega arith)

decode_int64-encode_int64_example : decode_int64 (encode_int64 (negsuc 6) ++ 9 ∷ []) ≡ negsuc 6
decode_int64-encode_int64_example = decode_int64-encode_int64 (negsuc 6) (9 ∷ []) (omega arith)

parse_metadata-encode_record_example :
    parse_metadata plain (encode_record (negsuc 0) (truncate_payload (8 ∷ [])) 1)
    ≡ or_corrupt (plain.parse (8 ∷ []))
parse_metadata-encode_record_example =
    parse_metadata-encode_record (negsuc 0) (8 ∷ []) 1 (omega arith) plain

abbrev pub one_record_storage : InMemoryStorage
one_record_storage = record { data_ = one_record; size_ = 4105 }

length-one_record : length one_record ≡ 4105
length-one_record =
    length-encode_record (pos 0) (replicate 4096 7) 1 (length-replicate {A = ℕ} 4096 7)

pub one_record-Holds : Holds one_record_storage one_record
one_record-Holds = record { contents = refl; counted = sym length-one_record }

pub one_record-Durable :
    Durable plain one_record
      (recovered_table one_commit fresh)
      (recovered_table one_commit fresh).logical_size
one_record-Durable =
    recovered_table-Durable plain one_record one_commit one_record-Scans length-one_record
      (λ e. omega (arith, e))

pub nothing_pending : (recovered_table one_commit fresh).pending_records ≡ []
unfolding recovered_table apply_records applied_flags next_applied apply_record
nothing_pending = refl

init-Reopened_example :
    Returns
      (λ _ m'.
        Reopened Holds plain one_record
          (recovered_table one_commit fresh)
          (recovered_table one_commit fresh).logical_size
          m')
      (Fault memory-IsLawful one_record fresh)
      (init plain memory_storage (record { storage = one_record_storage; table = fresh }))
init-Reopened_example =
    init-Reopened memory-IsLawful plain one_record-Durable nothing_pending one_record_storage
      one_record-Holds

file_byte-truncate_table_example :
    file_byte [] (truncate_table 3 (cut_record (9 ∷ [])) sevens) 5
    ≡ (if ltb (5 / 4096) (ceil_blocks 3) then file_byte [] sevens 5 else 0)
file_byte-truncate_table_example = file_byte-truncate_table [] sevens 3 (9 ∷ []) 5

-- A Cloud Storage that answers no call but the metadata's, and a stream that takes everything.
abbrev broken_cloud : Cloud
broken_cloud = record {
  State = List ℕ;
  Metadata = ℕ;
  Descriptor = ℕ;
  get_metadata = fine 0;
  size = λ n. n;
  resume_upload = λ _. fault k_unavailable;
  start_upload = fault k_unavailable;
  persisted = λ _. none;
  open_object = λ c. (fault k_unavailable, c);
  described_size = λ n. some n;
  read_range = λ _ _ _ c. (fault k_unavailable ∷ [], c);
  write = λ _ c. (fault k_unavailable, c);
  flush = λ c. (fine tt, c);
  close = λ c. c;
}

abbrev buffered : GcsRapidStorage broken_cloud
buffered = record {
  cloud = [];
  descriptor_ = none;
  initial_offset_ = 10;
  file_length_ = 12;
  buffer_ = 7 ∷ 8 ∷ [];
}

pread-append_example :
    (Gcs.append broken_cloud (5 ∷ 6 ∷ []) >>= λ o. Gcs.pread broken_cloud 2 (pos o)) buffered
    ≡ (ok (5 ∷ 6 ∷ []), (Gcs.append broken_cloud (5 ∷ 6 ∷ []) buffered).1)
pread-append_example = pread-append broken_cloud (5 ∷ 6 ∷ []) buffered (omega arith)

abbrev pub list_stream : OutputStream
list_stream = record { State = List ℕ; write = λ d o. o ++ d; good = λ _. true }

pub list_stream-IsStream : IsStream list_stream (λ o out. o ≡ out) ⊥
list_stream-IsStream = record {
  write_lem = λ d h. ap (λ o. o ++ d) h;
  bad_lem = λ h e. absurd (cc);
}

write_compacted_records_lem_example :
    Returns
      (λ _ p'.
        Reached memory-IsLawful list_stream-IsStream sevens-IsValid
          ([] ++ compacted [] sevens (ceil_blocks 4096) 0)
          p')
      (λ p'.
        CutShort memory-IsLawful list_stream-IsStream sevens-IsValid []
          (compacted [] sevens (ceil_blocks 4096) 0)
          p')
      (write_compacted_records memory_storage list_stream (sevens_mapper, []))
write_compacted_records_lem_example =
    write_compacted_records_lem memory-IsLawful list_stream-IsStream sevens-IsValid
      (sevens_mapper, []) [] (omega arith) (sevens-At, refl, refl)

abbrev pub backends : Backends memory_storage
backends = record {
  memory = empty;
  gcs_create = λ _ _. ok empty;
  local_open = λ _. ok empty;
  gcs_delete = λ _ _. ok tt;
  gcs_exists = λ _ _. true;
  default_open = λ _ _. sqlite_ok;
  default_delete = λ _ _. sqlite_ok;
  default_access = λ _ _. (sqlite_ok, some 0);
}

-- Storages that cannot be had.
abbrev refusing : Backends memory_storage
refusing = record backends {
  gcs_create = λ _ _. err AbslStatus.Code.internal;
  local_open = λ _. err AbslStatus.Code.internal;
}

abbrev pub database : OpenFlags
database = record {
  wal = false;
  main_db = true;
  main_journal = false;
  temp_journal = false;
  subjournal = false;
  super_journal = false;
}

abbrev nothing_open : World
nothing_open = record { open_files = []; journal_paths = [] }

-- A second `xOpen` of the path, now with other answers, does not add a file.
Reachable-Tracked_example : Tracked plain memory_storage (
    held plain memory_storage refusing
      (x_open plain memory_storage refusing database
        (some (b'/' ∷ []))
        (held plain memory_storage backends
          (x_open plain memory_storage backends database (some (b'/' ∷ [])) nothing_open)
          []).0)
      (held plain memory_storage backends
        (x_open plain memory_storage backends database (some (b'/' ∷ [])) nothing_open)
        []).1)
Reachable-Tracked_example = Reachable-Tracked plain memory_storage (
    step (step start (opens backends database (some (b'/' ∷ []))))
      (opens refusing database (some (b'/' ∷ []))))

-- A storage that ends within its first record.
abbrev torn_bytes : List ℕ
torn_bytes = 1 ∷ []

abbrev padded_log : List RecoveredRecord
padded_log = block_record 0 0 0 ∷ []

length-padded : length (torn_bytes ++ padding_of torn_bytes) ≡ 4105
length-padded =
    length-append torn_bytes (padding_of torn_bytes)
    ∙ omega (arith, length-replicate {A = ℕ} (4105 - length torn_bytes % 4105) 0)

padded_log-Scans : Scans plain (torn_bytes ++ padding_of torn_bytes) 0 padded_log
unfolding decode_record get_or replicate slice take drop
padded_log-Scans = (omega (arith, length-padded), refl, tt)

torn_storage-Holds : Holds (record { data_ = torn_bytes; size_ = 1 }) torn_bytes
torn_storage-Holds = record { contents = refl; counted = refl }

padded_init_lem_example :
    Returns
      (λ _ m'. At Holds (torn_bytes ++ padding_of torn_bytes) (recovered_table padded_log fresh) m')
      (Unopened memory-IsLawful plain torn_bytes fresh)
      (init plain memory_storage
        (record { storage = record { data_ = torn_bytes; size_ = 1 }; table = fresh }))
padded_init_lem_example =
    padded_init_lem memory-IsLawful plain padded_log padded_log-Scans length-padded (omega arith)
      (record { holds = torn_storage-Holds; same = refl }) refl
