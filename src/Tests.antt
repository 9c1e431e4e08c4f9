-- ===== src/Tests.antt =====
-- The properties at concrete inputs: a mapper over the in-memory storage, with metadata that holds
-- the eight bytes of the size.
pub mod Files
pub mod Compactions
pub mod Commands
pub mod Objects
pub mod Logs
pub mod Transactions
pub mod Reopenings
pub mod Fuzzing
use sqlite_on_gcs_rapid.Base.{
  ℕ, ◌%◌, ◌-◌, length-append, ◌/◌, ltb, if◌then◌else◌, replicate, get_or, slice, take, drop, ◌≡◌,
  refl, sym, ap, ◌∙◌, List, [], ◌∷◌, ◌++◌, append-nil, none, some, true, false, pos, negsuc, length,
  length-replicate, get_or-replicate, subst, arith,
}
use sqlite_on_gcs_rapid.Status.Returns.{Returns}
use sqlite_on_gcs_rapid.Status.{ok, err, ◌>>=◌, ◌>>◌}
use sqlite_on_gcs_rapid.Storage.Memory.{
  InMemoryStorage, empty, memory_storage, Holds, memory-IsLawful,
}
use sqlite_on_gcs_rapid.Record.{
  encode_int64, decode_int64, encode_record, le_bytes, of_le_bytes, to_bits, of_bits,
}
use sqlite_on_gcs_rapid.Record.Codec.{
  length-encode_int64, length-encode_record, decode_int64-encode_int64,
}
use sqlite_on_gcs_rapid.Table
use sqlite_on_gcs_rapid.Table.{
  ceil_blocks, MetadataBlock, Table, fresh, find_pending, find_record, mapped_at, truncate_payload,
  truncate_table,
}
use sqlite_on_gcs_rapid.View.{stored, or_zeros, block_at, file_byte, file_bytes, IsValid, At}
use sqlite_on_gcs_rapid.Mapper.{Mapper, read, write, sync}
use sqlite_on_gcs_rapid.Mapper.Reads.{Fault, read_lem}
use sqlite_on_gcs_rapid.Mapper.Writes.{Stopped}
use sqlite_on_gcs_rapid.Mapper.Truncates.{cut_record, file_byte-truncate_table}
use sqlite_on_gcs_rapid.Mapper.Syncs.{Flushed, Unflushed, Within, sync_lem}
use sqlite_on_gcs_rapid.Recovery.{
  RecoveredRecord, apply_record, next_applied, init, decode_record, decode_good, recovered_table,
  mark, apply_records, applied_flags, parse_metadata, or_corrupt,
}
use sqlite_on_gcs_rapid.Recovery.Metadata.{IsFaithful, parse_metadata-encode_record}
use sqlite_on_gcs_rapid.Recovery.Scans.{Scans, recovered_table-Within}
use sqlite_on_gcs_rapid.Recovery.Replay.{apply_all}
use sqlite_on_gcs_rapid.Recovery.Inits.{init_lem}
use sqlite_on_gcs_rapid.Recovery.Paddings.{padding_of, Unopened, padded_init_lem}
use sqlite_on_gcs_rapid.Recovery.Orphans.{
  recovered_table-Uncommitted, recovered_table-revived, recovered_table-aborted,
}
use sqlite_on_gcs_rapid.Durability.{Durable}
use sqlite_on_gcs_rapid.Durability.Restart.{Reopened, recovered_table-Durable, init-Reopened}
use sqlite_on_gcs_rapid.Durability.Steps.{Wrote, write-Wrote}
use sqlite_on_gcs_rapid.Session.{
  Call, writes, truncates, syncs, AllInBounds, file_after, total_after, logged_total, run,
}
use sqlite_on_gcs_rapid.Session.Refinement.{Represents, Restarts, run-Represents, restart-run}
use sqlite_on_gcs_rapid.Gcs.Status.{k_unavailable, fine, fault, convert_status}
use sqlite_on_gcs_rapid.Gcs.{Cloud, GcsRapidStorage}
use sqlite_on_gcs_rapid.Gcs
use sqlite_on_gcs_rapid.Gcs.Writes.{pread-append}
use sqlite_on_gcs_rapid.Compactor.{OutputStream, write_compacted_records}
use sqlite_on_gcs_rapid.Compactor.Outputs.{
  IsStream, Reached, CutShort, compacted, write_compacted_records_lem,
}
use sqlite_on_gcs_rapid.Vfs.Registry.{World, Backends, x_open}
use sqlite_on_gcs_rapid.Vfs.Registry.Exclusive.{
  Tracked, held, Reachable-Tracked, start, step, opens,
}
use sqlite_on_gcs_rapid.Vfs.{sqlite_ok, OpenFlags, x_read}
use sqlite_on_gcs_rapid.Vfs.Reads.{Answer, x_read-Answer}

abbrev pub plain : MetadataBlock
plain = record {
  serialize = λ z. some (encode_int64 z);
  parse = λ bs. some (some (decode_int64 bs));
}

pub plain-IsFaithful : IsFaithful plain
plain-IsFaithful = record {
  text = λ n. encode_int64 (pos n);
  serialize_lem = λ n h. refl;
  fits = λ n h. omega (arith, length-encode_int64 (pos n));
  parse_lem = λ n h.
      ap (λ bs. some (some (decode_int64 bs))) (sym (append-nil (encode_int64 (pos n))))
      ∙ ap (λ z. some (some z)) (decode_int64-encode_int64 (pos n) [] (omega arith));
}

-- A mapper that has just opened an empty object.
abbrev pub opened : Table
opened = recovered_table [] fresh

abbrev pub opened_mapper : Mapper InMemoryStorage
opened_mapper = record { storage = empty; table = opened }

pub empty-Holds : Holds empty []
empty-Holds = record { contents = refl; counted = refl }

opened-Durable : Durable plain [] opened 0
unfolding recovered_table apply_records
opened-Durable = recovered_table-Durable plain [] [] tt refl tt

opened-IsValid : IsValid [] opened
unfolding recovered_table apply_records
opened-IsValid = record { inited = refl; full = tt; within = recovered_table-Within plain [] [] tt }

opened-shows : (j : ℕ) → file_byte [] opened j ≡ 0
unfolding recovered_table apply_records file_byte block_at find_pending find_record mapped_at
    or_zeros stored get_or replicate
opened-shows j = get_or-replicate {A = ℕ} 4096 0 (j % 4096)

opened-sized : opened.logical_size ≡ 0
unfolding recovered_table apply_records
opened-sized = refl

-- A mapper that `Init` of an empty object gives.
pub opened-Represents :
    {State : Type 0} {H : State → List ℕ → Type 0} (m : Mapper State)
    → At H [] opened m
    → Represents H plain (λ _. 0) 0 0 m
opened-Represents m a = record {
  bytes_held = [];
  holds = a.holds;
  valid = subst (IsValid []) (sym a.same) opened-IsValid;
  durable = subst (λ t. Durable plain [] t 0) (sym a.same) opened-Durable;
  shows = λ j. ap (λ t. file_byte [] t j) a.same ∙ opened-shows j;
  sized = ap Table.logical_size a.same ∙ opened-sized;
}

pub opened_mapper-Represents : Represents Holds plain (λ _. 0) 0 0 opened_mapper
opened_mapper-Represents =
    opened-Represents opened_mapper (record { holds = empty-Holds; same = refl })

-- A mapper with one pending block, of sevens.
abbrev pub sevens : Table
sevens = record {
  logical_to_physical = [];
  pending_records = record { block_index = pos 0; payload = replicate 4096 7 } ∷ [];
  logical_size = 4096;
  initialized = true;
}

abbrev pub sevens_mapper : Mapper InMemoryStorage
sevens_mapper = record { storage = empty; table = sevens }

pub sevens-IsValid : IsValid [] sevens
unfolding recovered_table apply_records
sevens-IsValid = record {
  inited = refl;
  full = (length-replicate {A = ℕ} 4096 7, tt);
  within = recovered_table-Within plain [] [] tt;
}

pub sevens-At : At Holds [] sevens sevens_mapper
sevens-At = record { holds = empty-Holds; same = refl }

abbrev pub calls : List Call
calls = writes (1 ∷ 2 ∷ 3 ∷ []) 5 ∷ syncs ∷ truncates 4097 ∷ writes (9 ∷ []) 4096 ∷ []

pub calls-AllInBounds : AllInBounds calls
calls-AllInBounds = (omega arith, (tt, (omega arith, (omega arith, tt))))

restart-run_example :
    Returns
      (λ _ m'.
        Restarts memory-IsLawful plain-IsFaithful
          (file_after calls (λ _. 0))
          (logged_total calls 0)
          m'
        × (ceil_blocks (logged_total calls 0) ≡ ceil_blocks (total_after calls 0)))
      (λ _. ⊥)
      ((run plain memory_storage calls >> sync memory_storage) opened_mapper)
restart-run_example =
    restart-run memory-IsLawful plain-IsFaithful calls (λ _. 0) 0 0 opened_mapper calls-AllInBounds
      opened_mapper-Represents

run-Represents_example :
    Returns
      (λ _ m'.
        Represents Holds plain
          (file_after calls (λ _. 0))
          (total_after calls 0)
          (logged_total calls 0)
          m')
      (λ _. ⊥)
      (run plain memory_storage calls opened_mapper)
run-Represents_example =
    run-Represents memory-IsLawful plain-IsFaithful calls (λ _. 0) 0 0 opened_mapper
      calls-AllInBounds opened_mapper-Represents

read_lem_example :
    Returns
      (λ d m'. (d ≡ file_bytes [] sevens 4094 5) × At Holds [] sevens m')
      (Fault memory-IsLawful [] sevens)
      (read memory_storage 5 (pos 4094) sevens_mapper)
read_lem_example = read_lem memory-IsLawful 5 4094 sevens-IsValid sevens-At (omega arith)

write-Wrote_example :
    Returns
      (λ _ m'. Wrote plain Holds [] opened (1 ∷ 2 ∷ []) 4095 0 m')
      (Stopped memory-IsLawful (1 ∷ 2 ∷ []) 4095 [] opened.logical_size)
      (write memory_storage (1 ∷ 2 ∷ []) (pos 4095) opened_mapper)
write-Wrote_example =
    write-Wrote plain memory-IsLawful (1 ∷ 2 ∷ []) 4095 opened-IsValid opened-Durable
      (record { holds = empty-Holds; same = refl }) (omega arith) (omega arith)

sync_lem_example :
    Returns
      (λ _ m'. Flushed memory-IsLawful [] sevens m')
      (Unflushed memory-IsLawful [] sevens)
      (sync memory_storage sevens_mapper)
sync_lem_example = sync_lem memory-IsLawful sevens-IsValid sevens-At
