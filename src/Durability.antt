-- ===== src/Durability.antt =====
-- Crash safety: what a mapper shows is what the recovery rebuilds from the storage and the pending
-- records.
pub mod Appended
pub mod Crashes
pub mod Aborts
pub mod Restart
pub mod Steps
use sqlite_on_gcs_rapid.Base.{
  ℕ, ◌+◌, ◌*◌, ◌≤◌, ◌<◌, ◌≡◌, List, [], ◌∷◌, Option, none, some, ℤ, pos, negsuc, length,
}
use sqlite_on_gcs_rapid.Status.{ok}
use sqlite_on_gcs_rapid.Record.{max_blocks, max_size, encode_record}
use sqlite_on_gcs_rapid.Table.{MetadataBlock, PendingRecord, Table, mapped_at, ceil_blocks, fresh}
use sqlite_on_gcs_rapid.View.{stored, block_at}
use sqlite_on_gcs_rapid.Recovery.{
  RecoveredRecord, parse_metadata, applied_flags, apply_records, recovered_table,
}
use sqlite_on_gcs_rapid.Recovery.Scans.{Scans}
use sqlite_on_gcs_rapid.Recovery.Replay.{Event, put, cut, replay, replay_size}
use sqlite_on_gcs_rapid.Recovery.Flags.{Closed}

module _ (meta : MetadataBlock) where
  -- A pending record says what the event says, and the recovery accepts it.
  abbrev pub Represents : PendingRecord → Event → Type 0
  Represents r (put c d) =
      (r.block_index ≡ pos c) × (r.payload ≡ d) × (c < max_blocks) × (length r.payload ≡ 4096)
  Represents r (cut n) =
      (r.block_index ≡ negsuc 0)
      × ((s : ℕ) → parse_metadata meta (encode_record (negsuc 0) r.payload s) ≡ ok (some n))
      × (length r.payload ≡ 4096)

  abbrev pub AllRepresent : List PendingRecord → List Event → Type 0
  AllRepresent [] [] = Unit {0}
  AllRepresent [] (e ∷ es) = ⊥
  AllRepresent (r ∷ rs) [] = ⊥
  AllRepresent (r ∷ rs) (e ∷ es) = Represents r e × AllRepresent rs es

  -- The storage is a closed log of whole records. Replaying the pending records on what it holds
  -- gives the file that the table shows, and the size `l`, which
  -- has as many blocks.
  pub record Durable (bs : List ℕ) (t : Table) (l : ℕ) : Type 0 where
    pub log : List RecoveredRecord
    pub scanned : Scans meta bs 0 log
    pub all_bytes : length bs ≡ length log * 4105
    pub closed : Closed log
    pub events : List Event
    pub represented : AllRepresent t.pending_records events
    pub agree :
        (b : ℕ)
        → block_at bs t b
          ≡ replay b events
              (stored bs (mapped_at (recovered_table log fresh).logical_to_physical b))
    pub logged : replay_size events (recovered_table log fresh).logical_size ≡ l
    pub sizes : ceil_blocks t.logical_size ≡ ceil_blocks l
