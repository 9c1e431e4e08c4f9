-- ===== src/Mapper/Truncates.antt =====
-- `Truncate`, and the logical file after it.
use sqlite_on_gcs_rapid.Base.{
  ℕ, ◌/◌, ◌%◌, ◌≤◌, ◌≡◌, refl, ap, ◌∙◌, List, [], ◌∷◌, ◌++◌, true, none, pos, negsuc, ltb,
  if◌then◌else◌, if-not, le→ltb, length, get_or, get_or-replicate, arith,
}
use sqlite_on_gcs_rapid.Status.{ok}
use sqlite_on_gcs_rapid.Storage.{Storage}
use sqlite_on_gcs_rapid.Record.{max_size}
use sqlite_on_gcs_rapid.Table.{
  MetadataBlock, PendingRecord, Table, ceil_blocks, truncate_payload, truncate_table,
}
use sqlite_on_gcs_rapid.View.{stored, block_at, or_zeros, file_byte, IsValid}
use sqlite_on_gcs_rapid.View.Lookup.{
  last_record, find_pending-eq-last_record, last_record-append, last_record-prune, mapped_at-resize,
  AllFull-append, AllFull-prune,
}
use sqlite_on_gcs_rapid.Recovery.Metadata.{IsFaithful, length-truncate_payload}
use sqlite_on_gcs_rapid.Mapper.{MapperOf, truncate}

-- The record of a truncation whose metadata has this text.
abbrev pub cut_record : List ℕ → PendingRecord
cut_record text = record { block_index = negsuc 0; payload = truncate_payload text }

stored-none : (bs : List ℕ) → stored bs none ≡ none
unfolding stored
stored-none bs = refl

-- The blocks from `ceil_blocks n` on are gone, the others are as before.
pub block_at-truncate_table :
    (bs : List ℕ) (t : Table) (n : ℕ) (text : List ℕ) (b : ℕ)
    → block_at bs (truncate_table n (cut_record text) t) b
      ≡ (if ltb b (ceil_blocks n) then block_at bs t b else none)
unfolding block_at truncate_table last_record
block_at-truncate_table bs t n text b = ground (
  arith,
  find_pending-eq-last_record (pos b) t,
  find_pending-eq-last_record (pos b) (truncate_table n (cut_record text) t),
  last_record-prune b (ceil_blocks n) (t.pending_records ++ cut_record text ∷ []),
  last_record-append (pos b) t.pending_records (cut_record text ∷ []),
  mapped_at-resize (ceil_blocks n) t.logical_to_physical b,
  stored-none bs,
)

-- After a truncation to `n`, the logical file has its old bytes in the blocks up to the one that
-- holds the new end, also behind that end, and zeros in all others, whether they were in pending
-- records or in the storage.
pub file_byte-truncate_table :
    (bs : List ℕ) (t : Table) (n : ℕ) (text : List ℕ) (j : ℕ)
    → file_byte bs (truncate_table n (cut_record text) t) j
      ≡ (if ltb (j / 4096) (ceil_blocks n) then file_byte bs t j else 0)
unfolding file_byte or_zeros
file_byte-truncate_table bs t n text j =
    ap (λ o. get_or (or_zeros o) (j % 4096) 0) (block_at-truncate_table bs t n text (j / 4096))
    ∙ ground (arith, get_or-replicate {A = ℕ} 4096 0 (j % 4096))

pub truncate_table-IsValid :
    {bs : List ℕ} {t : Table} (n : ℕ) (text : List ℕ)
    → length text ≤ 4088
    → IsValid bs t
    → IsValid bs (truncate_table n (cut_record text) t)
unfolding truncate_table
truncate_table-IsValid {bs} {t} n text h v = record {
  inited = v.inited;
  full = AllFull-prune (ceil_blocks n) (t.pending_records ++ cut_record text ∷ []) (
      AllFull-append t.pending_records (cut_record text ∷ []) v.full
        (length-truncate_payload text h, tt));
  within = λ b p e.
      ground (arith, mapped_at-resize (ceil_blocks n) t.logical_to_physical b, v.within b p);
}

-- `Truncate` within the bounds succeeds, and touches no storage.
pub truncate_lem :
    {meta : MetadataBlock} (faithful : IsFaithful meta) (S : Storage) (n : ℕ) (m : MapperOf S)
    → n ≤ max_size
    → m.table.initialized ≡ true
    → truncate meta S (pos n) m
      ≡ (ok tt, record m { table = truncate_table n (cut_record (faithful.text n)) m.table })
unfolding truncate
truncate_lem faithful S n m h i = rw (
  le→ltb max_size n h,
  if-not _ _ m.initialized i,
  faithful.serialize_lem n h,
  le→ltb 4088 (length (faithful.text n)) (faithful.fits n h),
)
