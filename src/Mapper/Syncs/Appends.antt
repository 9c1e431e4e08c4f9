-- ===== src/Mapper/Syncs/Appends.antt =====
-- One more record at the end of the storage, and its offset in the table.
use sqlite_on_gcs_rapid.Base.{
  ℕ, ◌+◌, ◌≤◌, ◌≡◌, refl, ap, ◌∙◌, List, [], ◌∷◌, ◌++◌, Option, none, some, ℤ, pos, negsuc, ◌==◌,
  ◌==ℤ◌, if◌then◌else◌, length, slice, length-append, slice-append_left, slice-append_right,
  Bool-cases, inl, inr, arith,
}
use sqlite_on_gcs_rapid.Record.Codec.{length-encode_record, payload-encode_record}
use sqlite_on_gcs_rapid.Table.{PendingRecord, Table, mapped_at, put_mapping}
use sqlite_on_gcs_rapid.View.{stored, or_else}
use sqlite_on_gcs_rapid.View.Lookup.{mapped_at-put_mapping}
use sqlite_on_gcs_rapid.Mapper.{sync_record, note_offset}

-- The bytes that `Sync` appends for the pending records.
unfoldable pub encode_all : List PendingRecord → List ℕ
encode_all [] = []
encode_all (r ∷ rs) = sync_record r rs ++ encode_all rs

pub length-sync_record :
    (r : PendingRecord) (rs : List PendingRecord)
    → length r.payload ≡ 4096
    → length (sync_record r rs) ≡ 4105
unfolding sync_record
length-sync_record r [] h = length-encode_record r.block_index r.payload 1 h
length-sync_record r (x ∷ rs) h = length-encode_record r.block_index r.payload 2 h

pub payload-sync_record :
    (r : PendingRecord) (rs : List PendingRecord)
    → length r.payload ≡ 4096
    → slice 8 4096 (sync_record r rs) ≡ r.payload
unfolding sync_record
payload-sync_record r [] h = payload-encode_record r.block_index r.payload 1 h
payload-sync_record r (x ∷ rs) h = payload-encode_record r.block_index r.payload 2 h

-- The offsets of a mapping lie within the storage.
abbrev pub Within : List ℕ → List (Option ℕ) → Type 0
Within bs l = (b p : ℕ) → mapped_at l b ≡ some p → p + 4096 ≤ length bs

-- More bytes at the end of the storage do not show.
pub stored-append :
    (bs more : List ℕ) (q : Option ℕ)
    → ((p : ℕ) → q ≡ some p → p + 4096 ≤ length bs)
    → stored (bs ++ more) q ≡ stored bs q
unfolding stored
stored-append bs more none h = refl
stored-append bs more (some p) h = ap some (slice-append_left p 4096 bs more (h p refl))

pub Within-append : (bs more : List ℕ) (l : List (Option ℕ)) → Within bs l → Within (bs ++ more) l
Within-append bs more l w b p e = omega (arith, w b p e, length-append bs more)

-- One record at the end of the storage, and its offset in the mapping.
module _ (bs : List ℕ) (l : List (Option ℕ)) (w : Within bs l) (record_bytes : List ℕ)
    (whole : length record_bytes ≡ 4105) where
  Within-put_mapping : (c : ℕ) → Within (bs ++ record_bytes) (put_mapping c (length bs + 8) l)
  Within-put_mapping c b p e =
      ground
        (arith, mapped_at-put_mapping c (length bs + 8) l b, w b p, length-append bs record_bytes)

  stored-put_mapping :
      (c : ℕ) (d : List ℕ)
      → slice 8 4096 record_bytes ≡ d
      → (b : ℕ)
      → stored (bs ++ record_bytes) (mapped_at (put_mapping c (length bs + 8) l) b)
        ≡ (if c == b then some d else stored bs (mapped_at l b))
  unfolding stored
  stored-put_mapping c d e b = elim (Bool-cases (c == b)) [
    | inl h ↦
        ap (stored (bs ++ record_bytes)) (mapped_at-put_mapping c (length bs + 8) l b)
        ∙ rw h (ap some (slice-append_right 8 4096 bs record_bytes ∙ e))
    | inr h ↦
        ap (stored (bs ++ record_bytes)) (mapped_at-put_mapping c (length bs + 8) l b)
        ∙ rw h (stored-append bs record_bytes (mapped_at l b) (w b))
  ]

module _ (bs : List ℕ) (t : Table) (w : Within bs t.logical_to_physical) (record_bytes : List ℕ)
    (whole : length record_bytes ≡ 4105) where
  pub Within-note_offset :
      (z : ℤ) → Within (bs ++ record_bytes) (note_offset z (length bs) t).logical_to_physical
  unfolding note_offset
  Within-note_offset (negsuc _) = Within-append bs record_bytes t.logical_to_physical w
  Within-note_offset (pos c) = Within-put_mapping bs t.logical_to_physical w record_bytes whole c

  pub stored-note_offset :
      (z : ℤ) (d : List ℕ)
      → slice 8 4096 record_bytes ≡ d
      → (b : ℕ)
      → stored (bs ++ record_bytes) (mapped_at (note_offset z (length bs) t).logical_to_physical b)
        ≡ or_else
            (if z ==ℤ pos b then some d else none)
            (stored bs (mapped_at t.logical_to_physical b))
  unfolding note_offset
  stored-note_offset (negsuc _) d e b =
      stored-append bs record_bytes (mapped_at t.logical_to_physical b) (w b)
  stored-note_offset (pos c) d e b =
      stored-put_mapping bs t.logical_to_physical w record_bytes whole c d e b ∙ ground arith

-- The fields that the loop of `Sync` leaves alone.
pub record SameRest (t u : Table) : Type 0 where
  pub pending : u.pending_records ≡ t.pending_records
  pub sized : u.logical_size ≡ t.logical_size
  pub inited : u.initialized ≡ t.initialized

pub note_offset-SameRest :
    (z : ℤ) (off : ℕ) (t u : Table) → SameRest (note_offset z off t) u → SameRest t u
unfolding note_offset
note_offset-SameRest (pos c) off t u h = record {
  pending = h.pending;
  sized = h.sized;
  inited = h.inited;
}
note_offset-SameRest (negsuc c) off t u h = h
