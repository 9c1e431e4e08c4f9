-- ===== src/Table.antt =====
-- block_mapper.h: the fields of `BlockMapper`, and the parts of block_mapper.cc that work on them
-- alone.
use sqlite_on_gcs_rapid.Base.{
  ℕ, zero, suc, ◌+◌, ◌-◌, ◌/◌, List, [], ◌∷◌, ◌++◌, reverse, Option, none, some, Bool, true, false,
  ◌||◌, ℤ, pos, negsuc, ltb, ◌==ℤ◌, ltb_ℤ, if◌then◌else◌, length, get_or, replicate,
}
use sqlite_on_gcs_rapid.Record.{max_size, encode_int64}

-- What the class that is generated from metadata.proto does: a parameter of the model. `serialize z` is the text of a block
-- with `new_size` set to `z`; `parse` gives the optional field.
pub record MetadataBlock : Type 0 where
  pub serialize : ℤ → Option (List ℕ)
  pub parse : List ℕ → Option (Option ℤ)

pub record PendingRecord : Type 0 where
  pub block_index : ℤ
  pub payload : List ℕ

-- The fields of a `BlockMapper` but its storage. In `logical_to_physical`, -1 is `none`: the offsets
-- stored there are at least 8. `logical_size` is never negative.
pub record Table : Type 0 where
  pub logical_to_physical : List (Option ℕ)
  pub pending_records : List PendingRecord
  pub logical_size : ℕ
  pub initialized : Bool

-- The constructor's state.
abbrev pub fresh : Table
fresh = record {
  logical_to_physical = [];
  pending_records = [];
  logical_size = 0;
  initialized = false;
}

-- `std::vector::resize(n, -1)`
unfoldable pub resize : ℕ → List (Option ℕ) → List (Option ℕ)
resize zero l = []
resize (suc n) [] = none ∷ resize n []
resize (suc n) (p ∷ l) = p ∷ resize n l

unfoldable pub assign : ℕ → Option ℕ → List (Option ℕ) → List (Option ℕ)
assign i p [] = []
assign zero p (q ∷ l) = p ∷ l
assign (suc i) p (q ∷ l) = q ∷ assign i p l

-- The growth of `logical_to_physical_` to hold block `b`, and the assignment of its offset.
unfoldable pub put_mapping : ℕ → ℕ → List (Option ℕ) → List (Option ℕ)
unfolding resize assign
put_mapping b p l = assign b (some p) (if ltb b (length l) then l else resize (b + 1) l)

-- The offset of block `b`; `none` if it is out of range or -1.
unfoldable pub mapped_at : List (Option ℕ) → ℕ → Option ℕ
mapped_at l b = get_or l b none

-- The first record of the list for a block; the callers go through `pending_records_` backwards.
unfoldable pub find_record : ℤ → List PendingRecord → Option (List ℕ)
find_record b [] = none
find_record b (r ∷ rs) = if r.block_index ==ℤ b then some r.payload else find_record b rs

unfoldable pub find_pending : ℤ → Table → Option (List ℕ)
unfolding find_record
find_pending b t = find_record b (reverse t.pending_records)

unfoldable pub is_block_mapped : Table → ℤ → Bool
unfolding find_pending mapped_at
is_block_mapped t z = elim (find_pending z t) [
  | some _ ↦ true
  | none ↦ elim z [
    | negsuc _ ↦ false
    | pos b ↦ elim (mapped_at t.logical_to_physical b) [ none ↦ false | some _ ↦ true ]
  ]
]

-- `std::remove_if` of the records of blocks from `ceil_blocks` on.
unfoldable pub prune : ℕ → List PendingRecord → List PendingRecord
prune c [] = []
prune c (r ∷ rs) = let rest = prune c rs in if ltb_ℤ r.block_index (pos c) then r ∷ rest else rest

abbrev pub ceil_blocks : ℕ → ℕ
ceil_blocks size = (size + 4095) / 4096

abbrev pub push_pending : PendingRecord → Table → Table
push_pending r t = record t { pending_records = t.pending_records ++ r ∷ [] }

-- The payload of a truncation record.
unfoldable pub truncate_payload : List ℕ → List ℕ
truncate_payload text =
    encode_int64 (pos (length text)) ++ (text ++ replicate (4088 - length text) 0)

-- The table after a truncation to `new_size`, whose record is `r`.
unfoldable pub truncate_table : ℕ → PendingRecord → Table → Table
unfolding prune resize
truncate_table new_size r t = record t {
  pending_records = prune (ceil_blocks new_size) (t.pending_records ++ r ∷ []);
  logical_size = new_size;
  logical_to_physical = resize (ceil_blocks new_size) t.logical_to_physical;
}

-- The guard of `Read` and `Write`.
unfoldable pub out_of_bounds : ℕ → ℕ → Bool
out_of_bounds size off = ltb max_size off || ltb (max_size - off) size
