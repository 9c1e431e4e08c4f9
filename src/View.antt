-- ===== src/View.antt =====
-- What a client of a `BlockMapper` sees: the logical file as a function of the position, over the
-- bytes of the storage and the table in memory.
pub mod Lookup
use sqlite_on_gcs_rapid.Base.{
  ℕ, ◌+◌, ◌/◌, ◌%◌, ◌≤◌, ◌≡◌, List, Option, none, some, Bool, true, ℤ, pos, length, get_or, slice,
  replicate, tabulate,
}
use sqlite_on_gcs_rapid.Storage.{Storage}
use sqlite_on_gcs_rapid.Table.{PendingRecord, Table, find_pending, mapped_at}
use sqlite_on_gcs_rapid.Mapper.{Mapper}

-- The block at an offset of the storage.
unfoldable pub stored : List ℕ → Option ℕ → Option (List ℕ)
stored bs none = none
stored bs (some p) = some (slice p 4096 bs)

abbrev pub or_else : Option (List ℕ) → Option (List ℕ) → Option (List ℕ)
or_else (some d) e = some d
or_else none e = e

-- Block `b` of the logical file, if anything is written there: a pending record's payload, or the
-- block that the mapping points at.
unfoldable pub block_at : List ℕ → Table → ℕ → Option (List ℕ)
unfolding stored
block_at bs t b = or_else (find_pending (pos b) t) (stored bs (mapped_at t.logical_to_physical b))

unfoldable pub or_zeros : Option (List ℕ) → List ℕ
or_zeros none = replicate 4096 0
or_zeros (some d) = d

-- The byte at position `j` of the logical file.
unfoldable pub file_byte : List ℕ → Table → ℕ → ℕ
unfolding block_at or_zeros
file_byte bs t j = get_or (or_zeros (block_at bs t (j / 4096))) (j % 4096) 0

-- The `n` bytes from position `off` on.
abbrev pub file_bytes : List ℕ → Table → ℕ → ℕ → List ℕ
file_bytes bs t off n = tabulate (file_byte bs t) off n

abbrev pub AllFull : List PendingRecord → Type 0
AllFull List.[] = Unit {0}
AllFull (List.◌∷◌ r rs) = (length r.payload ≡ 4096) × AllFull rs

-- The table is initialized, its payloads are whole blocks, and its offsets lie within the storage.
pub record IsValid (bs : List ℕ) (t : Table) : Type 0 where
  pub inited : t.initialized ≡ true
  pub full : AllFull t.pending_records
  pub within : (b p : ℕ) → mapped_at t.logical_to_physical b ≡ some p → p + 4096 ≤ length bs

-- A mapper whose storage holds `bs` and whose table is `t`.
pub record At {State : Type 0} (Holds : State → List ℕ → Type 0) (bs : List ℕ) (t : Table)
    (m : Mapper State) : Type 0 where
  pub holds : Holds m.storage bs
  pub same : m.table ≡ t
