-- ===== src/Mapper.antt =====
-- block_mapper.cc: the class `BlockMapper`, over any append-only storage. The mutex is not modelled:
-- each call is one step.
pub mod Reads
pub mod Writes
pub mod Syncs
pub mod Truncates
use sqlite_on_gcs_rapid.Base.{
  ℕ, zero, suc, ◌+◌, ◌-◌, ◌*◌, ◌/◌, ◌%◌, min, max, List, [], ◌∷◌, ◌++◌, Option, none, some, true,
  false, not, ℤ, pos, negsuc, ltb, ◌==◌, if◌then◌else◌, length, slice, splice, replicate,
}
use sqlite_on_gcs_rapid.Status.{
  ok, err, failed_precondition, internal, invalid_argument, Exec, pure, raise, modify, ◌>>=◌, ◌>>◌,
}
use sqlite_on_gcs_rapid.Storage.{Storage}
use sqlite_on_gcs_rapid.Record.{max_size, encode_record}
use sqlite_on_gcs_rapid.Table.{
  MetadataBlock, PendingRecord, Table, find_pending, mapped_at, put_mapping, push_pending,
  truncate_payload, truncate_table, out_of_bounds,
}

pub record Mapper (State : Type 0) : Type 0 where
  pub storage : State
  pub table : Table
  pub open table use *

-- The first position of block `b` that a write from `off` on covers, and the one after the last.
abbrev pub write_start : ℕ → ℕ → ℕ
write_start off b = max off (b * 4096)

abbrev pub write_end : ℕ → ℕ → ℕ → ℕ
write_end size off b = min (off + size) (b * 4096 + 4096)

-- The record that `Sync` appends for a pending record; the last one commits.
unfoldable pub sync_record : PendingRecord → List PendingRecord → List ℕ
unfolding encode_record
sync_record r rest = encode_record r.block_index r.payload (elim rest [ [] ↦ 1 | _ ∷ _ ↦ 2 ])

unfoldable pub note_offset : ℤ → ℕ → Table → Table
note_offset (negsuc _) off t = t
note_offset (pos b) off t = record t {
  logical_to_physical = put_mapping b (off + 8) t.logical_to_physical;
}

module _ (S : Storage) where
  abbrev pub MapperOf : Type 0
  MapperOf = Mapper S.State

  abbrev pub on_storage {ℓ} : {A : Type ℓ} → Exec S.State A → Exec MapperOf A
  on_storage f m = let (r, s) = f m.storage in (r, record m { storage = s })

  abbrev pub on_table : (Table → Table) → Exec MapperOf (Unit {0})
  on_table f = modify (λ m. record m { table = f m.table })

  -- `PRead` of `n` bytes, with the test for a short read.
  unfoldable pub pread_exactly : ℕ → ℕ → Exec MapperOf (List ℕ)
  pread_exactly n off = do
    d ← on_storage (S.pread n (pos off))
    if ltb (length d) n then raise internal else pure d

  -- A part of a block, from its pending record or else from its offset in the storage.
  unfoldable pub chunk_from : Option (List ℕ) → Option ℕ → ℕ → ℕ → Exec MapperOf (List ℕ)
  unfolding pread_exactly
  chunk_from (some payload) base block_offset n = pure (slice block_offset n payload)
  chunk_from none (some physical_base) block_offset n =
      pread_exactly n (physical_base + block_offset)
  chunk_from none none block_offset n = pure (replicate n 0)

  -- The body of the loop of `ReadLocked`: `n` bytes of block `b` from `block_offset` on.
  unfoldable pub read_chunk : ℕ → ℕ → ℕ → Exec MapperOf (List ℕ)
  unfolding chunk_from
  read_chunk b block_offset n m =
      chunk_from (find_pending (pos b) m.table) (mapped_at m.logical_to_physical b) block_offset n m

  -- The loop of `ReadLocked`. Each round takes at least one byte, so `remaining_size` rounds do.
  unfoldable pub read_loop : ℕ → ℕ → ℕ → Exec MapperOf (List ℕ)
  read_loop zero off remaining = pure []
  read_loop (suc fuel) off remaining = elim (ltb 0 remaining) [
    | false ↦ pure []
    | true ↦ do
      let n = min (4096 - off % 4096) remaining
      d ← read_chunk (off / 4096) (off % 4096) n
      rest ← read_loop fuel (off + n) (remaining - n)
      pure (d ++ rest)
  ]

  unfoldable pub read_locked : ℕ → ℤ → Exec MapperOf (List ℕ)
  unfolding read_loop
  read_locked size (negsuc _) = raise invalid_argument
  read_locked size (pos off) = if size == 0 then pure [] else read_loop size off size

  unfoldable pub read : ℕ → ℤ → Exec MapperOf (List ℕ)
  unfolding read_locked
  read size (negsuc _) m = (err invalid_argument, m)
  read size (pos off) m =
      if out_of_bounds size off
      then (err invalid_argument, m)
      else if not m.initialized
      then (err failed_precondition, m)
      else read_locked size (pos off) m

  -- What `Write` stores for block `b`: the new bytes over the old ones if they do not fill it.
  unfoldable pub block_data : List ℕ → ℕ → ℕ → Exec MapperOf (List ℕ)
  unfolding read_locked
  block_data buf off b =
      let start = b * 4096 in
      let n = write_end (length buf) off b - write_start off b in
      if ltb n 4096
      then (do
        old ← read_locked 4096 (pos start)
        pure (splice (write_start off b - start) (slice (write_start off b - off) n buf) old))
      else pure (slice (write_start off b - off) 4096 buf)

  -- The loop of `Write`, over `rounds` blocks from `b` on.
  unfoldable pub write_loop : ℕ → List ℕ → ℕ → ℕ → Exec MapperOf (Unit {0})
  unfolding block_data
  write_loop zero buf off b = pure tt
  write_loop (suc rounds) buf off b = do
    payload ← block_data buf off b
    on_table (push_pending (record { block_index = pos b; payload = payload }))
    write_loop rounds buf off (b + 1)

  unfoldable pub write : List ℕ → ℤ → Exec MapperOf (Unit {0})
  unfolding write_loop
  write buf (negsuc _) m = (err invalid_argument, m)
  write buf (pos off) m =
      let size = length buf in
      let start_block = off / 4096 in
      let end_block = (off + size - 1) / 4096 in
      if out_of_bounds size off
      then (err invalid_argument, m)
      else if not m.initialized
      then (err failed_precondition, m)
      else if size == 0
      then (ok tt, m)
      else (do
        write_loop (end_block + 1 - start_block) buf off start_block
        on_table (λ t. record t { logical_size = max t.logical_size (off + size) }))
          m

  unfoldable pub sync_loop : List PendingRecord → Exec MapperOf (Unit {0})
  unfolding sync_record note_offset
  sync_loop [] = pure tt
  sync_loop (r ∷ rest) = do
    off ← on_storage (S.append (sync_record r rest))
    on_table (note_offset r.block_index off)
    sync_loop rest

  -- `Sync` with the pending records `rs`.
  unfoldable pub flush : List PendingRecord → Exec MapperOf (Unit {0})
  unfolding sync_loop
  flush [] = on_storage S.sync
  flush (r ∷ rest) = do
    sync_loop (r ∷ rest)
    on_table (λ t. record t { pending_records = [] })
    on_storage S.sync

  unfoldable pub sync : Exec MapperOf (Unit {0})
  unfolding flush
  sync m = if not m.initialized then (err failed_precondition, m) else flush m.pending_records m

module _ (meta : MetadataBlock) (S : Storage) where
  unfoldable pub truncate : ℤ → Exec (MapperOf S) (Unit {0})
  unfolding truncate_table truncate_payload
  truncate (negsuc _) m = (err invalid_argument, m)
  truncate (pos new_size) m =
      if ltb max_size new_size
      then (err invalid_argument, m)
      else if not m.initialized
      then (err failed_precondition, m)
      else elim (meta.serialize (pos new_size)) [
        | none ↦ (err internal, m)
        | some text ↦
            if ltb 4088 (length text)
            then (err internal, m)
            else on_table S
                (truncate_table new_size
                  (record { block_index = negsuc 0; payload = truncate_payload text }))
                m
      ]
