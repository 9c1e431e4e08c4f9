-- ===== src/Recovery.antt =====
-- block_mapper.cc: `BlockMapper::Init`, the crash recovery: the padding of a torn record, the scan of
-- the records, the backward pass that finds the committed ones, and the forward pass.
pub mod Metadata
pub mod Scans
pub mod Replay
pub mod Flags
pub mod Inits
pub mod Orphans
pub mod Paddings
pub mod Fills
pub mod Bounds
pub mod Inputs
use sqlite_on_gcs_rapid.Base.{
  ℕ, zero, suc, ◌+◌, ◌-◌, ◌*◌, ◌/◌, ◌%◌, max, List, [], ◌∷◌, Option, none, some, Bool, true, false,
  ◌||◌, ℤ, pos, negsuc, ltb, ◌==◌, if◌then◌else◌, length, get_or, slice, replicate,
}
use sqlite_on_gcs_rapid.Status.{
  Result, ok, err, failed_precondition, internal, Exec, pure, raise, lift, ◌>>=◌, ◌>>◌,
}
use sqlite_on_gcs_rapid.Storage.{Storage}
use sqlite_on_gcs_rapid.Record.{max_blocks, max_size, decode_int64}
use sqlite_on_gcs_rapid.Table.{MetadataBlock, Table, put_mapping, resize, ceil_blocks}
use sqlite_on_gcs_rapid.Mapper.{MapperOf, on_storage, on_table}

-- `new_size` is `none` where the source has -1.
pub record RecoveredRecord : Type 0 where
  pub offset : ℕ
  pub block_index : ℤ
  pub is_good : ℕ
  pub new_size : Option ℕ

abbrev pub check_new_size : Option ℤ → Result (Option ℕ)
check_new_size none = ok none
check_new_size (some (negsuc _)) = err internal
check_new_size (some (pos n)) = if ltb max_size n then err internal else ok (some n)

abbrev pub or_corrupt : Option (Option ℤ) → Result (Option ℕ)
or_corrupt none = err internal
or_corrupt (some field) = check_new_size field

module _ (meta : MetadataBlock) where
  abbrev pub parse_sized : List ℕ → ℤ → Result (Option ℕ)
  parse_sized buf (negsuc _) = err internal
  parse_sized buf (pos n) =
      if ltb 4088 n then err internal else or_corrupt (meta.parse (slice 16 n buf))

  -- The metadata of a record with block index -1.
  unfoldable pub parse_metadata : List ℕ → Result (Option ℕ)
  parse_metadata buf = parse_sized buf (decode_int64 (slice 8 8 buf))

  abbrev pub with_size : ℕ → ℕ → Result (Option ℕ) → Result RecoveredRecord
  with_size off state (err c) = err c
  with_size off state (ok s) =
      ok (record { offset = off; block_index = negsuc 0; is_good = state; new_size = s })

  -- A record in state 1 or 2, by its block index.
  unfoldable pub decode_good : ℕ → List ℕ → ℕ → ℤ → Result RecoveredRecord
  decode_good off buf state (pos b) =
      if ltb b max_blocks
      then ok (record { offset = off; block_index = pos b; is_good = state; new_size = none })
      else err internal
  decode_good off buf state (negsuc zero) = with_size off state (parse_metadata buf)
  decode_good off buf state (negsuc (suc _)) = err internal

  unfoldable pub decode_record : ℕ → List ℕ → Result RecoveredRecord
  unfolding decode_good
  decode_record off buf =
      let state = get_or buf 4104 0 in
      if state == 1 || state == 2
      then decode_good off buf state (decode_int64 buf)
      else ok (record { offset = off; block_index = pos 0; is_good = state; new_size = none })

-- The next value of `applied_next`, at a record with this state.
unfoldable pub next_applied : ℕ → Bool → Bool
next_applied is_good applied_next =
    if is_good == 1
    then true
    else if is_good == 0
    then false
    else if is_good == 2
    then applied_next
    else false

abbrev pub first_flag : List Bool → Bool
first_flag [] = false
first_flag (f ∷ fs) = f

-- The backward pass: `applied`.
unfoldable pub applied_flags : List RecoveredRecord → List Bool
unfolding next_applied
applied_flags [] = []
applied_flags (r ∷ rs) =
    let flags = applied_flags rs in next_applied r.is_good (first_flag flags) ∷ flags

abbrev pub apply_block : ℤ → ℕ → Option ℕ → Table → Table
apply_block (pos b) off s t = record t {
  logical_to_physical = put_mapping b (off + 8) t.logical_to_physical;
  logical_size = max t.logical_size ((b + 1) * 4096);
}
apply_block (negsuc zero) off (some n) t = record t {
  logical_size = n;
  logical_to_physical = resize (ceil_blocks n) t.logical_to_physical;
}
apply_block (negsuc zero) off none t = t
apply_block (negsuc (suc _)) off s t = t

unfoldable pub apply_record : RecoveredRecord → Table → Table
apply_record r t = apply_block r.block_index r.offset r.new_size t

-- The forward pass.
unfoldable pub apply_records : List RecoveredRecord → List Bool → Table → Table
unfolding apply_record
apply_records [] flags t = t
apply_records (r ∷ rs) [] t = t
apply_records (r ∷ rs) (true ∷ flags) t = apply_records rs flags (apply_record r t)
apply_records (r ∷ rs) (false ∷ flags) t = apply_records rs flags t

abbrev pub mark : Table → Table
mark t = record t { initialized = true }

-- The table after both passes.
unfoldable pub recovered_table : List RecoveredRecord → Table → Table
unfolding applied_flags apply_records
recovered_table rs t = mark (apply_records rs (applied_flags rs) t)

module _ (S : Storage) where
  -- The alignment: the size after it.
  unfoldable pub align : ℕ → Exec S.State ℕ
  align size =
      if size % 4105 == 0
      then pure size
      else do S.append (replicate (4105 - size % 4105) 0); S.get_size

module _ (meta : MetadataBlock) (S : Storage) where
  -- The loop over the storage, for `rounds` records from `off` on.
  unfoldable pub scan : ℕ → ℕ → Exec S.State (List RecoveredRecord)
  unfolding decode_record
  scan zero off = pure []
  scan (suc rounds) off = do
    buf ← S.pread 4105 (pos off)
    r ← (if length buf == 4105 then lift (decode_record meta off buf) else raise internal)
    rs ← scan rounds (off + 4105)
    pure (r ∷ rs)

  unfoldable pub init : Exec (MapperOf S) (Unit {0})
  unfolding scan align recovered_table
  init m =
      if m.initialized
      then (err failed_precondition, m)
      else (do
        size ← on_storage S S.get_size
        p ← on_storage S (align S size)
        rs ← on_storage S (scan ((p + 4104) / 4105) 0)
        on_table S (recovered_table rs))
          m
