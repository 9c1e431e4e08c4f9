-- ===== src/Recovery/Bounds.antt =====
-- The records that the guards of the recovery let pass, and the size of the table made of them.
use sqlite_on_gcs_rapid.Base.{
  ℕ, zero, suc, ◌+◌, ◌≤◌, ◌<◌, ◌≡◌, refl, List, [], ◌∷◌, Option, none, some, Bool, true, false,
  ◌||◌, ℤ, pos, negsuc, ltb, ◌==◌, if◌then◌else◌, get_or, slice, subst, ltb→lt, arith,
}
use sqlite_on_gcs_rapid.Status.{Result, ok, err, internal}
use sqlite_on_gcs_rapid.Record.{max_blocks, max_size, decode_int64}
use sqlite_on_gcs_rapid.Table.{MetadataBlock, Table}
use sqlite_on_gcs_rapid.Recovery.{
  RecoveredRecord, decode_record, decode_good, parse_metadata, parse_sized, with_size, or_corrupt,
  check_new_size, apply_records, apply_record, apply_block,
}
use sqlite_on_gcs_rapid.Recovery.Scans.{Scans}

-- What the guards let pass.
abbrev IndexInBounds : ℤ → Type 0
IndexInBounds (pos b) = b < max_blocks
IndexInBounds (negsuc _) = Unit {0}

abbrev SizeInBounds : Option ℕ → Type 0
SizeInBounds none = Unit {0}
SizeInBounds (some n) = n ≤ max_size

abbrev IsBounded : RecoveredRecord → Type 0
IsBounded r = IndexInBounds r.block_index × SizeInBounds r.new_size

abbrev OrError : {A : Type 0} → (A → Type 0) → Result A → Type 0
OrError Q (ok a) = Q a
OrError Q (err c) = Unit {0}

OrError-if :
    {A : Type 0} (Q : A → Type 0) (b : Bool) (r s : Result A)
    → (b ≡ true → OrError Q r)
    → (b ≡ false → OrError Q s)
    → OrError Q (if b then r else s)
OrError-if Q true r s h k = h refl
OrError-if Q false r s h k = k refl

check_new_size-InBounds : (z : Option ℤ) → OrError SizeInBounds (check_new_size z)
check_new_size-InBounds none = tt
check_new_size-InBounds (some (negsuc _)) = tt
check_new_size-InBounds (some (pos n)) =
    OrError-if SizeInBounds (ltb max_size n) (err internal) (ok (some n)) (λ _. tt)
      (λ e. ground arith)

or_corrupt-InBounds : (z : Option (Option ℤ)) → OrError SizeInBounds (or_corrupt z)
or_corrupt-InBounds none = tt
or_corrupt-InBounds (some z) = check_new_size-InBounds z

module _ (meta : MetadataBlock) where
  parse_sized-InBounds : (buf : List ℕ) (z : ℤ) → OrError SizeInBounds (parse_sized meta buf z)
  parse_sized-InBounds buf (negsuc _) = tt
  parse_sized-InBounds buf (pos n) =
      OrError-if SizeInBounds (ltb 4088 n) (err internal) (or_corrupt (meta.parse (slice 16 n buf)))
        (λ _. tt) (λ _. or_corrupt-InBounds (meta.parse (slice 16 n buf)))

  with_size-IsBounded :
      (off g : ℕ) (s : Result (Option ℕ))
      → OrError SizeInBounds s
      → OrError IsBounded (with_size meta off g s)
  with_size-IsBounded off g (err c) h = tt
  with_size-IsBounded off g (ok k) h = (tt, h)

  decode_good-IsBounded :
      (off : ℕ) (buf : List ℕ) (g : ℕ) (z : ℤ) → OrError IsBounded (decode_good meta off buf g z)
  unfolding decode_good parse_metadata
  decode_good-IsBounded off buf g (pos b) =
      OrError-if IsBounded (ltb b max_blocks)
        (ok (record { offset = off; block_index = pos b; is_good = g; new_size = none }))
        (err internal) (λ e. (ltb→lt b max_blocks e, tt)) (λ _. tt)
  decode_good-IsBounded off buf g (negsuc zero) =
      with_size-IsBounded off g (parse_metadata meta buf)
        (parse_sized-InBounds buf (decode_int64 (slice 8 8 buf)))
  decode_good-IsBounded off buf g (negsuc (suc _)) = tt

  decode_record-IsBounded :
      (off : ℕ) (buf : List ℕ) → OrError IsBounded (decode_record meta off buf)
  unfolding decode_record
  decode_record-IsBounded off buf =
      OrError-if IsBounded (get_or buf 4104 0 == 1 || get_or buf 4104 0 == 2)
        (decode_good meta off buf (get_or buf 4104 0) (decode_int64 buf))
        (ok (record {
          offset = off;
          block_index = pos 0;
          is_good = get_or buf 4104 0;
          new_size = none;
        }))
        (λ _. decode_good-IsBounded off buf (get_or buf 4104 0) (decode_int64 buf))
        (λ _. (omega arith, tt))

  apply_block-le :
      (z : ℤ) (off : ℕ) (k : Option ℕ) (t : Table)
      → IndexInBounds z
      → SizeInBounds k
      → t.logical_size ≤ max_size
      → (apply_block z off k t).logical_size ≤ max_size
  apply_block-le (pos b) off k t h i l = omega (arith, h, l)
  apply_block-le (negsuc zero) off none t h i l = l
  apply_block-le (negsuc zero) off (some n) t h i l = i
  apply_block-le (negsuc (suc _)) off k t h i l = l

  pub apply_records-le :
      (bs : List ℕ) (off : ℕ) (rs : List RecoveredRecord) (fs : List Bool) (t : Table)
      → Scans meta bs off rs
      → t.logical_size ≤ max_size
      → (apply_records rs fs t).logical_size ≤ max_size
  unfolding apply_records apply_record
  apply_records-le bs off [] fs t h l = l
  apply_records-le bs off (r ∷ rs) [] t h l = l
  apply_records-le bs off (r ∷ rs) (false ∷ fs) t h l =
      apply_records-le bs (off + 4105) rs fs t h.2 l
  apply_records-le bs off (r ∷ rs) (true ∷ fs) t h l =
      let b : IsBounded r =
        subst (OrError IsBounded) h.1 (decode_record-IsBounded off (slice off 4105 bs)) in
      apply_records-le bs (off + 4105) rs fs (apply_record r t) h.2
        (apply_block-le r.block_index r.offset r.new_size t b.0 b.1 l)
