-- ===== src/Record/Codec.antt =====
-- Round trips of the record format.
use sqlite_on_gcs_rapid.Base.{
  ℕ, zero, suc, ◌+◌, ◌/◌, ◌^◌, ◌<◌, ◌≡◌, refl, ap, ◌∙◌, List, [], ◌∷◌, ◌++◌, ℤ, pos, negsuc, length,
  get_or, slice, length-append, take-append, get_or-append_right, slice_middle, arith,
}
use sqlite_on_gcs_rapid.Record.{
  le_bytes, of_le_bytes, to_bits, of_bits, encode_int64, decode_int64, encode_record,
}

-- The values of an `int64_t`.
abbrev pub InRange : ℤ → Type 0
InRange (pos n) = n < 2 ^ 63
InRange (negsuc n) = n < 2 ^ 63

length-le_bytes : (k n : ℕ) → length (le_bytes k n) ≡ k
unfolding le_bytes
length-le_bytes zero n = refl
length-le_bytes (suc k) n = ap suc (length-le_bytes k _)

of_le_bytes-le_bytes : (k n : ℕ) → n < 256 ^ k → of_le_bytes (le_bytes k n) ≡ n
unfolding le_bytes of_le_bytes
of_le_bytes-le_bytes zero n h = omega arith
of_le_bytes-le_bytes (suc k) n h = omega (arith, of_le_bytes-le_bytes k (n / 256) (omega arith))

of_bits-to_bits : (z : ℤ) → InRange z → of_bits (to_bits z) ≡ z
unfolding of_bits to_bits
of_bits-to_bits (pos n) h = ground arith
of_bits-to_bits (negsuc n) h = ground arith

to_bits-lt : (z : ℤ) → to_bits z < 2 ^ 64
unfolding to_bits
to_bits-lt (pos n) = omega arith
to_bits-lt (negsuc n) = omega arith

pub length-encode_int64 : (z : ℤ) → length (encode_int64 z) ≡ 8
unfolding encode_int64
length-encode_int64 z = length-le_bytes 8 (to_bits z)

-- An `int64_t` in its range is read back from its eight bytes, whatever follows them.
pub decode_int64-encode_int64 :
    (z : ℤ) (rest : List ℕ) → InRange z → decode_int64 (encode_int64 z ++ rest) ≡ z
unfolding decode_int64 encode_int64
decode_int64-encode_int64 z rest h =
    ap (λ t. of_bits (of_le_bytes t))
      (take-append 8 (le_bytes 8 (to_bits z)) rest (length-le_bytes 8 _))
    ∙ ap of_bits (of_le_bytes-le_bytes 8 (to_bits z) (to_bits-lt z))
    ∙ of_bits-to_bits z h

module _ (z : ℤ) (payload : List ℕ) (is_good : ℕ) (full : length payload ≡ 4096) where
  pub length-encode_record : length (encode_record z payload is_good) ≡ 4105
  unfolding encode_record
  length-encode_record =
      length-append (encode_int64 z) (payload ++ is_good ∷ [])
      ∙ omega (arith, length-encode_int64 z, length-append payload (is_good ∷ []))

  pub is_good-encode_record : get_or (encode_record z payload is_good) 4104 0 ≡ is_good
  unfolding encode_record get_or
  is_good-encode_record =
      ap (λ k. get_or (encode_int64 z ++ (payload ++ is_good ∷ [])) k 0) place
      ∙ get_or-append_right (encode_int64 z) (payload ++ is_good ∷ []) 4096 0
      ∙ ap (λ k. get_or (payload ++ is_good ∷ []) k 0) place'
      ∙ get_or-append_right payload (is_good ∷ []) 0 0
    where
      place : 4104 ≡ length (encode_int64 z) + 4096
      place = omega (arith, length-encode_int64 z)

      place' : 4096 ≡ length payload + 0
      place' = omega arith

  pub payload-encode_record : slice 8 4096 (encode_record z payload is_good) ≡ payload
  unfolding encode_record
  payload-encode_record =
      slice_middle 8 4096 (encode_int64 z) payload (is_good ∷ []) (length-encode_int64 z) full
