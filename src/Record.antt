-- ===== src/Record.antt =====
-- The log format: 4105-byte records of an 8-byte block index, a 4096-byte payload and a state byte
-- (block_mapper.cc: `record_buf`). An `int64_t` is copied by memcpy, so it stands in two's
-- complement, least significant byte first, as on the x86-64 and ARM64 machines that are built for.
pub mod Codec
use sqlite_on_gcs_rapid.Base.{
  ℕ, zero, suc, ◌+◌, ◌-◌, ◌*◌, ◌/◌, ◌%◌, ◌^◌, List, [], ◌∷◌, ◌++◌, ℤ, pos, negsuc, slice, take, ltb,
  if◌then◌else◌,
}

abbrev pub block_size : ℕ
block_size = 4096

abbrev pub record_size : ℕ
record_size = 4105

-- Block indices stay below this number, and sizes stay within as many blocks.
abbrev pub max_blocks : ℕ
max_blocks = 1000000

abbrev pub max_size : ℕ
max_size = max_blocks * block_size

unfoldable pub le_bytes : ℕ → ℕ → List ℕ
le_bytes zero n = []
le_bytes (suc k) n = (n % 256) ∷ le_bytes k (n / 256)

unfoldable pub of_le_bytes : List ℕ → ℕ
of_le_bytes [] = 0
of_le_bytes (b ∷ bs) = b + 256 * of_le_bytes bs

-- The bit pattern of an `int64_t`.
unfoldable pub to_bits : ℤ → ℕ
to_bits (pos n) = n % 2 ^ 64
to_bits (negsuc n) = (2 ^ 64 - suc n % 2 ^ 64) % 2 ^ 64

unfoldable pub of_bits : ℕ → ℤ
of_bits u = if ltb u (2 ^ 63) then pos u else negsuc (2 ^ 64 - 1 - u)

unfoldable pub encode_int64 : ℤ → List ℕ
encode_int64 z = le_bytes 8 (to_bits z)

unfoldable pub decode_int64 : List ℕ → ℤ
decode_int64 bs = of_bits (of_le_bytes (take 8 bs))

unfoldable pub encode_record : ℤ → List ℕ → ℕ → List ℕ
encode_record block_index payload is_good = encode_int64 block_index ++ (payload ++ is_good ∷ [])
