-- ===== src/Mapper/Writes/Overlays.antt =====
-- The blocks of the file under a write, and one more pending record.
use sqlite_on_gcs_rapid.Base.{
  ℕ, ◌+◌, ◌-◌, ◌*◌, ◌/◌, ◌%◌, ◌≤◌, ◌<◌, ◌≡◌, sym, ap, ◌∙◌, ◌⊎◌, List, [], ◌∷◌, some, ◌&&◌, pos, ltb,
  leb, ◌==◌, if◌then◌else◌, length, get_or, slice, splice, tabulate, length-slice, length-tabulate,
  get_or-slice, get_or-tabulate, length-splice, get_or-splice_before, get_or-splice_in,
  get_or-splice_after, inl, inr, le-cases, subst, arith,
}
use sqlite_on_gcs_rapid.Table.{Table, push_pending}
use sqlite_on_gcs_rapid.View.{block_at, or_zeros, file_byte, IsValid}
use sqlite_on_gcs_rapid.View.Lookup.{find_pending-eq-last_record, last_record-snoc, AllFull-append}
use sqlite_on_gcs_rapid.Mapper.{write_start, write_end}

-- The file `f` with `buf` laid over it from `off` on.
abbrev pub overlay : List ℕ → ℕ → (ℕ → ℕ) → ℕ → ℕ
overlay buf off f j = if leb off j && ltb j (off + length buf) then get_or buf (j - off) 0 else f j

-- The old bytes of block `b`, and the new ones.
abbrev old_block : (ℕ → ℕ) → ℕ → List ℕ
old_block f b = tabulate f (b * 4096) 4096

abbrev pub new_part : List ℕ → ℕ → ℕ → List ℕ
new_part buf off b =
    slice (write_start off b - off) (write_end (length buf) off b - write_start off b) buf

-- The payload `d` is what block `b` of the file holds after the write.
pub record Covers (buf : List ℕ) (off b : ℕ) (f : ℕ → ℕ) (d : List ℕ) : Type 0 where
  pub whole : length d ≡ 4096
  pub bytes : (i : ℕ) → i < 4096 → get_or d i 0 ≡ overlay buf off f (b * 4096 + i)

module _ (buf : List ℕ) (off b : ℕ) (f : ℕ → ℕ) (starts : off < (b + 1) * 4096)
    (ends : b * 4096 < off + length buf) where
  -- A block that the write fills.
  pub full-Covers :
      write_end (length buf) off b - write_start off b ≡ 4096
      → Covers buf off b f (slice (write_start off b - off) 4096 buf)
  full-Covers e = record {
    whole = length-slice (write_start off b - off) 4096 buf (omega arith);
    bytes = λ i p.
        get_or-slice (write_start off b - off) 4096 buf i 0 p
        ∙ ap (λ j. get_or buf j 0) {x = write_start off b - off + i} {y = b * 4096 + i - off}
            (omega arith)
        ∙ sym (ground arith);
  }

  length-new_part : length (new_part buf off b) ≡ write_end (length buf) off b - write_start off b
  length-new_part =
      length-slice (write_start off b - off) (write_end (length buf) off b - write_start off b) buf
        (omega arith)

  fits : write_start off b - b * 4096 + length (new_part buf off b) ≤ length (old_block f b)
  fits = omega (arith, length-new_part, length-tabulate f (b * 4096) 4096)

  get_or-old_block : (i : ℕ) → i < 4096 → get_or (old_block f b) i 0 ≡ f (b * 4096 + i)
  get_or-old_block i p = get_or-tabulate f (b * 4096) 4096 i 0 p

  outside :
      (i : ℕ)
      → (b * 4096 + i < off) ⊎ (off + length buf ≤ b * 4096 + i)
      → f (b * 4096 + i) ≡ overlay buf off f (b * 4096 + i)
  outside i h = ground arith

  merged-before :
      (i : ℕ)
      → i < write_start off b - b * 4096
      → get_or (splice (write_start off b - b * 4096) (new_part buf off b) (old_block f b)) i 0
        ≡ overlay buf off f (b * 4096 + i)
  merged-before i h =
      get_or-splice_before (write_start off b - b * 4096) (new_part buf off b) (old_block f b) fits
        i 0 h
      ∙ get_or-old_block i (omega arith)
      ∙ outside i (inl (omega arith))

  merged-in :
      (i : ℕ)
      → i < write_end (length buf) off b - write_start off b
      → get_or
          (splice (write_start off b - b * 4096) (new_part buf off b) (old_block f b))
          (write_start off b - b * 4096 + i)
          0
        ≡ overlay buf off f (b * 4096 + (write_start off b - b * 4096 + i))
  merged-in i h =
      get_or-splice_in (write_start off b - b * 4096) (new_part buf off b) (old_block f b) fits i 0
        (omega (arith, length-new_part))
      ∙ get_or-slice (write_start off b - off) (write_end (length buf) off b - write_start off b)
          buf i 0 h
      ∙ ap (λ j. get_or buf j 0) {x = write_start off b - off + i}
          {y = b * 4096 + (write_start off b - b * 4096 + i) - off} (omega arith)
      ∙ sym (ground arith)

  merged-after :
      (i : ℕ)
      → write_start off b - b * 4096 + length (new_part buf off b) + i < 4096
      → get_or
          (splice (write_start off b - b * 4096) (new_part buf off b) (old_block f b))
          (write_start off b - b * 4096 + length (new_part buf off b) + i)
          0
        ≡ overlay buf off f
            (b * 4096 + (write_start off b - b * 4096 + length (new_part buf off b) + i))
  merged-after i h =
      get_or-splice_after (write_start off b - b * 4096) (new_part buf off b) (old_block f b) fits i
        0
      ∙ get_or-old_block (write_start off b - b * 4096 + length (new_part buf off b) + i) h
      ∙ outside (write_start off b - b * 4096 + length (new_part buf off b) + i)
          (inr (omega (arith, length-new_part)))

  -- A block that the write changes in part.
  pub partial-Covers :
      Covers buf off b f
        (splice (write_start off b - b * 4096) (new_part buf off b) (old_block f b))
  partial-Covers = record {
    whole =
        length-splice (write_start off b - b * 4096) (new_part buf off b) (old_block f b) fits
        ∙ length-tabulate f (b * 4096) 4096;
    bytes = at;
  }
    where
      k : ℕ
      k = write_start off b - b * 4096

      at :
          (i : ℕ)
          → i < 4096
          → get_or (splice k (new_part buf off b) (old_block f b)) i 0
            ≡ overlay buf off f (b * 4096 + i)
      at i p = elim (le-cases k i) [
        | inr h ↦ merged-before i h
        | inl h ↦ elim (le-cases (k + length (new_part buf off b)) i) [
          | inr g ↦
              subst
                (λ j.
                  get_or (splice k (new_part buf off b) (old_block f b)) j 0
                  ≡ overlay buf off f (b * 4096 + j))
                {x = k + (i - k)} {y = i} (omega arith)
                (merged-in (i - k) (omega (arith, length-new_part)))
          | inl g ↦
              subst
                (λ j.
                  get_or (splice k (new_part buf off b) (old_block f b)) j 0
                  ≡ overlay buf off f (b * 4096 + j))
                {x = k + length (new_part buf off b) + (i - (k + length (new_part buf off b)))}
                {y = i} (omega arith)
                (merged-after (i - (k + length (new_part buf off b))) (omega arith))
        ]
      ]

-- A pending record changes its block alone.
pub block_at-push_pending :
    (bs : List ℕ) (t : Table) (c : ℕ) (d : List ℕ) (b : ℕ)
    → block_at bs (push_pending (record { block_index = pos c; payload = d }) t) b
      ≡ (if c == b then some d else block_at bs t b)
unfolding block_at
block_at-push_pending bs t c d b = ground (
  arith,
  find_pending-eq-last_record (pos b) t,
  find_pending-eq-last_record (pos b)
      (push_pending (record { block_index = pos c; payload = d }) t),
  last_record-snoc b c d t.pending_records,
)

pub file_byte-push_pending :
    (bs : List ℕ) (t : Table) (b : ℕ) (d : List ℕ) (j : ℕ)
    → file_byte bs (push_pending (record { block_index = pos b; payload = d }) t) j
      ≡ (if b == j / 4096 then get_or d (j % 4096) 0 else file_byte bs t j)
unfolding file_byte or_zeros
file_byte-push_pending bs t b d j = ground (arith, block_at-push_pending bs t b d (j / 4096))

pub push_pending-IsValid :
    {bs : List ℕ} {t : Table} (b : ℕ) (d : List ℕ)
    → length d ≡ 4096
    → IsValid bs t
    → IsValid bs (push_pending (record { block_index = pos b; payload = d }) t)
push_pending-IsValid {t = t} b d h v = record {
  inited = v.inited;
  full =
      AllFull-append t.pending_records (record { block_index = pos b; payload = d } ∷ []) v.full
        (h, tt);
  within = v.within;
}

-- The file after the blocks from `b` on have been written, as positions.
abbrev pub from_block : ℕ → ℕ → (ℕ → ℕ) → (ℕ → ℕ) → ℕ → ℕ
from_block b rounds f g j = if leb (b * 4096) j && ltb j ((b + rounds) * 4096) then f j else g j
