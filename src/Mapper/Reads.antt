-- ===== src/Mapper/Reads.antt =====
-- `ReadLocked` and `Read`, against the bytes of the logical file.
use sqlite_on_gcs_rapid.Base.{
  ℕ, zero, suc, ◌+◌, ◌-◌, ◌/◌, ◌%◌, min, ◌≤◌, ◌<◌, ◌≡◌, refl, sym, ap, ap₂, ◌∙◌, List, ◌++◌, Option,
  none, some, false, pos, ltb, le→ltb, lt→ltb, length, get_or, slice, replicate, tabulate,
  length-slice, get_or-slice, subst, if◌then◌else◌, length-replicate, slice-eq-tabulate, slice_all,
  ne→==, if-not, get_or-replicate, tabulate_congr, tabulate-append, Option-cases, inl, inr, arith,
}
use sqlite_on_gcs_rapid.Status.{Result, internal, Exec, pure, raise, ◌>>=◌}
use sqlite_on_gcs_rapid.Status.Returns.{Returns, done, failed, Returns-bind, Returns-weaken}
use sqlite_on_gcs_rapid.Storage.{Storage, IsLawful}
use sqlite_on_gcs_rapid.Record.{max_size}
use sqlite_on_gcs_rapid.Table.{Table, find_pending, mapped_at, out_of_bounds}
use sqlite_on_gcs_rapid.View.{
  stored, or_else, block_at, or_zeros, file_byte, file_bytes, IsValid, At,
}
use sqlite_on_gcs_rapid.View.Lookup.{find_pending-eq-last_record, length-last_record}
use sqlite_on_gcs_rapid.Mapper.{
  MapperOf, on_storage, pread_exactly, chunk_from, read_chunk, read_loop, read_locked, read,
}

-- A block of the logical file is whole.
pub length-block_at :
    {bs : List ℕ} {t : Table} → IsValid bs t → (b : ℕ) → length (or_zeros (block_at bs t b)) ≡ 4096
unfolding block_at or_zeros
length-block_at {bs} {t} v b = elim (Option-cases (find_pending (pos b) t)) [
  | inl e ↦ elim (Option-cases (mapped_at t.logical_to_physical b)) [
    | inl f ↦ rw (e, f) (length-replicate 4096 0)
    | inr (p, f) ↦ rw (e, f) (length-slice p 4096 bs (v.within b p f))
  ]
  | inr (d, e) ↦ rw e (
      length-last_record (pos b) t.pending_records d v.full
        (sym (find_pending-eq-last_record (pos b) t) ∙ e))
]

-- The bytes of one block, as positions of the file.
file_bytes-of_block :
    {bs : List ℕ} {t : Table}
    → IsValid bs t
    → (off n : ℕ) → off % 4096 + n ≤ 4096
    → slice (off % 4096) n (or_zeros (block_at bs t (off / 4096))) ≡ file_bytes bs t off n
unfolding file_byte
file_bytes-of_block {bs} {t} v off n h =
    slice-eq-tabulate (off % 4096) n (or_zeros (block_at bs t (off / 4096))) 0
      (omega (arith, length-block_at v (off / 4096)))
    ∙ tabulate_congr (λ k. get_or (or_zeros (block_at bs t (off / 4096))) k 0) (file_byte bs t)
        (off % 4096) off n
        (λ i p. ap₂ (λ b k. get_or (or_zeros (block_at bs t b)) k 0) (quotient i p) (remainder i p))
  where
    quotient : (i : ℕ) → i < n → off / 4096 ≡ (off + i) / 4096
    quotient i p = omega arith

    remainder : (i : ℕ) → i < n → off % 4096 + i ≡ (off + i) % 4096
    remainder i p = omega arith

slice-slice :
    (k o n : ℕ) (bs : List ℕ)
    → o + n ≤ 4096
    → k + 4096 ≤ length bs
    → slice o n (slice k 4096 bs) ≡ slice (k + o) n bs
slice-slice k o n bs h w =
    slice-eq-tabulate o n (slice k 4096 bs) 0 (omega (arith, length-slice k 4096 bs w))
    ∙ tabulate_congr (λ i. get_or (slice k 4096 bs) i 0) (λ i. get_or bs i 0) o (k + o) n
        (λ i p.
          get_or-slice k 4096 bs (o + i) 0 (omega arith) ∙ ap (λ j. get_or bs j 0) (omega arith))
    ∙ sym (slice-eq-tabulate (k + o) n bs 0 (omega arith))

zeros_slice : (o n : ℕ) → o + n ≤ 4096 → replicate n 0 ≡ slice o n (replicate {A = ℕ} 4096 0)
zeros_slice o n h = sym (
    slice-eq-tabulate o n (replicate 4096 0) 0 (omega (arith, length-replicate {A = ℕ} 4096 0))
    ∙ tabulate_congr (λ i. get_or (replicate 4096 0) i 0) (λ i. get_or (replicate n 0) i 0) o 0 n
        (λ i p. get_or-replicate 4096 0 (o + i) ∙ sym (get_or-replicate n 0 (0 + i)))
    ∙ sym (slice-eq-tabulate 0 n (replicate n 0) 0 (omega (arith, length-replicate {A = ℕ} n 0)))
    ∙ slice_all n (replicate n 0) (length-replicate n 0))

pub out_of_bounds-of_le : (size off : ℕ) → off + size ≤ max_size → out_of_bounds size off ≡ false
unfolding out_of_bounds
out_of_bounds-of_le size off h = ground arith

module _ {S : Storage} {Holds : S.State → List ℕ → Type 0} {F : Type 0}
    (lawful : IsLawful S Holds F) where
  abbrev pub Fault : List ℕ → Table → MapperOf S → Type 0
  Fault bs t m = F × At Holds bs t m

  -- An action on the storage, seen from the mapper.
  pub on_storage_lem {κ} :
      {A : Type κ} {P : A → S.State → Type κ} {E : S.State → Type κ} (f : Exec S.State A)
      {t : Table} (m : MapperOf S)
      → m.table ≡ t
      → Returns P E (f m.storage)
      → Returns
          (λ a m'. P a m'.storage × (m'.table ≡ t))
          (λ m'. E m'.storage × (m'.table ≡ t))
          (on_storage S f m)
  on_storage_lem {A} {P} {E} f {t} m e h = go (f m.storage) h
    where
      go :
          (r : Result A × S.State)
          → Returns P E r
          → Returns
              (λ a m'. P a m'.storage × (m'.table ≡ t))
              (λ m'. E m'.storage × (m'.table ≡ t))
              (r.0, record m { storage = r.1 })
      go r (done q) = done (q, e)
      go r (failed q) = failed (q, e)

  -- `n` bytes of the storage.
  pread_exactly_lem :
      (n o : ℕ) {bs : List ℕ} {t : Table} {m : MapperOf S}
      → At Holds bs t m
      → o + n ≤ length bs
      → Returns (λ d m'. (d ≡ slice o n bs) × At Holds bs t m') (Fault bs t) (pread_exactly S n o m)
  unfolding pread_exactly
  pread_exactly_lem n o {bs} {t} {m} a h =
      Returns-bind (on_storage S (S.pread n (pos o)))
        (λ d. if ltb (length d) n then raise internal else pure d) m
        (on_storage_lem (S.pread n (pos o)) m a.same (lawful.pread_lem n o m.storage a.holds h))
        (λ d m' q. rw (whole d q.0.0) (done (q.0.0, record { holds = q.0.1; same = q.1 })))
        (λ m' q. (q.0.0, record { holds = q.0.1; same = q.1 }))
    where
      whole : (d : List ℕ) → d ≡ slice o n bs → ltb (length d) n ≡ false
      whole d e = le→ltb (length d) n (omega (arith, ap length e, length-slice o n bs h))

  chunk_from_lem :
      (p : Option (List ℕ)) (q : Option ℕ) (o n : ℕ) {bs : List ℕ} {t : Table} {m : MapperOf S}
      → At Holds bs t m
      → o + n ≤ 4096
      → ((k : ℕ) → q ≡ some k → k + 4096 ≤ length bs)
      → Returns
          (λ d m'. (d ≡ slice o n (or_zeros (or_else p (stored bs q)))) × At Holds bs t m')
          (Fault bs t)
          (chunk_from S p q o n m)
  unfolding chunk_from or_zeros stored
  chunk_from_lem (some d) q o n a h w = done (refl, a)
  chunk_from_lem none none o n a h w = done (zeros_slice o n h, a)
  chunk_from_lem none (some k) o n {bs} a h w =
      Returns-weaken (pread_exactly_lem n (k + o) a (omega (arith, w k refl)))
        (λ d m' q. (q.0 ∙ sym (slice-slice k o n bs h (w k refl)), q.1)) (λ m' q. q)

  read_chunk_lem :
      (b o n : ℕ) {bs : List ℕ} {t : Table} {m : MapperOf S}
      → IsValid bs t
      → At Holds bs t m
      → o + n ≤ 4096
      → Returns
          (λ d m'. (d ≡ slice o n (or_zeros (block_at bs t b))) × At Holds bs t m')
          (Fault bs t)
          (read_chunk S b o n m)
  unfolding read_chunk block_at
  read_chunk_lem b o n {bs} {t} {m} v a h =
      subst
        (λ u.
          Returns (λ d m'. (d ≡ slice o n (or_zeros (block_at bs t b))) × At Holds bs t m')
            (Fault bs t)
            (chunk_from S (find_pending (pos b) u) (mapped_at u.logical_to_physical b) o n m))
        (sym a.same)
        (chunk_from_lem (find_pending (pos b) t) (mapped_at t.logical_to_physical b) o n a h
          (v.within b))

  -- The loop reads the file's bytes, if it is given a round for each byte at least.
  read_loop_lem :
      (fuel off remaining : ℕ) {bs : List ℕ} {t : Table} {m : MapperOf S}
      → IsValid bs t
      → At Holds bs t m
      → remaining ≤ fuel
      → Returns
          (λ d m'. (d ≡ file_bytes bs t off remaining) × At Holds bs t m')
          (Fault bs t)
          (read_loop S fuel off remaining m)
  unfolding read_loop tabulate
  read_loop_lem zero off remaining {bs} {t} {m} v a h =
      done (ap (tabulate (file_byte bs t) off) {x = zero} {y = remaining} (omega arith), a)
  read_loop_lem (suc fuel) off zero v a h = done (refl, a)
  read_loop_lem (suc fuel) off (suc k) {bs} {t} {m} v a h =
      let n : ℕ = min (4096 - off % 4096) (suc k) in
      rw (lt→ltb 0 (suc k) (omega arith), read_loop)
        (Returns-bind (read_chunk S (off / 4096) (off % 4096) n)
          (λ d. read_loop S fuel (off + n) (suc k - n) >>= λ rest. pure (d ++ rest)) m
          (read_chunk_lem (off / 4096) (off % 4096) n v a (omega arith))
          (λ d m' q.
            Returns-bind (read_loop S fuel (off + n) (suc k - n)) (λ rest. pure (d ++ rest)) m'
              (read_loop_lem fuel (off + n) (suc k - n) v q.1 (omega arith))
              (λ rest m'' q'. done (joined n d rest (omega arith) (omega arith) q.0 q'.0, q'.1))
              (λ m'' e. e))
          (λ m' e. e))
    where
      joined :
          (n : ℕ) (d rest : List ℕ)
          → n ≤ suc k
          → off % 4096 + n ≤ 4096
          → d ≡ slice (off % 4096) n (or_zeros (block_at bs t (off / 4096)))
          → rest ≡ file_bytes bs t (off + n) (suc k - n)
          → d ++ rest ≡ file_bytes bs t off (suc k)
      joined n d rest le fits p q =
          ap₂ ◌++◌ (p ∙ file_bytes-of_block v off n fits) q
          ∙ tabulate-append (file_byte bs t) off n (suc k - n)
          ∙ ap (tabulate (file_byte bs t) off) {x = n + (suc k - n)} {y = suc k} (omega arith)

  -- `ReadLocked` from a position of the file.
  pub read_locked_lem :
      (size off : ℕ) {bs : List ℕ} {t : Table} {m : MapperOf S}
      → IsValid bs t
      → At Holds bs t m
      → Returns
          (λ d m'. (d ≡ file_bytes bs t off size) × At Holds bs t m')
          (Fault bs t)
          (read_locked S size (pos off) m)
  unfolding read_locked tabulate
  read_locked_lem zero off v a = done (refl, a)
  read_locked_lem (suc size) off v a =
      rw (ne→== size) (read_loop_lem (suc size) off (suc size) v a (omega arith))

  -- On a valid mapper over a lawful storage, `Read` within the bounds returns the bytes of the
  -- logical file at these positions, and changes neither the storage's bytes nor the table. Only a
  -- fault of the storage can make it fail, and then both stay too.
  pub read_lem :
      (size off : ℕ) {bs : List ℕ} {t : Table} {m : MapperOf S}
      → IsValid bs t
      → At Holds bs t m
      → off + size ≤ max_size
      → Returns
          (λ d m'. (d ≡ file_bytes bs t off size) × At Holds bs t m')
          (Fault bs t)
          (read S size (pos off) m)
  unfolding read
  read_lem size off {m = m} v a h =
      rw
        (
          out_of_bounds-of_le size off h,
          if-not _ _ m.initialized (ap (λ u. u.initialized) a.same ∙ v.inited),
        )
        (read_locked_lem size off v a)
