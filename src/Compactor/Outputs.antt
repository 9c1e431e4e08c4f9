-- ===== src/Compactor/Outputs.antt =====
-- What a compaction writes.
use sqlite_on_gcs_rapid.Base.{
  ℕ, zero, suc, ◌+◌, ◌*◌, ◌≤◌, ◌≡◌, refl, sym, ap, ◌∙◌, List, [], ◌∷◌, ◌++◌, append_assoc,
  append-nil, true, false, pos, if◌then◌else◌, Bool-cases, inl, inr, subst, arith,
}
use sqlite_on_gcs_rapid.Status.{Result}
use sqlite_on_gcs_rapid.Status.Returns.{Returns, done, failed, Returns-bind, Returns-weaken}
use sqlite_on_gcs_rapid.Storage.{Storage, IsLawful}
use sqlite_on_gcs_rapid.Record.{max_size, encode_int64, encode_record}
use sqlite_on_gcs_rapid.Table.{Table, is_block_mapped, ceil_blocks}
use sqlite_on_gcs_rapid.View.{file_bytes, IsValid, At}
use sqlite_on_gcs_rapid.Mapper.{MapperOf, read}
use sqlite_on_gcs_rapid.Mapper.Reads.{Fault, read_lem}
use sqlite_on_gcs_rapid.Compactor.{
  OutputStream, Compaction, put_block, write_block, write_blocks, write_compacted_records,
}

-- `Given o out` says that `out` was written to `o`. The stream may stop taking bytes, by the fault
-- `F`, and is then no longer good.
pub record IsStream (O : OutputStream) (Given : O.State → List ℕ → Type 0) (F : Type 0)
    : Type 0 where
  pub write_lem :
      (d : List ℕ) {o : O.State} {out : List ℕ} → Given o out → Given (O.write d o) (out ++ d)
  pub bad_lem : {o : O.State} {out : List ℕ} → Given o out → O.good o ≡ false → F

-- A first part of `all` was written behind `out`.
abbrev pub Partial : {State : Type 0} → (State → List ℕ → Type 0) → List ℕ → List ℕ → State → Type 0
Partial Given out all o =
    (part : List ℕ) × (rest : List ℕ) × Given o (out ++ part) × (part ++ rest ≡ all)

-- The record of block `b`, if it is mapped.
abbrev pub compacted_block : List ℕ → Table → ℕ → List ℕ
compacted_block bs t b =
    if is_block_mapped t (pos b)
    then encode_record (pos b) (file_bytes bs t (b * 4096) 4096) 1
    else []

-- The records of the mapped blocks among `rounds` blocks from `b` on.
unfoldable pub compacted : List ℕ → Table → ℕ → ℕ → List ℕ
compacted bs t zero b = []
compacted bs t (suc rounds) b = compacted_block bs t b ++ compacted bs t rounds (b + 1)

module _ {S : Storage} {Holds : S.State → List ℕ → Type 0} {F : Type 0}
    (lawful : IsLawful S Holds F) {O : OutputStream} {Given : O.State → List ℕ → Type 0}
    (stream : IsStream O Given F) {bs : List ℕ} {t : Table} (v : IsValid bs t) where
  -- The mapper is as before, `out` is written, and the stream is good.
  abbrev pub Reached : List ℕ → Compaction S O → Type 0
  Reached out p = At Holds bs t p.0 × Given p.1 out × (O.good p.1 ≡ true)

  abbrev pub CutShort : List ℕ → List ℕ → Compaction S O → Type 0
  CutShort out all p = F × Partial Given out all p.1

  put_block_lem :
      (b : ℕ) (o : O.State) (out : List ℕ) (r : Result (List ℕ) × MapperOf S)
      → Given o out
      → Returns
          (λ d m'. (d ≡ file_bytes bs t (b * 4096) 4096) × At Holds bs t m')
          (Fault lawful bs t)
          r
      → Returns
          (λ _ p'. Reached (out ++ encode_record (pos b) (file_bytes bs t (b * 4096) 4096) 1) p')
          (λ p'. CutShort out (encode_record (pos b) (file_bytes bs t (b * 4096) 4096) 1) p')
          (put_block S O b o r)
  unfolding encode_record
  put_block_lem b o out r h (failed q) = failed (
    q.0,
    (
      [],
      encode_record (pos b) (file_bytes bs t (b * 4096) 4096) 1,
      subst (Given o) (sym (append-nil out)) h,
      refl,
    ),
  )
  put_block_lem b o out r h (done {a = d} q) =
      elim (Bool-cases (O.good (O.write (1 ∷ []) (O.write d (O.write (encode_int64 (pos b)) o))))) [
        | inl e ↦ rw e (done (q.1, given, e))
        | inr e ↦ rw e (
            failed (
              stream.bad_lem given e,
              (
                encode_record (pos b) (file_bytes bs t (b * 4096) 4096) 1,
                [],
                given,
                append-nil (encode_record (pos b) (file_bytes bs t (b * 4096) 4096) 1),
              ),
            ))
      ]
    where
      joined :
          ((out ++ encode_int64 (pos b)) ++ d) ++ 1 ∷ []
          ≡ out ++ encode_record (pos b) (file_bytes bs t (b * 4096) 4096) 1
      joined = ap (λ e. ((out ++ encode_int64 (pos b)) ++ e) ++ 1 ∷ []) q.0 ∙ simp append_assoc

      given :
          Given
            (O.write (1 ∷ []) (O.write d (O.write (encode_int64 (pos b)) o)))
            (out ++ encode_record (pos b) (file_bytes bs t (b * 4096) 4096) 1)
      given =
          subst (Given (O.write (1 ∷ []) (O.write d (O.write (encode_int64 (pos b)) o)))) joined (
            stream.write_lem (1 ∷ [])
              (stream.write_lem d (stream.write_lem (encode_int64 (pos b)) h)))

  write_block_lem :
      (b : ℕ) (p : Compaction S O) (out : List ℕ)
      → b * 4096 + 4096 ≤ max_size
      → Reached out p
      → Returns
          (λ _ p'. Reached (out ++ compacted_block bs t b) p')
          (λ p'. CutShort out (compacted_block bs t b) p')
          (write_block S O b p)
  unfolding write_block
  write_block_lem b (m, o) out h r = elim (Bool-cases (is_block_mapped t (pos b))) [
    | inl e ↦
        rw (ap (λ u. is_block_mapped u (pos b)) r.0.same, e)
          (put_block_lem b o out (read S 4096 (pos (b * 4096)) m) r.1
            (read_lem lawful 4096 (b * 4096) v r.0 (omega arith)))
    | inr e ↦
        rw (ap (λ u. is_block_mapped u (pos b)) r.0.same, e)
          (done (r.0, subst (Given o) (sym (append-nil out)) r.1, r.2))
  ]

  Partial-before :
      (out all more : List ℕ) (o : O.State)
      → Partial Given out all o
      → Partial Given out (all ++ more) o
  Partial-before out all more o (part, rest, given, e) =
      (part, rest ++ more, given, sym (append_assoc part rest more) ∙ ap (λ x. x ++ more) e)

  Partial-behind :
      (out before all : List ℕ) (o : O.State)
      → Partial Given (out ++ before) all o
      → Partial Given out (before ++ all) o
  Partial-behind out before all o (part, rest, given, e) = (
    before ++ part,
    rest,
    subst (Given o) (append_assoc out before part) given,
    append_assoc before part rest ∙ ap (λ x. before ++ x) e,
  )

  write_blocks_lem :
      (rounds b : ℕ) (p : Compaction S O) (out : List ℕ)
      → (b + rounds) * 4096 ≤ max_size
      → Reached out p
      → Returns
          (λ _ p'. Reached (out ++ compacted bs t rounds b) p')
          (λ p'. CutShort out (compacted bs t rounds b) p')
          (write_blocks S O rounds b p)
  unfolding write_blocks compacted
  write_blocks_lem zero b p out h r = done (r.0, subst (Given p.1) (sym (append-nil out)) r.1, r.2)
  write_blocks_lem (suc rounds) b p out h r =
      Returns-bind (write_block S O b) (λ _. write_blocks S O rounds (b + 1)) p
        (write_block_lem b p out (omega arith) r)
        (λ _ p' r'.
          Returns-weaken
            (write_blocks_lem rounds (b + 1) p' (out ++ compacted_block bs t b) (omega arith) r')
            (λ _ p'' r''. (
              r''.0,
              subst (Given p''.1)
                  (append_assoc out (compacted_block bs t b) (compacted bs t rounds (b + 1))) r''.1,
              r''.2,
            ))
            (λ p'' x. (
              x.0,
              Partial-behind out (compacted_block bs t b) (compacted bs t rounds (b + 1)) p''.1 x.1,
            )))
        (λ p' x. (
          x.0,
          Partial-before out (compacted_block bs t b) (compacted bs t rounds (b + 1)) p'.1 x.1,
        ))

  -- On a valid mapper over a lawful storage and a good stream, a compaction writes one committed record
  -- for each mapped block up to the end of the file, in the order of the blocks, with the bytes of the
  -- logical file, changes neither the storage's bytes nor the table, and leaves the stream good. Only a
  -- fault of the storage or of the stream can make it fail; then it has written a first part of these.
  pub write_compacted_records_lem :
      (p : Compaction S O) (out : List ℕ)
      → t.logical_size ≤ max_size
      → Reached out p
      → Returns
          (λ _ p'. Reached (out ++ compacted bs t (ceil_blocks t.logical_size) 0) p')
          (λ p'. CutShort out (compacted bs t (ceil_blocks t.logical_size) 0) p')
          (write_compacted_records S O p)
  unfolding write_compacted_records
  write_compacted_records_lem p out h r =
      subst
        (λ k.
          Returns (λ _ p'. Reached (out ++ compacted bs t (ceil_blocks t.logical_size) 0) p')
            (λ p'. CutShort out (compacted bs t (ceil_blocks t.logical_size) 0) p')
            (write_blocks S O k 0 p))
        (ap (λ u. ceil_blocks u.logical_size) (sym r.0.same))
        (write_blocks_lem (ceil_blocks t.logical_size) 0 p out (omega arith) r)
