-- ===== src/Vfs/Reads.antt =====
-- `xRead`: the bytes of the file, zeros behind its end, and the code.
use sqlite_on_gcs_rapid.Base.{
  ℕ, ◌+◌, ◌-◌, ◌≤◌, ◌<◌, ◌≡◌, refl, sym, ap, ap₂, ◌∙◌, List, ◌++◌, Option, none, some, pos, ltb,
  leb, if◌then◌else◌, replicate, tabulate, tabulate_congr, tabulate-append, replicate-eq-tabulate,
  le→ltb, lt→ltb, le→leb, lt→leb, le-cases, inl, inr, arith,
}
use sqlite_on_gcs_rapid.Status.{Result}
use sqlite_on_gcs_rapid.Status.Returns.{Returns, done, failed}
use sqlite_on_gcs_rapid.Storage.{Storage, IsLawful}
use sqlite_on_gcs_rapid.Record.{max_size}
use sqlite_on_gcs_rapid.Table.{MetadataBlock, Table}
use sqlite_on_gcs_rapid.View.{file_byte, file_bytes, IsValid, At}
use sqlite_on_gcs_rapid.Mapper.{MapperOf, read}
use sqlite_on_gcs_rapid.Mapper.Reads.{Fault, read_lem}
use sqlite_on_gcs_rapid.Vfs.{
  Code, sqlite_ok, ioerr_read, ioerr_short_read, AppendOnlyFile, finish, x_read,
}

-- The byte that SQLite is to see at position `j`.
abbrev pub seen : List ℕ → Table → ℕ → ℕ
seen bs t j = if ltb j t.logical_size then file_byte bs t j else 0

-- The code of a read that does not fail.
abbrev pub code_at : ℕ → ℕ → ℕ → Code
code_at size ofst amt =
    if leb size ofst
    then ioerr_short_read
    else if ltb size (ofst + amt)
    then ioerr_short_read
    else sqlite_ok

-- The outcome of a read: the bytes and the code, or a fault of the storage.
pub data Answer (F : Type 0) (bs : List ℕ) (t : Table) (ofst amt : ℕ)
    : Code × Option (List ℕ) → Type 0 where
  full :
      {c : Code} {d : List ℕ}
      → c ≡ code_at t.logical_size ofst amt
      → d ≡ tabulate (seen bs t) ofst amt
      → Answer F bs t ofst amt (c, some d)
  broken : F → Answer F bs t ofst amt (ioerr_read, none)

-- The bytes up to the end of the file, and zeros behind it.
padded :
    (bs : List ℕ) (t : Table) (ofst amt n : ℕ)
    → ofst + n ≤ t.logical_size
    → n ≤ amt
    → (n < amt → t.logical_size ≤ ofst + n)
    → file_bytes bs t ofst n ++ replicate (amt - n) 0 ≡ tabulate (seen bs t) ofst amt
padded bs t ofst amt n h le last =
    ap₂ ◌++◌
      (tabulate_congr (file_byte bs t) (seen bs t) ofst ofst n
        (λ i p. sym (rw (lt→ltb (ofst + i) t.logical_size (omega arith)))))
      (replicate-eq-tabulate (seen bs t) 0 (ofst + n) (amt - n)
        (λ i p. rw (le→ltb (ofst + n + i) t.logical_size (omega arith))))
    ∙ tabulate-append (seen bs t) ofst n (amt - n)
    ∙ ap (tabulate (seen bs t) ofst) {x = n + (amt - n)} {y = amt} (omega arith)

module _ (meta : MetadataBlock) {S : Storage} {Holds : S.State → List ℕ → Type 0} {F : Type 0}
    (lawful : IsLawful S Holds F) where
  finish-Answer :
      (file : AppendOnlyFile meta S) (bs : List ℕ) (t : Table) (ofst amt n rest : ℕ) (c : Code)
      (r : Result (List ℕ) × MapperOf S)
      → Returns (λ d m'. (d ≡ file_bytes bs t ofst n) × At Holds bs t m') (Fault lawful bs t) r
      → c ≡ code_at t.logical_size ofst amt
      → file_bytes bs t ofst n ++ replicate rest 0 ≡ tabulate (seen bs t) ofst amt
      → Answer F bs t ofst amt (finish meta S file rest c r).0
  finish-Answer file bs t ofst amt n rest c r (done q) e p =
      full e (ap (λ d. d ++ replicate rest 0) q.0 ∙ p)
  finish-Answer file bs t ofst amt n rest c r (failed q) e p = broken q.0

  -- On an open file over a lawful storage, whose mapper is valid and within the largest size,
  -- `xRead` from an offset that is not negative fills the buffer with the bytes of the logical file
  -- up to its end and with zeros behind it. The code is SQLITE_IOERR_SHORT_READ if the read passes
  -- the end, else SQLITE_OK. If it fails instead, the code is SQLITE_IOERR_READ and the storage has
  -- a fault.
  pub x_read-Answer :
      (m : MapperOf S) (path bs : List ℕ) (ofst amt : ℕ)
      → Holds m.storage bs
      → IsValid bs m.table
      → m.table.logical_size ≤ max_size
      → Answer F bs m.table ofst amt
          (x_read meta S (record { mapper = some m; path = path }) amt (pos ofst)).0
  unfolding x_read
  x_read-Answer m path bs ofst amt h v small = elim (le-cases z ofst) [
    | inl behind ↦ rw (le→leb z ofst behind) (
        full (rw (le→leb z ofst behind) refl) (
          replicate-eq-tabulate (seen bs m.table) 0 ofst amt
            (λ i p. rw (le→ltb (ofst + i) z (omega arith)))))
    | inr inside ↦ elim (le-cases (ofst + amt) z) [
      | inl fits ↦
          rw (lt→leb z ofst inside, le→ltb z (ofst + amt) fits)
            (finish-Answer file bs m.table ofst amt amt 0 sqlite_ok (read S amt (pos ofst) m)
              (read_lem lawful amt ofst v at (omega arith))
              (rw (lt→leb z ofst inside, le→ltb z (ofst + amt) fits) refl)
              (ap (λ k. file_bytes bs m.table ofst amt ++ replicate k 0) {x = 0} {y = amt - amt}
                  (omega arith)
                ∙ padded bs m.table ofst amt amt fits (omega arith) (λ p. omega arith)))
      | inr over ↦
          rw (lt→leb z ofst inside, lt→ltb z (ofst + amt) over)
            (finish-Answer file bs m.table ofst amt (z - ofst) (amt - (z - ofst)) ioerr_short_read
              (read S (z - ofst) (pos ofst) m) (read_lem lawful (z - ofst) ofst v at (omega arith))
              (rw (lt→leb z ofst inside, lt→ltb z (ofst + amt) over) refl)
              (padded bs m.table ofst amt (z - ofst) (omega arith) (omega arith)
                (λ p. omega arith)))
    ]
  ]
    where
      z : ℕ
      z = m.table.logical_size

      file : AppendOnlyFile meta S
      file = record { mapper = some m; path = path }

      at : At Holds bs m.table m
      at = record { holds = h; same = refl }
