-- ===== src/Mapper/Writes.antt =====
-- `Write`, against bytes laid over the logical file.
pub mod Overlays
pub use Overlays.*
use sqlite_on_gcs_rapid.Base.{
  ℕ, zero, suc, ◌+◌, ◌-◌, ◌*◌, ◌/◌, ◌%◌, max, ◌≤◌, ◌<◌, ◌≡◌, sym, ap, ◌∙◌, ◌⊎◌, List, [], ◌∷◌, some,
  ◌&&◌, pos, ltb, leb, ◌==◌, if◌then◌else◌, le→ltb, lt→ltb, ne_zero, if-not, length, get_or, slice,
  splice, tabulate, length-slice, length-tabulate, get_or-slice, get_or-tabulate, length-splice,
  get_or-splice_before, get_or-splice_in, get_or-splice_after, inl, inr, le-cases, subst, arith,
}
use sqlite_on_gcs_rapid.Status.{pure, ◌>>◌}
use sqlite_on_gcs_rapid.Status.Returns.{Returns, done, Returns-bind, Returns-weaken}
use sqlite_on_gcs_rapid.Storage.{Storage, IsLawful}
use sqlite_on_gcs_rapid.Record.{max_size, max_blocks}
use sqlite_on_gcs_rapid.Table.{Table, find_pending, push_pending}
use sqlite_on_gcs_rapid.View.{block_at, or_zeros, file_byte, IsValid, At}
use sqlite_on_gcs_rapid.View.Lookup.{find_pending-eq-last_record, last_record-snoc, AllFull-append}
use sqlite_on_gcs_rapid.Mapper.{
  MapperOf, on_table, read_locked, block_data, write_start, write_end, write_loop, write,
}
use sqlite_on_gcs_rapid.Mapper.Reads.{Fault, read_locked_lem, out_of_bounds-of_le}

module _ {S : Storage} {Holds : S.State → List ℕ → Type 0} {F : Type 0}
    (lawful : IsLawful S Holds F) (buf : List ℕ) (off : ℕ) (bs : List ℕ) where
  block_data_lem :
      (b : ℕ) {t : Table} {m : MapperOf S}
      → IsValid bs t
      → At Holds bs t m
      → off < (b + 1) * 4096
      → b * 4096 < off + length buf
      → Returns
          (λ d m'. Covers buf off b (file_byte bs t) d × At Holds bs t m')
          (Fault lawful bs t)
          (block_data S buf off b m)
  unfolding block_data
  block_data_lem b {t} {m} v a starts ends =
      elim (le-cases 4096 (write_end (length buf) off b - write_start off b)) [
        | inl full ↦
            rw (le→ltb (write_end (length buf) off b - write_start off b) 4096 full)
              (done (full-Covers buf off b (file_byte bs t) starts ends (omega arith), a))
        | inr part ↦ rw (lt→ltb (write_end (length buf) off b - write_start off b) 4096 part) (
            Returns-bind (read_locked S 4096 (pos (b * 4096)))
              (λ old. pure (splice (write_start off b - b * 4096) (new_part buf off b) old)) m
              (read_locked_lem lawful 4096 (b * 4096) v a)
              (λ old m' q. done (
                subst
                    (λ x.
                      Covers buf off b (file_byte bs t)
                        (splice (write_start off b - b * 4096) (new_part buf off b) x))
                    (sym q.0) (partial-Covers buf off b (file_byte bs t) starts ends),
                q.1,
              ))
              (λ m' e. e))
      ]

  -- The outcome of `rounds` rounds from block `b` on; `P` is what each new record keeps.
  record Wrote (P : Table → ℕ → Type 0) (b rounds : ℕ) (t : Table) (m : MapperOf S) : Type 0 where
    holds : Holds m.storage bs
    valid : IsValid bs m.table
    bytes :
        (j : ℕ)
        → file_byte bs m.table j
          ≡ from_block b rounds (overlay buf off (file_byte bs t)) (file_byte bs t) j
    kept : P m.table (b + rounds)
    sized : m.table.logical_size ≡ t.logical_size

  -- A failed write: what it appended before stays, within a valid table of the same size `n`.
  pub record Stopped (n : ℕ) (m : MapperOf S) : Type 0 where
    pub fault : F
    pub holds : Holds m.storage bs
    pub valid : IsValid bs m.table
    pub sized : m.table.logical_size ≡ n

  covered :
      {b : ℕ} {f : ℕ → ℕ} {d : List ℕ}
      → Covers buf off b f d
      → (j : ℕ) → b ≡ j / 4096
      → get_or d (j % 4096) 0 ≡ overlay buf off f j
  covered {b} {f} c j e =
      c.bytes (j % 4096) (omega arith)
      ∙ ap (overlay buf off f) {x = b * 4096 + j % 4096} {y = j} (omega arith)

  abbrev last_block : ℕ
  last_block = (off + length buf - 1) / 4096

  -- The blocks of the loop hold all positions of the write.
  all_blocks :
      (f : ℕ → ℕ) (j : ℕ)
      → 0 < length buf
      → from_block (off / 4096) (last_block + 1 - off / 4096) (overlay buf off f) f j
        ≡ overlay buf off f j
  all_blocks f j h = ground arith

  module _ (P : Table → ℕ → Type 0)
      (push-P : (t : Table) (b : ℕ) (d : List ℕ)
        → b < max_blocks
        → length d ≡ 4096
        → P t b
        → P (push_pending (record { block_index = pos b; payload = d }) t) (b + 1)) where
    write_loop_lem :
        (rounds b : ℕ) {t : Table} {m : MapperOf S}
        → IsValid bs t
        → At Holds bs t m
        → P t b
        → off < (b + 1) * 4096
        → (b + rounds) * 4096 < off + length buf + 4096
        → b + rounds ≤ max_blocks
        → Returns
            (λ _ m'. Wrote P b rounds t m')
            (Stopped t.logical_size)
            (write_loop S rounds buf off b m)
    unfolding write_loop
    write_loop_lem zero b {t} {m} v a p starts ends small = done (record {
      holds = a.holds;
      valid = subst (IsValid bs) (sym a.same) v;
      bytes = λ j. ap (λ u. file_byte bs u j) a.same ∙ ground arith;
      kept =
          subst (P m.table) {x = b} {y = b + 0} (omega arith) (subst (λ u. P u b) (sym a.same) p);
      sized = ap (λ u. u.logical_size) a.same;
    })
    write_loop_lem (suc rounds) b {t} {m} v a p starts ends small =
        Returns-bind (block_data S buf off b)
          (λ d.
            on_table S (push_pending (record { block_index = pos b; payload = d }))
            >> write_loop S rounds buf off (b + 1))
          m (block_data_lem b v a starts (omega arith))
          (λ d m' q.
            let t' : Table = push_pending (record { block_index = pos b; payload = d }) t in
            Returns-weaken
              (write_loop_lem rounds (b + 1) {t = t'} (push_pending-IsValid b d q.0.whole v)
                (record {
                  holds = q.1.holds;
                  same = ap (push_pending (record { block_index = pos b; payload = d })) q.1.same;
                })
                (push-P t b d (omega arith) q.0.whole p) (omega arith) (omega arith) (omega arith))
              (λ _ m'' w. record {
                holds = w.holds;
                valid = w.valid;
                bytes = next d q.0 m'' w;
                kept =
                    subst (P m''.table) {x = b + 1 + rounds} {y = b + suc rounds} (omega arith)
                      w.kept;
                sized = w.sized;
              })
              (λ m'' e. e))
          (λ m' e. record {
            fault = e.0;
            holds = e.1.holds;
            valid = subst (IsValid bs) (sym e.1.same) v;
            sized = ap (λ u. u.logical_size) e.1.same;
          })
      where
        next :
            (d : List ℕ)
            → Covers buf off b (file_byte bs t) d
            → (m'' : MapperOf S)
            → Wrote P
                (b + 1)
                rounds
                (push_pending (record { block_index = pos b; payload = d }) t)
                m''
            → (j : ℕ)
            → file_byte bs m''.table j
              ≡ from_block b (suc rounds) (overlay buf off (file_byte bs t)) (file_byte bs t) j
        next d c m'' w j = ground (arith, w.bytes j, file_byte-push_pending bs t b d j, covered c j)

    -- The outcome of a write of at least one byte.
    pub record Written (t : Table) (m : MapperOf S) : Type 0 where
      pub holds : Holds m.storage bs
      pub valid : IsValid bs m.table
      pub bytes : (j : ℕ) → file_byte bs m.table j ≡ overlay buf off (file_byte bs t) j
      pub sized : m.table.logical_size ≡ max t.logical_size (off + length buf)
      pub before : Table
      pub kept : P before (last_block + 1)
      pub before_sized : before.logical_size ≡ t.logical_size
      pub grown : m.table ≡ record before { logical_size = max t.logical_size (off + length buf) }

    pub write_lem :
        {t : Table} {m : MapperOf S}
        → IsValid bs t
        → At Holds bs t m
        → P t (off / 4096)
        → 0 < length buf
        → off + length buf ≤ max_size
        → Returns (λ _ m'. Written t m') (Stopped t.logical_size) (write S buf (pos off) m)
    unfolding write file_byte find_pending
    write_lem {t} {m} v a p some_bytes small =
        rw
          (
            out_of_bounds-of_le (length buf) off small,
            if-not _ _ m.initialized (ap (λ u. u.initialized) a.same ∙ v.inited),
            ne_zero (length buf) some_bytes,
          )
          (Returns-bind (write_loop S (last_block + 1 - off / 4096) buf off (off / 4096))
            (λ _.
              on_table S (λ u. record u { logical_size = max u.logical_size (off + length buf) }))
            m
            (write_loop_lem (last_block + 1 - off / 4096) (off / 4096) v a p (omega arith)
              (omega arith) (omega arith))
            (λ _ m' w.
              done
                {s = record m' {
                  table = record m'.table {
                    logical_size = max m'.table.logical_size (off + length buf);
                  };
                }}
                (record {
                  holds = w.holds;
                  valid = record {
                    inited = w.valid.inited;
                    full = w.valid.full;
                    within = w.valid.within;
                  };
                  bytes = λ j. w.bytes j ∙ all_blocks (file_byte bs t) j some_bytes;
                  sized = ap (λ n. max n (off + length buf)) w.sized;
                  before = m'.table;
                  kept =
                      subst (P m'.table) {x = off / 4096 + (last_block + 1 - off / 4096)}
                        {y = last_block + 1} (omega arith) w.kept;
                  before_sized = w.sized;
                  grown =
                      ap (λ n. record m'.table { logical_size = max n (off + length buf) }) w.sized;
                }))
            (λ m' e. e))
