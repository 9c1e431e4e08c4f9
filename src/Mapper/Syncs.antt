-- ===== src/Mapper/Syncs.antt =====
-- `Sync`: the storage and the logical file after it.
pub mod Appends
pub mod Loops
unfoldable pub use Appends.*
use sqlite_on_gcs_rapid.Base.{
  ℕ, ◌+◌, ◌≤◌, ◌≡◌, refl, sym, ap, ap₂, ◌∙◌, List, [], ◌∷◌, ◌++◌, append-nil, append_assoc, Option,
  none, some, ℤ, pos, negsuc, ◌==◌, ◌==ℤ◌, if◌then◌else◌, if-not, length, take, take-prefix,
  take-ge, take-append_more, min, slice, length-append, slice-append_left, slice-append_right,
  Bool-cases, inl, inr, subst, arith,
}
use sqlite_on_gcs_rapid.Status.{◌>>◌}
use sqlite_on_gcs_rapid.Status.Returns.{Returns, done, Returns-bind, Returns-weaken}
use sqlite_on_gcs_rapid.Storage.{Storage, IsLawful}
use sqlite_on_gcs_rapid.Record.Codec.{length-encode_record, payload-encode_record}
use sqlite_on_gcs_rapid.Table.{PendingRecord, Table, mapped_at, put_mapping}
use sqlite_on_gcs_rapid.View.{stored, or_else, block_at, IsValid, At, AllFull}
use sqlite_on_gcs_rapid.View.Lookup.{
  last_record, find_pending-eq-last_record, or_else_assoc, mapped_at-put_mapping,
}
use sqlite_on_gcs_rapid.Mapper.{
  MapperOf, on_storage, on_table, sync_record, note_offset, sync_loop, flush, sync,
}
use sqlite_on_gcs_rapid.Mapper.Reads.{Fault, on_storage_lem}
use sqlite_on_gcs_rapid.Mapper.Syncs.Loops.{Synced, Broken, sync_loop_lem}

module _ {S : Storage} {Holds : S.State → List ℕ → Type 0} {F : Type 0}
    (lawful : IsLawful S Holds F) where
  -- The outcome of `Sync`: the pending records are in the storage, and the file reads as before.
  pub record Flushed (bs : List ℕ) (t : Table) (m : MapperOf S) : Type 0 where
    pub holds : Holds m.storage (bs ++ encode_all t.pending_records)
    pub valid : IsValid (bs ++ encode_all t.pending_records) m.table
    pub flushed : m.table.pending_records ≡ []
    pub sized : m.table.logical_size ≡ t.logical_size
    pub blocks : (b : ℕ) → block_at (bs ++ encode_all t.pending_records) m.table b ≡ block_at bs t b

  -- A failed `Sync`: the file reads as before too.
  pub record Unflushed (bs : List ℕ) (t : Table) (m : MapperOf S) : Type 0 where
    pub fault : F
    pub after : List ℕ
    pub cut : ℕ
    pub prefix : after ≡ take cut (encode_all t.pending_records)
    pub holds : Holds m.storage (bs ++ after)
    pub valid : IsValid (bs ++ after) m.table
    pub sized : m.table.logical_size ≡ t.logical_size
    pub blocks : (b : ℕ) → block_at (bs ++ after) m.table b ≡ block_at bs t b

  block_at-eq-last_record :
      (bs : List ℕ) (t : Table) (b : ℕ)
      → block_at bs t b
        ≡ or_else
            (last_record (pos b) t.pending_records)
            (stored bs (mapped_at t.logical_to_physical b))
  unfolding block_at
  block_at-eq-last_record bs t b =
      ap (λ o. or_else o (stored bs (mapped_at t.logical_to_physical b)))
        (find_pending-eq-last_record (pos b) t)

  -- A stopped loop keeps the pending records, which hide what it has moved.
  Broken-Unflushed :
      (bs : List ℕ) (t : Table) (m : MapperOf S)
      → IsValid bs t
      → Broken lawful t.pending_records bs t m
      → Unflushed bs t m
  Broken-Unflushed bs t m v x = record {
    fault = x.fault;
    after = x.after;
    cut = x.cut;
    prefix = x.prefix;
    holds = x.holds;
    valid = record {
      inited = x.rest.inited ∙ v.inited;
      full = subst AllFull (sym x.rest.pending) v.full;
      within = x.within;
    };
    sized = x.rest.sized;
    blocks = λ b.
        block_at-eq-last_record (bs ++ x.after) m.table b
        ∙ ap
            (λ rs.
              or_else (last_record (pos b) rs)
                (stored (bs ++ x.after) (mapped_at m.table.logical_to_physical b)))
            x.rest.pending
        ∙ hides (last_record (pos b) t.pending_records) _ _ (x.hidden b)
        ∙ sym (block_at-eq-last_record bs t b);
  }
    where
      hides : (o p q : Option (List ℕ)) → (o ≡ none → p ≡ q) → or_else o p ≡ or_else o q
      hides none p q h = h refl
      hides (some d) p q h = refl

  -- The table after the loop, with the pending records dropped.
  abbrev dropped : Table → Table
  dropped u = record u { pending_records = [] }

  Synced-blocks :
      (bs : List ℕ) (t : Table) (m : MapperOf S)
      → Synced lawful t.pending_records bs t m
      → (b : ℕ)
      → block_at (bs ++ encode_all t.pending_records) (dropped m.table) b ≡ block_at bs t b
  Synced-blocks bs t m s b =
      block_at-eq-last_record (bs ++ encode_all t.pending_records) (dropped m.table) b
      ∙ unfold last_record in s.shown b ∙ sym (block_at-eq-last_record bs t b)

  Synced-IsValid :
      (bs : List ℕ) (t : Table) (m : MapperOf S)
      → IsValid bs t
      → Synced lawful t.pending_records bs t m
      → IsValid (bs ++ encode_all t.pending_records) (dropped m.table)
  Synced-IsValid bs t m v s = record {
    inited = s.rest.inited ∙ v.inited;
    full = tt;
    within = s.within;
  }

  -- `Sync` of an empty list.
  sync_storage_lem :
      {bs : List ℕ} {t : Table} {m : MapperOf S}
      → IsValid bs t
      → At Holds bs t m
      → Returns (λ _ m'. At Holds bs t m') (Fault lawful bs t) (on_storage S S.sync m)
  sync_storage_lem {bs} {t} {m} v a =
      Returns-weaken (on_storage_lem lawful S.sync m a.same (lawful.sync_lem m.storage a.holds))
        (λ _ m' q. record { holds = q.0; same = q.1 })
        (λ m' q. (q.0.0, record { holds = q.0.1; same = q.1 }))

  -- Nothing was pending, and nothing has changed.
  module _ (bs : List ℕ) (t : Table) (m : MapperOf S) (v : IsValid bs t) (q : At Holds bs t m) where
    Flushed-nil : t.pending_records ≡ [] → Flushed bs t m
    Flushed-nil e = record {
      holds = subst (Holds m.storage) (sym p) q.holds;
      valid = subst (λ x. IsValid x m.table) (sym p) (subst (IsValid bs) (sym q.same) v);
      flushed = ap (λ u. u.pending_records) q.same ∙ e;
      sized = ap (λ u. u.logical_size) q.same;
      blocks = λ b. ap₂ (λ x u. block_at x u b) p q.same;
    }
      where
        p : bs ++ encode_all t.pending_records ≡ bs
        p = ap (λ rs. bs ++ encode_all rs) e ∙ unfold encode_all in append-nil bs

    Unflushed-nil : F → Unflushed bs t m
    Unflushed-nil f = record {
      fault = f;
      after = [];
      cut = 0;
      prefix = unfold take in refl;
      holds = subst (Holds m.storage) (sym (append-nil bs)) q.holds;
      valid =
          subst (λ x. IsValid x m.table) (sym (append-nil bs)) (subst (IsValid bs) (sym q.same) v);
      sized = ap (λ u. u.logical_size) q.same;
      blocks = λ b. ap₂ (λ x u. block_at x u b) (append-nil bs) q.same;
    }

  -- All has been appended; the last call was the storage's `Sync`.
  module _ (bs : List ℕ) (t : Table) (m : MapperOf S) (v : IsValid bs t)
      (s : Synced lawful t.pending_records bs t m) (m' : MapperOf S)
      (q : At Holds (bs ++ encode_all t.pending_records) (dropped m.table) m') where
    Flushed-Synced : Flushed bs t m'
    Flushed-Synced = record {
      holds = q.holds;
      valid =
          subst (IsValid (bs ++ encode_all t.pending_records)) (sym q.same)
            (Synced-IsValid bs t m v s);
      flushed = ap (λ u. u.pending_records) q.same;
      sized = ap (λ u. u.logical_size) q.same ∙ s.rest.sized;
      blocks = λ b.
          ap (λ u. block_at (bs ++ encode_all t.pending_records) u b) q.same
          ∙ Synced-blocks bs t m s b;
    }

    Unflushed-Synced : F → Unflushed bs t m'
    Unflushed-Synced f = record {
      fault = f;
      after = encode_all t.pending_records;
      cut = length (encode_all t.pending_records);
      prefix = sym (take-ge (length (encode_all t.pending_records)) _ (omega arith));
      holds = q.holds;
      valid = Flushed-Synced.valid;
      sized = Flushed-Synced.sized;
      blocks = Flushed-Synced.blocks;
    }

  flush_lem :
      (rs : List PendingRecord) {bs : List ℕ} {t : Table} {m : MapperOf S}
      → t.pending_records ≡ rs
      → IsValid bs t
      → At Holds bs t m
      → Returns (λ _ m'. Flushed bs t m') (Unflushed bs t) (flush S rs m)
  unfolding flush
  flush_lem [] {bs} {t} {m} e v a =
      Returns-weaken (sync_storage_lem v a) (λ _ m' q. Flushed-nil bs t m' v q e)
        (λ m' x. Unflushed-nil bs t m' v x.1 x.0)
  flush_lem (r ∷ rs) {bs} {t} {m} e v a =
      Returns-bind (sync_loop S (r ∷ rs)) (λ _. on_table S dropped >> on_storage S S.sync) m
        (sync_loop_lem lawful (r ∷ rs) bs t m (subst AllFull e v.full) v.within a)
        (λ _ m' s.
          let s' : Synced lawful t.pending_records bs t m' =
            subst (λ x. Synced lawful x bs t m') (sym e) s in
          Returns-weaken
            (sync_storage_lem {m = record m' { table = dropped m'.table }}
              (Synced-IsValid bs t m' v s') (record { holds = s'.holds; same = refl }))
            (λ _ m'' q. Flushed-Synced bs t m' v s' m'' q)
            (λ m'' x. Unflushed-Synced bs t m' v s' m'' x.1 x.0))
        (λ m' x. Broken-Unflushed bs t m' v (subst (λ y. Broken lawful y bs t m') (sym e) x))

  -- On a valid mapper over a lawful storage, `Sync` appends the encoded pending records to the
  -- storage, clears them, and leaves every block of the logical file and its size as they were, in
  -- a valid mapper. If it fails, the storage has a fault, and what it leaves is a mapper that still
  -- shows the same file.
  pub sync_lem :
      {bs : List ℕ} {t : Table} {m : MapperOf S}
      → IsValid bs t
      → At Holds bs t m
      → Returns (λ _ m'. Flushed bs t m') (Unflushed bs t) (sync S m)
  unfolding sync
  sync_lem {bs} {t} {m} v a =
      rw (if-not _ _ m.initialized (ap (λ u. u.initialized) a.same ∙ v.inited))
        (flush_lem m.pending_records (sym (ap (λ u. u.pending_records) a.same)) v a)
