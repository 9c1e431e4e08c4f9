-- ===== src/Mapper/Syncs/Loops.antt =====
-- The loop of `Sync`: all records appended, or the first ones.
use sqlite_on_gcs_rapid.Base.{
  ℕ, ◌+◌, ◌≡◌, refl, sym, ap, ap₂, ◌∙◌, List, [], ◌∷◌, ◌++◌, append-nil, append_assoc, none, some,
  pos, ◌==ℤ◌, if◌then◌else◌, length, take, take-prefix, take-append_more, min, subst, arith,
}
use sqlite_on_gcs_rapid.Status.{◌>>◌}
use sqlite_on_gcs_rapid.Status.Returns.{Returns, done, Returns-bind, Returns-weaken}
use sqlite_on_gcs_rapid.Storage.{Storage, IsLawful}
use sqlite_on_gcs_rapid.Table.{PendingRecord, Table, mapped_at}
use sqlite_on_gcs_rapid.View.{stored, or_else, At, AllFull}
use sqlite_on_gcs_rapid.View.Lookup.{last_record, or_else_assoc}
use sqlite_on_gcs_rapid.Mapper.{MapperOf, on_storage, on_table, sync_record, note_offset, sync_loop}
use sqlite_on_gcs_rapid.Mapper.Reads.{on_storage_lem}
use sqlite_on_gcs_rapid.Mapper.Syncs.Appends.{
  encode_all, length-sync_record, payload-sync_record, Within, stored-append, Within-append,
  Within-note_offset, stored-note_offset, SameRest, note_offset-SameRest,
}

module _ {S : Storage} {Holds : S.State → List ℕ → Type 0} {F : Type 0}
    (lawful : IsLawful S Holds F) where
  -- All of `rs` have been appended.
  pub record Synced (rs : List PendingRecord) (bs : List ℕ) (t : Table) (m : MapperOf S)
      : Type 0 where
    pub holds : Holds m.storage (bs ++ encode_all rs)
    pub within : Within (bs ++ encode_all rs) m.table.logical_to_physical
    pub shown :
        (b : ℕ)
        → stored (bs ++ encode_all rs) (mapped_at m.table.logical_to_physical b)
          ≡ or_else (last_record (pos b) rs) (stored bs (mapped_at t.logical_to_physical b))
    pub rest : SameRest t m.table

  -- The loop stopped, with `after` appended.
  pub record Broken (rs : List PendingRecord) (bs : List ℕ) (t : Table) (m : MapperOf S)
      : Type 0 where
    pub fault : F
    pub after : List ℕ
    pub cut : ℕ
    pub prefix : after ≡ take cut (encode_all rs)
    pub holds : Holds m.storage (bs ++ after)
    pub within : Within (bs ++ after) m.table.logical_to_physical
    pub hidden :
        (b : ℕ)
        → last_record (pos b) rs ≡ none
        → stored (bs ++ after) (mapped_at m.table.logical_to_physical b)
          ≡ stored bs (mapped_at t.logical_to_physical b)
    pub rest : SameRest t m.table

  Broken-append :
      (r : PendingRecord) (rs : List PendingRecord) (bs : List ℕ) (t : Table) (m : MapperOf S)
      → Within bs t.logical_to_physical
      → m.table ≡ t
      → (k : ℕ) × F × Holds m.storage (bs ++ take k (sync_record r rs))
      → Broken (r ∷ rs) bs t m
  unfolding encode_all
  Broken-append r rs bs t m w e (k, f, h) = record {
    fault = f;
    after = take k (sync_record r rs);
    cut = min k (length (sync_record r rs));
    prefix = sym (take-prefix k (sync_record r rs) (encode_all rs));
    holds = h;
    within =
        subst (λ u. Within (bs ++ take k (sync_record r rs)) u.logical_to_physical) (sym e)
          (Within-append bs (take k (sync_record r rs)) t.logical_to_physical w);
    hidden = λ b _.
        ap (λ u. stored (bs ++ take k (sync_record r rs)) (mapped_at u.logical_to_physical b)) e
        ∙ stored-append bs (take k (sync_record r rs)) (mapped_at t.logical_to_physical b) (w b);
    rest = subst (SameRest t) (sym e) (record { pending = refl; sized = refl; inited = refl });
  }

  module _ (r : PendingRecord) (rs : List PendingRecord) (bs : List ℕ) (t : Table) (m : MapperOf S)
      (full : length r.payload ≡ 4096) (w : Within bs t.logical_to_physical) where
    step_shown :
        (b : ℕ)
        → stored
            (bs ++ sync_record r rs)
            (mapped_at (note_offset r.block_index (length bs) t).logical_to_physical b)
          ≡ or_else
              (if r.block_index ==ℤ pos b then some r.payload else none)
              (stored bs (mapped_at t.logical_to_physical b))
    step_shown b =
        stored-note_offset bs t w (sync_record r rs) (length-sync_record r rs full) r.block_index
          r.payload (payload-sync_record r rs full) b

    Synced-cons :
        Synced rs (bs ++ sync_record r rs) (note_offset r.block_index (length bs) t) m
        → Synced (r ∷ rs) bs t m
    unfolding encode_all last_record
    Synced-cons s = record {
      holds = subst (Holds m.storage) assoc s.holds;
      within = subst (λ x. Within x m.table.logical_to_physical) assoc s.within;
      shown = λ b.
          ap (λ x. stored x (mapped_at m.table.logical_to_physical b)) (sym assoc)
          ∙ s.shown b
          ∙ ap (or_else (last_record (pos b) rs)) (step_shown b)
          ∙ sym (
              or_else_assoc (last_record (pos b) rs)
                (if r.block_index ==ℤ pos b then some r.payload else none)
                (stored bs (mapped_at t.logical_to_physical b)));
      rest = note_offset-SameRest r.block_index (length bs) t m.table s.rest;
    }
      where
        assoc :
            (bs ++ sync_record r rs) ++ encode_all rs ≡ bs ++ (sync_record r rs ++ encode_all rs)
        assoc = append_assoc bs (sync_record r rs) (encode_all rs)

    Broken-cons :
        Broken rs (bs ++ sync_record r rs) (note_offset r.block_index (length bs) t) m
        → Broken (r ∷ rs) bs t m
    unfolding encode_all last_record
    Broken-cons x = record {
      fault = x.fault;
      after = sync_record r rs ++ x.after;
      cut = length (sync_record r rs) + x.cut;
      prefix =
          ap (λ u. sync_record r rs ++ u) x.prefix
          ∙ sym (take-append_more x.cut (sync_record r rs) (encode_all rs));
      holds = subst (Holds m.storage) assoc x.holds;
      within = subst (λ y. Within y m.table.logical_to_physical) assoc x.within;
      hidden = λ b h.
          ap (λ y. stored y (mapped_at m.table.logical_to_physical b)) (sym assoc)
          ∙ x.hidden b (ground arith)
          ∙ step_shown b
          ∙ ground arith;
      rest = note_offset-SameRest r.block_index (length bs) t m.table x.rest;
    }
      where
        assoc : (bs ++ sync_record r rs) ++ x.after ≡ bs ++ (sync_record r rs ++ x.after)
        assoc = append_assoc bs (sync_record r rs) x.after

  pub sync_loop_lem :
      (rs : List PendingRecord) (bs : List ℕ) (t : Table) (m : MapperOf S)
      → AllFull rs
      → Within bs t.logical_to_physical
      → At Holds bs t m
      → Returns (λ _ m'. Synced rs bs t m') (Broken rs bs t) (sync_loop S rs m)
  unfolding sync_loop encode_all last_record
  sync_loop_lem [] bs t m full w a = done (record {
    holds = subst (Holds m.storage) (sym (append-nil bs)) a.holds;
    within =
        subst (λ x. Within x m.table.logical_to_physical) (sym (append-nil bs))
          (subst (λ u. Within bs u.logical_to_physical) (sym a.same) w);
    shown = λ b. ap₂ (λ x u. stored x (mapped_at u.logical_to_physical b)) (append-nil bs) a.same;
    rest = subst (SameRest t) (sym a.same) (record { pending = refl; sized = refl; inited = refl });
  })
  sync_loop_lem (r ∷ rs) bs t m full w a =
      let rb : List ℕ = sync_record r rs in
      let whole : length rb ≡ 4105 = length-sync_record r rs full.0 in
      let t' : Table = note_offset r.block_index (length bs) t in
      Returns-bind (on_storage S (S.append rb))
        (λ off. on_table S (note_offset r.block_index off) >> sync_loop S rs) m
        (on_storage_lem lawful (S.append rb) m a.same (lawful.append_lem rb m.storage a.holds))
        (λ off m' q.
          Returns-weaken
            (sync_loop_lem rs (bs ++ rb) t'
              (record m' { table = note_offset r.block_index off m'.table }) full.1
              (Within-note_offset bs t w rb whole r.block_index)
              (record { holds = q.0.1; same = ap₂ (note_offset r.block_index) q.0.0 q.1 }))
            (λ _ m'' s. Synced-cons r rs bs t m'' full.0 w s)
            (λ m'' x. Broken-cons r rs bs t m'' full.0 w x))
        (λ m' x. Broken-append r rs bs t m' w x.1 x.0)
