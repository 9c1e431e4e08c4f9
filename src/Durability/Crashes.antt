-- ===== src/Durability/Crashes.antt =====
-- A crash while `Sync` appends: the bytes that a prefix of its records leaves, as the recovery reads
-- them.
use sqlite_on_gcs_rapid.Base.{
  ℕ, ◌+◌, ◌-◌, ◌*◌, ◌%◌, ◌≤◌, ◌<◌, ◌≡◌, refl, sym, ap, ap₂, ◌∙◌, List, [], ◌∷◌, ◌++◌, append_assoc,
  append-nil, none, inl, inr, pos, length, take, replicate, get_or, slice, slice_middle,
  length-append, length-take, length-replicate, get_or-append_right, get_or-replicate,
  take-append_left, take-append_right, le-cases, subst, arith,
}
use sqlite_on_gcs_rapid.Status.{ok}
use sqlite_on_gcs_rapid.Table.{MetadataBlock, PendingRecord}
use sqlite_on_gcs_rapid.Mapper.{sync_record}
use sqlite_on_gcs_rapid.Mapper.Syncs.{encode_all, length-sync_record}
use sqlite_on_gcs_rapid.Recovery.{RecoveredRecord, decode_record}
use sqlite_on_gcs_rapid.Recovery.Scans.{Scans}
use sqlite_on_gcs_rapid.Recovery.Replay.{Event}
use sqlite_on_gcs_rapid.Recovery.Orphans.{Uncommitted}
use sqlite_on_gcs_rapid.Durability.{Represents, AllRepresent}
use sqlite_on_gcs_rapid.Durability.Appended.{size_of, decode_sync_record, length-Represents}

-- At most one record, in state 0.
abbrev pub AtMostPadding : List RecoveredRecord → Type 0
AtMostPadding [] = Unit {0}
AtMostPadding (z ∷ []) = z.is_good ≡ 0
AtMostPadding (z ∷ (y ∷ zs)) = ⊥

module _ (meta : MetadataBlock) where
  -- Behind `bs`, the bytes `tail` are records of a transaction that is not committed, and then at most
  -- one record of padding.
  pub record Torn (bs tail : List ℕ) : Type 0 where
    pub orphans : List RecoveredRecord
    pub paddings : List RecoveredRecord
    pub scanned : Scans meta (bs ++ tail) (length bs) (orphans ++ paddings)
    pub whole : length tail ≡ length (orphans ++ paddings) * 4105
    pub uncommitted : Uncommitted orphans
    pub padded : AtMostPadding paddings

  Torn-nil : (bs : List ℕ) → Torn bs []
  Torn-nil bs = record {
    orphans = [];
    paddings = [];
    scanned = tt;
    whole = omega arith;
    uncommitted = tt;
    padded = tt;
  }

  -- A record in state 0 is padding.
  decode_padding :
      (off : ℕ) (rb : List ℕ)
      → get_or rb 4104 0 ≡ 0
      → decode_record meta off rb
        ≡ ok (record { offset = off; block_index = pos 0; is_good = 0; new_size = none })
  unfolding decode_record
  decode_padding off rb h = rw h refl

  Torn-padding : (bs tail : List ℕ) → length tail ≡ 4105 → get_or tail 4104 0 ≡ 0 → Torn bs tail
  Torn-padding bs tail l h = record {
    orphans = [];
    paddings =
        record { offset = length bs; block_index = pos 0; is_good = 0; new_size = none } ∷ [];
    scanned = (
      omega (arith, l, length-append bs tail),
      ap (decode_record meta (length bs)) (
            ap (λ x. slice (length bs) 4105 (bs ++ x)) (sym (append-nil tail))
            ∙ slice_middle (length bs) 4105 bs tail [] refl l)
          ∙ decode_padding (length bs) tail h,
      tt,
    );
    whole = omega (arith, l);
    uncommitted = tt;
    padded = refl;
  }

  -- A record that is cut off after `k` bytes, filled up with zeros.
  Torn-record :
      (bs rb : List ℕ) (k : ℕ)
      → length rb ≡ 4105
      → k < 4105
      → Torn bs (take k rb ++ replicate (4105 - k) 0)
  Torn-record bs rb k l h =
      Torn-padding bs (take k rb ++ replicate (4105 - k) 0)
        (omega (
          arith,
          cut_length,
          length-append (take k rb) (replicate (4105 - k) 0),
          length-replicate {A = ℕ} (4105 - k) 0,
        ))
        (ap (λ i. get_or (take k rb ++ replicate (4105 - k) 0) i 0) {x = 4104}
            {y = length (take k rb) + (4104 - k)} (omega (arith, cut_length))
          ∙ get_or-append_right (take k rb) (replicate (4105 - k) 0) (4104 - k) 0
          ∙ get_or-replicate (4105 - k) 0 (4104 - k))
    where
      cut_length : length (take k rb) ≡ k
      cut_length = length-take k rb (omega arith)

  -- A whole record in state 2 in front of the others.
  Torn-cons :
      (bs tail : List ℕ) (r x : PendingRecord) (rs : List PendingRecord) (e : Event)
      → Represents meta r e
      → Torn (bs ++ sync_record r (x ∷ rs)) tail
      → Torn bs (sync_record r (x ∷ rs) ++ tail)
  Torn-cons bs tail r x rs e h n = record {
    orphans = o ∷ n.orphans;
    paddings = n.paddings;
    scanned = (
      omega (arith, whole, length-append bs (rb ++ tail), length-append rb tail),
      ap (decode_record meta (length bs)) (slice_middle (length bs) 4105 bs rb tail refl whole)
          ∙ decode_sync_record meta (length bs) r (x ∷ rs) e h,
      subst (λ b. Scans meta b (length bs + 4105) (n.orphans ++ n.paddings))
          (append_assoc bs rb tail)
          (subst (λ i. Scans meta ((bs ++ rb) ++ tail) i (n.orphans ++ n.paddings)) next n.scanned),
    );
    whole = omega (arith, whole, length-append rb tail, n.whole);
    uncommitted = (refl, n.uncommitted);
    padded = n.padded;
  }
    where
      rb : List ℕ
      rb = sync_record r (x ∷ rs)

      o : RecoveredRecord
      o = record {
        offset = length bs;
        block_index = r.block_index;
        is_good = 2;
        new_size = size_of e;
      }

      whole : length rb ≡ 4105
      whole = length-sync_record r (x ∷ rs) (length-Represents meta r e h)

      next : length (bs ++ rb) ≡ length bs + 4105
      next = omega (arith, length-append bs rb, whole)

  module _ (bs : List ℕ) (r : PendingRecord) (rs : List PendingRecord) (k p : ℕ)
      (l : k < length (sync_record r rs ++ encode_all rs)) (w : (k + p) % 4105 ≡ 0)
      (q : p < 4105) where
    abbrev rest : List ℕ
    rest = take k (sync_record r rs ++ encode_all rs) ++ replicate p 0

    Torn-none : k ≤ 0 → Torn bs rest
    unfolding take replicate
    Torn-none h =
        let nothing : 0 ≡ k = omega arith in
        let no_zeros : 0 ≡ p = omega arith in
        subst (Torn bs)
          (ap₂ (λ i j. take i (sync_record r rs ++ encode_all rs) ++ replicate j 0) nothing
            no_zeros)
          (Torn-nil bs)

    Torn-within : length (sync_record r rs) ≡ 4105 → 0 < k → k < 4105 → Torn bs rest
    Torn-within h a b =
        let zeros : 4105 - k ≡ p = omega arith in
        subst (Torn bs)
          (ap₂ (λ x i. x ++ replicate i 0)
            (sym (take-append_left k (sync_record r rs) (encode_all rs) (omega arith))) zeros)
          (Torn-record bs (sync_record r rs) k h b)

  Torn-behind :
      (bs : List ℕ) (r : PendingRecord) (rs : List PendingRecord) (e : Event) (k p : ℕ)
      → Represents meta r e
      → k < length (sync_record r rs ++ encode_all rs)
      → 4105 ≤ k
      → (k - 4105 < length (encode_all rs)
          → Torn (bs ++ sync_record r rs) (take (k - 4105) (encode_all rs) ++ replicate p 0))
      → Torn bs (take k (sync_record r rs ++ encode_all rs) ++ replicate p 0)
  unfolding encode_all
  Torn-behind bs r [] e k p h l b next = absurd (
      omega (
        arith,
        length-append (sync_record r []) [],
        length-sync_record r [] (length-Represents meta r e h),
      ))
  Torn-behind bs r (x ∷ rs) e k p h l b next =
      subst (Torn bs)
        (sym (append_assoc rb (take (k - 4105) more) (replicate p 0))
          ∙ ap (λ i. (rb ++ take i more) ++ replicate p 0) {x = k - 4105} {y = k - length rb}
              (omega (arith, whole))
          ∙ ap (λ t. t ++ replicate p 0) (sym (take-append_right k rb more (omega (arith, whole)))))
        (Torn-cons bs (take (k - 4105) more ++ replicate p 0) r x rs e h
          (next (omega (arith, whole, length-append rb more))))
    where
      rb : List ℕ
      rb = sync_record r (x ∷ rs)

      more : List ℕ
      more = encode_all (x ∷ rs)

      whole : length rb ≡ 4105
      whole = length-sync_record r (x ∷ rs) (length-Represents meta r e h)

  -- A proper prefix of what `Sync` appends, filled up with `p` zeros to whole records.
  pub Torn-take :
      (rs : List PendingRecord) (es : List Event) (bs : List ℕ) (k p : ℕ)
      → AllRepresent meta rs es
      → k < length (encode_all rs)
      → (k + p) % 4105 ≡ 0
      → p < 4105
      → Torn bs (take k (encode_all rs) ++ replicate p 0)
  unfolding encode_all
  Torn-take [] es bs k p h l w q = absurd (omega arith)
  Torn-take (r ∷ rs) [] bs k p h l w q = absurd h
  Torn-take (r ∷ rs) (e ∷ es) bs k p h l w q = elim (le-cases k 0) [
    | inl a ↦ Torn-none bs r rs k p l w q a
    | inr a ↦ elim (le-cases 4105 k) [
      | inl b ↦
          Torn-behind bs r rs e k p h.0 l b
            (λ d. Torn-take rs es (bs ++ sync_record r rs) (k - 4105) p h.1 d (omega arith) q)
      | inr b ↦
          Torn-within bs r rs k p l w q (length-sync_record r rs (length-Represents meta r e h.0))
            (omega arith) (omega arith)
    ]
  ]
