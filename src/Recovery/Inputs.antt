-- ===== src/Recovery/Inputs.antt =====
-- `Init` over a storage with any bytes.
use sqlite_on_gcs_rapid.Base.{
  ℕ, zero, suc, ◌+◌, ◌-◌, ◌*◌, ◌/◌, ◌%◌, ◌≤◌, ◌<◌, ◌≡◌, refl, sym, ap, ◌∙◌, inl, inr, List, [], ◌∷◌,
  ◌++◌, append-nil, pos, ◌==◌, eq→==, if◌then◌else◌, length, length-append, length-replicate,
  length-slice, slice, subst, le-cases, arith,
}
use sqlite_on_gcs_rapid.Status.{Result, ok, err, internal, Exec, lift, raise, pure, ◌>>=◌}
use sqlite_on_gcs_rapid.Status.Returns.{Returns, done, failed, Returns-bind, Returns-weaken}
use sqlite_on_gcs_rapid.Storage.{Storage, IsLawful}
use sqlite_on_gcs_rapid.Record.{max_size}
use sqlite_on_gcs_rapid.Table.{MetadataBlock, fresh}
use sqlite_on_gcs_rapid.View.{IsValid}
use sqlite_on_gcs_rapid.Mapper.{MapperOf, on_storage, on_table}
use sqlite_on_gcs_rapid.Mapper.Reads.{on_storage_lem}
use sqlite_on_gcs_rapid.Recovery.{
  RecoveredRecord, recovered_table, scan, align, init, decode_record, applied_flags,
}
use sqlite_on_gcs_rapid.Recovery.Scans.{Scans}
use sqlite_on_gcs_rapid.Durability.Restart.{recovered_table-IsValid}
use sqlite_on_gcs_rapid.Recovery.Paddings.{padding_of, align_lem}
use sqlite_on_gcs_rapid.Recovery.Bounds.{apply_records-le}

module _ {S : Storage} {Holds : S.State → List ℕ → Type 0} {F : Type 0}
    (lawful : IsLawful S Holds F) (meta : MetadataBlock) where
  decoded :
      (bs : List ℕ) (s : S.State) (r : Result RecoveredRecord)
      → Holds s bs
      → Returns (λ x s'. (r ≡ ok x) × Holds s' bs) (λ s'. Holds s' bs) (lift r s)
  decoded bs s (ok x) h = done (refl, h)
  decoded bs s (err c) h = failed h

  scan-Scans :
      (rounds off : ℕ) (bs : List ℕ) (s : S.State)
      → off + rounds * 4105 ≤ length bs
      → Holds s bs
      → Returns
          (λ rs s'. Scans meta bs off rs × Holds s' bs)
          (λ s'. Holds s' bs)
          (scan meta S rounds off s)
  unfolding scan
  scan-Scans zero off bs s h k = done (tt, k)
  scan-Scans (suc rounds) off bs s h k =
      Returns-bind (S.pread 4105 (pos off))
        (λ buf. checked buf >>= λ x. scan meta S rounds (off + 4105) >>= λ xs. pure (x ∷ xs)) s
        (lawful.pread_lem 4105 off s k (omega (arith, h)))
        (λ buf s' q.
          Returns-bind (checked buf) (λ x. scan meta S rounds (off + 4105) >>= λ xs. pure (x ∷ xs))
            s' (checked_lem buf s' q.0 q.1)
            (λ x s'' p.
              Returns-bind (scan meta S rounds (off + 4105)) (λ xs. pure (x ∷ xs)) s''
                (scan-Scans rounds (off + 4105) bs s'' (omega (arith, h)) p.1)
                (λ xs s₃ o. done ((omega (arith, h), p.0, o.0), o.1)) (λ s₃ e. e))
            (λ s'' e. e))
        (λ s' e. e.1)
    where
      checked : List ℕ → Exec S.State RecoveredRecord
      checked buf = if length buf == 4105 then lift (decode_record meta off buf) else raise internal

      checked_lem :
          (buf : List ℕ) (s' : S.State)
          → buf ≡ slice off 4105 bs
          → Holds s' bs
          → Returns
              (λ x s''. (decode_record meta off (slice off 4105 bs) ≡ ok x) × Holds s'' bs)
              (λ s''. Holds s'' bs)
              (checked buf s')
      checked_lem buf s' e k' =
          rw
            (
              eq→== (length buf) 4105 (ap length e ∙ length-slice off 4105 bs (omega (arith, h))),
              ap (decode_record meta off) e,
            )
            (decoded bs s' (decode_record meta off (slice off 4105 bs)) k')

  -- What an `Init` that succeeds leaves: the bytes `bs` with some more behind them, and a valid table
  -- within the bounds, made of records that stand in these bytes.
  pub record Opened (bs : List ℕ) (m : MapperOf S) : Type 0 where
    pub more : List ℕ
    pub short : length more < 4105
    pub holds : Holds m.storage (bs ++ more)
    pub log : List RecoveredRecord
    pub scanned : Scans meta (bs ++ more) 0 log
    pub same : m.table ≡ recovered_table log fresh
    pub valid : IsValid (bs ++ more) m.table
    pub fits : m.table.logical_size ≤ max_size

  -- A failure: some bytes may stand behind the old ones, and nothing is in memory.
  pub record Refused (bs : List ℕ) (m : MapperOf S) : Type 0 where
    pub more : List ℕ
    pub holds : Holds m.storage (bs ++ more)
    pub same : m.table ≡ fresh

  -- The size after the alignment.
  Aligned : List ℕ → ℕ → S.State → Type 0
  Aligned bs p s =
      (more : List ℕ) × (length more < 4105)
      × (p ≡ length (bs ++ more))
      × (p % 4105 ≡ 0)
      × Holds s (bs ++ more)

  align-Aligned :
      (bs : List ℕ) (s : S.State)
      → Holds s bs
      → Returns (Aligned bs) (λ s'. (more : List ℕ) × Holds s' (bs ++ more)) (align S (length bs) s)
  unfolding align Aligned
  align-Aligned bs s h = elim (le-cases (length bs % 4105) 0) [
    | inl whole ↦ rw (eq→== (length bs % 4105) 0 (omega (arith, whole))) (
        done (
          [],
          (omega arith),
          ap length (sym (append-nil bs)),
          omega (arith, whole),
          subst (Holds s) (sym (append-nil bs)) h,
        ))
    | inr torn ↦
        Returns-weaken (align_lem lawful meta bs s (omega (arith, torn)) h)
          (λ p s' q. (
            padding_of bs,
            omega (arith, torn, length-replicate {A = ℕ} (4105 - length bs % 4105) 0),
            q.0,
            omega (
              arith,
              torn,
              q.0,
              length-append bs (padding_of bs),
              length-replicate {A = ℕ} (4105 - length bs % 4105) 0,
            ),
            q.1,
          ))
          (λ s' x. x.1)
  ]

  after_scan : List RecoveredRecord → Exec (MapperOf S) (Unit {0})
  after_scan rs = on_table S (recovered_table rs)

  after_align : ℕ → Exec (MapperOf S) (Unit {0})
  after_align p = on_storage S (scan meta S ((p + 4104) / 4105) 0) >>= after_scan

  after_size : ℕ → Exec (MapperOf S) (Unit {0})
  after_size size = on_storage S (align S size) >>= after_align

  opened :
      (bs more : List ℕ) (log : List RecoveredRecord) (m : MapperOf S)
      → length more < 4105
      → Scans meta (bs ++ more) 0 log
      → Holds m.storage (bs ++ more)
      → m.table ≡ recovered_table log fresh
      → Opened bs m
  unfolding recovered_table
  opened bs more log m l h k e = record {
    more = more;
    short = l;
    holds = k;
    log = log;
    scanned = h;
    same = e;
    valid = subst (IsValid (bs ++ more)) (sym e) (recovered_table-IsValid meta (bs ++ more) log h);
    fits =
        subst (λ u. u.logical_size ≤ max_size) (sym e)
          (apply_records-le meta (bs ++ more) 0 log (applied_flags log) fresh h (omega arith));
  }

  -- Whatever bytes a lawful storage holds, `Init` of a new mapper never takes them away: it fails and
  -- leaves the table as it was, or it adds less than one record and leaves a valid table, whose blocks
  -- all lie within the storage and whose size is within the bounds.
  pub init-Opened :
      (bs : List ℕ) (s : S.State)
      → Holds s bs
      → Returns
          (λ _ m. Opened bs m)
          (λ m. Refused bs m)
          (init meta S (record { storage = s; table = fresh }))
  unfolding init after_size after_align after_scan Aligned
  init-Opened bs s h =
      Returns-bind (on_storage S S.get_size) after_size (record { storage = s; table = fresh })
        (on_storage_lem lawful S.get_size (record { storage = s; table = fresh }) refl
          (lawful.get_size_lem s h))
        (λ size m₁ q.
          Returns-bind (on_storage S (align S size)) after_align m₁
            (on_storage_lem lawful (align S size) m₁ q.1 (
              subst
                (λ n.
                  Returns (Aligned bs) (λ s'. (more : List ℕ) × Holds s' (bs ++ more))
                    (align S n m₁.storage))
                (sym q.0.0) (align-Aligned bs m₁.storage q.0.1)))
            (λ p m₂ a.
              Returns-bind (on_storage S (scan meta S ((p + 4104) / 4105) 0)) after_scan m₂
                (on_storage_lem lawful (scan meta S ((p + 4104) / 4105) 0) m₂ a.1 (
                  scan-Scans ((p + 4104) / 4105) 0 (bs ++ a.0.0) m₂.storage
                    (omega (arith, a.0.2, a.0.3)) a.0.4))
                (λ rs m₃ z. done (
                  opened bs a.0.0 rs
                    (record { storage = m₃.storage; table = recovered_table rs m₃.table }) a.0.1
                    z.0.0 z.0.1 (ap (recovered_table rs) z.1)))
                (λ m₃ x. record { more = a.0.0; holds = x.0; same = x.1 }))
            (λ m₂ x. record { more = x.0.0; holds = x.0.1; same = x.1 }))
        (λ m₁ x. record {
          more = [];
          holds = subst (Holds m₁.storage) (sym (append-nil bs)) x.0.1;
          same = x.1;
        })
