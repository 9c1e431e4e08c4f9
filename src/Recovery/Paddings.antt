-- ===== src/Recovery/Paddings.antt =====
-- `Init` over a storage that ends within a record.
use sqlite_on_gcs_rapid.Base.{
  ℕ, ◌+◌, ◌-◌, ◌*◌, ◌/◌, ◌%◌, ◌<◌, ◌≡◌, sym, ap, ap₂, ◌∙◌, List, [], ◌++◌, append-nil, false,
  ne_zero, if-unset, length, take, replicate, subst, arith,
}
use sqlite_on_gcs_rapid.Status.{Exec, ◌>>=◌}
use sqlite_on_gcs_rapid.Status.Returns.{Returns, done, Returns-bind, Returns-weaken}
use sqlite_on_gcs_rapid.Storage.{Storage, IsLawful}
use sqlite_on_gcs_rapid.Table.{MetadataBlock, Table}
use sqlite_on_gcs_rapid.View.{At}
use sqlite_on_gcs_rapid.Mapper.{MapperOf, on_storage, on_table}
use sqlite_on_gcs_rapid.Mapper.Reads.{on_storage_lem}
use sqlite_on_gcs_rapid.Recovery.{RecoveredRecord, recovered_table, scan, align, init}
use sqlite_on_gcs_rapid.Recovery.Scans.{Scans, scan_lem}

-- The zeros that fill the last record.
abbrev pub padding_of : List ℕ → List ℕ
padding_of bs = replicate (4105 - length bs % 4105) 0

module _ {S : Storage} {Holds : S.State → List ℕ → Type 0} {F : Type 0}
    (lawful : IsLawful S Holds F) (meta : MetadataBlock) where
  -- A failure: the table is as before, and the old bytes stay.
  pub record Unopened (bs : List ℕ) (t : Table) (m : MapperOf S) : Type 0 where
    pub fault : F
    pub more : List ℕ
    pub holds : Holds m.storage (bs ++ more)
    pub same : m.table ≡ t

  abbrev Extended : List ℕ → S.State → Type 0
  Extended bs s = F × ((more : List ℕ) × Holds s (bs ++ more))

  pub align_lem :
      (bs : List ℕ) (s : S.State)
      → 0 < length bs % 4105
      → Holds s bs
      → Returns
          (λ p s'. (p ≡ length (bs ++ padding_of bs)) × Holds s' (bs ++ padding_of bs))
          (Extended bs)
          (align S (length bs) s)
  unfolding align
  align_lem bs s h k = rw (ne_zero (length bs % 4105) h) (
      Returns-bind (S.append (padding_of bs)) (λ _. S.get_size) s
        (lawful.append_lem (padding_of bs) s k)
        (λ _ s' q.
          Returns-weaken (lawful.get_size_lem s' q.1) (λ _ _ r. r)
            (λ s'' x. (x.0, (padding_of bs, x.1))))
        (λ s' x. (x.1, (take x.0 (padding_of bs), x.2))))

  -- On a new mapper over a lawful storage whose length is not a whole number of records, `Init`
  -- fills the last record with zeros, so that its state is 0, and makes the table of the records
  -- `log` as which the bytes then decode. Only a fault of the storage can make it fail; the old
  -- bytes stay then, and the table.
  pub padded_init_lem :
      (log : List RecoveredRecord) {bs : List ℕ} {t : Table} {m : MapperOf S}
      → Scans meta (bs ++ padding_of bs) 0 log
      → length (bs ++ padding_of bs) ≡ length log * 4105
      → 0 < length bs % 4105
      → At Holds bs t m
      → t.initialized ≡ false
      → Returns
          (λ _ m'. At Holds (bs ++ padding_of bs) (recovered_table log t) m')
          (Unopened bs t)
          (init meta S m)
  unfolding init
  padded_init_lem log {bs} {t} {m} h e torn a i =
      rw (if-unset _ _ m.initialized (ap (λ u. u.initialized) a.same ∙ i)) (
        Returns-bind (on_storage S S.get_size) after_size m
          (on_storage_lem lawful S.get_size m a.same (lawful.get_size_lem m.storage a.holds))
          (λ size m₁ q.
            Returns-bind (on_storage S (align S size)) after_align m₁
              (on_storage_lem lawful (align S size) m₁ q.1 (
                subst
                  (λ n.
                    Returns
                      (λ p s'. (p ≡ length (bs ++ padding_of bs)) × Holds s' (bs ++ padding_of bs))
                      (Extended bs) (align S n m₁.storage))
                  (sym q.0.0) (align_lem bs m₁.storage torn q.0.1)))
              (λ p m₂ q₂.
                Returns-bind (on_storage S (scan meta S ((p + 4104) / 4105) 0)) after_scan m₂
                  (on_storage_lem lawful (scan meta S ((p + 4104) / 4105) 0) m₂ q₂.1
                    (scanned p m₂ q₂.0.0 q₂.0.1))
                  (λ rs m₃ q₃.
                    done (record { holds = q₃.0.1; same = ap₂ recovered_table q₃.0.0 q₃.1 }))
                  (λ m₃ x. unopened m₃ x.0.0 (padding_of bs) x.0.1 x.1))
              (λ m₂ x. unopened m₂ x.0.0 x.0.1.0 x.0.1.1 x.1))
          (λ m₁ x. unopened m₁ x.0.0 [] (subst (Holds m₁.storage) (sym (append-nil bs)) x.0.1) x.1))
    where
      after_scan : List RecoveredRecord → Exec (MapperOf S) (Unit {0})
      after_scan rs = on_table S (recovered_table rs)

      after_align : ℕ → Exec (MapperOf S) (Unit {0})
      after_align p = on_storage S (scan meta S ((p + 4104) / 4105) 0) >>= after_scan

      after_size : ℕ → Exec (MapperOf S) (Unit {0})
      after_size size = on_storage S (align S size) >>= after_align

      unopened :
          (m' : MapperOf S)
          → F
          → (more : List ℕ) → Holds m'.storage (bs ++ more)
          → m'.table ≡ t
          → Unopened bs t m'
      unopened m' f more k s = record { fault = f; more = more; holds = k; same = s }

      scanned :
          (p : ℕ) (m' : MapperOf S)
          → p ≡ length (bs ++ padding_of bs)
          → Holds m'.storage (bs ++ padding_of bs)
          → Returns
              (λ rs s. (rs ≡ log) × Holds s (bs ++ padding_of bs))
              (λ s. F × Holds s (bs ++ padding_of bs))
              (scan meta S ((p + 4104) / 4105) 0 m'.storage)
      scanned p m' x y =
          subst
            (λ n.
              Returns (λ rs s. (rs ≡ log) × Holds s (bs ++ padding_of bs))
                (λ s. F × Holds s (bs ++ padding_of bs)) (scan meta S n 0 m'.storage))
            {x = length log} {y = (p + 4104) / 4105} (omega (arith, x, e))
            (scan_lem lawful meta log 0 (bs ++ padding_of bs) m'.storage h y)
