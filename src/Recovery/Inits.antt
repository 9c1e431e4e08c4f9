-- ===== src/Recovery/Inits.antt =====
-- `Init` over a storage that holds whole records.
use sqlite_on_gcs_rapid.Base.{
  ℕ, ◌+◌, ◌*◌, ◌/◌, ◌%◌, ◌≡◌, ap, ap₂, ◌∙◌, List, false, eq→==, if-unset, length, subst, arith,
}
use sqlite_on_gcs_rapid.Status.{Exec, ◌>>=◌}
use sqlite_on_gcs_rapid.Status.Returns.{Returns, done, Returns-bind}
use sqlite_on_gcs_rapid.Storage.{Storage, IsLawful}
use sqlite_on_gcs_rapid.Table.{MetadataBlock, Table}
use sqlite_on_gcs_rapid.View.{At}
use sqlite_on_gcs_rapid.Mapper.{MapperOf, on_storage, on_table}
use sqlite_on_gcs_rapid.Mapper.Reads.{Fault, on_storage_lem}
use sqlite_on_gcs_rapid.Recovery.{RecoveredRecord, recovered_table, scan, align, init}
use sqlite_on_gcs_rapid.Recovery.Scans.{Scans, scan_lem}

module _ {S : Storage} {Holds : S.State → List ℕ → Type 0} {F : Type 0}
    (lawful : IsLawful S Holds F) (meta : MetadataBlock) where
  -- On a new mapper over a lawful storage that holds whole records, which decode as `log`, `Init`
  -- leaves the storage's bytes as they are and the table as the two passes over `log` make it. Only
  -- a fault of the storage can make it fail, and then nothing changes.
  pub init_lem :
      (log : List RecoveredRecord) {bs : List ℕ} {t : Table} {m : MapperOf S}
      → Scans meta bs 0 log
      → length bs ≡ length log * 4105
      → At Holds bs t m
      → t.initialized ≡ false
      → Returns (λ _ m'. At Holds bs (recovered_table log t) m') (Fault lawful bs t) (init meta S m)
  unfolding init align
  init_lem log {bs} {t} {m} h e a i =
      rw (if-unset _ _ m.initialized (ap (λ u. u.initialized) a.same ∙ i)) (
        Returns-bind (on_storage S S.get_size) after_size m
          (on_storage_lem lawful S.get_size m a.same (lawful.get_size_lem m.storage a.holds))
          (λ size m₁ q.
            Returns-bind (on_storage S (align S size)) after_align m₁
              (on_storage_lem lawful (align S size) m₁ q.1 (aligned size m₁ q.0.0 q.0.1))
              (λ p m₂ q₂.
                Returns-bind (on_storage S (scan meta S ((p + 4104) / 4105) 0)) after_scan m₂
                  (on_storage_lem lawful (scan meta S ((p + 4104) / 4105) 0) m₂ q₂.1
                    (scanned p m₂ q₂.0.0 q₂.0.1))
                  (λ rs m₃ q₃.
                    done (record { holds = q₃.0.1; same = ap₂ recovered_table q₃.0.0 q₃.1 }))
                  fault)
              fault)
          fault)
    where
      after_scan : List RecoveredRecord → Exec (MapperOf S) (Unit {0})
      after_scan rs = on_table S (recovered_table rs)

      after_align : ℕ → Exec (MapperOf S) (Unit {0})
      after_align p = on_storage S (scan meta S ((p + 4104) / 4105) 0) >>= after_scan

      after_size : ℕ → Exec (MapperOf S) (Unit {0})
      after_size size = on_storage S (align S size) >>= after_align

      fault : (m' : MapperOf S) → (F × Holds m'.storage bs) × (m'.table ≡ t) → Fault lawful bs t m'
      fault m' x = (x.0.0, record { holds = x.0.1; same = x.1 })

      aligned :
          (size : ℕ) (m' : MapperOf S)
          → size ≡ length bs
          → Holds m'.storage bs
          → Returns
              (λ p s. (p ≡ length bs) × Holds s bs)
              (λ s. F × Holds s bs)
              (align S size m'.storage)
      aligned size m' x y = rw (eq→== (size % 4105) 0 (omega (arith, x, e)), align) (done (x, y))

      scanned :
          (p : ℕ) (m' : MapperOf S)
          → p ≡ length bs
          → Holds m'.storage bs
          → Returns
              (λ rs s. (rs ≡ log) × Holds s bs)
              (λ s. F × Holds s bs)
              (scan meta S ((p + 4104) / 4105) 0 m'.storage)
      scanned p m' x y =
          subst
            (λ n.
              Returns (λ rs s. (rs ≡ log) × Holds s bs) (λ s. F × Holds s bs)
                (scan meta S n 0 m'.storage))
            {x = length log} {y = (p + 4104) / 4105} (omega (arith, x, e))
            (scan_lem lawful meta log 0 bs m'.storage h y)
