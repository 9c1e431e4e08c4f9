-- ===== src/Recovery/Fills.antt =====
-- `Init` over whole records, or over records with a torn one behind them: the two cases as one.
use sqlite_on_gcs_rapid.Base.{
  ℕ, ◌-◌, ◌*◌, ◌%◌, ◌<◌, ◌≡◌, refl, sym, ap, ◌∙◌, List, ◌++◌, append-nil, inl, inr, length,
  replicate, le-cases, subst, arith,
}
use sqlite_on_gcs_rapid.Status.Returns.{Returns, Returns-weaken}
use sqlite_on_gcs_rapid.Storage.{Storage, IsLawful}
use sqlite_on_gcs_rapid.Table.{MetadataBlock, fresh}
use sqlite_on_gcs_rapid.View.{At}
use sqlite_on_gcs_rapid.Mapper.{MapperOf}
use sqlite_on_gcs_rapid.Recovery.{RecoveredRecord, recovered_table, init}
use sqlite_on_gcs_rapid.Recovery.Scans.{Scans}
use sqlite_on_gcs_rapid.Recovery.Inits.{init_lem}
use sqlite_on_gcs_rapid.Recovery.Paddings.{padded_init_lem}

-- The number of zeros behind `n` bytes.
abbrev pub fill : ℕ → ℕ
fill n = (4105 - n % 4105) % 4105

module _ {S : Storage} {Holds : S.State → List ℕ → Type 0} {F : Type 0}
    (lawful : IsLawful S Holds F) (meta : MetadataBlock) where
  module _ (log : List RecoveredRecord) (bs : List ℕ)
      (scanned : Scans meta (bs ++ replicate (fill (length bs)) 0) 0 log)
      (whole : length (bs ++ replicate (fill (length bs)) 0) ≡ length log * 4105) (s : S.State)
      (holds : Holds s bs) where
    -- What `Init` then makes of a new mapper.
    abbrev Filled : MapperOf S → Type 0
    Filled m' = At Holds (bs ++ replicate (fill (length bs)) 0) (recovered_table log fresh) m'

    init-whole :
        length bs % 4105 ≡ 0
        → Returns (λ _ m'. Filled m') (λ _. F) (init meta S (record { storage = s; table = fresh }))
    unfolding replicate
    init-whole z =
        Returns-weaken
          (init_lem lawful meta log (subst (λ b. Scans meta b 0 log) same scanned)
            (sym (ap length same) ∙ whole) (record { holds = holds; same = refl }) refl)
          (λ _ m' a. subst (λ b. At Holds b (recovered_table log fresh) m') (sym same) a)
          (λ m' x. x.0)
      where
        no_zeros : fill (length bs) ≡ 0
        no_zeros = omega (arith, z)

        same : bs ++ replicate (fill (length bs)) 0 ≡ bs
        same = ap (λ i. bs ++ replicate i 0) no_zeros ∙ append-nil bs

    init-torn :
        0 < length bs % 4105
        → Returns (λ _ m'. Filled m') (λ _. F) (init meta S (record { storage = s; table = fresh }))
    init-torn z =
        Returns-weaken
          (padded_init_lem lawful meta log (subst (λ b. Scans meta b 0 log) same scanned)
            (sym (ap length same) ∙ whole) z (record { holds = holds; same = refl }) refl)
          (λ _ m' a. subst (λ b. At Holds b (recovered_table log fresh) m') (sym same) a)
          (λ m' x. x.fault)
      where
        zeros : fill (length bs) ≡ 4105 - length bs % 4105
        zeros = omega (arith, z)

        same : bs ++ replicate (fill (length bs)) 0 ≡ bs ++ replicate (4105 - length bs % 4105) 0
        same = ap (λ i. bs ++ replicate i 0) zeros

    -- `Init` fills the last record of a storage up and makes the table of what then stands there. Only a
    -- fault of the storage can make it fail.
    pub filled_init_lem :
        Returns (λ _ m'. Filled m') (λ _. F) (init meta S (record { storage = s; table = fresh }))
    filled_init_lem = elim (le-cases (length bs % 4105) 0) [
      | inl z ↦ init-whole (omega (arith, z))
      | inr z ↦ init-torn (omega (arith, z))
    ]
