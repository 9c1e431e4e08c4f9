-- ===== src/Session/Starts.antt =====
-- A new file: the mapper over a storage without bytes.
use sqlite_on_gcs_rapid.Base.{
  ℕ, ◌%◌, ◌≡◌, refl, sym, ap, ◌∙◌, List, [], replicate, get_or, get_or-replicate, subst,
}
use sqlite_on_gcs_rapid.Status.Returns.{Returns, Returns-weaken}
use sqlite_on_gcs_rapid.Storage.{Storage, IsLawful}
use sqlite_on_gcs_rapid.Table.{MetadataBlock, Table, fresh, find_pending, find_record, mapped_at}
use sqlite_on_gcs_rapid.View.{stored, block_at, or_zeros, file_byte, IsValid, At}
use sqlite_on_gcs_rapid.Mapper.{Mapper}
use sqlite_on_gcs_rapid.Recovery.{recovered_table, apply_records, init}
use sqlite_on_gcs_rapid.Recovery.Inits.{init_lem}
use sqlite_on_gcs_rapid.Durability.{Durable}
use sqlite_on_gcs_rapid.Durability.Restart.{recovered_table-IsValid, recovered_table-Durable}
use sqlite_on_gcs_rapid.Session.Refinement.{Represents}

-- The table that `Init` makes of no records.
abbrev new_table : Table
new_table = recovered_table [] fresh

file_byte-new : (j : ℕ) → file_byte [] new_table j ≡ 0
unfolding recovered_table apply_records file_byte block_at find_pending find_record mapped_at
    or_zeros stored get_or replicate
file_byte-new j = get_or-replicate {A = ℕ} 4096 0 (j % 4096)

logical_size-new : new_table.logical_size ≡ 0
unfolding recovered_table apply_records
logical_size-new = refl

-- It represents the empty file.
At-new :
    {State : Type 0} {Holds : State → List ℕ → Type 0} (meta : MetadataBlock) (m : Mapper State)
    → At Holds [] new_table m
    → Represents Holds meta (λ _. 0) 0 0 m
At-new meta m a = record {
  bytes_held = [];
  holds = a.holds;
  valid = subst (IsValid []) (sym a.same) (recovered_table-IsValid meta [] [] tt);
  durable =
      subst (λ u. Durable meta [] u 0) (sym a.same)
        (subst (Durable meta [] new_table) logical_size-new
          (recovered_table-Durable meta [] [] tt refl tt));
  shows = λ j. ap (λ u. file_byte [] u j) a.same ∙ file_byte-new j;
  sized = ap (λ u. u.logical_size) a.same ∙ logical_size-new;
}

-- `Init` over a storage without bytes gives the empty file; only a fault of the storage can make it
-- fail.
pub init-new :
    {S : Storage} {Holds : S.State → List ℕ → Type 0} {F : Type 0} (lawful : IsLawful S Holds F)
    (meta : MetadataBlock) (s : S.State)
    → Holds s []
    → Returns
        (λ _ m. Represents Holds meta (λ _. 0) 0 0 m)
        (λ _. F)
        (init meta S (record { storage = s; table = fresh }))
init-new lawful meta s h =
    Returns-weaken (init_lem lawful meta [] tt refl (record { holds = h; same = refl }) refl)
      (λ _ m a. At-new meta m a) (λ _ x. x.0)
