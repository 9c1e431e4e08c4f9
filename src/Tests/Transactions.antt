-- ===== src/Tests/Transactions.antt =====
-- Transactions at concrete inputs.
use sqlite_on_gcs_rapid.Base.{ℕ, none, ◌≡◌, refl, List, [], ◌∷◌, ◌++◌, take, if◌then◌else◌, arith}
use sqlite_on_gcs_rapid.Status.{◌>>◌}
use sqlite_on_gcs_rapid.Status.Returns.{Returns}
use sqlite_on_gcs_rapid.Storage.Memory.{memory_storage, Holds, memory-IsLawful}
use sqlite_on_gcs_rapid.Mapper.{MapperOf, sync}
use sqlite_on_gcs_rapid.Mapper.Syncs.{encode_all}
use sqlite_on_gcs_rapid.Recovery.{recovered_table, apply_records}
use sqlite_on_gcs_rapid.Session.{
  Call, writes, truncates, AllInBounds, file_after, logged_total, run,
}
use sqlite_on_gcs_rapid.Session.Transactions.{
  is_all, Reopens, Leaves, LeavesEither, crash-run, transaction-Leaves,
}
use sqlite_on_gcs_rapid.Gcs.{gcs_storage}
use sqlite_on_gcs_rapid.Gcs.Lawful.{Buffered}
use sqlite_on_gcs_rapid.Gcs.Crashes.{Recovers, crash-Recovers}
use sqlite_on_gcs_rapid.Session.Refinement.{Represents}
use sqlite_on_gcs_rapid.Tests.Objects.{cloud_with, cloud_with-IsCloud}
use sqlite_on_gcs_rapid.Tests.{
  plain, plain-IsFaithful, opened, opened-Represents, opened_mapper, opened_mapper-Represents,
}

-- Two blocks, and a file that ends in the first of them.
abbrev pub transaction : List Call
transaction = writes (1 ∷ 2 ∷ 3 ∷ []) 5 ∷ writes (9 ∷ []) 4096 ∷ truncates 4000 ∷ []

pub transaction-AllInBounds : AllInBounds transaction
transaction-AllInBounds = (omega arith, (omega arith, (omega arith, tt)))

nothing_pending : opened_mapper.table.pending_records ≡ []
unfolding recovered_table apply_records
nothing_pending = refl

-- The crash comes within the second of three records.
crash-run_example :
    Returns
      (λ _ m'.
        Holds m'.storage opened_mapper-Represents.bytes_held
        × Reopens memory-IsLawful plain-IsFaithful
            (opened_mapper-Represents.bytes_held ++ take 5000 (encode_all m'.table.pending_records))
            (if is_all 5000 m' then file_after transaction (λ _. 0) else λ _. 0)
            (if is_all 5000 m' then logged_total transaction 0 else 0))
      (λ _. ⊥)
      (run plain memory_storage transaction opened_mapper)
crash-run_example =
    crash-run memory-IsLawful plain-IsFaithful transaction (λ _. 0) 0 0 opened_mapper
      opened_mapper-Represents 5000 nothing_pending (tt, (tt, (tt, tt))) transaction-AllInBounds

transaction-Leaves_example :
    Returns
      (λ _ m'.
        Leaves memory-IsLawful plain-IsFaithful
          (file_after transaction (λ _. 0))
          (logged_total transaction 0)
          m')
      (λ m'.
        ⊥
        × LeavesEither memory-IsLawful plain-IsFaithful
            (λ _. 0)
            0
            (file_after transaction (λ _. 0))
            (logged_total transaction 0)
            m')
      ((run plain memory_storage transaction >> sync memory_storage) opened_mapper)
transaction-Leaves_example =
    transaction-Leaves memory-IsLawful plain-IsFaithful transaction (λ _. 0) 0 0 opened_mapper
      opened_mapper-Represents nothing_pending (tt, (tt, (tt, tt))) transaction-AllInBounds

-- A mapper over an empty object.
abbrev object_mapper : (bs : List ℕ) → MapperOf (gcs_storage (cloud_with bs))
object_mapper bs = record {
  storage = record {
    cloud = [];
    descriptor_ = none;
    initial_offset_ = 0;
    file_length_ = 0;
    buffer_ = [];
  };
  table = opened;
}

object_mapper-Represents :
    (bs : List ℕ)
    → Represents (Buffered (cloud_with-IsCloud bs)) plain (λ _. 0) 0 0 (object_mapper bs)
object_mapper-Represents bs = opened-Represents (object_mapper bs) (record {
  holds = record { stored = []; object = refl; joined = refl; counted = refl };
  same = refl;
})

-- The object when the process has died within the second of three records.
abbrev dead : List ℕ
dead = take 5000 (
    encode_all
      (run plain (gcs_storage (cloud_with [])) transaction
        (object_mapper [])).1.table.pending_records)

crash-Recovers_example :
    Returns
      (λ _ m'.
        Recovers
          (cloud_with-IsCloud dead)
          plain-IsFaithful
          ((object_mapper-Represents dead).bytes_held
            ++ take 5000 (encode_all m'.table.pending_records))
          (if is_all 5000 m' then file_after transaction (λ _. 0) else λ _. 0)
          (if is_all 5000 m' then logged_total transaction 0 else 0))
      (λ _. ⊥)
      (run plain (gcs_storage (cloud_with dead)) transaction (object_mapper dead))
crash-Recovers_example =
    crash-Recovers (cloud_with-IsCloud dead) plain-IsFaithful transaction (λ _. 0) 0 0
      (object_mapper dead) (object_mapper-Represents dead) 5000 nothing_pending (tt, (tt, (tt, tt)))
      transaction-AllInBounds
