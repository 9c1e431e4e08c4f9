-- ===== src/Tests/Compactions.antt =====
-- The properties of compactions at concrete inputs: a bucket that never fails, with the operating
-- system of Tests/Files.
use sqlite_on_gcs_rapid.Base.{
  ℕ, ◌+◌, ◌≤◌, ◌≡◌, refl, inl, List, [], none, some, false, length, arith,
}
use sqlite_on_gcs_rapid.Status.Returns.{Returns}
use sqlite_on_gcs_rapid.Storage.Memory.{memory_storage, Holds, memory-IsLawful}
use sqlite_on_gcs_rapid.Record.{max_size}
use sqlite_on_gcs_rapid.Table.{fresh}
use sqlite_on_gcs_rapid.Recovery.{
  init, recovered_table, apply_records, applied_flags, next_applied, apply_record,
}
use sqlite_on_gcs_rapid.Session.Refinement.{Represents}
use sqlite_on_gcs_rapid.Gcs.Status.{fine}
use sqlite_on_gcs_rapid.Posix.{Called}
use sqlite_on_gcs_rapid.Compactor.Outputs.{compacted}
use sqlite_on_gcs_rapid.Compactor.Recovered.{shown, compacted_size, compacted-Represents}
use sqlite_on_gcs_rapid.Compactor.Object.{Client, compact_gcs_object}
use sqlite_on_gcs_rapid.Compactor.Object.Compacts.{
  IsClient, Compacted, Left, compact_gcs_object-Compacted,
}
use sqlite_on_gcs_rapid.Tests.{plain, sevens}
use sqlite_on_gcs_rapid.Tests.Logs.{
  one_commit, one_record, one_record-Durable, nothing_pending, list_stream, list_stream-IsStream,
}
use sqlite_on_gcs_rapid.Tests.Files.{test_posix, Bytes, test-IsPosix}

compacted-Represents_example :
    Returns
      (λ _ m'.
        Represents Holds plain
          (shown [] sevens)
          (compacted_size sevens 1)
          (compacted_size sevens 1)
          m')
      (λ _. ⊥)
      (init plain memory_storage (record {
        storage = record {
          data_ = compacted [] sevens 1 0;
          size_ = length (compacted [] sevens 1 0);
        };
        table = fresh;
      }))
compacted-Represents_example =
    compacted-Represents memory-IsLawful plain [] sevens
      (record { data_ = compacted [] sevens 1 0; size_ = length (compacted [] sevens 1 0) })
      (omega arith) (record { contents = refl; counted = refl })

pub record Bucket : Type 0 where
  pub generation : ℕ
  pub content : List ℕ

abbrev Keeps : Bucket → ℕ → List ℕ → Type 0
Keeps c g bs = (c.generation ≡ g) × (c.content ≡ bs)

abbrev pub test_client : Client test_posix list_stream
test_client = record {
  State = Bucket;
  get_object_metadata = λ c. fine c.generation;
  mkstemp = λ c. (some [], c);
  download_to_file = λ path g c. (fine tt, c);
  files = λ c path mode. Called.returned (record { file = c.content; position = 0; signals = 3 });
  remove = λ path c. c;
  write_object = λ g c. ([], c);
  is_failed = λ o. false;
  status = λ o. none;
  close = λ o c. (fine tt, record { generation = c.generation + 1; content = o });
  destroy = λ o c. c;
}

test-IsClient : IsClient test_client Keeps Bytes (λ o out. o ≡ out) ⊥
test-IsClient = record {
  get_object_metadata_lem = λ c h. h.0;
  mkstemp_lem = λ c h. (tt, h);
  download_to_file_lem = λ path c h. ((λ mode. h.1), h);
  write_object_lem = λ c h. (refl, h);
  is_failed_lem = λ o e. absurd (cc);
  good_lem = λ o e. refl;
  close_lem = λ o c k _ h. (c.generation + 1, (refl, k));
  destroy_lem = λ o c k h. inl h;
  remove_lem = λ path c h. h;
}

abbrev pub bucket : Bucket
bucket = record { generation = 7; content = one_record }

one_block : (recovered_table one_commit fresh).logical_size ≤ max_size
unfolding recovered_table apply_records applied_flags next_applied apply_record
one_block = omega arith

compact_gcs_object-Compacted_example :
    Returns
      (λ _ c'.
        Compacted test-IsPosix list_stream-IsStream test-IsClient memory-IsLawful one_record-Durable
          one_block nothing_pending c')
      (λ c'.
        ⊥
        × Left test-IsPosix list_stream-IsStream test-IsClient memory-IsLawful one_record-Durable
            one_block nothing_pending 7 c')
      (compact_gcs_object plain test_client bucket)
compact_gcs_object-Compacted_example =
    compact_gcs_object-Compacted test-IsPosix list_stream-IsStream test-IsClient memory-IsLawful
      one_record-Durable one_block nothing_pending bucket 7 (refl, refl)
