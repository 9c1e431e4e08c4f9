-- ===== src/Tests/Commands.antt =====
-- The properties of the command-line tools at concrete inputs.
use sqlite_on_gcs_rapid.Base.{
  ℕ, ◌-◌, ◌≡◌, refl, List, [], ◌∷◌, ◌++◌, none, some, length, take, true, arith, drop,
}
use sqlite_on_gcs_rapid.Status.{ok}
use sqlite_on_gcs_rapid.Storage.Memory.{empty, memory_storage, memory-IsLawful}
use sqlite_on_gcs_rapid.Storage.Either
use sqlite_on_gcs_rapid.Storage.Either.{either_storage, EitherHolds, either-IsLawful}
use sqlite_on_gcs_rapid.Gcs.Status.{fine}
use sqlite_on_gcs_rapid.Posix.{Called}
use sqlite_on_gcs_rapid.Local.Lawful.{local-IsLawful}
use sqlite_on_gcs_rapid.Session.{file_after, total_after}
use sqlite_on_gcs_rapid.Vfs.Calls.{Answers, Visible, vfs_calls, vfs_calls-Visible}
use sqlite_on_gcs_rapid.Vfs.{AppendOnlyFile}
use sqlite_on_gcs_rapid.Vfs.Setup.{x_full_pathname, c_string, x_full_pathname-Fits}
use sqlite_on_gcs_rapid.Vfs.{sqlite_ok, cantopen, is_gcs, gcs_prefix, starts_with, split_slash}
use sqlite_on_gcs_rapid.Tools.{parse_gcs_path, gs_prefix}
use sqlite_on_gcs_rapid.Tools.CompactorMain.{compactor_main}
use sqlite_on_gcs_rapid.Tools.Names.{compactor_main-uri}
use sqlite_on_gcs_rapid.Tools.LogTool.{Host, import_word, log_tool, open_storage_path}
use sqlite_on_gcs_rapid.Tools.LogTool.RoundTrip.{Exits, Exportable, log_tool-import-export}
use sqlite_on_gcs_rapid.Tests.{
  opened_mapper, opened_mapper-Represents, calls, calls-AllInBounds, plain, plain-IsFaithful,
  empty-Holds,
}
use sqlite_on_gcs_rapid.Tests.Files.{
  test_posix, test-IsPosix, open_test, raw_file, raw_bytes, starts_empty,
}
use sqlite_on_gcs_rapid.Tests.Compactions.{test_client, bucket}

abbrev test_bucket : List ℕ
test_bucket = b'm' ∷ b'y' ∷ []

abbrev test_object : List ℕ
test_object = b'a' ∷ b'/' ∷ b'b' ∷ []

compactor_main-uri_example :
    compactor_main plain
      (λ _ _. test_client)
      (λ _ _. bucket)
      ([] ∷ (gs_prefix ++ (test_bucket ++ b'/' ∷ test_object)) ∷ [])
    ≡ compactor_main plain
        (λ _ _. test_client)
        (λ _ _. bucket)
        ([] ∷ test_bucket ∷ test_object ∷ [])
compactor_main-uri_example =
    compactor_main-uri plain (λ _ _. test_client) (λ _ _. bucket) [] test_bucket test_object
      (refl, (refl, tt))

-- The objects are in memory, and are new whenever they are opened.
abbrev test_host : Host memory_storage test_posix
test_host = record {
  World = Unit {0};
  delete_object = λ b o w. (fine tt, w);
  unlink = λ path w. (Called.returned tt, w);
  is_enoent = λ e. true;
  gcs_create = λ b o w. (ok empty, w);
  files = λ w path mode. Called.returned (open_test mode);
}

abbrev test_log : List ℕ
test_log = gs_prefix ++ (test_bucket ++ b'/' ∷ test_object)

log_tool-import-export_example :
    Exits plain-IsFaithful test_host
      (either-IsLawful memory-IsLawful (local-IsLawful test-IsPosix))
      test-IsPosix
      (Exportable plain-IsFaithful test_host
        (either-IsLawful memory-IsLawful (local-IsLawful test-IsPosix))
        test-IsPosix
        raw_bytes)
      (log_tool plain test_host ([] ∷ import_word ∷ [] ∷ test_log ∷ []) tt)
unfolding open_storage_path parse_gcs_path starts_with split_slash drop
log_tool-import-export_example =
    log_tool-import-export plain-IsFaithful test_host
      (either-IsLawful memory-IsLawful (local-IsLawful test-IsPosix)) test-IsPosix [] [] test_log tt
      tt (Either.first empty) raw_file raw_bytes (λ _. 0) 0 0 (omega arith) refl refl (refl, refl)
      (starts_empty (either-IsLawful memory-IsLawful (local-IsLawful test-IsPosix))
        (Either.first empty) empty-Holds)

x_full_pathname-Fits_example :
    (buf : List ℕ) × (x_full_pathname (λ _ _. (cantopen, none)) (some (gcs_prefix ++ test_object)) 6
      ≡ (sqlite_ok, some buf))
    × (length buf ≡ 6)
    × (c_string buf ≡ take (6 - 1) (gcs_prefix ++ test_object))
unfolding is_gcs starts_with
x_full_pathname-Fits_example =
    x_full_pathname-Fits (λ _ _. (cantopen, none)) (gcs_prefix ++ test_object) 6 refl
      (refl, (refl, (refl, (refl, (refl, (refl, (refl, (refl, (refl, tt))))))))) (omega arith)

abbrev open_file : AppendOnlyFile plain memory_storage
open_file = record { mapper = some opened_mapper; path = [] }

vfs_calls-Visible_example :
    Answers memory-IsLawful plain-IsFaithful
      (Visible memory-IsLawful plain-IsFaithful (file_after calls (λ _. 0)) (total_after calls 0))
      (vfs_calls plain memory_storage calls open_file)
vfs_calls-Visible_example =
    vfs_calls-Visible memory-IsLawful plain-IsFaithful calls (λ _. 0) 0 0 open_file
      calls-AllInBounds (opened_mapper, refl, opened_mapper-Represents)
