-- ===== src/Tests/Fuzzing.antt =====
-- The fuzzer at concrete inputs: a host whose only temporary file is a list of bytes.
use sqlite_on_gcs_rapid.Base.{
  ℕ, ◌*◌, true, false, arith, ◌≡◌, refl, ap, ◌∙◌, List, [], ◌∷◌, Option, none, some, replicate,
}
use sqlite_on_gcs_rapid.Posix.{returned}
use sqlite_on_gcs_rapid.Fuzzer.{FuzzHost, test_one_input}
use sqlite_on_gcs_rapid.Fuzzer.Sound.{IsFuzzHost, SoundOrRefused, test_one_input-Ends}
use sqlite_on_gcs_rapid.Fuzzer.Driver.{Random, fuzz_main}
use sqlite_on_gcs_rapid.Fuzzer.Driven.{MainEndsClean, fuzz_main-EndsClean}
use sqlite_on_gcs_rapid.Tests.{plain, plain-IsFaithful}
use sqlite_on_gcs_rapid.Tests.Files.{Descriptor, test_posix, test-IsPosix, Bytes}

abbrev saved : Descriptor → Option (List ℕ) → Option (List ℕ)
saved fd none = none
saved fd (some _) = some fd.file

abbrev contents : Option (List ℕ) → List ℕ
contents none = []
contents (some bs) = bs

abbrev fuzz_host : FuzzHost test_posix
fuzz_host = record {
  State = Option (List ℕ);
  mkstemp = λ h. (some ([], record { file = []; position = 0; signals = 2 }), some []);
  close = saved;
  files = λ h path mode. returned (record { file = contents h; position = 0; signals = 1 });
  unlink = λ path h. none;
}

abbrev IsClean : Option (List ℕ) → Type 0
IsClean h = h ≡ none

abbrev IsNamed : List ℕ → Option (List ℕ) → Type 0
IsNamed path h = (bs : List ℕ) × (h ≡ some bs)

abbrev IsKept : List ℕ → List ℕ → Option (List ℕ) → Type 0
IsKept path bs h = h ≡ some bs

fuzz_host-IsFuzzHost : IsFuzzHost fuzz_host Bytes Bytes IsClean IsNamed IsKept ⊥
fuzz_host-IsFuzzHost = record {
  mkstemp_lem = λ h c. (refl, ([], refl));
  close_lem = λ path fd h n. (fd.file, ap (saved fd) n.1);
  kept_lem = λ path fd bs h n e. ap (saved fd) n.1 ∙ ap some e;
  files_lem = λ path bs h k. ap contents k;
  unlink_lem = λ path h n. refl;
}

-- 32 bytes, all of them 1, which are the commands too.
abbrev ones : List ℕ
ones = replicate 32 1

test_one_input-Ends_example :
    ((test_one_input plain fuzz_host ones none).code ≡ 0)
    × IsClean (test_one_input plain fuzz_host ones none).host
    × SoundOrRefused test-IsPosix plain-IsFaithful fuzz_host-IsFuzzHost ones
        (test_one_input plain fuzz_host ones none).mapper
test_one_input-Ends_example =
    test_one_input-Ends test-IsPosix plain-IsFaithful fuzz_host-IsFuzzHost ones none refl

-- A generator that always gives the least number.
abbrev least : Random
least = record { State = Unit {0}; uniform = λ lo hi rng. (lo, rng); next = λ rng. (7, rng) }

-- A second for each iteration.
fuzz_main-EndsClean_example :
    MainEndsClean test-IsPosix plain-IsFaithful fuzz_host-IsFuzzHost least
      (λ i. i)
      (some (([], true) ∷ ([], false) ∷ []))
      (fuzz_main plain fuzz_host least
        (λ i. i)
        (4 * 1000)
        (λ path. some (some (1 ∷ 2 ∷ [])))
        (some (([], true) ∷ ([], false) ∷ []))
        (none, tt))
fuzz_main-EndsClean_example =
    fuzz_main-EndsClean test-IsPosix plain-IsFaithful fuzz_host-IsFuzzHost least (λ i. i) 4
      (λ path. some (some (1 ∷ 2 ∷ []))) (some (([], true) ∷ ([], false) ∷ [])) (none, tt)
      (omega arith) (omega arith) refl
