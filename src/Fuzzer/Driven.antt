-- ===== src/Fuzzer/Driven.antt =====
-- The runs of log_format_fuzzer_main.cc.
use sqlite_on_gcs_rapid.Base.{
  ℕ, zero, suc, ◌+◌, ◌*◌, ◌%◌, ◌≤◌, ◌<◌, ◌≡◌, refl, ap, List, Option, none, some, Bool, true, false,
  eq→==, le→leb, sym, ◌∙◌, le-cases, Bool-cases, inl, inr, subst, arith,
}
use mathlib.Core.Bool.{false≢true}
use sqlite_on_gcs_rapid.Table.{MetadataBlock}
use sqlite_on_gcs_rapid.Recovery.Metadata.{IsFaithful}
use sqlite_on_gcs_rapid.Posix.{Posix}
use sqlite_on_gcs_rapid.Posix.Laws.{IsPosix}
use sqlite_on_gcs_rapid.Vfs.{FilePath}
use sqlite_on_gcs_rapid.Fuzzer.{FuzzHost}
use sqlite_on_gcs_rapid.Fuzzer.Sound.{IsFuzzHost, test_one_input-Ends}
use sqlite_on_gcs_rapid.Fuzzer.Driver.{
  Random, MainExit, returned_zero, uncaught, Fuzzing, iterate, times_out, fuzz_loop, ended,
  fuzz_main,
}

module _ {P : Posix} {Holds AtEnd : P.State → List ℕ → Type 0}
    {Remains : P.State → List ℕ → List ℕ → Type 0} {F : Type 0}
    (posix : IsPosix P Holds AtEnd Remains F) {meta : MetadataBlock} (faithful : IsFaithful meta)
    {H : FuzzHost P} {Clean : H.State → Type 0} {Named : FilePath → H.State → Type 0}
    {Kept : FilePath → List ℕ → H.State → Type 0}
    (host : IsFuzzHost H Holds AtEnd Clean Named Kept F) (R : Random) (elapsed : ℕ → ℕ) where
  iterate-Clean :
      (corpus : List (List ℕ)) (s : Fuzzing meta H R elapsed)
      → Clean s.0
      → Clean (iterate meta H R elapsed corpus s).0
  unfolding iterate
  iterate-Clean corpus s c = (test_one_input-Ends posix faithful host _ s.0 c).1

  -- The loop is over, and there is no temporary file.
  abbrev EndsClean : Option (Fuzzing meta H R elapsed) → Type 0
  EndsClean r = (s : Fuzzing meta H R elapsed) × (r ≡ some s) × Clean s.0

  times_out-of_le :
      (k iterations : ℕ)
      → iterations ≡ k * 1000
      → 3600 ≤ elapsed (k * 1000)
      → times_out meta H R elapsed iterations ≡ true
  unfolding times_out
  times_out-of_le k iterations e h =
      subst (λ i. times_out meta H R elapsed i ≡ true) {x = k * 1000} {y = iterations}
        (omega (arith, e))
        (rw (eq→== (k * 1000 % 1000) 0 (omega arith), le→leb 3600 (elapsed (k * 1000)) h) refl)

  fuzz_loop-stop :
      (rounds iterations : ℕ) (corpus : List (List ℕ)) (s : Fuzzing meta H R elapsed)
      → times_out meta H R elapsed (suc iterations) ≡ true
      → fuzz_loop meta H R elapsed (suc rounds) corpus iterations s ≡ some s
  unfolding fuzz_loop
  fuzz_loop-stop rounds iterations corpus s h = rw (fuzz_loop, h) refl

  fuzz_loop-go :
      (rounds iterations : ℕ) (corpus : List (List ℕ)) (s : Fuzzing meta H R elapsed)
      → times_out meta H R elapsed (suc iterations) ≡ false
      → fuzz_loop meta H R elapsed (suc rounds) corpus iterations s
        ≡ fuzz_loop meta H R elapsed rounds corpus
            (suc iterations)
            (iterate meta H R elapsed corpus s)
  unfolding fuzz_loop
  fuzz_loop-go rounds iterations corpus s h = rw (fuzz_loop, h) refl

  fuzz_loop-EndsClean :
      (k rounds iterations : ℕ) (corpus : List (List ℕ)) (s : Fuzzing meta H R elapsed)
      → 0 < rounds
      → rounds + iterations ≡ k * 1000
      → 3600 ≤ elapsed (k * 1000)
      → Clean s.0
      → EndsClean (fuzz_loop meta H R elapsed rounds corpus iterations s)
  unfolding fuzz_loop
  fuzz_loop-EndsClean k zero iterations corpus s p e h c = absurd (omega arith)
  fuzz_loop-EndsClean k (suc rounds) iterations corpus s p e h c =
      elim (Bool-cases (times_out meta H R elapsed (suc iterations))) [
        | inl stops ↦
            subst EndsClean (sym (fuzz_loop-stop rounds iterations corpus s stops)) (s, refl, c)
        | inr goes ↦ elim (le-cases rounds 0) [
          | inl none_left ↦ absurd (
              false≢true
                (sym goes ∙ times_out-of_le k (suc iterations) (omega (arith, e, none_left)) h))
          | inr some_left ↦ subst EndsClean (sym (fuzz_loop-go rounds iterations corpus s goes)) (
              fuzz_loop-EndsClean k rounds (suc iterations) corpus
                (iterate meta H R elapsed corpus s) some_left (omega (arith, e)) h
                (iterate-Clean corpus s c))
        ]
      ]

  -- How `main` ends for the directory of the corpus.
  abbrev exit_for : Option (List (FilePath × Bool)) → MainExit
  exit_for none = uncaught
  exit_for (some entries) = returned_zero

  abbrev pub MainEndsClean :
      Option (List (FilePath × Bool)) → Option (MainExit × Fuzzing meta H R elapsed) → Type 0
  MainEndsClean directory r =
      (s : Fuzzing meta H R elapsed) × (r ≡ some (exit_for directory, s)) × Clean s.0

  returns-MainEndsClean :
      (entries : List (FilePath × Bool)) (r : Option (Fuzzing meta H R elapsed))
      → EndsClean r
      → MainEndsClean (some entries) (ended meta H R elapsed returned_zero r)
  returns-MainEndsClean entries r (s, e, c) = (s, ap (ended meta H R elapsed returned_zero) e, c)

  -- If an hour is over at an iteration whose number is a multiple of 1000, `main` of the fuzzer returns
  -- within as many iterations, whatever the seeds and the random numbers are, and leaves no temporary
  -- file. Where the directory of the corpus cannot be read it ends by an exception, and leaves none
  -- either.
  pub fuzz_main-EndsClean :
      (k : ℕ) (stream : FilePath → Option (Option (List ℕ)))
      (directory : Option (List (FilePath × Bool))) (s : Fuzzing meta H R elapsed)
      → 0 < k
      → 3600 ≤ elapsed (k * 1000)
      → Clean s.0
      → MainEndsClean directory (fuzz_main meta H R elapsed (k * 1000) stream directory s)
  unfolding fuzz_main
  fuzz_main-EndsClean k stream none s p h c = (s, refl, c)
  fuzz_main-EndsClean k stream (some entries) s p h c =
      returns-MainEndsClean entries _
        (fuzz_loop-EndsClean k (k * 1000) 0 _ s (omega (arith, p)) (omega arith) h c)
