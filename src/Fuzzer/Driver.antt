-- ===== src/Fuzzer/Driver.antt =====
-- log_format_fuzzer_main.cc: the mutations of an input, and the loop over inputs out of a corpus. The
-- random numbers, the clock and the files are parameters.
use sqlite_on_gcs_rapid.Base.{
  ℕ, zero, suc, ◌+◌, ◌-◌, ◌^◌, ◌%◌, min, List, [], ◌∷◌, ◌++◌, Option, none, some, Bool, true, false,
  leb, ◌==◌, ◌&&◌, if◌then◌else◌, length, get_or, take, drop, replicate, splice,
}
use sqlite_on_gcs_rapid.Record.{le_bytes}
use sqlite_on_gcs_rapid.Table.{MetadataBlock}
use sqlite_on_gcs_rapid.Posix.{Posix}
use sqlite_on_gcs_rapid.Vfs.{FilePath}
use sqlite_on_gcs_rapid.Fuzzer.{FuzzHost, test_one_input}

-- `std::mt19937`: `uniform lo hi` is the draw of a `std::uniform_int_distribution` from `lo` to `hi`,
-- both included, and `next` a call of the generator itself.
pub record Random : Type 1 where
  pub State : Type 0
  pub uniform : ℕ → ℕ → State → ℕ × State
  pub next : State → ℕ × State

module _ (R : Random) where
  -- The input, and the generator.
  abbrev pub Drawn : Type 0
  Drawn = List ℕ × R.State

  -- The values that a mutation of eight bytes takes.
  abbrev pub chosen_value : ℕ → R.State → ℕ × R.State
  chosen_value kind rng =
      if kind == 0
      then (0, rng)
      else if kind == 1
      then (2 ^ 64 - 1, rng)
      else if kind == 2
      then (1000000, rng)
      else if kind == 3
      then (2 ^ 63 - 1, rng)
      else if kind == 4
      then (2 ^ 63, rng)
      else if kind == 5
      then R.uniform 0 (2 ^ 64 - 1) rng
      else (0, rng)

  abbrev pub write_value : List ℕ → ℕ → ℕ × R.State → Drawn
  write_value input at (val, rng) = (splice at (le_bytes 8 val) input, rng)

  abbrev pub drawn_value : ℕ × R.State → ℕ × R.State
  drawn_value (kind, rng) = chosen_value kind rng

  unfoldable pub mutate_integer : List ℕ → ℕ → R.State → Drawn
  mutate_integer input at rng =
      if leb (at + 8) (length input)
      then write_value input at (drawn_value (R.uniform 0 5 rng))
      else (input, rng)

  abbrev pub set_byte : List ℕ → ℕ → ℕ × R.State → Drawn
  set_byte input at (val, rng) = (splice at (val % 256 ∷ []) input, rng)

  unfoldable pub mutate_byte : List ℕ → ℕ → R.State → Drawn
  mutate_byte input at rng = set_byte input at (R.uniform 0 255 rng)

  abbrev pub resized : List ℕ → ℕ × R.State → Drawn
  resized input (size, rng) = (take size input, rng)

  unfoldable pub cut_input : List ℕ → R.State → Drawn
  cut_input input rng = resized input (R.uniform 0 (length input) rng)

  -- `push_back` of as many random bytes.
  unfoldable pub append_bytes : List ℕ → ℕ × R.State → Drawn
  append_bytes input (zero, rng) = (input, rng)
  append_bytes input (suc k, rng) =
      append_bytes (input ++ (R.next rng).0 % 256 ∷ []) (k, (R.next rng).1)

  abbrev pub erased : List ℕ → ℕ → ℕ × R.State → Drawn
  erased input at (len, rng) =
      if leb (at + len) (length input)
      then (take at input ++ drop (at + len) input, rng)
      else (input, rng)

  unfoldable pub delete_range : List ℕ → ℕ → R.State → Drawn
  delete_range input at rng = erased input at (R.uniform 1 (min 100 (length input)) rng)

  -- The `switch` of `Mutate`.
  abbrev pub mutate_by : ℕ → List ℕ → ℕ → R.State → Drawn
  mutate_by op input at rng =
      if op == 0
      then mutate_byte input at rng
      else if op == 1
      then mutate_integer input at rng
      else if op == 2
      then cut_input input rng
      else if op == 3
      then append_bytes input (R.uniform 1 100 rng)
      else if op == 4
      then delete_range input at rng
      else (input, rng)

  abbrev pub at_position : List ℕ → ℕ → ℕ × R.State → Drawn
  at_position input op (at, rng) = mutate_by op input at rng

  abbrev pub by_operation : List ℕ → ℕ × R.State → Drawn
  by_operation input (op, rng) = at_position input op (R.uniform 0 (length input - 1) rng)

  abbrev pub not_empty : List ℕ → List ℕ
  not_empty [] = replicate 4105 0
  not_empty (x ∷ input) = x ∷ input

  unfoldable pub mutate : Drawn → Drawn
  unfolding mutate_byte mutate_integer cut_input append_bytes delete_range
  mutate (input, rng) = by_operation (not_empty input) (R.uniform 0 4 rng)

  -- `Mutate`, as often as drawn.
  unfoldable pub mutate_times : ℕ → Drawn → Drawn
  unfolding mutate
  mutate_times zero d = d
  mutate_times (suc count) d = mutate_times count (mutate d)

-- `LoadFile`, by what the stream gives: it may not open, or not be read.
unfoldable pub load_file : Option (Option (List ℕ)) → List ℕ
load_file none = []
load_file (some none) = []
load_file (some (some buffer)) = buffer

abbrev add_seed : List ℕ → List (List ℕ) → List (List ℕ)
add_seed [] corpus = corpus
add_seed (x ∷ seed) corpus = (x ∷ seed) ∷ corpus

-- The seeds of a directory, whose entries are regular files or not.
unfoldable pub load_seeds :
    (FilePath → Option (Option (List ℕ))) → List (FilePath × Bool) → List (List ℕ)
unfolding load_file
load_seeds stream [] = []
load_seeds stream ((path, true) ∷ entries) =
    add_seed (load_file (stream path)) (load_seeds stream entries)
load_seeds stream ((path, false) ∷ entries) = load_seeds stream entries

abbrev or_empty_seed : List (List ℕ) → List (List ℕ)
or_empty_seed [] = [] ∷ []
or_empty_seed (seed ∷ corpus) = seed ∷ corpus

-- How `main` ends: by its return, or by an exception of the directory iterator.
pub data MainExit : Type 0 where
  returned_zero uncaught : MainExit

module _ (meta : MetadataBlock) {P : Posix} (H : FuzzHost P) (R : Random) (elapsed : ℕ → ℕ) where
  abbrev pub Fuzzing : Type 0
  Fuzzing = H.State × R.State

  abbrev run_input : H.State → Drawn R → Fuzzing
  run_input h (input, rng) = ((test_one_input meta H input h).host, rng)

  abbrev mutated : H.State → List ℕ → ℕ × R.State → Fuzzing
  mutated h input (count, rng) = run_input h (mutate_times R count (input, rng))

  abbrev selected : List (List ℕ) → H.State → ℕ × R.State → Fuzzing
  selected corpus h (i, rng) = mutated h (get_or corpus i []) (R.uniform 1 5 rng)

  -- An input out of the corpus, mutated, and the fuzz target on it.
  unfoldable pub iterate : List (List ℕ) → Fuzzing → Fuzzing
  unfolding mutate_times test_one_input
  iterate corpus (h, rng) = selected corpus h (R.uniform 0 (length corpus - 1) rng)

  -- Whether the loop stops in this iteration: the time is looked at in every thousandth.
  unfoldable pub times_out : ℕ → Bool
  times_out iterations = iterations % 1000 == 0 && leb 3600 (elapsed iterations)

  -- `while (true)`, for at most so many rounds after `iterations`; `none` where it goes on. `elapsed` is
  -- the number of seconds since the start, by the iteration.
  unfoldable pub fuzz_loop : ℕ → List (List ℕ) → ℕ → Fuzzing → Option Fuzzing
  unfolding iterate times_out
  fuzz_loop zero corpus iterations s = none
  fuzz_loop (suc rounds) corpus iterations s = elim (times_out (suc iterations)) [
    | true ↦ some s
    | false ↦ fuzz_loop rounds corpus (suc iterations) (iterate corpus s)
  ]

  abbrev pub ended : MainExit → Option Fuzzing → Option (MainExit × Fuzzing)
  ended exit none = none
  ended exit (some s) = some (exit, s)

  -- `main`, with the directory of the corpus as its entries; `none` where it cannot be read, which
  -- throws out of `main`.
  unfoldable pub fuzz_main :
      ℕ
      → (FilePath → Option (Option (List ℕ)))
      → Option (List (FilePath × Bool))
      → Fuzzing
      → Option (MainExit × Fuzzing)
  unfolding load_seeds fuzz_loop
  fuzz_main rounds stream none s = some (uncaught, s)
  fuzz_main rounds stream (some entries) s =
      ended returned_zero (fuzz_loop rounds (or_empty_seed (load_seeds stream entries)) 0 s)
