-- ===== src/Fuzzer/Mutations.antt =====
-- What `Mutate` makes of an input.
use sqlite_on_gcs_rapid.Base.{◌⊎◌, ℕ, ◌≤◌, ◌<◌, ◌≡◌, List, [], ◌∷◌, ◌++◌, length}
use sqlite_on_gcs_rapid.Fuzzer.Driver.{Random, Drawn}

-- Each number is a `uint8_t`.
abbrev pub AllBytes : List ℕ → Type 0
AllBytes [] = Unit {0}
AllBytes (b ∷ bs) = (b < 256) × AllBytes bs

-- What one mutation may do to a vector. All that it touches lies within the vector.
pub data Edit (input : List ℕ) : List ℕ → Type 0 where
  -- Nothing.
  keeps : Edit input input
  -- Overwrites a byte, or eight.
  replaces :
      (front old new back : List ℕ)
      → input ≡ front ++ (old ++ back)
      → length old ≡ length new
      → (length new ≡ 1) ⊎ (length new ≡ 8)
      → Edit input (front ++ (new ++ back))
  -- Cuts the end off.
  cuts : (front back : List ℕ) → input ≡ front ++ back → Edit input front
  -- Appends 1 to 100 bytes.
  grows : (new : List ℕ) → 1 ≤ length new → length new ≤ 100 → Edit input (input ++ new)
  -- Takes 1 to 100 bytes out of the middle.
  erases :
      (front old back : List ℕ)
      → input ≡ front ++ (old ++ back)
      → 1 ≤ length old
      → length old ≤ 100
      → Edit input (front ++ back)

-- The draws lie between their bounds.
pub record IsRandom (R : Random) : Type 1 where
  pub above : (lo hi : ℕ) (rng : R.State) → lo ≤ hi → lo ≤ (R.uniform lo hi rng).0
  pub below : (lo hi : ℕ) (rng : R.State) → lo ≤ hi → (R.uniform lo hi rng).0 ≤ hi

module _ (R : Random) (random : IsRandom R) where
  -- An edit of `input` into bytes.
  pub record Mutated (input : List ℕ) (d : Drawn R) : Type 0 where
    pub bytes : AllBytes d.0
    pub edit : Edit input d.0
