-- ===== src/Base/Parts.antt =====
-- A list cut in two, and the parts put together again.
use Prim.Native.Nat.{ℕ, zero, suc, ◌+◌, ◌≤◌, min}
use mathlib.Core.Path.{◌≡◌, refl, sym, ap, ◌∙◌}
use mathlib.Core.List.{List, [], ◌∷◌, ◌++◌}
use native.Mathlib.Omega.{arith}
use sqlite_on_gcs_rapid.Base.Lists.{length, take, drop, slice}

module _ {ℓ} {A : Type ℓ} where
  pub take-append-drop : (k : ℕ) (d : List A) → take k d ++ drop k d ≡ d
  unfolding take drop
  take-append-drop zero d = refl
  take-append-drop (suc k) [] = refl
  take-append-drop (suc k) (x ∷ d) = ap (λ e. x ∷ e) (take-append-drop k d)

  pub take-nil : (n : ℕ) → take {A = A} n [] ≡ []
  unfolding take
  take-nil zero = refl
  take-nil (suc n) = refl

  drop-nil : (n : ℕ) → drop {A = A} n [] ≡ []
  unfolding drop
  drop-nil zero = refl
  drop-nil (suc n) = refl

  pub take-add : (k j : ℕ) (d : List A) → take k d ++ take j (drop k d) ≡ take (k + j) d
  unfolding take drop
  take-add zero j d = ap (λ n. take n d) (omega arith)
  take-add (suc k) j [] = take-nil j ∙ sym (take-nil (suc k + j))
  take-add (suc k) j (x ∷ d) =
      ap (λ e. x ∷ e) (take-add k j d)
      ∙ ap (λ n. take n (x ∷ d)) {x = suc (k + j)} {y = suc k + j} (omega arith)

  pub drop-add : (k j : ℕ) (d : List A) → drop j (drop k d) ≡ drop (k + j) d
  unfolding drop
  drop-add zero j d = ap (λ n. drop n d) (omega arith)
  drop-add (suc k) j [] = drop-nil j ∙ sym (drop-nil (suc k + j))
  drop-add (suc k) j (x ∷ d) =
      drop-add k j d ∙ ap (λ n. drop n (x ∷ d)) {x = suc (k + j)} {y = suc k + j} (omega arith)

  pub slice-append-slice :
      (o n k : ℕ) (xs : List A) → slice o n xs ++ slice (o + n) k xs ≡ slice o (n + k) xs
  unfolding slice
  slice-append-slice o n k xs =
      ap (λ t. take n (drop o xs) ++ take k t) (sym (drop-add o n xs)) ∙ take-add n k (drop o xs)

  pub length-take-min : (n : ℕ) (d : List A) → length (take n d) ≡ min n (length d)
  unfolding take
  length-take-min zero d = omega arith
  length-take-min (suc n) [] = omega arith
  length-take-min (suc n) (x ∷ d) = omega (arith, length-take-min n d)

  pub take-prefix : (k : ℕ) (xs ys : List A) → take (min k (length xs)) (xs ++ ys) ≡ take k xs
  unfolding take
  take-prefix zero xs ys = ap (λ n. take n (xs ++ ys)) {x = min 0 (length xs)} {y = 0} (omega arith)
  take-prefix (suc k) [] ys = ap (λ n. take n ys) {x = min (suc k) 0} {y = 0} (omega arith)
  take-prefix (suc k) (x ∷ xs) ys =
      ap (λ n. take n (x ∷ (xs ++ ys))) {x = min (suc k) (suc (length xs))}
        {y = suc (min k (length xs))} (omega arith)
      ∙ ap (λ t. x ∷ t) (take-prefix k xs ys)

  pub take-ge : (k : ℕ) (xs : List A) → length xs ≤ k → take k xs ≡ xs
  unfolding take
  take-ge zero [] h = refl
  take-ge (suc k) [] h = refl
  take-ge zero (x ∷ xs) h = absurd (omega arith)
  take-ge (suc k) (x ∷ xs) h = ap (λ t. x ∷ t) (take-ge k xs (omega arith))
