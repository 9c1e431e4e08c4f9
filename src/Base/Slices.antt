-- ===== src/Base/Slices.antt =====
-- Laws of `slice` and `tabulate`: cutting buffers, and buffers as functions of the position.
use Prim.Native.Nat.{ℕ, zero, suc, ◌+◌, ◌-◌, ◌≤◌, ◌<◌}
use mathlib.Core.Path.{◌≡◌, refl, sym, ap, ap₂, ◌∙◌}
use mathlib.Core.List.{List, [], ◌∷◌, ◌++◌}
use native.Mathlib.Omega.{arith}
use sqlite_on_gcs_rapid.Base.Lists.{
  length, get_or, take, drop, replicate, tabulate, slice, splice, length-append, length-take,
  length-drop, get_or-append_left, get_or-append_right, get_or-take, get_or-drop,
}

module _ {ℓ} {A : Type ℓ} where
  drop-append_left : (o : ℕ) (xs ys : List A) → o ≤ length xs → drop o (xs ++ ys) ≡ drop o xs ++ ys
  unfolding drop
  drop-append_left zero xs ys h = refl
  drop-append_left (suc o) [] ys h = absurd (omega arith)
  drop-append_left (suc o) (x ∷ xs) ys h = drop-append_left o xs ys (omega arith)

  pub drop-append_right : (o : ℕ) (xs ys : List A) → drop (length xs + o) (xs ++ ys) ≡ drop o ys
  unfolding drop
  drop-append_right o [] ys = ap (λ k. drop k ys) (omega arith)
  drop-append_right o (x ∷ xs) ys = ap (λ k. drop k (x ∷ (xs ++ ys))) e ∙ drop-append_right o xs ys
    where
      e : suc (length xs) + o ≡ suc (length xs + o)
      e = omega arith

  pub take-append_left : (n : ℕ) (xs ys : List A) → n ≤ length xs → take n (xs ++ ys) ≡ take n xs
  unfolding take
  take-append_left zero xs ys h = refl
  take-append_left (suc n) [] ys h = absurd (omega arith)
  take-append_left (suc n) (x ∷ xs) ys h = ap (λ t. x ∷ t) (take-append_left n xs ys (omega arith))

  pub take-append_right :
      (n : ℕ) (xs ys : List A) → length xs ≤ n → take n (xs ++ ys) ≡ xs ++ take (n - length xs) ys
  unfolding take
  take-append_right n [] ys h = ap (λ k. take k ys) {x = n} {y = n - 0} (omega arith)
  take-append_right zero (x ∷ xs) ys h = absurd (omega arith)
  take-append_right (suc n) (x ∷ xs) ys h =
      ap (λ t. x ∷ t) (take-append_right n xs ys (omega arith))
      ∙ ap (λ k. x ∷ (xs ++ take k ys)) {x = n - length xs} {y = suc n - suc (length xs)}
          (omega arith)

  pub take-append_more :
      (n : ℕ) (xs ys : List A) → take (length xs + n) (xs ++ ys) ≡ xs ++ take n ys
  take-append_more n xs ys =
      take-append_right (length xs + n) xs ys (omega arith)
      ∙ ap (λ k. xs ++ take k ys) {x = length xs + n - length xs} {y = n} (omega arith)

  pub take_all : (n : ℕ) (xs : List A) → length xs ≡ n → take n xs ≡ xs
  unfolding take
  take_all zero [] h = refl
  take_all zero (x ∷ xs) h = absurd (omega arith)
  take_all (suc n) [] h = refl
  take_all (suc n) (x ∷ xs) h = ap (λ t. x ∷ t) (take_all n xs (omega arith))

  pub slice_all : (n : ℕ) (xs : List A) → length xs ≡ n → slice 0 n xs ≡ xs
  unfolding slice drop
  slice_all n xs h = take_all n xs h

  pub slice-append_left :
      (o n : ℕ) (xs ys : List A) → o + n ≤ length xs → slice o n (xs ++ ys) ≡ slice o n xs
  unfolding slice
  slice-append_left o n xs ys h =
      ap (take n) (drop-append_left o xs ys (omega arith))
      ∙ take-append_left n (drop o xs) ys (omega (arith, length-drop o xs))

  pub slice-append_right :
      (o n : ℕ) (xs ys : List A) → slice (length xs + o) n (xs ++ ys) ≡ slice o n ys
  unfolding slice
  slice-append_right o n xs ys = ap (take n) (drop-append_right o xs ys)

  -- The middle of three parts, at its own place and length.
  pub slice_middle :
      (o n : ℕ) (xs ys zs : List A)
      → length xs ≡ o
      → length ys ≡ n
      → slice o n (xs ++ (ys ++ zs)) ≡ ys
  unfolding slice drop
  slice_middle o n xs ys zs ho hn =
      ap (λ k. slice k n (xs ++ (ys ++ zs))) (omega arith)
      ∙ slice-append_right 0 n xs (ys ++ zs)
      ∙ take-append_left n ys zs (omega arith)
      ∙ take_all n ys hn

  pub get_or-tabulate :
      (f : ℕ → A) (o n i : ℕ) (d : A) → i < n → get_or (tabulate f o n) i d ≡ f (o + i)
  unfolding get_or tabulate
  get_or-tabulate f o zero i d h = absurd (omega arith)
  get_or-tabulate f o (suc n) zero d h = ap f (omega arith)
  get_or-tabulate f o (suc n) (suc i) d h =
      get_or-tabulate f (suc o) n i d (omega arith) ∙ ap f (omega arith)

  pub tabulate-append :
      (f : ℕ → A) (o n k : ℕ) → tabulate f o n ++ tabulate f (o + n) k ≡ tabulate f o (n + k)
  unfolding tabulate
  tabulate-append f o zero k = ap₂ (λ a b. tabulate f a b) (omega arith) (omega arith)
  tabulate-append f o (suc n) k =
      ap (λ a. f o ∷ (tabulate f (suc o) n ++ tabulate f a k)) e
      ∙ ap (λ t. f o ∷ t) (tabulate-append f (suc o) n k)
      ∙ ap (λ b. tabulate f o b) e'
    where
      e : o + suc n ≡ suc o + n
      e = omega arith

      e' : suc (n + k) ≡ suc n + k
      e' = omega arith

  pub tabulate_congr :
      (f g : ℕ → A) (a b n : ℕ)
      → ((i : ℕ) → i < n → f (a + i) ≡ g (b + i))
      → tabulate f a n ≡ tabulate g b n
  unfolding tabulate
  tabulate_congr f g a b zero h = refl
  tabulate_congr f g a b (suc n) h =
      ap₂ ◌∷◌ (ap f (omega arith) ∙ h 0 (omega arith) ∙ ap g (omega arith)) (
        tabulate_congr f g (suc a) (suc b) n
          (λ i p. ap f (omega arith) ∙ h (suc i) (omega arith) ∙ ap g (omega arith)))

  pub replicate-eq-tabulate :
      (f : ℕ → A) (a : A) (o n : ℕ)
      → ((i : ℕ) → i < n → f (o + i) ≡ a)
      → replicate n a ≡ tabulate f o n
  unfolding replicate tabulate
  replicate-eq-tabulate f a o zero h = refl
  replicate-eq-tabulate f a o (suc n) h =
      ap₂ ◌∷◌ (sym (h 0 (omega arith)) ∙ ap f (omega arith))
        (replicate-eq-tabulate f a (suc o) n (λ i p. ap f (omega arith) ∙ h (suc i) (omega arith)))

  tabulate_shift : (f : ℕ → A) (o n : ℕ) → tabulate (λ i. f (suc i)) o n ≡ tabulate f (suc o) n
  unfolding tabulate
  tabulate_shift f o zero = refl
  tabulate_shift f o (suc n) = ap (λ t. f (suc o) ∷ t) (tabulate_shift f (suc o) n)

  -- A slice in range is the values at its positions.
  pub slice-eq-tabulate :
      (o n : ℕ) (xs : List A) (d : A)
      → o + n ≤ length xs
      → slice o n xs ≡ tabulate (λ i. get_or xs i d) o n
  unfolding slice take drop tabulate get_or
  slice-eq-tabulate zero zero [] d h = refl
  slice-eq-tabulate zero (suc n) [] d h = absurd (omega arith)
  slice-eq-tabulate (suc o) n [] d h = absurd (omega arith)
  slice-eq-tabulate zero zero (x ∷ xs) d h = refl
  slice-eq-tabulate zero (suc n) (x ∷ xs) d h =
      ap (λ t. x ∷ t)
        (slice-eq-tabulate zero n xs d (omega arith)
          ∙ tabulate_shift (λ i. get_or (x ∷ xs) i d) zero n)
  slice-eq-tabulate (suc o) n (x ∷ xs) d h =
      slice-eq-tabulate o n xs d (omega arith) ∙ tabulate_shift (λ i. get_or (x ∷ xs) i d) o n

  module _ (k : ℕ) (src dst : List A) (fits : k + length src ≤ length dst) where
    pub length-splice : length (splice k src dst) ≡ length dst
    unfolding splice
    length-splice = omega (
      arith,
      length-append (take k dst) (src ++ drop (k + length src) dst),
      length-append src (drop (k + length src) dst),
      length-take k dst,
      length-drop (k + length src) dst,
    )

    pub get_or-splice_before :
        (i : ℕ) (d : A) → i < k → get_or (splice k src dst) i d ≡ get_or dst i d
    unfolding splice
    get_or-splice_before i d h =
        get_or-append_left (take k dst) (src ++ drop (k + length src) dst) i d
          (omega (arith, length-take k dst))
        ∙ get_or-take k dst i d h

    pub get_or-splice_in :
        (i : ℕ) (d : A) → i < length src → get_or (splice k src dst) (k + i) d ≡ get_or src i d
    unfolding splice
    get_or-splice_in i d h =
        ap (λ j. get_or (take k dst ++ (src ++ drop (k + length src) dst)) j d) place
        ∙ get_or-append_right (take k dst) (src ++ drop (k + length src) dst) i d
        ∙ get_or-append_left src (drop (k + length src) dst) i d h
      where
        place : k + i ≡ length (take k dst) + i
        place = omega (arith, length-take k dst)

    pub get_or-splice_after :
        (i : ℕ) (d : A)
        → get_or (splice k src dst) (k + length src + i) d ≡ get_or dst (k + length src + i) d
    unfolding splice
    get_or-splice_after i d =
        ap (λ j. get_or (take k dst ++ (src ++ drop (k + length src) dst)) j d) place
        ∙ get_or-append_right (take k dst) (src ++ drop (k + length src) dst) (length src + i) d
        ∙ get_or-append_right src (drop (k + length src) dst) i d
        ∙ get_or-drop (k + length src) dst i d
      where
        place : k + length src + i ≡ length (take k dst) + (length src + i)
        place = omega (arith, length-take k dst)
