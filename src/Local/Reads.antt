-- ===== src/Local/Reads.antt =====
-- The loop around `pread`, over a system that interrupts it now and then.
use sqlite_on_gcs_rapid.Base.{
  ℕ, zero, suc, ◌+◌, ◌-◌, ◌≤◌, ◌<◌, ◌≡◌, refl, ap, ap₂, ◌∙◌, inl, inr, List, [], ◌∷◌, ◌++◌, pos,
  length, take, slice, slice-append-slice, arith,
}
use sqlite_on_gcs_rapid.Status.{Result, Exec}
use sqlite_on_gcs_rapid.Status.Returns.{Returns, done}
use sqlite_on_gcs_rapid.Posix.{Posix, Called, returned, failed}
use sqlite_on_gcs_rapid.Posix.Laws.{Answers, returns, fails, Fails, IsPosix}
use sqlite_on_gcs_rapid.Local.{prepend, after_pread, pread_loop, pread}

module _ {P : Posix} {Holds AtEnd : P.State → List ℕ → Type 0}
    {Remains : P.State → List ℕ → List ℕ → Type 0} {F : Type 0}
    (lawful : IsPosix P Holds AtEnd Remains F) where
  abbrev Exactly : ℕ → ℕ → List ℕ → List ℕ → P.State → Type 0
  Exactly n o bs d s = (d ≡ slice o n bs) × Holds s bs

  abbrev Failed : List ℕ → P.State → Type 0
  Failed bs s = F × Holds s bs

  prepend_lem :
      (n o : ℕ) (bs d : List ℕ) (r : Result (List ℕ) × P.State)
      → length d ≤ n
      → d ≡ slice o (length d) bs
      → Returns (Exactly (n - length d) (o + length d) bs) (Failed bs) r
      → Returns (Exactly n o bs) (Failed bs) (prepend P d r)
  prepend_lem n o bs d r h e (done q) = done (
    ap₂ ◌++◌ e q.0
        ∙ slice-append-slice o (length d) (n - length d) bs
        ∙ ap (λ k. slice o k bs) {x = length d + (n - length d)} {y = n} (omega (arith, h)),
    q.1,
  )
  prepend_lem n o bs d r h e (Returns.failed x) = Returns.failed x

  after_pread_lem :
      (fuel n o : ℕ) (s : P.State) (bs : List ℕ) (again : ℕ → ℕ → Exec P.State (List ℕ))
      → ((n' o' : ℕ) (s' : P.State)
          → n' + P.interruptions s' ≤ fuel
          → o' + n' ≤ length bs
          → Holds s' bs
          → Returns (Exactly n' o' bs) (Failed bs) (again n' o' s'))
      → n + P.interruptions s ≤ suc fuel
      → 0 < n
      → o + n ≤ length bs
      → (r : Called P.Errno (List ℕ) × P.State)
      → Answers
          (λ d s'.
            (d ≡ slice o (length d) bs)
            × (length d ≤ n)
            × (o < length bs → 0 < length d)
            × (P.interruptions s' ≤ P.interruptions s)
            × Holds s' bs)
          (λ e s'. Holds s' bs × Fails P F s e s')
          r
      → Returns (Exactly n o bs) (Failed bs) (after_pread P again n o r)
  after_pread_lem fuel n o s bs again ih h p k (returned [], s') (returns q) =
      absurd (omega (arith, q.2 (omega arith)))
  after_pread_lem fuel n o s bs again ih h p k (returned (x ∷ d), s') (returns q) =
      prepend_lem n o bs (x ∷ d) (again (n - length (x ∷ d)) (o + length (x ∷ d)) s') q.1 q.0 (
        ih (n - length (x ∷ d)) (o + length (x ∷ d)) s' (omega (arith, h, q.1, q.3))
          (omega (arith, k, q.1)) q.4)
  after_pread_lem fuel n o s bs again ih h p k (failed e, s') (fails (b, inl i)) =
      rw i.0 (ih n o s' (omega (arith, h, i.1)) k b)
  after_pread_lem fuel n o s bs again ih h p k (failed e, s') (fails (b, inr f)) =
      rw f.0 (Returns.failed (f.1, b))

  pread_loop_lem :
      (fuel : ℕ) (bs : List ℕ) (n o : ℕ) (s : P.State)
      → n + P.interruptions s ≤ fuel
      → o + n ≤ length bs
      → Holds s bs
      → Returns (Exactly n o bs) (Failed bs) (pread_loop P fuel n o s)
  unfolding pread_loop slice take
  pread_loop_lem fuel bs zero o s h k b = done (refl, b)
  pread_loop_lem zero bs (suc n) o s h k b = absurd (omega arith)
  pread_loop_lem (suc fuel) bs (suc n) o s h k b =
      after_pread_lem fuel (suc n) o s bs (pread_loop P fuel) (pread_loop_lem fuel bs) h
        (omega arith) k (P.pread (suc n) o s) (lawful.pread_lem (suc n) o s (omega arith) b)

  pub pread-Exactly :
      (n o : ℕ) (s : P.State) {bs : List ℕ}
      → Holds s bs
      → o + n ≤ length bs
      → Returns
          (λ d s'. (d ≡ slice o n bs) × Holds s' bs)
          (λ s'. F × Holds s' bs)
          (pread P n (pos o) s)
  unfolding pread
  pread-Exactly n o s {bs} b k = pread_loop_lem (n + P.interruptions s) bs n o s (omega arith) k b
