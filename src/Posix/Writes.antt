-- ===== src/Posix/Writes.antt =====
-- The loop around `write`, over a system that interrupts it now and then.
use sqlite_on_gcs_rapid.Base.{
  ℕ, zero, suc, ◌+◌, ◌≤◌, ◌<◌, sym, ap, ◌∙◌, inl, inr, List, [], ◌∷◌, ◌++◌, append_assoc,
  append-nil, length, take, drop, length-drop, take-append-drop, take-add, subst, arith,
}
use sqlite_on_gcs_rapid.Status.{Exec}
use sqlite_on_gcs_rapid.Status.Returns.{Returns, Returns-weaken}
use sqlite_on_gcs_rapid.Posix.{Posix, Called, returned, failed, after_write, write_loop, write_all}
use sqlite_on_gcs_rapid.Posix.Laws.{Answers, returns, fails, Fails, IsPosix}

module _ {P : Posix} {Holds AtEnd : P.State → List ℕ → Type 0}
    {Remains : P.State → List ℕ → List ℕ → Type 0} {F : Type 0}
    (lawful : IsPosix P Holds AtEnd Remains F) where
  -- What a failed loop leaves: a first part of its bytes is written.
  abbrev pub Partly : List ℕ → List ℕ → P.State → Type 0
  Partly bs d s = (k : ℕ) × F × AtEnd s (bs ++ take k d)

  after_write_lem :
      (fuel : ℕ) (d : List ℕ) (s : P.State) (bs : List ℕ) (again : List ℕ → Exec P.State (Unit {0}))
      → ((d' : List ℕ) (s' : P.State) (bs' : List ℕ)
          → length d' + P.interruptions s' ≤ fuel
          → AtEnd s' bs'
          → Returns (λ _ s''. AtEnd s'' (bs' ++ d')) (Partly bs' d') (again d' s'))
      → length d + P.interruptions s ≤ suc fuel
      → (r : Called P.Errno ℕ × P.State)
      → Answers
          (λ k s'.
            (0 < k)
            × (k ≤ length d)
            × (P.interruptions s' ≤ P.interruptions s)
            × AtEnd s' (bs ++ take k d))
          (λ e s'. AtEnd s' bs × Fails P F s e s')
          r
      → Returns (λ _ s'. AtEnd s' (bs ++ d)) (Partly bs d) (after_write P again d r)
  unfolding take
  after_write_lem fuel d s bs again ih h (returned k, s') (returns q) =
      Returns-weaken
        (ih (drop k d) s' (bs ++ take k d) (omega (arith, h, q.0, q.1, q.2, length-drop k d)) q.3)
        (λ _ s'' w.
          subst (AtEnd s'')
            (append_assoc bs (take k d) (drop k d) ∙ ap (λ e. bs ++ e) (take-append-drop k d)) w)
        (λ s'' w. (
          k + w.0,
          w.1,
          subst (AtEnd s'')
              (append_assoc bs (take k d) (take w.0 (drop k d))
                ∙ ap (λ e. bs ++ e) (take-add k w.0 d))
              w.2,
        ))
  after_write_lem fuel d s bs again ih h (failed e, s') (fails (b, inl i)) =
      rw i.0 (ih d s' bs (omega (arith, h, i.1)) b)
  after_write_lem fuel d s bs again ih h (failed e, s') (fails (b, inr f)) =
      rw f.0 (Returns.failed (0, f.1, subst (AtEnd s') (sym (append-nil bs)) b))

  write_loop_lem :
      (fuel : ℕ) (d : List ℕ) (s : P.State) (bs : List ℕ)
      → length d + P.interruptions s ≤ fuel
      → AtEnd s bs
      → Returns (λ _ s'. AtEnd s' (bs ++ d)) (Partly bs d) (write_loop P fuel d s)
  unfolding write_loop
  write_loop_lem fuel [] s bs h a = Returns.done (subst (AtEnd s) (sym (append-nil bs)) a)
  write_loop_lem zero (x ∷ d) s bs h a = absurd (omega arith)
  write_loop_lem (suc fuel) (x ∷ d) s bs h a =
      after_write_lem fuel (x ∷ d) s bs (write_loop P fuel) (write_loop_lem fuel) h
        (P.write (x ∷ d) s) (lawful.write_lem (x ∷ d) s (omega arith) a)

  -- The loop around `write` ends however often it is interrupted and however few bytes a call takes:
  -- it writes all its bytes at the end of the file, or a fault of the system stops it behind a first
  -- part of them.
  pub write_all_lem :
      (d : List ℕ) (s : P.State) (bs : List ℕ)
      → AtEnd s bs
      → Returns (λ _ s'. AtEnd s' (bs ++ d)) (Partly bs d) (write_all P d s)
  unfolding write_all
  write_all_lem d s bs a = write_loop_lem (length d + P.interruptions s) d s bs (omega arith) a
