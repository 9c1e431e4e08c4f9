-- ===== src/Recovery/Flags.antt =====
-- The backward pass: which records count.
use sqlite_on_gcs_rapid.Base.{
  ℕ, ◌≡◌, ◌≢◌, refl, ap, ◌∙◌, List, [], ◌∷◌, ◌++◌, Bool, true, false, Bool-cases, inl, inr, arith,
}
use sqlite_on_gcs_rapid.Table.{Table}
use sqlite_on_gcs_rapid.Recovery.{
  RecoveredRecord, next_applied, first_flag, applied_flags, apply_record, apply_records, mark,
  recovered_table,
}
use sqlite_on_gcs_rapid.Recovery.Replay.{apply_all}

-- Records that commit: in state 1 or 2, the last one in state 1.
abbrev pub Committed : List RecoveredRecord → Type 0
Committed [] = Unit {0}
Committed (r ∷ []) = r.is_good ≡ 1
Committed (r ∷ (x ∷ rs)) = (r.is_good ≡ 2) × Committed (x ∷ rs)

-- No record at the end waits for a later one to commit it.
abbrev pub Closed : List RecoveredRecord → Type 0
Closed [] = Unit {0}
Closed (r ∷ []) = r.is_good ≢ 2
Closed (r ∷ (x ∷ rs)) = Closed (x ∷ rs)

pub Committed-Closed :
    (r : RecoveredRecord) (rs : List RecoveredRecord) → Committed (r ∷ rs) → Closed (r ∷ rs)
Committed-Closed r [] h = λ e. omega (arith, h, e)
Committed-Closed r (x ∷ rs) h = Committed-Closed x rs h.1

pub Closed-append :
    (rs : List RecoveredRecord) (ss : List RecoveredRecord)
    → Closed rs
    → Closed ss
    → Closed (rs ++ ss)
Closed-append [] ss h k = k
Closed-append (r ∷ []) [] h k = h
Closed-append (r ∷ []) (x ∷ ss) h k = k
Closed-append (r ∷ (x ∷ rs)) ss h k = Closed-append (x ∷ rs) ss h k

next_applied-of_ne_two : (g : ℕ) (x : Bool) → g ≢ 2 → next_applied g x ≡ next_applied g false
unfolding next_applied
next_applied-of_ne_two g x h = ground arith

-- What stands behind a closed log does not change which of its records count.
pub applied_flags-append :
    (rs ss : List RecoveredRecord)
    → Closed rs
    → applied_flags (rs ++ ss) ≡ applied_flags rs ++ applied_flags ss
unfolding applied_flags
applied_flags-append [] ss h = refl
applied_flags-append (r ∷ []) ss h =
    ap (λ x. x ∷ applied_flags ss)
      (next_applied-of_ne_two r.is_good (first_flag (applied_flags ss)) h)
applied_flags-append (r ∷ (x ∷ rs)) ss h =
    ap (λ fs. next_applied r.is_good (first_flag fs) ∷ fs) (applied_flags-append (x ∷ rs) ss h)

pub apply_records-append :
    (rs ss : List RecoveredRecord) (t : Table)
    → apply_records (rs ++ ss) (applied_flags rs ++ applied_flags ss) t
      ≡ apply_records ss (applied_flags ss) (apply_records rs (applied_flags rs) t)
unfolding apply_records applied_flags
apply_records-append [] ss t = refl
apply_records-append (r ∷ rs) ss t =
    elim (Bool-cases (next_applied r.is_good (first_flag (applied_flags rs)))) [
      | inl e ↦ rw e (apply_records-append rs ss (apply_record r t))
      | inr e ↦ rw e (apply_records-append rs ss t)
    ]

first_flag-Committed :
    (r : RecoveredRecord) (rs : List RecoveredRecord)
    → Committed (r ∷ rs)
    → next_applied r.is_good (first_flag (applied_flags rs)) ≡ true
unfolding applied_flags next_applied
first_flag-Committed r [] h = ground arith
first_flag-Committed r (x ∷ rs) h = ground (arith, first_flag-Committed x rs h.1)

-- All records that commit count.
pub apply_records-Committed :
    (rs : List RecoveredRecord) (t : Table)
    → Committed rs
    → apply_records rs (applied_flags rs) t ≡ apply_all rs t
unfolding apply_records apply_all applied_flags
apply_records-Committed [] t h = refl
apply_records-Committed (r ∷ []) t h =
    ap (λ x. apply_records (r ∷ []) (x ∷ []) t) (first_flag-Committed r [] h)
apply_records-Committed (r ∷ (x ∷ rs)) t h =
    ap (λ y. apply_records (r ∷ (x ∷ rs)) (y ∷ applied_flags (x ∷ rs)) t)
      (first_flag-Committed r (x ∷ rs) h)
    ∙ apply_records-Committed (x ∷ rs) (apply_record r t) h.1

-- The recovery of a closed log with a commit behind it.
pub recovered_table-commit :
    (rs ss : List RecoveredRecord) (t : Table)
    → Closed rs
    → Committed ss
    → recovered_table (rs ++ ss) t ≡ mark (apply_all ss (apply_records rs (applied_flags rs) t))
unfolding recovered_table
recovered_table-commit rs ss t h k = ap mark (
    ap (λ fs. apply_records (rs ++ ss) fs t) (applied_flags-append rs ss h)
    ∙ apply_records-append rs ss t
    ∙ apply_records-Committed ss (apply_records rs (applied_flags rs) t) k)
