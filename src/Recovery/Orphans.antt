-- ===== src/Recovery/Orphans.antt =====
-- Records in state 2 with no commit behind them: what the recovery makes of them, now and later.
use sqlite_on_gcs_rapid.Base.{◌≡◌, ◌≢◌, refl, ap, ◌∙◌, List, [], ◌∷◌, ◌++◌, false, arith}
use sqlite_on_gcs_rapid.Table.{Table}
use sqlite_on_gcs_rapid.Recovery.{
  RecoveredRecord, next_applied, first_flag, applied_flags, apply_record, apply_records, mark,
  recovered_table,
}
use sqlite_on_gcs_rapid.Recovery.Replay.{apply_all}
use sqlite_on_gcs_rapid.Recovery.Flags.{
  Committed, Closed, Closed-append, applied_flags-append, apply_records-append,
  recovered_table-commit,
}

-- Records of a transaction that has not been committed.
abbrev pub Uncommitted : List RecoveredRecord → Type 0
Uncommitted [] = Unit {0}
Uncommitted (r ∷ rs) = (r.is_good ≡ 2) × Uncommitted rs

first_flag-Uncommitted :
    (rs : List RecoveredRecord) → Uncommitted rs → first_flag (applied_flags rs) ≡ false
unfolding applied_flags next_applied
first_flag-Uncommitted [] h = refl
first_flag-Uncommitted (r ∷ rs) h = ground (arith, first_flag-Uncommitted rs h.1)

apply_records-Uncommitted :
    (rs : List RecoveredRecord) (t : Table)
    → Uncommitted rs
    → apply_records rs (applied_flags rs) t ≡ t
unfolding apply_records applied_flags
apply_records-Uncommitted [] t h = refl
apply_records-Uncommitted (r ∷ rs) t h =
    ap (λ x. apply_records (r ∷ rs) (x ∷ applied_flags rs) t)
      (unfold applied_flags in first_flag-Uncommitted (r ∷ rs) h)
    ∙ apply_records-Uncommitted rs t h.1

-- Records in state 2 behind a log that is closed do not count in the recovery.
pub recovered_table-Uncommitted :
    (rs os : List RecoveredRecord) (t : Table)
    → Closed rs
    → Uncommitted os
    → recovered_table (rs ++ os) t ≡ recovered_table rs t
unfolding recovered_table
recovered_table-Uncommitted rs os t h k = ap mark (
    ap (λ fs. apply_records (rs ++ os) fs t) (applied_flags-append rs os h)
    ∙ apply_records-append rs os t
    ∙ apply_records-Uncommitted os (apply_records rs (applied_flags rs) t) k)

Committed-append :
    (os : List RecoveredRecord) (s : RecoveredRecord) (ss : List RecoveredRecord)
    → Uncommitted os
    → Committed (s ∷ ss)
    → Committed (os ++ s ∷ ss)
Committed-append [] s ss h k = k
Committed-append (o ∷ []) s ss h k = (h.0, k)
Committed-append (o ∷ (p ∷ os)) s ss h k = (h.0, Committed-append (p ∷ os) s ss h.1 k)

apply_all-append :
    (rs ss : List RecoveredRecord) (t : Table)
    → apply_all (rs ++ ss) t ≡ apply_all ss (apply_all rs t)
unfolding apply_all
apply_all-append [] ss t = refl
apply_all-append (r ∷ rs) ss t = apply_all-append rs ss (apply_record r t)

-- Records in state 2 behind a closed log, with no padding record behind them, all count as soon as
-- a later transaction that is committed stands behind them: its commit takes them in.
pub recovered_table-revived :
    (rs os : List RecoveredRecord) (s : RecoveredRecord) (ss : List RecoveredRecord) (t : Table)
    → Closed rs
    → Uncommitted os
    → Committed (s ∷ ss)
    → recovered_table (rs ++ (os ++ s ∷ ss)) t
      ≡ mark (apply_all (s ∷ ss) (apply_all os (apply_records rs (applied_flags rs) t)))
recovered_table-revived rs os s ss t h k c =
    recovered_table-commit rs (os ++ s ∷ ss) t h (Committed-append os s ss k c)
    ∙ ap mark (apply_all-append os (s ∷ ss) (apply_records rs (applied_flags rs) t))

Closed-snoc :
    (rs : List RecoveredRecord) (z : RecoveredRecord) → z.is_good ≢ 2 → Closed (rs ++ z ∷ [])
Closed-snoc [] z h = h
Closed-snoc (r ∷ []) z h = h
Closed-snoc (r ∷ (x ∷ rs)) z h = Closed-snoc (x ∷ rs) z h

module _ (z : RecoveredRecord) (padding : z.is_good ≡ 0) where
  aborted_flag :
      (os : List RecoveredRecord)
      → Uncommitted os
      → first_flag (applied_flags (os ++ z ∷ [])) ≡ false
  unfolding applied_flags next_applied
  aborted_flag [] h = ground arith
  aborted_flag (o ∷ os) h = ground (arith, aborted_flag os h.1)

  aborted_records :
      (os : List RecoveredRecord) (t : Table)
      → Uncommitted os
      → apply_records (os ++ z ∷ []) (applied_flags (os ++ z ∷ [])) t ≡ t
  unfolding apply_records applied_flags
  aborted_records [] t h =
      ap (λ x. apply_records (z ∷ []) (x ∷ []) t) (unfold applied_flags in aborted_flag [] tt)
  aborted_records (o ∷ os) t h =
      ap (λ x. apply_records (o ∷ (os ++ z ∷ [])) (x ∷ applied_flags (os ++ z ∷ [])) t)
        (unfold applied_flags in aborted_flag (o ∷ os) h)
      ∙ aborted_records os t h.1

  Closed-aborted : (os : List RecoveredRecord) → Closed (os ++ z ∷ [])
  Closed-aborted os = Closed-snoc os z (λ e. omega (arith, padding, e))

  -- Records in state 2 behind a closed log, with a record in state 0 behind them, never count: not
  -- when a transaction that is committed follows.
  pub recovered_table-aborted :
      (rs os ss : List RecoveredRecord) (t : Table)
      → Closed rs
      → Uncommitted os
      → Committed ss
      → recovered_table ((rs ++ (os ++ z ∷ [])) ++ ss) t
        ≡ mark (apply_all ss (apply_records rs (applied_flags rs) t))
  recovered_table-aborted rs os ss t h k c =
      recovered_table-commit (rs ++ (os ++ z ∷ [])) ss t
        (Closed-append rs (os ++ z ∷ []) h (Closed-aborted os)) c
      ∙ ap (λ u. mark (apply_all ss u))
          (ap (λ fs. apply_records (rs ++ (os ++ z ∷ [])) fs t)
              (applied_flags-append rs (os ++ z ∷ []) h)
            ∙ apply_records-append rs (os ++ z ∷ []) t
            ∙ aborted_records os (apply_records rs (applied_flags rs) t) k)
