-- ===== src/Posix/Laws.antt =====
-- What is assumed of the system calls.
use sqlite_on_gcs_rapid.Base.{
  ℕ, ◌≤◌, ◌<◌, ◌≡◌, ◌⊎◌, List, ◌++◌, true, false, length, take, drop, slice,
}
use sqlite_on_gcs_rapid.Status.Returns.{Returns, done}
use sqlite_on_gcs_rapid.Posix.{Posix, Called, returned, failed, checked}

-- The outcome of a call.
pub data Answers {ℓ κ μ} {Errno : Type 0} {S : Type ℓ} {A : Type κ} (Q : A → S → Type μ)
    (E : Errno → S → Type μ) : Called Errno A × S → Type (ℓ ⊔ κ ⊔ μ) where
  returns : {a : A} {s : S} → Q a s → Answers Q E (returned a, s)
  fails : {e : Errno} {s : S} → E e s → Answers Q E (failed e, s)

-- An interruption leaves fewer of them; any other failure is a fault of the system.
abbrev pub Fails : (P : Posix) → Type 0 → P.State → P.Errno → P.State → Type 0
Fails P F s e s' =
    ((P.is_eintr e ≡ true) × (P.interruptions s' < P.interruptions s))
    ⊎ ((P.is_eintr e ≡ false) × F)

-- `Holds s bs`: the file of the descriptor has the bytes `bs`. `AtEnd s bs`: its position is their
-- end too. `Remains s bs rest`: `rest` is what stands from the position on. A call fails only by an
-- interruption, which leaves fewer of them, or by the fault `F`. A `write` at the end writes a first
-- part of its bytes, which is not empty; a `read` or `pread` gives a first part of what is there,
-- which is empty only at the end. Concurrent changes of the file by others are excluded.
pub record IsPosix (P : Posix) (Holds AtEnd : P.State → List ℕ → Type 0)
    (Remains : P.State → List ℕ → List ℕ → Type 0) (F : Type 0) : Type 0 where
  pub at_end_holds : {s : P.State} {bs : List ℕ} → AtEnd s bs → Holds s bs
  pub lseek_lem :
      (s : P.State) {bs : List ℕ}
      → Holds s bs
      → Answers (λ k s'. (k ≡ length bs) × AtEnd s' bs) (λ e s'. F × Holds s' bs) (P.lseek_end s)
  pub write_lem :
      (d : List ℕ) (s : P.State) {bs : List ℕ}
      → 0 < length d
      → AtEnd s bs
      → Answers
          (λ k s'.
            (0 < k)
            × (k ≤ length d)
            × (P.interruptions s' ≤ P.interruptions s)
            × AtEnd s' (bs ++ take k d))
          (λ e s'. AtEnd s' bs × Fails P F s e s')
          (P.write d s)
  pub pread_lem :
      (n o : ℕ) (s : P.State) {bs : List ℕ}
      → 0 < n
      → Holds s bs
      → Answers
          (λ d s'.
            (d ≡ slice o (length d) bs)
            × (length d ≤ n)
            × (o < length bs → 0 < length d)
            × (P.interruptions s' ≤ P.interruptions s)
            × Holds s' bs)
          (λ e s'. Holds s' bs × Fails P F s e s')
          (P.pread n o s)
  pub read_lem :
      (n : ℕ) (s : P.State) {bs rest : List ℕ}
      → 0 < n
      → Remains s bs rest
      → Answers
          (λ d s'.
            (d ≡ take (length d) rest)
            × (length d ≤ n)
            × (0 < length rest → 0 < length d)
            × (length d ≤ length rest)
            × (P.interruptions s' ≤ P.interruptions s)
            × Remains s' bs (drop (length d) rest))
          (λ e s'. Remains s' bs rest × Fails P F s e s')
          (P.read n s)
  pub fsync_lem :
      (s : P.State) {bs : List ℕ}
      → Holds s bs
      → Answers (λ _ s'. Holds s' bs) (λ e s'. F × Holds s' bs) (P.fsync s)
  pub fstat_lem :
      (s : P.State) {bs : List ℕ}
      → Holds s bs
      → Answers (λ k s'. (k ≡ length bs) × Holds s' bs) (λ e s'. F × Holds s' bs) (P.fstat_size s)
  pub fstat_read_lem :
      (s : P.State) {bs rest : List ℕ}
      → Remains s bs rest
      → Answers (λ k s'. (k ≡ length bs) × Remains s' bs rest) (λ e s'. F) (P.fstat_size s)

module _ (P : Posix) where
  pub checked_lem :
      {A : Type 0} {Q : A → P.State → Type 0} {E : P.State → Type 0}
      (r : Called P.Errno A × P.State)
      → Answers Q (λ e s'. E s') r
      → Returns Q E (checked P r)
  checked_lem (returned a, s) (returns q) = done q
  checked_lem (failed e, s) (fails x) = Returns.failed x
