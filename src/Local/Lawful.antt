-- ===== src/Local/Lawful.antt =====
-- `LocalStorage` against the contract of the storages.
use sqlite_on_gcs_rapid.Base.{
  ℕ, ◌≡◌, sym, List, [], ◌∷◌, ◌++◌, append-nil, ne→==, length, take, subst,
}
use sqlite_on_gcs_rapid.Status.{pure}
use sqlite_on_gcs_rapid.Status.Returns.{Returns, done, Returns-bind}
use sqlite_on_gcs_rapid.Storage.{IsLawful}
use sqlite_on_gcs_rapid.Posix.{Posix, call, write_all}
use sqlite_on_gcs_rapid.Posix.Laws.{IsPosix, checked_lem}
use sqlite_on_gcs_rapid.Posix.Writes.{write_all_lem}
use sqlite_on_gcs_rapid.Local.{append_at, append, get_size, sync, local_storage}
use sqlite_on_gcs_rapid.Local.Reads.{pread-Exactly}

module _ {P : Posix} {Holds AtEnd : P.State → List ℕ → Type 0}
    {Remains : P.State → List ℕ → List ℕ → Type 0} {F : Type 0}
    (lawful : IsPosix P Holds AtEnd Remains F) where
  append_at-Holds :
      (d : List ℕ) (off : ℕ) (s : P.State) {bs : List ℕ}
      → off ≡ length bs
      → AtEnd s bs
      → Returns
          (λ a s'. (a ≡ length bs) × Holds s' (bs ++ d))
          (λ s'. (k : ℕ) × F × Holds s' (bs ++ take k d))
          (append_at P d off s)
  unfolding append_at
  append_at-Holds [] off s {bs} e a =
      done (e, subst (Holds s) (sym (append-nil bs)) (lawful.at_end_holds a))
  append_at-Holds (x ∷ d) off s {bs} e a = rw (ne→== (length d)) (
      Returns-bind (write_all P (x ∷ d)) (λ _. pure off) s (write_all_lem lawful (x ∷ d) s bs a)
        (λ _ s'' b. done (e, lawful.at_end_holds b)) (λ s'' p. (p.0, p.1, lawful.at_end_holds p.2)))

  append-Holds :
      (d : List ℕ) (s : P.State) {bs : List ℕ}
      → Holds s bs
      → Returns
          (λ a s'. (a ≡ length bs) × Holds s' (bs ++ d))
          (λ s'. (k : ℕ) × F × Holds s' (bs ++ take k d))
          (append P d s)
  unfolding append take
  append-Holds d s {bs} h =
      Returns-bind (call P P.lseek_end) (append_at P d) s
        (checked_lem P (P.lseek_end s) (lawful.lseek_lem s h))
        (λ off s' q. append_at-Holds d off s' q.0 q.1)
        (λ s' x. (0, x.0, subst (Holds s') (sym (append-nil bs)) x.1))

  -- Over a system that meets its laws, a local file meets the contract of the storages, however often
  -- its calls are interrupted: the loops of `Append` and `PRead` end, and what they return is not that
  -- their fuel ran out.
  pub local-IsLawful : IsLawful (local_storage P) Holds F
  unfolding get_size sync
  local-IsLawful = record {
    append_lem = append-Holds;
    pread_lem = pread-Exactly lawful;
    get_size_lem = λ s h. checked_lem P (P.fstat_size s) (lawful.fstat_lem s h);
    sync_lem = λ s h. checked_lem P (P.fsync s) (lawful.fsync_lem s h);
  }
