-- ===== src/Storage.antt =====
-- storage.h: the interface `AppendOnlyStorage`, and the contract that its users rely on.
pub mod Memory
pub mod Either
use sqlite_on_gcs_rapid.Base.{ℕ, ◌+◌, ◌≤◌, ◌≡◌, List, ◌++◌, ℤ, pos, length, take, slice}
use sqlite_on_gcs_rapid.Status.{Exec}
use sqlite_on_gcs_rapid.Status.Returns.{Returns}

-- `pread size offset` returns the bytes that it put into the caller's buffer: their number is the
-- count that `PRead` returns.
pub record Storage : Type 1 where
  pub State : Type 0
  pub append : List ℕ → Exec State ℕ
  pub pread : ℕ → ℤ → Exec State (List ℕ)
  pub get_size : Exec State ℕ
  pub sync : Exec State (Unit {0})

-- `Holds s bs`: the object in state `s` holds the bytes `bs`. A call may fail only if the
-- environment has the fault `F`; a failed append may have written a part of its bytes.
pub record IsLawful (S : Storage) (Holds : S.State → List ℕ → Type 0) (F : Type 0) : Type 0 where
  pub append_lem :
      (d : List ℕ) (s : S.State) {bs : List ℕ}
      → Holds s bs
      → Returns
          (λ a s'. (a ≡ length bs) × Holds s' (bs ++ d))
          (λ s'. (k : ℕ) × F × Holds s' (bs ++ take k d))
          (S.append d s)
  pub pread_lem :
      (n o : ℕ) (s : S.State) {bs : List ℕ}
      → Holds s bs
      → o + n ≤ length bs
      → Returns
          (λ d s'. (d ≡ slice o n bs) × Holds s' bs)
          (λ s'. F × Holds s' bs)
          (S.pread n (pos o) s)
  pub get_size_lem :
      (s : S.State) {bs : List ℕ}
      → Holds s bs
      → Returns (λ n s'. (n ≡ length bs) × Holds s' bs) (λ s'. F × Holds s' bs) (S.get_size s)
  pub sync_lem :
      (s : S.State) {bs : List ℕ}
      → Holds s bs
      → Returns (λ _ s'. Holds s' bs) (λ s'. F × Holds s' bs) (S.sync s)
