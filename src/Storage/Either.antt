-- ===== src/Storage/Either.antt =====
-- A pointer to an `AppendOnlyStorage` that may be of one of two classes: a call goes to the class of
-- the object.
use sqlite_on_gcs_rapid.Base.{ℕ, List, pos}
use sqlite_on_gcs_rapid.Status.{Result, Exec}
use sqlite_on_gcs_rapid.Status.Returns.{Returns, done, failed}
use sqlite_on_gcs_rapid.Storage.{Storage, IsLawful}

module _ (S T : Storage) where
  pub data EitherStorage : Type 0 where
    first : S.State → EitherStorage
    second : T.State → EitherStorage

  abbrev of_first {ℓ} : {A : Type ℓ} → Result A × S.State → Result A × EitherStorage
  of_first (r, s) = (r, first s)

  abbrev of_second {ℓ} : {A : Type ℓ} → Result A × T.State → Result A × EitherStorage
  of_second (r, s) = (r, second s)

  abbrev dispatched {ℓ} : {A : Type ℓ} → Exec S.State A → Exec T.State A → Exec EitherStorage A
  dispatched f g (first s) = of_first (f s)
  dispatched f g (second s) = of_second (g s)

  abbrev pub either_storage : Storage
  either_storage = record {
    State = EitherStorage;
    append = λ d. dispatched (S.append d) (T.append d);
    pread = λ n o. dispatched (S.pread n o) (T.pread n o);
    get_size = dispatched S.get_size T.get_size;
    sync = dispatched S.sync T.sync;
  }

module _ {S T : Storage} {HoldsS : S.State → List ℕ → Type 0} {HoldsT : T.State → List ℕ → Type 0}
    {F : Type 0} (lawfulS : IsLawful S HoldsS F) (lawfulT : IsLawful T HoldsT F) where
  abbrev pub EitherHolds : EitherStorage S T → List ℕ → Type 0
  EitherHolds (first s) bs = HoldsS s bs
  EitherHolds (second s) bs = HoldsT s bs

  of_first_lem :
      {A : Type 0} {Q : A → EitherStorage S T → Type 0} {E : EitherStorage S T → Type 0}
      (r : Result A × S.State)
      → Returns (λ a s. Q a (first s)) (λ s. E (first s)) r
      → Returns Q E (of_first S T r)
  of_first_lem r (done q) = done q
  of_first_lem r (failed x) = failed x

  of_second_lem :
      {A : Type 0} {Q : A → EitherStorage S T → Type 0} {E : EitherStorage S T → Type 0}
      (r : Result A × T.State)
      → Returns (λ a s. Q a (second s)) (λ s. E (second s)) r
      → Returns Q E (of_second S T r)
  of_second_lem r (done q) = done q
  of_second_lem r (failed x) = failed x

  dispatched_lem :
      {A : Type 0} {Q : A → EitherStorage S T → Type 0} {E : EitherStorage S T → Type 0}
      (f : Exec S.State A) (g : Exec T.State A) (x : EitherStorage S T) {bs : List ℕ}
      → EitherHolds x bs
      → ((s : S.State) → HoldsS s bs → Returns (λ a s'. Q a (first s')) (λ s'. E (first s')) (f s))
      → ((s : T.State)
          → HoldsT s bs
          → Returns (λ a s'. Q a (second s')) (λ s'. E (second s')) (g s))
      → Returns Q E (dispatched S T f g x)
  dispatched_lem f g (first s) h a b = of_first_lem (f s) (a s h)
  dispatched_lem f g (second s) h a b = of_second_lem (g s) (b s h)

  -- A pointer to one of two lawful classes is lawful.
  pub either-IsLawful : IsLawful (either_storage S T) EitherHolds F
  either-IsLawful = record {
    append_lem = λ d x h.
        dispatched_lem (S.append d) (T.append d) x h (λ s k. lawfulS.append_lem d s k)
          (λ s k. lawfulT.append_lem d s k);
    pread_lem = λ n o x h fits.
        dispatched_lem (S.pread n (pos o)) (T.pread n (pos o)) x h
          (λ s k. lawfulS.pread_lem n o s k fits) (λ s k. lawfulT.pread_lem n o s k fits);
    get_size_lem = λ x h.
        dispatched_lem S.get_size T.get_size x h (λ s k. lawfulS.get_size_lem s k)
          (λ s k. lawfulT.get_size_lem s k);
    sync_lem = λ x h.
        dispatched_lem S.sync T.sync x h (λ s k. lawfulS.sync_lem s k)
          (λ s k. lawfulT.sync_lem s k);
  }
