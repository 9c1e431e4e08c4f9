-- ===== src/Storage/Memory.antt =====
-- vfs_backend.cc: `InMemoryStorage`, which holds the rollback journals. The mutex is not modelled:
-- each call is one step.
use sqlite_on_gcs_rapid.Base.{
  ℕ, suc, ◌+◌, ◌≤◌, ◌≡◌, ap, List, [], ◌∷◌, ◌++◌, append-nil, ℤ, pos, negsuc, length, take, slice,
  length-append, ltb, lt→ltb, le→ltb, if◌then◌else◌, arith,
}
use sqlite_on_gcs_rapid.Status.{ok, err, invalid_argument, out_of_range, Exec, pure, raise}
use sqlite_on_gcs_rapid.Status.Returns.{Returns, done}
use sqlite_on_gcs_rapid.Storage.{Storage, IsLawful}

pub record InMemoryStorage : Type 0 where
  pub data_ : List ℕ
  pub size_ : ℕ

abbrev pub empty : InMemoryStorage
empty = record { data_ = []; size_ = 0 }

-- A null `data` is not modelled: no caller passes one with a size above 0.
pub append : List ℕ → Exec InMemoryStorage ℕ
append d s =
    if ltb 0 (length d)
    then (ok s.size_, record { data_ = s.data_ ++ d; size_ = s.size_ + length d })
    else (ok s.size_, s)

pub pread : ℕ → ℤ → Exec InMemoryStorage (List ℕ)
pread n (negsuc _) = raise invalid_argument
pread n (pos o) =
    λ s. if ltb s.size_ (o + n) then (err out_of_range, s) else (ok (slice o n s.data_), s)

pub get_size : Exec InMemoryStorage ℕ
get_size s = (ok s.size_, s)

pub sync : Exec InMemoryStorage (Unit {0})
sync = pure tt

abbrev pub memory_storage : Storage
memory_storage = record {
  State = InMemoryStorage;
  append = append;
  pread = pread;
  get_size = get_size;
  sync = sync;
}

pub record Holds (s : InMemoryStorage) (bs : List ℕ) : Type 0 where
  pub contents : s.data_ ≡ bs
  pub counted : s.size_ ≡ length bs

append-Holds :
    (d : List ℕ) (s : InMemoryStorage) {bs : List ℕ}
    → Holds s bs
    → Returns
        (λ a s'. (a ≡ length bs) × Holds s' (bs ++ d))
        (λ s'. (k : ℕ) × ⊥ × Holds s' (bs ++ take k d))
        (append d s)
unfolding append
append-Holds [] s {bs} h = done (h.counted, rw append-nil h)
append-Holds (x ∷ d) s {bs} h =
    rw (lt→ltb 0 (suc (length d)) (omega arith)) (done (h.counted, grown))
  where
    grown :
        Holds (record { data_ = s.data_ ++ x ∷ d; size_ = s.size_ + suc (length d) }) (bs ++ x ∷ d)
    grown = record {
      contents = ap (λ t. t ++ x ∷ d) h.contents;
      counted = omega (arith, h.counted, length-append bs (x ∷ d));
    }

pread-Holds :
    (n o : ℕ) (s : InMemoryStorage) {bs : List ℕ}
    → Holds s bs
    → o + n ≤ length bs
    → Returns (λ d s'. (d ≡ slice o n bs) × Holds s' bs) (λ s'. ⊥ × Holds s' bs) (pread n (pos o) s)
unfolding pread
pread-Holds n o s h fits =
    rw (le→ltb s.size_ (o + n) (omega (arith, h.counted))) (done (ap (slice o n) h.contents, h))

-- The in-memory storage meets the contract of `AppendOnlyStorage`: appends go to the end and return
-- the old length, reads within the bounds return the bytes there, the size is the length, and none
-- of these fails.
pub memory-IsLawful : IsLawful memory_storage Holds ⊥
unfolding get_size sync
memory-IsLawful = record {
  append_lem = append-Holds;
  pread_lem = pread-Holds;
  get_size_lem = λ s h. done (h.counted, h);
  sync_lem = λ s h. done h;
}
