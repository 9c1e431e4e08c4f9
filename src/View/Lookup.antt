-- ===== src/View/Lookup.antt =====
-- Lookups in the pending records and in the mapping.
use sqlite_on_gcs_rapid.Base.{
  ℕ, zero, suc, ◌+◌, ◌≤◌, ◌<◌, ◌≡◌, refl, ap, ◌∙◌, List, [], ◌∷◌, ◌++◌, reverse, reverse-append,
  Option, none, some, ℤ, pos, length, get_or, ltb, ◌==◌, ◌==ℤ◌, if◌then◌else◌, Bool-cases, inl, inr,
  ltb→lt, arith,
}
use sqlite_on_gcs_rapid.Table.{
  PendingRecord, Table, find_record, find_pending, mapped_at, put_mapping, resize, assign, prune,
}
use sqlite_on_gcs_rapid.View.{or_else, AllFull}

find_record-append :
    (z : ℤ) (xs ys : List PendingRecord)
    → find_record z (xs ++ ys) ≡ or_else (find_record z xs) (find_record z ys)
unfolding find_record
find_record-append z [] ys = refl
find_record-append z (x ∷ xs) ys = ground (arith, find_record-append z xs ys)

-- The record that a backward search finds first is the last one.
unfoldable pub last_record : ℤ → List PendingRecord → Option (List ℕ)
last_record z [] = none
last_record z (r ∷ rs) =
    or_else (last_record z rs) (if r.block_index ==ℤ z then some r.payload else none)

or_else-none : (o : Option (List ℕ)) → or_else o none ≡ o
or_else-none none = refl
or_else-none (some d) = refl

find_record-reverse :
    (z : ℤ) (rs : List PendingRecord) → find_record z (reverse rs) ≡ last_record z rs
unfolding last_record find_record
find_record-reverse z [] = refl
find_record-reverse z (r ∷ rs) =
    ap (find_record z) (reverse-append (r ∷ []) rs)
    ∙ find_record-append z (reverse rs) (r ∷ [])
    ∙ ap (λ o. or_else o (find_record z (r ∷ []))) (find_record-reverse z rs)

pub find_pending-eq-last_record :
    (z : ℤ) (t : Table) → find_pending z t ≡ last_record z t.pending_records
unfolding find_pending
find_pending-eq-last_record z t = find_record-reverse z t.pending_records

pub or_else_assoc : (a b c : Option (List ℕ)) → or_else (or_else a b) c ≡ or_else a (or_else b c)
or_else_assoc none b c = refl
or_else_assoc (some d) b c = refl

pub last_record-append :
    (z : ℤ) (xs ys : List PendingRecord)
    → last_record z (xs ++ ys) ≡ or_else (last_record z ys) (last_record z xs)
unfolding last_record
last_record-append z [] ys = ground arith
last_record-append z (x ∷ xs) ys = ground (arith, last_record-append z xs ys)

pub last_record-snoc :
    (b c : ℕ) (payload : List ℕ) (rs : List PendingRecord)
    → last_record (pos b) (rs ++ record { block_index = pos c; payload = payload } ∷ [])
      ≡ (if c == b then some payload else last_record (pos b) rs)
unfolding last_record
last_record-snoc b c payload rs =
    ground (
      arith,
      last_record-append (pos b) rs (record { block_index = pos c; payload = payload } ∷ []),
    )

-- Pruning forgets exactly the records of the blocks from `c` on.
pub last_record-prune :
    (b c : ℕ) (rs : List PendingRecord)
    → last_record (pos b) (prune c rs) ≡ (if ltb b c then last_record (pos b) rs else none)
unfolding last_record prune
last_record-prune b c [] = ground arith
last_record-prune b c (r ∷ rs) = ground (arith, last_record-prune b c rs)

pub AllFull-append : (xs ys : List PendingRecord) → AllFull xs → AllFull ys → AllFull (xs ++ ys)
AllFull-append [] ys h k = k
AllFull-append (x ∷ xs) ys h k = (h.0, AllFull-append xs ys h.1 k)

pub AllFull-prune : (c : ℕ) (rs : List PendingRecord) → AllFull rs → AllFull (prune c rs)
unfolding prune
AllFull-prune c [] h = tt
AllFull-prune c (r ∷ rs) h = ground (arith, AllFull-prune c rs)

pub length-last_record :
    (z : ℤ) (rs : List PendingRecord) (d : List ℕ)
    → AllFull rs
    → last_record z rs ≡ some d
    → length d ≡ 4096
unfolding last_record
length-last_record z [] d h e = absurd (cc)
length-last_record z (r ∷ rs) d h e = ground (arith, length-last_record z rs d)

pub mapped_at-nil : (b : ℕ) → mapped_at [] b ≡ none
unfolding mapped_at get_or
mapped_at-nil b = refl

pub mapped_at-resize :
    (c : ℕ) (l : List (Option ℕ)) (b : ℕ)
    → mapped_at (resize c l) b ≡ (if ltb b c then mapped_at l b else none)
unfolding mapped_at resize get_or
mapped_at-resize zero l b = ground arith
mapped_at-resize (suc c) [] zero = ground arith
mapped_at-resize (suc c) [] (suc b) = ground (arith, mapped_at-resize c [] b)
mapped_at-resize (suc c) (p ∷ l) zero = ground arith
mapped_at-resize (suc c) (p ∷ l) (suc b) = ground (arith, mapped_at-resize c l b)

length-resize : (c : ℕ) (l : List (Option ℕ)) → length (resize c l) ≡ c
unfolding resize
length-resize zero l = refl
length-resize (suc c) [] = ap suc (length-resize c [])
length-resize (suc c) (p ∷ l) = ap suc (length-resize c l)

mapped_at-assign :
    (i : ℕ) (p : Option ℕ) (l : List (Option ℕ)) (b : ℕ)
    → i < length l
    → mapped_at (assign i p l) b ≡ (if i == b then p else mapped_at l b)
unfolding mapped_at assign get_or
mapped_at-assign i p [] b h = absurd (omega arith)
mapped_at-assign zero p (q ∷ l) zero h = refl
mapped_at-assign zero p (q ∷ l) (suc b) h = ground arith
mapped_at-assign (suc i) p (q ∷ l) zero h = ground arith
mapped_at-assign (suc i) p (q ∷ l) (suc b) h = ground (arith, mapped_at-assign i p l b)

mapped_at-of_length : (l : List (Option ℕ)) (b : ℕ) → length l ≤ b → mapped_at l b ≡ none
unfolding mapped_at get_or
mapped_at-of_length [] b h = refl
mapped_at-of_length (q ∷ l) zero h = absurd (omega arith)
mapped_at-of_length (q ∷ l) (suc b) h = mapped_at-of_length l b (omega arith)

-- The mapping after an assignment that grows it as needed.
pub mapped_at-put_mapping :
    (c p : ℕ) (l : List (Option ℕ)) (b : ℕ)
    → mapped_at (put_mapping c p l) b ≡ (if c == b then some p else mapped_at l b)
unfolding put_mapping
mapped_at-put_mapping c p l b = elim (Bool-cases (ltb c (length l))) [
  | inl e ↦ rw e (mapped_at-assign c (some p) l b (ltb→lt _ _ e))
  | inr e ↦ rw e (
      ground (
        arith,
        mapped_at-assign c (some p) (resize (c + 1) l) b,
        length-resize (c + 1) l,
        mapped_at-resize (c + 1) l b,
        mapped_at-of_length l b,
      ))
]
