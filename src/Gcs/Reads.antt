-- ===== src/Gcs/Reads.antt =====
-- What is assumed of the client of Cloud Storage, and the attempts of `PRead` over it.
use sqlite_on_gcs_rapid.Base.{
  ℕ, zero, suc, ◌+◌, ◌-◌, ◌≤◌, ◌<◌, ◌≡◌, refl, sym, ap, ap₂, ◌∙◌, ◌⊎◌, inl, inr, List, ◌++◌, Option,
  none, some, Bool, true, false, not, ◌||◌, Bool-cases, ltb, lt→ltb, le→ltb, le-cases, length,
  length-slice, slice, take, drop, take_all, slice-append_left, slice-append_right,
  slice-append-slice, subst, arith,
}
use mathlib.Core.Bool.{true≢false}
use sqlite_on_gcs_rapid.Status.{Result, ok, err, Exec, pure, raise, ◌>>=◌, ◌>>◌}
use sqlite_on_gcs_rapid.Status as AbslStatus
use sqlite_on_gcs_rapid.Status.Returns.{Returns, done, failed, Returns-bind, Returns-weaken}
use sqlite_on_gcs_rapid.Gcs.Status.{Answered, fine, fault}
use sqlite_on_gcs_rapid.Gcs.{
  Cloud, GcsRapidStorage, read_answers, is_open, reopened, known_size, refresh, or_retry, read_once,
  attempt, or_else_retry, read_attempts, read_object,
}

open_if : (x y z : Bool) → (not x || y || z) ≡ false → x ≡ true
open_if true y z h = refl
open_if false y z h = absurd (cc)

-- What a reader answers for a range with the bytes `d`: them all, or, where `X`, too few or that they
-- are out of range; any other error is a fault `F`.
abbrev pub Told : Type 0 → Type 0 → List ℕ → Result (List ℕ) → Type 0
Told X F d (ok e) = (e ≡ d) ⊎ (X × (length e < length d))
Told X F d (err AbslStatus.Code.out_of_range) = X
Told X F d (err _) = F

Told-map :
    {X Y : Type 0} (F : Type 0) (d : List ℕ) (r : Result (List ℕ))
    → (X → Y)
    → Told X F d r
    → Told Y F d r
Told-map F d (ok e) f (inl h) = inl h
Told-map F d (ok e) f (inr h) = inr (f h.0, h.1)
Told-map F d (err AbslStatus.Code.out_of_range) f h = f h
Told-map F d (err _) f h = h

abbrev pub FineOr : {A : Type 0} → Type 0 → Answered A → Type 0
FineOr F (fine a) = Unit {0}
FineOr F (fault e) = F

abbrev pub OnFine : {A : Type 0} → (A → Type 0) → Answered A → Type 0
OnFine Q (fine a) = Q a
OnFine Q (fault e) = Unit {0}

-- `Object c bs`: the object, with all that was written to it, has the bytes `bs`. Writes and flushes
-- do not fail; opening and reading may, by the fault `F`. Other writers of the object are excluded.
-- A descriptor may be stale: `Serves d k` says that it reads the first `k` bytes, at least those of
-- its size, and a read beyond them may give too few bytes or say that they are out of range. At most
-- `lag c` descriptors that are opened from `c` on are stale, and these are 14 at most, or it is a
-- fault.
pub record IsCloud (C : Cloud) (Object : C.State → List ℕ → Type 0) (F : Type 0) : Type 1 where
  pub lag : C.State → ℕ
  pub Serves : C.Descriptor → ℕ → Type 0
  pub serves_lem : (d : C.Descriptor) → Serves d (known_size C (some d))
  pub lag_lem : (c : C.State) {bs : List ℕ} → Object c bs → (lag c ≤ 14) ⊎ F
  pub open_lem :
      (c : C.State) {bs : List ℕ}
      → Object c bs
      → FineOr F (C.open_object c).0 × Object (C.open_object c).1 bs
  pub renews_lem :
      (c : C.State) {bs : List ℕ}
      → Object c bs
      → OnFine
          (λ d. (lag c ≡ 0 → Serves d (length bs)) × (lag (C.open_object c).1 ≤ lag c - 1))
          (C.open_object c).0
  pub read_served_lem :
      (d : C.Descriptor) (k o n : ℕ) (c : C.State) {bs : List ℕ}
      → Object c bs
      → Serves d k
      → o + n ≤ k
      → o + n ≤ length bs
      → Told F F (slice o n bs) (read_answers (C.read_range d o n c).0)
  pub read_lem :
      (d : C.Descriptor) (o n : ℕ) (c : C.State) {bs : List ℕ}
      → Object c bs
      → o + n ≤ length bs
      → Told (Unit {0}) F (slice o n bs) (read_answers (C.read_range d o n c).0)
        × Object (C.read_range d o n c).1 bs
        × (lag (C.read_range d o n c).1 ≤ lag c)
  pub write_lem :
      (d : List ℕ) (c : C.State) {bs : List ℕ}
      → Object c bs
      → ((C.write d c).0 ≡ fine tt) × Object (C.write d c).1 (bs ++ d)
  pub flush_lem :
      (c : C.State) {bs : List ℕ}
      → Object c bs
      → ((C.flush c).0 ≡ fine tt) × Object (C.flush c).1 bs
  pub close_lem : (c : C.State) {bs : List ℕ} → Object c bs → Object (C.close c) bs

module _ {C : Cloud} {Object : C.State → List ℕ → Type 0} {F : Type 0}
    (cloud : IsCloud C Object F) where
  -- A read keeps the object, the buffer and the length.
  abbrev pub Kept : List ℕ → List ℕ → ℕ → GcsRapidStorage C → Type 0
  Kept st b l s = Object s.cloud st × (s.buffer_ ≡ b) × (s.file_length_ ≡ l)

  module _ (st b : List ℕ) (l : ℕ) where
    -- The descriptor reads the bytes up to `end`.
    abbrev Served : ℕ → Option C.Descriptor → Type 0
    Served end none = ⊥
    Served end (some d) = (k : ℕ) × cloud.Serves d k × (end ≤ k)

    -- A descriptor is there. It reads the bytes up to `end`, or one that may be stale was opened, or
    -- there was a fault.
    abbrev Ready : ℕ → ℕ → GcsRapidStorage C → Type 0
    Ready end lags s =
        (is_open C s.descriptor_ ≡ true)
        × (F ⊎ (Served end s.descriptor_ ⊎ (cloud.lag s.cloud < lags)))

    reopened_lem :
        (end : ℕ) (s : GcsRapidStorage C) (r : Answered C.Descriptor × C.State)
        → end ≤ length st
        → Kept st b l s
        → FineOr F r.0 × Object r.1 st
        → OnFine
            (λ d.
              (cloud.lag s.cloud ≡ 0 → cloud.Serves d (length st))
              × (cloud.lag r.1 ≤ cloud.lag s.cloud - 1))
            r.0
        → Returns
            (λ _ s'. Kept st b l s' × Ready end (cloud.lag s.cloud) s')
            (λ s'. F × Kept st b l s')
            (reopened C s r)
    reopened_lem end s (fine d, c) e k h q = done (
      (h.1, k.1, k.2),
      (
        refl,
        inr (elim (le-cases (cloud.lag s.cloud) 0) [
          | inl fresh ↦ inl (length st, q.0 (omega (arith, fresh)), e)
          | inr stale ↦ inr (omega (arith, stale, q.1))
        ]),
      ),
    )
    reopened_lem end s (fault x, c) e k h q = elim (Bool-cases (is_open C s.descriptor_)) [
      | inl y ↦ rw y (done ((h.1, k.1, k.2), (y, inl h.0)))
      | inr n ↦ rw n (failed (h.0, (h.1, k.1, k.2)))
    ]

    known-Served :
        (first : Bool) (end : ℕ) (d : Option C.Descriptor)
        → (not (is_open C d) || ltb (known_size C d) end || not first) ≡ false
        → Served end d
    known-Served first end none n = absurd (cc)
    known-Served first end (some d) n = elim (le-cases end (known_size C (some d))) [
      | inl within ↦ (known_size C (some d), cloud.serves_lem d, within)
      | inr beyond ↦
          absurd (true≢false (sym (rw (lt→ltb (known_size C (some d)) end beyond) refl) ∙ n))
    ]

    refresh_lem :
        (first : Bool) (end : ℕ) (s : GcsRapidStorage C)
        → end ≤ length st
        → Kept st b l s
        → Returns
            (λ _ s'. Kept st b l s' × Ready end (cloud.lag s.cloud) s')
            (λ s'. F × Kept st b l s')
            (refresh C first end s)
    unfolding refresh
    refresh_lem first end s e k =
        elim (Bool-cases
          (not (is_open C s.descriptor_) || ltb (known_size C s.descriptor_) end || not first)) [
            | inl y ↦ rw y (
                reopened_lem end s (C.open_object s.cloud) e k (cloud.open_lem s.cloud k.0)
                  (cloud.renews_lem s.cloud k.0))
            | inr n ↦ rw n (
                done (
                  k,
                  (
                    open_if (is_open C s.descriptor_) (ltb (known_size C s.descriptor_) end)
                        (not first) n,
                    inr (inl (known-Served first end s.descriptor_ n)),
                  ),
                ))
          ]

    -- An attempt gives the bytes. If not, it opened one of the descriptors that may be stale, or there
    -- was a fault.
    abbrev Later : ℕ → GcsRapidStorage C → Type 0
    Later lags s = F ⊎ (cloud.lag s.cloud < lags)

    abbrev Got : ℕ → List ℕ → Option (List ℕ) → GcsRapidStorage C → Type 0
    Got lags d none s = Later lags s
    Got lags d (some e) s = e ≡ d

    abbrev Attempted : ℕ → List ℕ → Result (Option (List ℕ)) × GcsRapidStorage C → Type 0
    Attempted lags d r =
        Returns (λ x s'. Got lags d x s' × Kept st b l s') (λ s'. F × Kept st b l s') r

    or_retry_lem :
        (lags : ℕ) (d : List ℕ) (s : GcsRapidStorage C) (r : Result (List ℕ))
        → Kept st b l s
        → Told (Later lags s) F d r
        → Attempted lags d (or_retry C (length d) r, s)
    or_retry_lem lags d s (ok e) k (inl h) =
        rw (le→ltb (length e) (length d) (omega (arith, ap length h)))
          (done (take_all (length d) e (ap length h) ∙ h, k))
    or_retry_lem lags d s (ok e) k (inr h) = rw (lt→ltb (length e) (length d) h.1) (done (h.0, k))
    or_retry_lem lags d s (err AbslStatus.Code.out_of_range) k h = done (h, k)
    or_retry_lem lags d s (err _) k h = failed (h, k)

    told :
        (lags o n : ℕ) (d : C.Descriptor) (s : GcsRapidStorage C) (c : C.State)
        → Object s.cloud st
        → o + n ≤ length st
        → cloud.lag c ≤ cloud.lag s.cloud
        → Told (Unit {0}) F (slice o n st) (read_answers (C.read_range d o n s.cloud).0)
        → F ⊎ (Served (o + n) (some d) ⊎ (cloud.lag s.cloud < lags))
        → Told
            (Later lags (record s { cloud = c }))
            F
            (slice o n st)
            (read_answers (C.read_range d o n s.cloud).0)
    told lags o n d s c h e below t (inl x) =
        Told-map F (slice o n st) (read_answers (C.read_range d o n s.cloud).0) (λ _. inl x) t
    told lags o n d s c h e below t (inr (inl v)) =
        Told-map F (slice o n st) (read_answers (C.read_range d o n s.cloud).0) (λ x. inl x)
          (cloud.read_served_lem d v.0 o n s.cloud h v.1 v.2 e)
    told lags o n d s c h e below t (inr (inr x)) =
        Told-map F (slice o n st) (read_answers (C.read_range d o n s.cloud).0)
          (λ _. inr (omega (arith, below, x))) t

    read_once_lem :
        (lags o n : ℕ) (x : Option C.Descriptor) (s : GcsRapidStorage C)
        → is_open C x ≡ true
        → F ⊎ (Served (o + n) x ⊎ (cloud.lag s.cloud < lags))
        → o + n ≤ length st
        → Kept st b l s
        → Attempted lags (slice o n st) (read_once C o n x s)
    unfolding read_once
    read_once_lem lags o n none s i q h k = absurd (cc)
    read_once_lem lags o n (some d) s i q h k =
        let a = cloud.read_lem d o n s.cloud k.0 h in
        subst
          (λ j. Attempted lags (slice o n st) (
            or_retry C j (read_answers (C.read_range d o n s.cloud).0),
            record s { cloud = (C.read_range d o n s.cloud).1 },
          ))
          (length-slice o n st h)
          (or_retry_lem lags (slice o n st) (record s { cloud = (C.read_range d o n s.cloud).1 })
            (read_answers (C.read_range d o n s.cloud).0) (a.1, k.1, k.2)
            (told lags o n d s (C.read_range d o n s.cloud).1 k.0 h a.2 a.0 q))

    attempt_lem :
        (first : Bool) (o n : ℕ) (s : GcsRapidStorage C)
        → o + n ≤ length st
        → Kept st b l s
        → Attempted (cloud.lag s.cloud) (slice o n st) (attempt C first o n s)
    unfolding attempt
    attempt_lem first o n s h k =
        Returns-bind (refresh C first (o + n)) (λ _ s'. read_once C o n s'.descriptor_ s') s
          (refresh_lem first (o + n) s h k)
          (λ _ s' q. read_once_lem (cloud.lag s.cloud) o n s'.descriptor_ s' q.1.0 q.1.1 h q.0)
          (λ _ x. x)

    abbrev pub ReadOr : List ℕ → Result (List ℕ) × GcsRapidStorage C → Type 0
    ReadOr d r = Returns (λ e s'. (e ≡ d) × Kept st b l s') (λ s'. F × Kept st b l s') r

    or_else_retry_lem :
        (lags : ℕ) (retry : Exec (GcsRapidStorage C) (List ℕ)) (d : List ℕ) (x : Option (List ℕ))
        (s : GcsRapidStorage C)
        → ((s' : GcsRapidStorage C) → Later lags s' → Kept st b l s' → ReadOr d (retry s'))
        → Got lags d x s × Kept st b l s
        → ReadOr d (or_else_retry C retry x s)
    or_else_retry_lem lags retry d none s f h = f s h.0 h.1
    or_else_retry_lem lags retry d (some e) s f h = done h

    -- The retries that are left are enough for the descriptors that may be stale.
    read_attempts_lem :
        (left : ℕ) (first : Bool) (o n : ℕ) (s : GcsRapidStorage C)
        → o + n ≤ length st
        → (cloud.lag s.cloud ≤ left) ⊎ F
        → Kept st b l s
        → ReadOr (slice o n st) (read_attempts C left first o n s)
    unfolding read_attempts
    read_attempts_lem zero first o n s h e k =
        Returns-bind (attempt C first o n)
          (or_else_retry C (raise AbslStatus.Code.deadline_exceeded)) s
          (attempt_lem first o n s h k)
          (λ x s' q.
            or_else_retry_lem (cloud.lag s.cloud) (raise AbslStatus.Code.deadline_exceeded)
              (slice o n st) x s' (λ s'' f k'. failed (at_fault e f, k')) q)
          (λ _ x. x)
      where
        at_fault : {c : ℕ} → (cloud.lag s.cloud ≤ 0) ⊎ F → F ⊎ (c < cloud.lag s.cloud) → F
        at_fault e (inl f) = f
        at_fault (inr f) (inr _) = f
        at_fault (inl z) (inr y) = absurd (omega (arith, z, y))
    read_attempts_lem (suc left) first o n s h e k =
        Returns-bind (attempt C first o n) (or_else_retry C (read_attempts C left false o n)) s
          (attempt_lem first o n s h k)
          (λ x s' q.
            or_else_retry_lem (cloud.lag s.cloud) (read_attempts C left false o n) (slice o n st) x
              s' (λ s'' f k'. read_attempts_lem left false o n s'' h (enough s'' e f) k') q)
          (λ _ x. x)
      where
        enough :
            (s'' : GcsRapidStorage C)
            → (cloud.lag s.cloud ≤ suc left) ⊎ F
            → Later (cloud.lag s.cloud) s''
            → (cloud.lag s''.cloud ≤ left) ⊎ F
        enough s'' e (inl f) = inr f
        enough s'' (inr f) (inr _) = inr f
        enough s'' (inl z) (inr y) = inl (omega (arith, z, y))

    -- The bytes of the object, and then those of the buffer.
    across :
        (o n : ℕ)
        → o < length st
        → length st < o + n
        → slice o (length st - o) st ++ take (o + n - length st) b ≡ slice o n (st ++ b)
    unfolding slice drop
    across o n h k =
        ap₂ ◌++◌ (sym (slice-append_left o (length st - o) st b (omega (arith, h)))) (
          sym (slice-append_right 0 (o + n - length st) st b)
          ∙ ap (λ i. slice i (o + n - length st) (st ++ b)) {x = length st + 0}
              {y = o + (length st - o)} (omega (arith, h)))
        ∙ slice-append-slice o (length st - o) (o + n - length st) (st ++ b)
        ∙ ap (λ i. slice o i (st ++ b)) {x = length st - o + (o + n - length st)} {y = n}
            (omega (arith, h, k))

    pub read_object_lem :
        (o n : ℕ) (s : GcsRapidStorage C)
        → o < length st
        → Kept st b l s
        → ReadOr (slice o n (st ++ b)) (read_object C (length st) o n s)
    unfolding read_object
    read_object_lem o n s h k = elim (le-cases (o + n) (length st)) [
      | inl inside ↦ rw (le→ltb (length st) (o + n) inside) (
          Returns-weaken (read_attempts_lem 14 true o n s inside (cloud.lag_lem s.cloud k.0) k)
            (λ d s' q. (q.0 ∙ sym (slice-append_left o n st b inside), q.1)) (λ _ x. x))
      | inr beyond ↦ rw (lt→ltb (length st) (o + n) (omega (arith, beyond))) (
          Returns-bind (read_attempts C 14 true o (length st - o))
            (λ d. pure (d ++ take (o + n - length st) s.buffer_)) s
            (read_attempts_lem 14 true o (length st - o) s (omega (arith, h))
              (cloud.lag_lem s.cloud k.0) k)
            (λ d s' q. done (
              ap₂ (λ x y. x ++ take (o + n - length st) y) q.0 k.1
                  ∙ across o n h (omega (arith, beyond)),
              q.1,
            ))
            (λ _ x. x))
    ]
