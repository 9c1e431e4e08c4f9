-- ===== src/Tests/Objects.antt =====
-- The properties of objects of Cloud Storage, and of `Init` over any bytes, at concrete inputs.
use mathlib.Core.Bool.{true≢false}
use sqlite_on_gcs_rapid.Base.{
  ℕ, zero, suc, ◌+◌, ◌-◌, ◌≤◌, ◌≡◌, refl, sym, ap, ◌∙◌, inl, List, [], ◌∷◌, ◌++◌, append-nil, none,
  some, Bool, true, false, leb, le→leb, slice, length, arith,
}
use sqlite_on_gcs_rapid.Storage.{IsLawful}
use sqlite_on_gcs_rapid.Gcs.Status.{
  Answered, fine, fault, k_not_found, k_out_of_range, convert_status,
}
use sqlite_on_gcs_rapid.Gcs.{Cloud, gcs_storage, destroy, read_answers}
use sqlite_on_gcs_rapid.Gcs.Reads.{IsCloud, FineOr, OnFine, Told}
use sqlite_on_gcs_rapid.Gcs.Lawful.{Buffered, gcs-IsLawful, destroy-Object}

-- An object that is there with the bytes `bs`, and a client that never fails.
abbrev pub cloud_with : List ℕ → Cloud
cloud_with bs = record {
  State = List ℕ;
  Metadata = ℕ;
  Descriptor = Unit {0};
  get_metadata = fine (length bs);
  size = λ n. n;
  resume_upload = λ _. fine bs;
  start_upload = fine [];
  persisted = λ _. none;
  open_object = λ c. (fine tt, c);
  described_size = λ _. none;
  read_range = λ _ o n c. (fine (slice o n c ∷ []) ∷ [], c);
  write = λ d c. (fine tt, c ++ d);
  flush = λ c. (fine tt, c);
  close = λ c. c;
}

pub cloud_with-IsCloud : (bs : List ℕ) → IsCloud (cloud_with bs) (λ c ds. c ≡ ds) ⊥
unfolding read_answers
cloud_with-IsCloud bs = record {
  lag = λ _. 0;
  Serves = λ _ _. Unit {0};
  serves_lem = λ d. tt;
  lag_lem = λ c h. inl (omega arith);
  renews_lem = λ c h. ((λ _. tt), omega arith);
  read_served_lem = λ d k o n c h _ _ _.
      inl (append-nil (slice o n c ++ []) ∙ append-nil (slice o n c) ∙ ap (slice o n) h);
  open_lem = λ c h. (tt, h);
  read_lem = λ d o n c h k. (
    inl (append-nil (slice o n c ++ []) ∙ append-nil (slice o n c) ∙ ap (slice o n) h),
    h,
    omega arith,
  );
  write_lem = λ d c h. (refl, ap (λ x. x ++ d) h);
  flush_lem = λ c h. (refl, h);
  close_lem = λ c h. h;
}

abbrev test_cloud : Cloud
test_cloud = cloud_with (4 ∷ 5 ∷ 6 ∷ [])

test-IsCloud : IsCloud test_cloud (λ c bs. c ≡ bs) ⊥
test-IsCloud = cloud_with-IsCloud (4 ∷ 5 ∷ 6 ∷ [])

-- A client that opens fourteen stale descriptors after a write: a descriptor reads the bytes that
-- there were when it was opened, a stale one none, and beyond them the range is out of range.
abbrev slow_answer : Bool → List ℕ → List (Answered (List (List ℕ)))
slow_answer true d = fine (d ∷ []) ∷ []
slow_answer false d = fault k_out_of_range ∷ []

abbrev slow_open : List ℕ → ℕ → Answered ℕ × (List ℕ × ℕ)
slow_open bs zero = (fine (length bs), (bs, 0))
slow_open bs (suc stale) = (fine 0, (bs, stale))

abbrev slow_cloud : Cloud
slow_cloud = record {
  State = List ℕ × ℕ;
  Metadata = ℕ;
  Descriptor = ℕ;
  get_metadata = fault k_not_found;
  size = λ n. n;
  resume_upload = λ _. fine ([], 0);
  start_upload = fine ([], 0);
  persisted = λ _. none;
  open_object = λ c. slow_open c.0 c.1;
  described_size = λ d. some d;
  read_range = λ d o n c. (slow_answer (leb (o + n) d) (slice o n c.0), c);
  write = λ d c. (fine tt, (c.0 ++ d, 14));
  flush = λ c. (fine tt, c);
  close = λ c. c;
}

-- At most fourteen descriptors are stale.
abbrev SlowObject : List ℕ × ℕ → List ℕ → Type 0
SlowObject c bs = (c.0 ≡ bs) × (c.1 ≤ 14)

slow_open-SlowObject :
    (b : List ℕ) (stale : ℕ) {bs : List ℕ}
    → SlowObject (b, stale) bs
    → FineOr ⊥ (slow_open b stale).0 × SlowObject (slow_open b stale).1 bs
slow_open-SlowObject b zero h = (tt, h)
slow_open-SlowObject b (suc stale) h = (tt, (h.0, omega (arith, h.1)))

slow_open-OnFine :
    (b : List ℕ) (stale : ℕ) {bs : List ℕ}
    → SlowObject (b, stale) bs
    → OnFine
        (λ d. (stale ≡ 0 → length bs ≤ d) × ((slow_open b stale).1.1 ≤ stale - 1))
        (slow_open b stale).0
slow_open-OnFine b zero h = ((λ _. omega (arith, ap length h.0)), omega arith)
slow_open-OnFine b (suc stale) h = ((λ z. absurd (omega (arith, z))), omega arith)

slow_answer-Told :
    {X : Type 0} (within : Bool) (d e : List ℕ)
    → e ≡ d
    → (within ≡ false → X)
    → Told X ⊥ d (read_answers (slow_answer within e))
unfolding read_answers convert_status
slow_answer-Told true d e h x = inl (append-nil (e ++ []) ∙ append-nil e ∙ h)
slow_answer-Told false d e h x = x refl

slow-IsCloud : IsCloud slow_cloud SlowObject ⊥
slow-IsCloud = record {
  lag = λ c. c.1;
  Serves = λ d k. k ≤ d;
  serves_lem = λ d. omega arith;
  lag_lem = λ c h. inl h.1;
  open_lem = λ c h. slow_open-SlowObject c.0 c.1 h;
  renews_lem = λ c h. slow_open-OnFine c.0 c.1 h;
  read_served_lem = λ d k o n c {bs} h served within _.
      slow_answer-Told (leb (o + n) d) (slice o n bs) (slice o n c.0) (ap (slice o n) h.0)
        (λ no. true≢false (sym (le→leb (o + n) d (omega (arith, served, within))) ∙ no));
  read_lem = λ d o n c {bs} h _. (
    slow_answer-Told (leb (o + n) d) (slice o n bs) (slice o n c.0) (ap (slice o n) h.0) (λ _. tt),
    h,
    omega arith,
  );
  write_lem = λ d c h. (refl, (ap (λ x. x ++ d) h.0, omega arith));
  flush_lem = λ c h. (refl, h);
  close_lem = λ c h. h;
}

gcs-IsLawful_example : IsLawful (gcs_storage slow_cloud) (Buffered slow-IsCloud) ⊥
gcs-IsLawful_example = gcs-IsLawful slow-IsCloud

destroy-Object_example :
    destroy test_cloud (record {
      cloud = 1 ∷ [];
      descriptor_ = none;
      initial_offset_ = 1;
      file_length_ = 3;
      buffer_ = 2 ∷ 3 ∷ [];
    })
    ≡ 1 ∷ 2 ∷ 3 ∷ []
destroy-Object_example =
    destroy-Object test-IsCloud
      (record {
        cloud = 1 ∷ [];
        descriptor_ = none;
        initial_offset_ = 1;
        file_length_ = 3;
        buffer_ = 2 ∷ 3 ∷ [];
      })
      (record { stored = 1 ∷ []; object = refl; joined = refl; counted = refl })
