-- ===== src/Gcs/Lawful.antt =====
-- `GcsRapidStorage` against the contract of the storages.
use sqlite_on_gcs_rapid.Base.{
  ℕ, ◌+◌, ◌-◌, ◌≤◌, ◌≡◌, refl, sym, ap, ◌∙◌, inl, inr, List, [], ◌∷◌, ◌++◌, append_assoc,
  append-nil, Option, none, some, Bool-cases, pos, ltb, if◌then◌else◌, lt→ltb, le→ltb, lt→leb,
  eq→==, ne_zero, le-cases, length, length-append, slice, take, slice-append_right, subst, arith,
}
use sqlite_on_gcs_rapid.Status.{Result, ok, err}
use sqlite_on_gcs_rapid.Status.Returns.{Returns, done, failed, Returns-bind, Returns-weaken}
use sqlite_on_gcs_rapid.Storage.{IsLawful}
use sqlite_on_gcs_rapid.Gcs.Status.{Answered, k_not_found, fine, fault, convert_status}
use sqlite_on_gcs_rapid.Gcs.Reads.{IsCloud, FineOr, Kept, read_object_lem}
use sqlite_on_gcs_rapid.Gcs.Writes.{pread-buffered}
use sqlite_on_gcs_rapid.Gcs.{
  Cloud, GcsRapidStorage, initial_offset, with_descriptor, described, create, destroy, converted,
  on_cloud, append, pread, sync, gcs_storage,
}

module _ {C : Cloud} {Object : C.State → List ℕ → Type 0} {F : Type 0}
    (cloud : IsCloud C Object F) where
  -- What the storage holds: the bytes of the object, and the buffer.
  pub record Buffered (s : GcsRapidStorage C) (bs : List ℕ) : Type 0 where
    pub stored : List ℕ
    pub object : Object s.cloud stored
    pub joined : stored ++ s.buffer_ ≡ bs
    pub counted : s.file_length_ ≡ length bs

  Buffered-Kept :
      (s : GcsRapidStorage C) {bs : List ℕ} (h : Buffered s bs) (s' : GcsRapidStorage C)
      → Kept cloud h.stored s.buffer_ s.file_length_ s'
      → Buffered s' bs
  Buffered-Kept s h s' k = record {
    stored = h.stored;
    object = k.0;
    joined = ap (λ x. h.stored ++ x) k.1 ∙ h.joined;
    counted = k.2 ∙ h.counted;
  }

  length-stored :
      (s : GcsRapidStorage C) {bs : List ℕ} (h : Buffered s bs)
      → s.file_length_ - length s.buffer_ ≡ length h.stored
  length-stored s h = omega (arith, h.counted, ap length h.joined, length-append h.stored s.buffer_)

  pread-Buffered :
      (n o : ℕ) (s : GcsRapidStorage C) {bs : List ℕ}
      → Buffered s bs
      → o + n ≤ length bs
      → Returns
          (λ d s'. (d ≡ slice o n bs) × Buffered s' bs)
          (λ s'. F × Buffered s' bs)
          (pread C n (pos o) s)
  unfolding pread
  pread-Buffered n o s {bs} h fits = elim (le-cases (length h.stored) o) [
    | inl buffered ↦
        subst
          (λ r. Returns (λ d s'. (d ≡ slice o n bs) × Buffered s' bs) (λ s'. F × Buffered s' bs) r)
          (sym (
            pread-buffered C n o s (omega (arith, buffered, length-stored s h))
              (omega (arith, fits, h.counted))))
          (done (
            ap (λ i. slice i n s.buffer_) {x = o - (s.file_length_ - length s.buffer_)}
                  {y = o - length h.stored} (omega (arith, length-stored s h))
                ∙ sym (slice-append_right (o - length h.stored) n h.stored s.buffer_)
                ∙ ap (λ i. slice i n (h.stored ++ s.buffer_))
                    {x = length h.stored + (o - length h.stored)} {y = o} (omega (arith, buffered))
                ∙ ap (slice o n) h.joined,
            h,
          ))
    | inr before ↦
        rw
          (
            le→ltb s.file_length_ (o + n) (omega (arith, fits, h.counted)),
            length-stored s h,
            lt→leb (length h.stored) o (omega (arith, before)),
          )
          (Returns-weaken
            (read_object_lem cloud h.stored s.buffer_ s.file_length_ o n s (omega (arith, before))
              (h.object, refl, refl))
            (λ d s' q. (q.0 ∙ ap (slice o n) h.joined, Buffered-Kept s h s' q.1))
            (λ s' x. (x.0, Buffered-Kept s h s' x.1)))
  ]

  append-Buffered :
      (d : List ℕ) (s : GcsRapidStorage C) {bs : List ℕ}
      → Buffered s bs
      → Returns
          (λ a s'. (a ≡ length bs) × Buffered s' (bs ++ d))
          (λ s'. (k : ℕ) × F × Buffered s' (bs ++ take k d))
          (append C d s)
  unfolding append
  append-Buffered [] s {bs} h = done (h.counted, subst (Buffered s) (sym (append-nil bs)) h)
  append-Buffered (x ∷ d) s {bs} h = rw (lt→ltb 0 (length (x ∷ d)) (omega arith)) (
      done (
        h.counted,
        record {
          stored = h.stored;
          object = h.object;
          joined = sym (append_assoc h.stored s.buffer_ (x ∷ d)) ∙ ap (λ y. y ++ x ∷ d) h.joined;
          counted = omega (arith, h.counted, length-append bs (x ∷ d));
        },
      ))

  converted-fine :
      (s : GcsRapidStorage C) (r : Answered (Unit {0}) × C.State)
      → r.0 ≡ fine tt
      → converted C s r ≡ (ok tt, record s { cloud = r.1 })
  converted-fine s (fine _, c) e = refl
  converted-fine s (fault k, c) e = absurd (cc)

  -- All bytes are in the object.
  abbrev Flushed : List ℕ → GcsRapidStorage C → Type 0
  Flushed bs s = Object s.cloud bs × (s.buffer_ ≡ []) × (s.file_length_ ≡ length bs)

  flush-Flushed :
      (s : GcsRapidStorage C) {bs : List ℕ}
      → Flushed bs s
      → Returns (λ _ s'. Flushed bs s') (λ _. ⊥) (on_cloud C C.flush s)
  flush-Flushed s {bs} h =
      subst (λ r. Returns (λ _ s'. Flushed bs s') (λ _. ⊥) r)
        (sym (converted-fine s (C.flush s.cloud) (cloud.flush_lem s.cloud h.0).0))
        (done ((cloud.flush_lem s.cloud h.0).1, h.1, h.2))

  write-Flushed :
      (s : GcsRapidStorage C) {bs : List ℕ}
      → Buffered s bs
      → Returns
          (λ _ s'. Flushed bs s')
          (λ _. ⊥)
          (on_cloud C (C.write s.buffer_) (record s { buffer_ = [] }))
  write-Flushed s {bs} h =
      subst (λ r. Returns (λ _ s'. Flushed bs s') (λ _. ⊥) r)
        (sym (
          converted-fine (record s { buffer_ = [] }) (C.write s.buffer_ s.cloud)
            (cloud.write_lem s.buffer_ s.cloud h.object).0))
        (done (
          subst (Object (C.write s.buffer_ s.cloud).1) h.joined
              (cloud.write_lem s.buffer_ s.cloud h.object).1,
          refl,
          h.counted,
        ))

  Flushed-of_empty :
      (s : GcsRapidStorage C) {bs : List ℕ} → length s.buffer_ ≡ 0 → Buffered s bs → Flushed bs s
  Flushed-of_empty s {bs} e h = (
    subst (Object s.cloud)
        (sym (append-nil h.stored) ∙ ap (λ b. h.stored ++ b) (sym none_left) ∙ h.joined) h.object,
    none_left,
    h.counted,
  )
    where
      nil : (b : List ℕ) → length b ≡ 0 → b ≡ []
      nil [] k = refl
      nil (x ∷ b) k = absurd (omega arith)

      none_left : s.buffer_ ≡ []
      none_left = nil s.buffer_ e

  sync-Flushed :
      (s : GcsRapidStorage C) {bs : List ℕ}
      → Buffered s bs
      → Returns (λ _ s'. Flushed bs s') (λ _. ⊥) (sync C s)
  unfolding sync
  sync-Flushed s {bs} h = elim (le-cases (length s.buffer_) 0) [
    | inl none_left ↦
        rw (eq→== (length s.buffer_) 0 (omega (arith, none_left)))
          (done (Flushed-of_empty s (omega (arith, none_left)) h))
    | inr some_left ↦ rw (ne_zero (length s.buffer_) (omega (arith, some_left))) (
        Returns-bind (on_cloud C (C.write s.buffer_)) (λ _. on_cloud C C.flush)
          (record s { buffer_ = [] }) (write-Flushed s h) (λ _ s' q. flush-Flushed s' q)
          (λ _ x. absurd x))
  ]

  Flushed-Buffered : (s : GcsRapidStorage C) {bs : List ℕ} → Flushed bs s → Buffered s bs
  Flushed-Buffered s {bs} h = record {
    stored = bs;
    object = h.0;
    joined = ap (λ x. bs ++ x) h.1 ∙ append-nil bs;
    counted = h.2;
  }

  destroyed :
      (bs : List ℕ) (r : Result (Unit {0}) × GcsRapidStorage C)
      → Returns (λ _ s'. Flushed bs s') (λ _. ⊥) r
      → Object
          (if ltb r.1.initial_offset_ r.1.file_length_ then C.close r.1.cloud else r.1.cloud)
          bs
  destroyed bs (err e, s) (failed x) = absurd x
  destroyed bs (ok u, s) (done q) = elim (Bool-cases (ltb s.initial_offset_ s.file_length_)) [
    | inl e ↦ rw e (cloud.close_lem s.cloud q.0)
    | inr e ↦ rw e q.0
  ]

  -- Over a client whose writes do not fail, the destructor leaves all bytes in the object, also those
  -- that no `Sync` has written.
  pub destroy-Object :
      (s : GcsRapidStorage C) {bs : List ℕ} → Buffered s bs → Object (destroy C s) bs
  unfolding destroy
  destroy-Object s {bs} h = destroyed bs (sync C s) (sync-Flushed s h)

  -- Over a client whose writes do not fail, and of whose descriptors at most fourteen in a row are
  -- stale, or it is a fault, an object of Cloud Storage meets the contract of the storages, with its
  -- buffer: a read within the bounds gives the bytes of the object and of the buffer behind it, also
  -- where the descriptor that is there, or one that the read opens, is stale, or else a fault of the
  -- client is behind the failure, which changes nothing.
  pub gcs-IsLawful : IsLawful (gcs_storage C) Buffered F
  gcs-IsLawful = record {
    append_lem = append-Buffered;
    pread_lem = pread-Buffered;
    get_size_lem = λ s h. done (h.counted, h);
    sync_lem = λ s h.
        Returns-weaken (sync-Flushed s h) (λ _ s' q. Flushed-Buffered s' q) (λ _ x. absurd x);
  }

  -- What the answers of the client to a `Create` mean for an object with the bytes `bs`: an upload
  -- goes on behind them.
  abbrev Uploads : List ℕ → ℕ → Answered C.State → Type 0
  Uploads bs n (fine c) = Object c bs × (initial_offset C c n ≡ length bs)
  Uploads bs n (fault e) = F

  abbrev pub Starts : List ℕ → Answered C.Metadata → Type 0
  Starts bs (fine m) = Uploads bs (C.size m) (C.resume_upload m)
  Starts bs (fault k_not_found) = (bs ≡ []) × Uploads bs 0 C.start_upload
  Starts bs (fault _) = F

  abbrev pub Created : List ℕ → Result (GcsRapidStorage C) → Type 0
  Created bs (ok s) = Buffered s bs
  Created bs (err e) = F

  with_descriptor-Created :
      (bs : List ℕ) (n : ℕ) (r : Answered C.Descriptor × C.State)
      → n ≡ length bs
      → FineOr F r.0 × Object r.1 bs
      → Created bs (with_descriptor C n r)
  with_descriptor-Created bs n (fault e, c) l h = h.0
  with_descriptor-Created bs n (fine d, c) l h = record {
    stored = bs;
    object = h.1;
    joined = append-nil bs;
    counted = l;
  }

  described-Created :
      (bs : List ℕ) (m : Option C.Metadata) (r : Answered C.State)
      → Uploads bs (elim m [ none ↦ 0 | some x ↦ C.size x ]) r
      → Created bs (described C m r)
  described-Created bs m (fault e) h = h
  described-Created bs none (fine c) h = record {
    stored = bs;
    object = h.0;
    joined = append-nil bs;
    counted = h.1;
  }
  described-Created bs (some x) (fine c) h =
      with_descriptor-Created bs (initial_offset C c (C.size x)) (C.open_object c) h.1
        (cloud.open_lem c h.0)

  -- Where the client's answers are right for an object with the bytes `bs`, or for one that is not
  -- there and no bytes, `Create` gives a storage that holds `bs`, or there was a fault of the client.
  pub create-Created : (bs : List ℕ) → Starts bs C.get_metadata → Created bs (create C)
  unfolding create
  create-Created bs h = created C.get_metadata h
    where
      created :
          (r : Answered C.Metadata)
          → Starts bs r
          → Created bs (elim r [
            | fine m ↦ described C (some m) (C.resume_upload m)
            | fault k_not_found ↦ described C none C.start_upload
            | fault e ↦ err (convert_status e)
          ])
      created (fine m) k = described-Created bs (some m) (C.resume_upload m) k
      created (fault k_not_found) k = described-Created bs none C.start_upload k.1
      created (fault _) k = k
