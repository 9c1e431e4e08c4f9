-- ===== src/Gcs.antt =====
-- gcs_storage.cc: `GcsRapidStorage`, an object of Cloud Storage behind a buffer. The client library is
-- a parameter, `Cloud`. The mutex is not modelled: each call is one step.
pub mod Status
pub mod Writes
pub mod Reads
pub mod Lawful
pub mod Crashes
use sqlite_on_gcs_rapid.Base.{
  ℕ, zero, suc, ◌+◌, ◌-◌, List, [], ◌∷◌, ◌++◌, Option, none, some, Bool, true, false, not, ◌||◌, ℤ,
  pos, negsuc, ltb, leb, ◌==◌, if◌then◌else◌, length, slice, take,
}
use sqlite_on_gcs_rapid.Status.{Result, ok, err, Exec, pure, raise, modify, ◌>>=◌, ◌>>◌}
use sqlite_on_gcs_rapid.Storage.{Storage}
use sqlite_on_gcs_rapid.Status as AbslStatus
use sqlite_on_gcs_rapid.Gcs.Status.{CloudCode, k_not_found, Answered, fine, fault, convert_status}

-- The async client with the writer, its token and the object. A metadata of the object gives its
-- size; `read_range` gives the payloads that the reader answers until its token ends.
pub record Cloud : Type 1 where
  pub State : Type 0
  pub Metadata : Type 0
  pub Descriptor : Type 0
  pub get_metadata : Answered Metadata
  pub size : Metadata → ℕ
  pub resume_upload : Metadata → Answered State
  pub start_upload : Answered State
  pub persisted : State → Option ℕ
  pub open_object : State → Answered Descriptor × State
  pub described_size : Descriptor → Option ℕ
  pub read_range : Descriptor → ℕ → ℕ → State → List (Answered (List (List ℕ))) × State
  pub write : List ℕ → State → Answered (Unit {0}) × State
  pub flush : State → Answered (Unit {0}) × State
  pub close : State → State

abbrev pub concat : List (List ℕ) → List ℕ
concat [] = []
concat (c ∷ cs) = c ++ concat cs

abbrev pub more_data : List ℕ → Result (List ℕ) → Result (List ℕ)
more_data d (ok e) = ok (d ++ e)
more_data d (err c) = err c

-- The loop of `ReadDescriptorRange` over the answers of the reader.
unfoldable pub read_answers : List (Answered (List (List ℕ))) → Result (List ℕ)
unfolding convert_status
read_answers [] = ok []
read_answers (fault c ∷ rest) = err (convert_status c)
read_answers (fine contents ∷ rest) = more_data (concat contents) (read_answers rest)

module _ (C : Cloud) where
  pub record GcsRapidStorage : Type 0 where
    pub cloud : C.State
    pub descriptor_ : Option C.Descriptor
    pub initial_offset_ : ℕ
    pub file_length_ : ℕ
    pub buffer_ : List ℕ

  abbrev pub converted {ℓ} :
      {A : Type ℓ} → GcsRapidStorage → Answered A × C.State → Result A × GcsRapidStorage
  converted s (fine a, c) = (ok a, record s { cloud = c })
  converted s (fault e, c) = (err (convert_status e), record s { cloud = c })

  -- A call of the client library, its status converted.
  abbrev pub on_cloud {ℓ} : {A : Type ℓ} → (C.State → Answered A × C.State) → Exec GcsRapidStorage A
  on_cloud f s = converted s (f s.cloud)

  abbrev pub initial_offset : C.State → ℕ → ℕ
  initial_offset c n = elim (C.persisted c) [ none ↦ n | some k ↦ k ]

  abbrev built : C.State → Option C.Descriptor → ℕ → GcsRapidStorage
  built c d n = record {
    cloud = c;
    descriptor_ = d;
    initial_offset_ = n;
    file_length_ = n;
    buffer_ = [];
  }

  abbrev pub with_descriptor : ℕ → Answered C.Descriptor × C.State → Result GcsRapidStorage
  with_descriptor n (fault e, c) = err (convert_status e)
  with_descriptor n (fine d, c) = ok (built c (some d) n)

  abbrev pub described : Option C.Metadata → Answered C.State → Result GcsRapidStorage
  described meta (fault e) = err (convert_status e)
  described none (fine c) = ok (built c none (initial_offset c 0))
  described (some m) (fine c) = with_descriptor (initial_offset c (C.size m)) (C.open_object c)

  -- `Create`. The message of a failed upload, which reads the generation of metadata that may be
  -- absent, is not modelled.
  unfoldable pub create : Result GcsRapidStorage
  create = elim C.get_metadata [
    | fine m ↦ described (some m) (C.resume_upload m)
    | fault k_not_found ↦ described none C.start_upload
    | fault e ↦ err (convert_status e)
  ]

  unfoldable pub append : List ℕ → Exec GcsRapidStorage ℕ
  append d s =
      if ltb 0 (length d)
      then (
        ok s.file_length_,
        record s { buffer_ = s.buffer_ ++ d; file_length_ = s.file_length_ + length d },
      )
      else (ok s.file_length_, s)

  unfoldable pub sync : Exec GcsRapidStorage (Unit {0})
  sync s =
      if length s.buffer_ == 0
      then (ok tt, s)
      else (do
        modify (λ u. record u { buffer_ = [] })
        on_cloud (C.write s.buffer_)
        on_cloud C.flush)
          s

  -- The destructor: what it leaves with the client.
  unfoldable pub destroy : GcsRapidStorage → C.State
  unfolding sync
  destroy s =
      let s' : GcsRapidStorage = (sync s).1 in
      if ltb s'.initial_offset_ s'.file_length_ then C.close s'.cloud else s'.cloud

  abbrev pub get_size : Exec GcsRapidStorage ℕ
  get_size s = (ok s.file_length_, s)

  abbrev pub known_size : Option C.Descriptor → ℕ
  known_size none = 0
  known_size (some d) = elim (C.described_size d) [ none ↦ 0 | some n ↦ n ]

  abbrev pub is_open : Option C.Descriptor → Bool
  is_open none = false
  is_open (some _) = true

  -- A failed `Open` keeps a descriptor that is there.
  abbrev pub reopened :
      GcsRapidStorage → Answered C.Descriptor × C.State → Result (Unit {0}) × GcsRapidStorage
  reopened s (fine d, c) = (ok tt, record s { descriptor_ = some d; cloud = c })
  reopened s (fault e, c) =
      (if is_open s.descriptor_ then ok tt else err (convert_status e), record s { cloud = c })

  unfoldable pub refresh : Bool → ℕ → Exec GcsRapidStorage (Unit {0})
  refresh first end s =
      if not (is_open s.descriptor_) || ltb (known_size s.descriptor_) end || not first
      then reopened s (C.open_object s.cloud)
      else (ok tt, s)

  -- The bytes of a read; `none` if the object does not have them yet.
  abbrev pub or_retry : ℕ → Result (List ℕ) → Result (Option (List ℕ))
  or_retry n (err AbslStatus.Code.out_of_range) = ok none
  or_retry n (err c) = err c
  or_retry n (ok d) = if ltb (length d) n then ok none else ok (some (take n d))

  -- `refresh` leaves a descriptor or fails, so the first clause is not met.
  unfoldable pub read_once : ℕ → ℕ → Option C.Descriptor → Exec GcsRapidStorage (Option (List ℕ))
  unfolding read_answers
  read_once o n none s = (err AbslStatus.Code.internal, s)
  read_once o n (some d) s =
      let (answers, c) = C.read_range d o n s.cloud in
      (or_retry n (read_answers answers), record s { cloud = c })

  unfoldable pub attempt : Bool → ℕ → ℕ → Exec GcsRapidStorage (Option (List ℕ))
  unfolding refresh read_once
  attempt first o n = do refresh first (o + n); λ s. read_once o n s.descriptor_ s

  abbrev pub or_else_retry :
      Exec GcsRapidStorage (List ℕ) → Option (List ℕ) → Exec GcsRapidStorage (List ℕ)
  or_else_retry retry none = retry
  or_else_retry retry (some d) = pure d

  -- The loop of `PRead`, with `left` attempts after this one. The pauses are not modelled.
  unfoldable pub read_attempts : ℕ → Bool → ℕ → ℕ → Exec GcsRapidStorage (List ℕ)
  unfolding attempt
  read_attempts zero first o n =
      attempt first o n >>= or_else_retry (raise AbslStatus.Code.deadline_exceeded)
  read_attempts (suc left) first o n =
      attempt first o n >>= or_else_retry (read_attempts left false o n)

  -- A read that starts before the buffer.
  unfoldable pub read_object : ℕ → ℕ → ℕ → Exec GcsRapidStorage (List ℕ)
  unfolding read_attempts
  read_object start o n s =
      if ltb start (o + n)
      then (do d ← read_attempts 14 true o (start - o); pure (d ++ take (o + n - start) s.buffer_))
          s
      else read_attempts 14 true o n s

  unfoldable pub pread : ℕ → ℤ → Exec GcsRapidStorage (List ℕ)
  unfolding read_object
  pread n (negsuc _) s = (err AbslStatus.Code.invalid_argument, s)
  pread n (pos o) s =
      let start = s.file_length_ - length s.buffer_ in
      if ltb s.file_length_ (o + n)
      then (err AbslStatus.Code.out_of_range, s)
      else if leb start o
      then (ok (slice (o - start) n s.buffer_), s)
      else read_object start o n s

  -- The methods, as a storage.
  abbrev pub gcs_storage : Storage
  gcs_storage = record {
    State = GcsRapidStorage;
    append = append;
    pread = pread;
    get_size = get_size;
    sync = sync;
  }
