-- ===== src/Session/Transactions.antt =====
-- Calls that end with a `Sync`, as a transaction: what a restart shows after a crash or a failure.
use sqlite_on_gcs_rapid.Base.{
  ℕ, ◌≤◌, ◌<◌, ◌≡◌, ◌∙◌, List, [], ◌++◌, ◌⊎◌, inl, inr, length, take, take-ge, leb, Bool, refl,
  le-cases, if◌then◌else◌, subst, arith, le→leb, lt→leb,
}
use sqlite_on_gcs_rapid.Status.{◌>>◌}
use sqlite_on_gcs_rapid.Status.Returns.{Returns, Returns-bind, Returns-weaken}
use sqlite_on_gcs_rapid.Storage.{Storage, IsLawful}
use sqlite_on_gcs_rapid.Table.{MetadataBlock, fresh}
use sqlite_on_gcs_rapid.Mapper.{Mapper, MapperOf, sync}
use sqlite_on_gcs_rapid.Mapper.Syncs.{encode_all, sync_lem}
use sqlite_on_gcs_rapid.Recovery.{init}
use sqlite_on_gcs_rapid.Recovery.Metadata.{IsFaithful}
use sqlite_on_gcs_rapid.Durability.Restart.{init-Reopened}
use sqlite_on_gcs_rapid.Durability.Aborts.{Shows, init-Shows-old, init-Shows-new}
use sqlite_on_gcs_rapid.Session.{Call, AllInBounds, file_after, logged_total, run}
use sqlite_on_gcs_rapid.Session.Unsynced.{Held, AllUnsynced, run-Held}
use sqlite_on_gcs_rapid.Session.Refinement.{Represents, Held-Represents}

-- Whether `k` bytes are all that `Sync` appends.
abbrev pub is_all : {State : Type 0} → ℕ → Mapper State → Bool
is_all k m = leb (length (encode_all m.table.pending_records)) k

module _ {S : Storage} {Holds : S.State → List ℕ → Type 0} {F : Type 0}
    (lawful : IsLawful S Holds F) {meta : MetadataBlock} (faithful : IsFaithful meta) where
  -- A new mapper over a storage with the bytes `bs` shows the file `f` at the size `l`. Only a fault
  -- of the storage can make its `Init` fail.
  pub record Reopens (bs : List ℕ) (f : ℕ → ℕ) (l : ℕ) : Type 0 where
    pub reopens :
        (s : S.State)
        → Holds s bs
        → Returns
            (λ _ m'. Shows Holds f l m')
            (λ _. F)
            (init meta S (record { storage = s; table = fresh }))

  -- The same, for the bytes that the storage of `m` holds.
  pub record Leaves (f : ℕ → ℕ) (l : ℕ) (m : MapperOf S) : Type 0 where
    pub bytes_held : List ℕ
    pub holds : Holds m.storage bytes_held
    pub restarted : Reopens bytes_held f l

  Shows-of_eq :
      {f g : ℕ → ℕ} {l : ℕ} {m : MapperOf S}
      → ((j : ℕ) → f j ≡ g j)
      → Shows Holds f l m
      → Shows Holds g l m
  Shows-of_eq e h = record {
    bytes_held = h.bytes_held;
    holds = h.holds;
    valid = h.valid;
    bytes = λ j. h.bytes j ∙ e j;
    sized = h.sized;
  }

  module _ {bs : List ℕ} {f : ℕ → ℕ} {n l : ℕ} {m : MapperOf S} (r : Held Holds meta bs f n l m)
      (synced : m.table.pending_records ≡ []) where
    Reopens-none : Reopens bs f l
    Reopens-none = record {
      reopens = λ s h.
          Returns-weaken (init-Reopened lawful meta r.durable synced s h)
            (λ _ m'' o. record {
              bytes_held = bs;
              holds = o.holds;
              valid = o.valid;
              bytes = λ j. o.bytes j ∙ r.shows j;
              sized = o.sized;
            })
            (λ m'' e. e.0);
    }

  module _ {bs : List ℕ} {f g : ℕ → ℕ} {n n' l l' : ℕ} {m m' : MapperOf S}
      (r : Held Holds meta bs f n l m) (synced : m.table.pending_records ≡ [])
      (r' : Held Holds meta bs g n' l' m') where
    Reopens-old :
        (k : ℕ)
        → k < length (encode_all m'.table.pending_records)
        → Reopens (bs ++ take k (encode_all m'.table.pending_records)) f l
    Reopens-old k h = record {
      reopens = λ s a.
          Returns-weaken
            (init-Shows-old lawful meta r.durable synced m'.table.pending_records r'.durable.events
              r'.durable.represented k h s a)
            (λ _ m'' w. Shows-of_eq r.shows w) (λ m'' e. e);
    }

    Reopens-new :
        (k : ℕ)
        → length (encode_all m'.table.pending_records) ≤ k
        → Reopens (bs ++ take k (encode_all m'.table.pending_records)) g l'
    Reopens-new k h = record {
      reopens = λ s a.
          Returns-weaken
            (init-Shows-new lawful meta r'.durable s (
              subst (λ x. Holds s (bs ++ x)) (take-ge k (encode_all m'.table.pending_records) h) a))
            (λ _ m'' w. Shows-of_eq r'.shows w) (λ m'' e. e);
    }

    Reopens-some :
        (k : ℕ)
        → (Reopens (bs ++ take k (encode_all m'.table.pending_records)) f l)
          ⊎ (Reopens (bs ++ take k (encode_all m'.table.pending_records)) g l')
    Reopens-some k = elim (le-cases (length (encode_all m'.table.pending_records)) k) [
      | inl h ↦ inr (Reopens-new k h)
      | inr h ↦ inl (Reopens-old k h)
    ]

    Reopens-cut :
        (k : ℕ)
        → Reopens
            (bs ++ take k (encode_all m'.table.pending_records))
            (if is_all k m' then g else f)
            (if is_all k m' then l' else l)
    Reopens-cut k = elim (le-cases (length (encode_all m'.table.pending_records)) k) [
      | inl h ↦ rw (le→leb (length (encode_all m'.table.pending_records)) k h) (Reopens-new k h)
      | inr h ↦ rw (lt→leb (length (encode_all m'.table.pending_records)) k h) (Reopens-old k h)
    ]

  -- From a mapper without pending records that represents a file, run any calls of `Write` and
  -- `Truncate` within the bounds. Only a fault of the storage can make this fail. Otherwise the storage
  -- is as it was, and if a `Sync` then stops at any byte of what it appends, `Init` of a new mapper over
  -- what is left shows the old file at the old size that the log says, unless all bytes are there:
  -- then it shows the file and the size that the specification gives after the calls.
  pub crash-run :
      (cs : List Call) (f : ℕ → ℕ) (n l : ℕ) (m : MapperOf S) (r : Represents Holds meta f n l m)
      (k : ℕ)
      → m.table.pending_records ≡ []
      → AllUnsynced cs
      → AllInBounds cs
      → Returns
          (λ _ m'.
            Holds m'.storage r.bytes_held
            × Reopens
                (r.bytes_held ++ take k (encode_all m'.table.pending_records))
                (if is_all k m' then file_after cs f else f)
                (if is_all k m' then logged_total cs l else l))
          (λ _. F)
          (run meta S cs m)
  crash-run cs f n l m r k synced u h =
      Returns-weaken (run-Held lawful faithful r.bytes_held cs f n l m u h (Held-Represents r))
        (λ _ m' r'. (r'.holds, Reopens-cut (Held-Represents r) synced r' k)) (λ m' e. e.0)

  -- The two outcomes that a transaction may leave.
  abbrev pub LeavesEither : (ℕ → ℕ) → ℕ → (ℕ → ℕ) → ℕ → MapperOf S → Type 0
  LeavesEither f l g l' m = Leaves f l m ⊎ Leaves g l' m

  Leaves-sync :
      {bs : List ℕ} {f g : ℕ → ℕ} {n n' l l' : ℕ} {m m' : MapperOf S}
      → Held Holds meta bs f n l m
      → m.table.pending_records ≡ []
      → Held Holds meta bs g n' l' m'
      → Returns (λ _ m''. Leaves g l' m'') (λ m''. F × LeavesEither f l g l' m'') (sync S m')
  Leaves-sync {bs} {f} {g} {n} {n'} {l} {l'} {m} {m'} r synced r' =
      Returns-weaken (sync_lem lawful r'.valid (record { holds = r'.holds; same = refl }))
        (λ _ m'' w. record {
          bytes_held = bs ++ encode_all m'.table.pending_records;
          holds = w.holds;
          restarted =
              subst (λ x. Reopens (bs ++ x) g l')
                (take-ge (length (encode_all m'.table.pending_records)) _ (omega arith))
                (Reopens-new r synced r' (length (encode_all m'.table.pending_records))
                  (omega arith));
        })
        (λ m'' x. (
          x.fault,
          elim (Reopens-some r synced r' x.cut) [
            | inl o ↦ inl (record {
              bytes_held = bs ++ take x.cut (encode_all m'.table.pending_records);
              holds = subst (λ y. Holds m''.storage (bs ++ y)) x.prefix x.holds;
              restarted = o;
            })
            | inr o ↦ inr (record {
              bytes_held = bs ++ take x.cut (encode_all m'.table.pending_records);
              holds = subst (λ y. Holds m''.storage (bs ++ y)) x.prefix x.holds;
              restarted = o;
            })
          ],
        ))

  -- From a mapper without pending records that represents a file, run any calls of `Write` and
  -- `Truncate` within the bounds and then `Sync`. Where all succeed, `Init` of a new mapper over the
  -- bytes of the storage shows the file and the log's size that the specification gives after the
  -- calls. Where one fails, the storage has a fault, and `Init` of a new mapper over what is left
  -- shows either this file or the one before all calls, each at the size that the log says for it, and
  -- never a mixture.
  pub transaction-Leaves :
      (cs : List Call) (f : ℕ → ℕ) (n l : ℕ) (m : MapperOf S)
      → Represents Holds meta f n l m
      → m.table.pending_records ≡ []
      → AllUnsynced cs
      → AllInBounds cs
      → Returns
          (λ _ m'. Leaves (file_after cs f) (logged_total cs l) m')
          (λ m'. F × LeavesEither f l (file_after cs f) (logged_total cs l) m')
          ((run meta S cs >> sync S) m)
  transaction-Leaves cs f n l m r synced u h =
      Returns-bind (run meta S cs) (λ _. sync S) m
        (run-Held lawful faithful r.bytes_held cs f n l m u h (Held-Represents r))
        (λ _ m' r'. Leaves-sync (Held-Represents r) synced r')
        (λ m' e. (
          e.0,
          inl (record {
            bytes_held = r.bytes_held;
            holds = e.1;
            restarted = Reopens-none (Held-Represents r) synced;
          }),
        ))
