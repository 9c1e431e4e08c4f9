-- ===== src/Session/Refinement.antt =====
-- Sequences of calls, and a restart after a `Sync`, against the specification.
use sqlite_on_gcs_rapid.Base.{ℕ, ◌/◌, ◌%◌, ◌≡◌, refl, sym, ap, ◌∙◌, List, [], ◌∷◌, ◌++◌, get_or}
use sqlite_on_gcs_rapid.Status.{◌>>◌}
use sqlite_on_gcs_rapid.Status.Returns.{Returns, done, Returns-bind, Returns-weaken}
use sqlite_on_gcs_rapid.Storage.{Storage, IsLawful}
use sqlite_on_gcs_rapid.Table.{MetadataBlock, fresh, ceil_blocks}
use sqlite_on_gcs_rapid.View.{or_zeros, file_byte, IsValid}
use sqlite_on_gcs_rapid.Mapper.{Mapper, MapperOf, sync}
use sqlite_on_gcs_rapid.Mapper.Syncs.{encode_all, sync_lem}
use sqlite_on_gcs_rapid.Recovery.{init}
use sqlite_on_gcs_rapid.Recovery.Metadata.{IsFaithful}
use sqlite_on_gcs_rapid.Durability.{Durable}
use sqlite_on_gcs_rapid.Durability.Restart.{Flushed-Durable, init-Reopened}
use sqlite_on_gcs_rapid.Session.Unsynced.{Held, IsUnsynced, perform-Held}
use sqlite_on_gcs_rapid.Session.{
  Call, writes, truncates, syncs, InBounds, AllInBounds, bytes_after, size_after, file_after,
  total_after, logged_after, logged_total, perform, run,
}

-- The mapper is a sound, durable representation of the file `f` of size `n`, whose log says the
-- size `l`.
pub record Represents {State : Type 0} (Holds : State → List ℕ → Type 0) (meta : MetadataBlock)
    (f : ℕ → ℕ) (n l : ℕ) (m : Mapper State) : Type 0 where
  pub bytes_held : List ℕ
  pub holds : Holds m.storage bytes_held
  pub valid : IsValid bytes_held m.table
  pub durable : Durable meta bytes_held m.table l
  pub shows : (j : ℕ) → file_byte bytes_held m.table j ≡ f j
  pub sized : m.table.logical_size ≡ n

-- A mapper over known bytes is a mapper.
pub Represents-Held :
    {State : Type 0} {Holds : State → List ℕ → Type 0} {meta : MetadataBlock} {bs : List ℕ}
    {f : ℕ → ℕ} {n l : ℕ} {m : Mapper State}
    → Held Holds meta bs f n l m
    → Represents Holds meta f n l m
Represents-Held {bs = bs} r = record {
  bytes_held = bs;
  holds = r.holds;
  valid = r.valid;
  durable = r.durable;
  shows = r.shows;
  sized = r.sized;
}

pub Held-Represents :
    {State : Type 0} {Holds : State → List ℕ → Type 0} {meta : MetadataBlock} {f : ℕ → ℕ} {n l : ℕ}
    {m : Mapper State} (r : Represents Holds meta f n l m)
    → Held Holds meta r.bytes_held f n l m
Held-Represents r = record {
  holds = r.holds;
  valid = r.valid;
  durable = r.durable;
  shows = r.shows;
  sized = r.sized;
}

module _ {S : Storage} {Holds : S.State → List ℕ → Type 0} {F : Type 0}
    (lawful : IsLawful S Holds F) {meta : MetadataBlock} (faithful : IsFaithful meta) where
  perform_unsynced :
      (c : Call) (f : ℕ → ℕ) (n l : ℕ) (m : MapperOf S)
      → IsUnsynced c
      → InBounds c
      → Represents Holds meta f n l m
      → Returns
          (λ _ m'. Represents Holds meta (bytes_after c f) (size_after c n) (logged_after c l) m')
          (λ _. F)
          (perform meta S c m)
  perform_unsynced c f n l m u h r =
      Returns-weaken (perform-Held lawful faithful r.bytes_held c f n l m u h (Held-Represents r))
        (λ _ m' w. Represents-Held w) (λ m' e. e.0)

  pub perform-Represents :
      (c : Call) (f : ℕ → ℕ) (n l : ℕ) (m : MapperOf S)
      → InBounds c
      → Represents Holds meta f n l m
      → Returns
          (λ _ m'. Represents Holds meta (bytes_after c f) (size_after c n) (logged_after c l) m')
          (λ _. F)
          (perform meta S c m)
  unfolding perform
  perform-Represents (writes buf off) f n l m h r = perform_unsynced (writes buf off) f n l m tt h r
  perform-Represents (truncates k) f n l m h r = perform_unsynced (truncates k) f n l m tt h r
  perform-Represents syncs f n l m h r =
      Returns-weaken (sync_lem lawful r.valid (record { holds = r.holds; same = refl }))
        (λ _ m' w. record {
          bytes_held = r.bytes_held ++ encode_all m.table.pending_records;
          holds = w.holds;
          valid = w.valid;
          durable = Flushed-Durable lawful meta r.durable w;
          shows = λ j.
              unfold file_byte in
              ap (λ o. get_or (or_zeros o) (j % 4096) 0) (w.blocks (j / 4096)) ∙ r.shows j;
          sized = w.sized ∙ r.sized;
        })
        (λ m' e. e.fault)

  -- From a mapper that represents a file of some size, any calls of `Write`, `Truncate` and `Sync`
  -- within the bounds, in any order and number, leave a mapper that represents the file and the
  -- size that the specification gives after them, and a log that says the size that the
  -- specification gives for it. Only a fault of the storage can make a call fail.
  pub run-Represents :
      (cs : List Call) (f : ℕ → ℕ) (n l : ℕ) (m : MapperOf S)
      → AllInBounds cs
      → Represents Holds meta f n l m
      → Returns
          (λ _ m'.
            Represents Holds meta (file_after cs f) (total_after cs n) (logged_total cs l) m')
          (λ _. F)
          (run meta S cs m)
  unfolding run file_after total_after logged_total
  run-Represents [] f n l m h r = done r
  run-Represents (c ∷ cs) f n l m h r =
      Returns-bind (perform meta S c) (λ _. run meta S cs) m (perform-Represents c f n l m h.0 r)
        (λ _ m' r'.
          run-Represents cs (bytes_after c f) (size_after c n) (logged_after c l) m' h.1 r')
        (λ m' e. e)

  -- What a new mapper finds on the storage of `m`: the file `f` and the size `l`.
  pub record Restarts (f : ℕ → ℕ) (l : ℕ) (m : MapperOf S) : Type 0 where
    pub bytes_held : List ℕ
    pub holds : Holds m.storage bytes_held
    pub reopens :
        (s : S.State)
        → Holds s bytes_held
        → Returns
            (λ _ m'. Represents Holds meta f l l m')
            (λ _. F)
            (init meta S (record { storage = s; table = fresh }))

  pub sync-Restarts :
      (f : ℕ → ℕ) (n l : ℕ) (m : MapperOf S)
      → Represents Holds meta f n l m
      → Returns (λ _ m'. Restarts f l m') (λ _. F) (sync S m)
  sync-Restarts f n l m r =
      Returns-weaken (sync_lem lawful r.valid (record { holds = r.holds; same = refl }))
        (λ _ m' w. record {
          bytes_held = r.bytes_held ++ encode_all m.table.pending_records;
          holds = w.holds;
          reopens = λ s h.
              Returns-weaken
                (init-Reopened lawful meta (Flushed-Durable lawful meta r.durable w) w.flushed s h)
                (λ _ m'' o. record {
                  bytes_held = r.bytes_held ++ encode_all m.table.pending_records;
                  holds = o.holds;
                  valid = o.valid;
                  durable = o.durable;
                  shows = λ j.
                      o.bytes j
                      ∙ unfold file_byte in
                        ap (λ x. get_or (or_zeros x) (j % 4096) 0) (w.blocks (j / 4096))
                        ∙ r.shows j;
                  sized = o.sized;
                })
                (λ m'' e. e.0);
        })
        (λ m' e. e.fault)

  -- A represented size has as many blocks as the log says.
  pub ceil_blocks-Represents :
      {f : ℕ → ℕ} {n l : ℕ} {m : MapperOf S}
      → Represents Holds meta f n l m
      → ceil_blocks n ≡ ceil_blocks l
  ceil_blocks-Represents r = ap ceil_blocks (sym r.sized) ∙ r.durable.sizes

  -- From a mapper that represents a file of some size, run any calls within the bounds and then
  -- `Sync`. Only a fault of the storage can make this fail. Otherwise every new mapper whose
  -- storage holds the same bytes is opened by `Init` without an error but a storage fault, and
  -- represents the file that the specification gives after the calls, at the size that the
  -- specification gives for the log: the last block of each write counts in full, and a truncation
  -- sets it exactly. This size has as many blocks as the one before the restart.
  pub restart-run :
      (cs : List Call) (f : ℕ → ℕ) (n l : ℕ) (m : MapperOf S)
      → AllInBounds cs
      → Represents Holds meta f n l m
      → Returns
          (λ _ m'.
            Restarts (file_after cs f) (logged_total cs l) m'
            × (ceil_blocks (logged_total cs l) ≡ ceil_blocks (total_after cs n)))
          (λ _. F)
          ((run meta S cs >> sync S) m)
  restart-run cs f n l m h r =
      Returns-bind (run meta S cs) (λ _. sync S) m (run-Represents cs f n l m h r)
        (λ _ m' r'.
          Returns-weaken
            (sync-Restarts (file_after cs f) (total_after cs n) (logged_total cs l) m' r')
            (λ _ m'' s. (s, sym (ceil_blocks-Represents r'))) (λ m'' e. e))
        (λ m' e. e)
