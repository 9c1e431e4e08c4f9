-- ===== src/Gcs/Crashes.antt =====
-- A crash of a process whose database is an object of Cloud Storage, and the next `Create` and `Init`.
use sqlite_on_gcs_rapid.Base.{ℕ, ◌≡◌, List, [], ◌++◌, take, if◌then◌else◌}
use sqlite_on_gcs_rapid.Status.{Result, ok, err}
use sqlite_on_gcs_rapid.Status.Returns.{Returns, Returns-weaken}
use sqlite_on_gcs_rapid.Table.{MetadataBlock, fresh}
use sqlite_on_gcs_rapid.Mapper.{MapperOf}
use sqlite_on_gcs_rapid.Mapper.Syncs.{encode_all}
use sqlite_on_gcs_rapid.Recovery.{init}
use sqlite_on_gcs_rapid.Recovery.Metadata.{IsFaithful}
use sqlite_on_gcs_rapid.Durability.Aborts.{Shows}
use sqlite_on_gcs_rapid.Session.{Call, AllInBounds, file_after, logged_total, run}
use sqlite_on_gcs_rapid.Session.Unsynced.{AllUnsynced}
use sqlite_on_gcs_rapid.Session.Refinement.{Represents}
use sqlite_on_gcs_rapid.Session.Transactions.{is_all, Reopens, crash-run}
use sqlite_on_gcs_rapid.Gcs.{Cloud, GcsRapidStorage, create, gcs_storage}
use sqlite_on_gcs_rapid.Gcs.Reads.{IsCloud}
use sqlite_on_gcs_rapid.Gcs.Lawful.{Buffered, Starts, Created, gcs-IsLawful, create-Created}

module _ {C : Cloud} {Object : C.State → List ℕ → Type 0} {F : Type 0} (cloud : IsCloud C Object F)
    {meta : MetadataBlock} (faithful : IsFaithful meta) where
  -- A `Create` that succeeds gives a storage over which `Init` shows the file; only a fault of the
  -- client can make one of them fail.
  abbrev pub OpensObject : (ℕ → ℕ) → ℕ → Result (GcsRapidStorage C) → Type 0
  OpensObject f l (ok s) =
      Returns (λ _ m'. Shows (Buffered cloud) f l m') (λ _. F)
        (init meta (gcs_storage C) (record { storage = s; table = fresh }))
  OpensObject f l (err e) = F

  Created-OpensObject :
      (bs : List ℕ) (f : ℕ → ℕ) (l : ℕ) (r : Result (GcsRapidStorage C))
      → Reopens (gcs-IsLawful cloud) faithful bs f l
      → Created cloud bs r
      → OpensObject f l r
  Created-OpensObject bs f l (ok s) h c = h.reopens s c
  Created-OpensObject bs f l (err e) h c = c

  -- What a new process makes of the object with the bytes `bs`.
  pub record Recovers (bs : List ℕ) (f : ℕ → ℕ) (l : ℕ) : Type 0 where
    pub recovers : Starts cloud bs C.get_metadata → OpensObject f l (create C)

  Reopens-Recovers :
      {bs : List ℕ} {f : ℕ → ℕ} {l : ℕ}
      → Reopens (gcs-IsLawful cloud) faithful bs f l
      → Recovers bs f l
  Reopens-Recovers {bs} {f} {l} h = record {
    recovers = λ s. Created-OpensObject bs f l (create C) h (create-Created cloud bs s);
  }

  -- From a mapper over an object of Cloud Storage, without pending records, that represents a file, run
  -- any calls of `Write` and `Truncate` within the bounds. Only a fault of the client can make this
  -- fail. If the process then dies within a `Sync`, so that the object has the first `k` bytes of what
  -- the `Sync` appends, a new process whose client answers rightly for this object opens it by `Create`
  -- and `Init`, unless the client has a fault, and sees the old file at the old size that the log says,
  -- or if all bytes are there, the file and the size that the specification gives after the calls.
  pub crash-Recovers :
      (cs : List Call) (f : ℕ → ℕ) (n l : ℕ) (m : MapperOf (gcs_storage C))
      (r : Represents (Buffered cloud) meta f n l m) (k : ℕ)
      → m.table.pending_records ≡ []
      → AllUnsynced cs
      → AllInBounds cs
      → Returns
          (λ _ m'.
            Recovers
              (r.bytes_held ++ take k (encode_all m'.table.pending_records))
              (if is_all k m' then file_after cs f else f)
              (if is_all k m' then logged_total cs l else l))
          (λ _. F)
          (run meta (gcs_storage C) cs m)
  crash-Recovers cs f n l m r k synced u h =
      Returns-weaken (crash-run (gcs-IsLawful cloud) faithful cs f n l m r k synced u h)
        (λ _ m' q. Reopens-Recovers q.1) (λ m' e. e)
