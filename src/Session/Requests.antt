-- ===== src/Session/Requests.antt =====
-- Calls with any arguments, refused ones and failed ones included, on a mapper over any log.
use sqlite_on_gcs_rapid.Base.{
  ℕ, ◌+◌, ◌≤◌, ◌<◌, ◌≡◌, refl, sym, List, [], ◌∷◌, ◌++◌, append_assoc, append-nil, true, false,
  Bool-cases, inl, inr, ℤ, pos, negsuc, le-cases, lt→ltb, length, subst, arith,
}
use sqlite_on_gcs_rapid.Status.{Code, Result, ok, err, Exec, pure, invalid_argument, ◌>>◌}
use sqlite_on_gcs_rapid.Status.Returns.{Returns, done, failed, Returns-bind, Returns-weaken}
use sqlite_on_gcs_rapid.Storage.{Storage, IsLawful}
use sqlite_on_gcs_rapid.Record.{max_size}
use sqlite_on_gcs_rapid.Table.{MetadataBlock, fresh, out_of_bounds, truncate_table}
use sqlite_on_gcs_rapid.View.{IsValid, At}
use sqlite_on_gcs_rapid.Mapper.{Mapper, MapperOf, read, write, truncate, sync}
use sqlite_on_gcs_rapid.Mapper.Reads.{read_lem}
use sqlite_on_gcs_rapid.Mapper.Writes.{write_lem}
use sqlite_on_gcs_rapid.Mapper.Truncates.{truncate_lem, truncate_table-IsValid}
use sqlite_on_gcs_rapid.Mapper.Syncs.{encode_all, sync_lem}
use sqlite_on_gcs_rapid.Recovery.{init}
use sqlite_on_gcs_rapid.Recovery.Inputs.{Refused, init-Opened}
use sqlite_on_gcs_rapid.Recovery.Metadata.{IsFaithful}
use sqlite_on_gcs_rapid.Session.Unsynced.{write_nothing}

-- A call of a `BlockMapper` with the arguments that its signature admits.
pub data AnyCall : Type 0 where
  reads : ℕ → ℤ → AnyCall
  writes : List ℕ → ℤ → AnyCall
  truncates : ℤ → AnyCall
  syncs : AnyCall

module _ (meta : MetadataBlock) (S : Storage) where
  unfoldable pub serve : AnyCall → Exec (MapperOf S) (Unit {0})
  serve (reads n off) = do read S n off; pure tt
  serve (writes buf off) = write S buf off
  serve (truncates n) = truncate meta S n
  serve syncs = sync S

  -- The calls in order, whatever the results of those before.
  unfoldable pub serve_all : List AnyCall → MapperOf S → MapperOf S
  unfolding serve
  serve_all [] m = m
  serve_all (r ∷ rs) m = serve_all rs (serve r m).1

module _ {State : Type 0} (Holds : State → List ℕ → Type 0) where
  -- The mapper is valid over the bytes `bs`, and its size is within the bounds.
  pub record SoundOver (bs : List ℕ) (m : Mapper State) : Type 0 where
    pub holds : Holds m.storage bs
    pub valid : IsValid bs m.table
    pub fits : m.table.logical_size ≤ max_size

  -- The same, with some bytes behind `bs`.
  pub record Sound (bs : List ℕ) (m : Mapper State) : Type 0 where
    pub more : List ℕ
    pub over : SoundOver (bs ++ more) m

  -- No bytes behind `bs` yet.
  SoundOver-Sound : {bs : List ℕ} {m : Mapper State} → SoundOver bs m → Sound bs m
  SoundOver-Sound {bs} {m} h = record {
    more = [];
    over = subst (λ x. SoundOver x m) (sym (append-nil bs)) h;
  }

  pub Sound-append :
      {bs : List ℕ} (ds : List ℕ) {m : Mapper State} → Sound (bs ++ ds) m → Sound bs m
  Sound-append {bs} ds {m} h = record {
    more = ds ++ h.more;
    over = subst (λ x. SoundOver x m) (append_assoc bs ds h.more) h.over;
  }

le-of_out_of_bounds : (n off : ℕ) → out_of_bounds n off ≡ false → off + n ≤ max_size
unfolding out_of_bounds
le-of_out_of_bounds n off h = ground arith

module _ {S : Storage} {Holds : S.State → List ℕ → Type 0} {F : Type 0}
    (lawful : IsLawful S Holds F) {meta : MetadataBlock} (faithful : IsFaithful meta) where
  -- The outcome of a call, be it a success or not.
  abbrev Stays : {A : Type 0} → List ℕ → Result A × MapperOf S → Type 0
  Stays bs r = Returns (λ _ m'. Sound Holds bs m') (λ m'. Sound Holds bs m') r

  module _ (bs : List ℕ) (m : MapperOf S) (h : SoundOver Holds bs m) where
    -- The table is as it was.
    same_table : (m' : MapperOf S) → At Holds bs m.table m' → Sound Holds bs m'
    same_table m' a = SoundOver-Sound Holds (record {
      holds = a.holds;
      valid = subst (IsValid bs) (sym a.same) h.valid;
      fits = subst (λ u. u.logical_size ≤ max_size) (sym a.same) h.fits;
    })

    -- A guard that refuses.
    refused-Stays :
        {A : Type 0} {c : Code} {r : Result A × MapperOf S} → r ≡ (err c, m) → Stays bs r
    refused-Stays e = subst (Stays bs) (sym e) (failed (SoundOver-Sound Holds h))

    read_negative : (n k : ℕ) → read S n (negsuc k) m ≡ (err invalid_argument, m)
    unfolding read
    read_negative n k = refl

    read_outside :
        (n off : ℕ) → out_of_bounds n off ≡ true → read S n (pos off) m ≡ (err invalid_argument, m)
    unfolding read
    read_outside n off e = rw e refl

    write_negative : (buf : List ℕ) (k : ℕ) → write S buf (negsuc k) m ≡ (err invalid_argument, m)
    unfolding write
    write_negative buf k = refl

    write_outside :
        (buf : List ℕ) (off : ℕ)
        → out_of_bounds (length buf) off ≡ true
        → write S buf (pos off) m ≡ (err invalid_argument, m)
    unfolding write
    write_outside buf off e = rw e refl

    truncate_negative : (k : ℕ) → truncate meta S (negsuc k) m ≡ (err invalid_argument, m)
    unfolding truncate
    truncate_negative k = refl

    truncate_outside :
        (n : ℕ) → max_size < n → truncate meta S (pos n) m ≡ (err invalid_argument, m)
    unfolding truncate
    truncate_outside n g = rw (lt→ltb max_size n g) refl

    read-Stays : (n : ℕ) (off : ℤ) → Stays bs (read S n off m)
    read-Stays n (negsuc k) = refused-Stays (read_negative n k)
    read-Stays n (pos off) = elim (Bool-cases (out_of_bounds n off)) [
      | inl e ↦ refused-Stays (read_outside n off e)
      | inr e ↦
          Returns-weaken
            (read_lem lawful n off h.valid (record { holds = h.holds; same = refl })
              (le-of_out_of_bounds n off e))
            (λ _ m' q. same_table m' q.1) (λ m' x. same_table m' x.1)
    ]

    write_bytes-Stays :
        (x : ℕ) (buf : List ℕ) (off : ℕ)
        → off + length (x ∷ buf) ≤ max_size
        → Stays bs (write S (x ∷ buf) (pos off) m)
    write_bytes-Stays x buf off l =
        Returns-weaken
          (write_lem lawful (x ∷ buf) off bs (λ _ _. Unit {0}) (λ t b d _ _ _. tt) h.valid
            (record { holds = h.holds; same = refl }) tt (omega arith) l)
          (λ _ m' w.
            SoundOver-Sound Holds (record {
              holds = w.holds;
              valid = w.valid;
              fits = omega (arith, w.sized, l, h.fits);
            }))
          (λ m' w.
            SoundOver-Sound Holds
              (record { holds = w.holds; valid = w.valid; fits = omega (arith, w.sized, h.fits) }))

    inside-Stays :
        (buf : List ℕ) (off : ℕ) → off + length buf ≤ max_size → Stays bs (write S buf (pos off) m)
    inside-Stays [] off l =
        subst (Stays bs) (sym (write_nothing lawful faithful off m l h.valid.inited))
          (done (SoundOver-Sound Holds h))
    inside-Stays (x ∷ buf) off l = write_bytes-Stays x buf off l

    write-Stays : (buf : List ℕ) (off : ℤ) → Stays bs (write S buf off m)
    write-Stays buf (negsuc k) = refused-Stays (write_negative buf k)
    write-Stays buf (pos off) = elim (Bool-cases (out_of_bounds (length buf) off)) [
      | inl e ↦ refused-Stays (write_outside buf off e)
      | inr e ↦ inside-Stays buf off (le-of_out_of_bounds (length buf) off e)
    ]

    truncate-Stays : (n : ℤ) → Stays bs (truncate meta S n m)
    truncate-Stays (negsuc k) = refused-Stays (truncate_negative k)
    truncate-Stays (pos n) = elim (le-cases n max_size) [
      | inl l ↦ subst (Stays bs) (sym (truncate_lem faithful S n m l h.valid.inited)) (
          done (
            SoundOver-Sound Holds (record {
              holds = h.holds;
              valid = truncate_table-IsValid n (faithful.text n) (faithful.fits n l) h.valid;
              fits = unfold truncate_table in l;
            })))
      | inr g ↦ refused-Stays (truncate_outside n g)
    ]

    sync-Stays : Stays bs (sync S m)
    sync-Stays =
        Returns-weaken (sync_lem lawful h.valid (record { holds = h.holds; same = refl }))
          (λ _ m' w. record {
            more = encode_all m.table.pending_records;
            over = record {
              holds = w.holds;
              valid = w.valid;
              fits = omega (arith, w.sized, h.fits);
            };
          })
          (λ m' w. record {
            more = w.after;
            over = record {
              holds = w.holds;
              valid = w.valid;
              fits = omega (arith, w.sized, h.fits);
            };
          })

    serve-Stays : (r : AnyCall) → Stays bs (serve meta S r m)
    unfolding serve
    serve-Stays (reads n off) =
        Returns-bind (read S n off) (λ _. pure tt) m (read-Stays n off) (λ _ m' q. done q)
          (λ m' q. q)
    serve-Stays (writes buf off) = write-Stays buf off
    serve-Stays (truncates n) = truncate-Stays n
    serve-Stays syncs = sync-Stays

  -- What a call leaves, be it a success or not.
  left : {A : Type 0} {bs : List ℕ} (r : Result A × MapperOf S) → Stays bs r → Sound Holds bs r.1
  left (ok a, m') (done q) = q
  left (err c, m') (failed q) = q

  -- A valid mapper whose size is within the bounds stays so whatever `Read`, `Write`, `Truncate` and
  -- `Sync` are called on it, with any arguments and in any order and number, and with all failures: the
  -- calls that it refuses, and faults of the storage at any point. The bytes of the storage only grow.
  pub serve_all-Sound :
      (rs : List AnyCall) (bs : List ℕ) (m : MapperOf S)
      → SoundOver Holds bs m
      → Sound Holds bs (serve_all meta S rs m)
  unfolding serve_all
  serve_all-Sound [] bs m h = SoundOver-Sound Holds h
  serve_all-Sound (r ∷ rs) bs m h =
      let s : Sound Holds bs (serve meta S r m).1 =
        left (serve meta S r m) (serve-Stays bs m h r) in
      Sound-append Holds s.more (serve_all-Sound rs (bs ++ s.more) (serve meta S r m).1 s.over)

  -- Whatever bytes a lawful storage holds, a new mapper that `Init` opens over it without an error is
  -- sound after any calls of `Read`, `Write`, `Truncate` and `Sync`, with any arguments and with all
  -- failures: its table is valid, each block that it maps lies within the storage, its size is within
  -- the bounds, and the storage holds the old bytes with some behind them. Where `Init` fails, nothing is
  -- in memory and the old bytes are there.
  pub init-serve_all-Sound :
      (rs : List AnyCall) (bs : List ℕ) (s : S.State)
      → Holds s bs
      → Returns
          (λ _ m. Sound Holds bs (serve_all meta S rs m))
          (λ m. Refused lawful meta bs m)
          (init meta S (record { storage = s; table = fresh }))
  init-serve_all-Sound rs bs s h =
      Returns-weaken (init-Opened lawful meta bs s h)
        (λ _ m o. Sound-append Holds o.more (
          serve_all-Sound rs (bs ++ o.more) m
            (record { holds = o.holds; valid = o.valid; fits = o.fits })))
        (λ m x. x)
