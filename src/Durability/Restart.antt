-- ===== src/Durability/Restart.antt =====
-- What a restart shows.
use sqlite_on_gcs_rapid.Base.{
  ℕ, zero, suc, ◌+◌, ◌*◌, ◌/◌, ◌%◌, ◌≡◌, refl, sym, ap, ◌∙◌, List, [], ◌∷◌, ◌++◌, Option, none,
  some, ℤ, pos, negsuc, Bool, true, false, length, subst, get_or, arith,
}
use sqlite_on_gcs_rapid.Status.Returns.{Returns, Returns-weaken}
use sqlite_on_gcs_rapid.Storage.{Storage, IsLawful}
use sqlite_on_gcs_rapid.Table.{MetadataBlock, PendingRecord, Table, fresh, mapped_at, ceil_blocks}
use sqlite_on_gcs_rapid.View.{AllFull, stored, or_else, block_at, or_zeros, file_byte, IsValid, At}
use sqlite_on_gcs_rapid.View.Lookup.{find_pending-eq-last_record, last_record}
use sqlite_on_gcs_rapid.Mapper.{Mapper, MapperOf}
use sqlite_on_gcs_rapid.Mapper.Reads.{Fault}
use sqlite_on_gcs_rapid.Mapper.Syncs.{encode_all, stored-append, Flushed}
use sqlite_on_gcs_rapid.Recovery.{
  RecoveredRecord, applied_flags, apply_record, apply_records, apply_block, mark, recovered_table,
  init,
}
use sqlite_on_gcs_rapid.Recovery.Scans.{Scans, Scans-append, Scans-more, recovered_table-Within}
use sqlite_on_gcs_rapid.Recovery.Replay.{
  Event, replay, replay_size, apply_all, apply_all-replay, apply_all-replay_size,
}
use sqlite_on_gcs_rapid.Recovery.Flags.{
  Closed, Committed, Closed-append, Committed-Closed, recovered_table-commit,
}
use sqlite_on_gcs_rapid.Recovery.Inits.{init_lem}
use sqlite_on_gcs_rapid.Durability.{AllRepresent, Durable}
use sqlite_on_gcs_rapid.Durability.Appended.{
  appended, Scans-appended, AllTell-appended, Committed-appended, all_bytes-appended,
}

Closed-of_Committed : (rs : List RecoveredRecord) → Committed rs → Closed rs
Closed-of_Committed [] h = tt
Closed-of_Committed (r ∷ rs) h = Committed-Closed r rs h

module _ (meta : MetadataBlock) {bs : List ℕ} {t : Table} {l : ℕ} (d : Durable meta bs t l) where
  open d use {log, events}

  -- The storage after the pending records are appended, and its log.
  abbrev pub bytes_after : List ℕ
  bytes_after = bs ++ encode_all t.pending_records

  abbrev pub new : List RecoveredRecord
  new = appended (length bs) t.pending_records events

  pub Scans-after : Scans meta bytes_after 0 (log ++ new)
  Scans-after =
      Scans-append meta bytes_after 0 log new
        (Scans-more meta bs (encode_all t.pending_records) 0 log d.scanned)
        (subst (λ o. Scans meta bytes_after o new) {x = length bs} {y = 0 + length log * 4105}
          (omega (arith, d.all_bytes))
          (Scans-appended meta t.pending_records events bs d.represented))

  pub Closed-after : Closed (log ++ new)
  Closed-after = Closed-append log new d.closed (
      Closed-of_Committed new
        (Committed-appended meta t.pending_records events (length bs) d.represented))

  recovered_after :
      recovered_table (log ++ new) fresh
      ≡ mark (apply_all new (apply_records log (applied_flags log) fresh))
  recovered_after =
      recovered_table-commit log new fresh d.closed
        (Committed-appended meta t.pending_records events (length bs) d.represented)

  -- A block of the recovered file.
  pub replayed_after :
      (b : ℕ)
      → stored bytes_after (mapped_at (recovered_table (log ++ new) fresh).logical_to_physical b)
        ≡ replay b events (stored bs (mapped_at (recovered_table log fresh).logical_to_physical b))
  replayed_after b =
      ap (λ u. stored bytes_after (mapped_at u.logical_to_physical b)) recovered_after
      ∙ apply_all-replay bytes_after new events (apply_records log (applied_flags log) fresh) b
          (AllTell-appended meta t.pending_records events bs d.represented)
      ∙ ap (replay b events) (
          unfold recovered_table in
          stored-append bs (encode_all t.pending_records)
            (mapped_at (recovered_table log fresh).logical_to_physical b)
            (recovered_table-Within meta bs log d.scanned b))

  pub sizes_after :
      (recovered_table (log ++ new) fresh).logical_size
      ≡ replay_size events (recovered_table log fresh).logical_size
  unfolding recovered_table
  sizes_after =
      ap (λ u. u.logical_size) recovered_after
      ∙ apply_all-replay_size bytes_after new events (apply_records log (applied_flags log) fresh)
          (AllTell-appended meta t.pending_records events bs d.represented)

module _ {S : Storage} {Holds : S.State → List ℕ → Type 0} {F : Type 0}
    (lawful : IsLawful S Holds F) (meta : MetadataBlock) where
  -- A successful `Sync` leaves a mapper whose file is all in the storage.
  pub Flushed-Durable :
      {bs : List ℕ} {t : Table} {l : ℕ} {m : MapperOf S}
      → Durable meta bs t l
      → Flushed lawful bs t m
      → Durable meta (bs ++ encode_all t.pending_records) m.table l
  unfolding replay replay_size
  Flushed-Durable {bs} {t} {l} {m} d f = record {
    log = d.log ++ new meta d;
    scanned = Scans-after meta d;
    all_bytes =
        all_bytes-appended meta t.pending_records d.events bs d.log d.represented d.all_bytes;
    closed = Closed-after meta d;
    events = [];
    represented = subst (λ rs. AllRepresent meta rs []) (sym f.flushed) tt;
    agree = λ b. f.blocks b ∙ d.agree b ∙ sym (replayed_after meta d b);
    logged = sizes_after meta d ∙ d.logged;
    sizes = ap ceil_blocks f.sized ∙ d.sizes;
  }

pending-apply_block :
    (z : ℤ) (off : ℕ) (k : Option ℕ) (t : Table)
    → (apply_block z off k t).pending_records ≡ t.pending_records
pending-apply_block (pos c) off k t = refl
pending-apply_block (negsuc zero) off none t = refl
pending-apply_block (negsuc zero) off (some n) t = refl
pending-apply_block (negsuc (suc _)) off k t = refl

pending-apply_records :
    (rs : List RecoveredRecord) (fs : List Bool) (t : Table)
    → (apply_records rs fs t).pending_records ≡ t.pending_records
unfolding apply_records apply_record
pending-apply_records [] fs t = refl
pending-apply_records (r ∷ rs) [] t = refl
pending-apply_records (r ∷ rs) (true ∷ fs) t =
    pending-apply_records rs fs (apply_record r t)
    ∙ pending-apply_block r.block_index r.offset r.new_size t
pending-apply_records (r ∷ rs) (false ∷ fs) t = pending-apply_records rs fs t

pub pending-recovered_table :
    (rs : List RecoveredRecord) → (recovered_table rs fresh).pending_records ≡ []
unfolding recovered_table
pending-recovered_table rs = pending-apply_records rs (applied_flags rs) fresh

-- A recovered table shows what its mapping points at.
pub block_at-recovered_table :
    (bs : List ℕ) (rs : List RecoveredRecord) (b : ℕ)
    → block_at bs (recovered_table rs fresh) b
      ≡ stored bs (mapped_at (recovered_table rs fresh).logical_to_physical b)
unfolding block_at last_record
block_at-recovered_table bs rs b =
    ap (λ o. or_else o (stored bs (mapped_at (recovered_table rs fresh).logical_to_physical b)))
      (find_pending-eq-last_record (pos b) (recovered_table rs fresh)
        ∙ ap (last_record (pos b)) (pending-recovered_table rs))

pub recovered_table-IsValid :
    (meta : MetadataBlock) (bs : List ℕ) (rs : List RecoveredRecord)
    → Scans meta bs 0 rs
    → IsValid bs (recovered_table rs fresh)
recovered_table-IsValid meta bs rs h = record {
  inited = unfold recovered_table in refl;
  full = subst AllFull (sym (pending-recovered_table rs)) tt;
  within = recovered_table-Within meta bs rs h;
}

-- The recovery of a closed log of whole records gives a durable mapper.
pub recovered_table-Durable :
    (meta : MetadataBlock) (bs : List ℕ) (rs : List RecoveredRecord)
    → Scans meta bs 0 rs
    → length bs ≡ length rs * 4105
    → Closed rs
    → Durable meta bs (recovered_table rs fresh) (recovered_table rs fresh).logical_size
unfolding replay replay_size
recovered_table-Durable meta bs rs h e c = record {
  log = rs;
  scanned = h;
  all_bytes = e;
  closed = c;
  events = [];
  represented = subst (λ ps. AllRepresent meta ps []) (sym (pending-recovered_table rs)) tt;
  agree = λ b. block_at-recovered_table bs rs b;
  logged = refl;
  sizes = refl;
}

no_events :
    (meta : MetadataBlock) (rs : List PendingRecord) (es : List Event)
    → rs ≡ []
    → AllRepresent meta rs es
    → es ≡ []
no_events meta rs [] e h = refl
no_events meta rs (x ∷ es) e h = absurd (subst (λ ps. AllRepresent meta ps (x ∷ es)) e h)

-- What a mapper `m` shows over `bs` is what the table `t` showed, with the size `l`.
pub record Reopened {State : Type 0} (Holds : State → List ℕ → Type 0) (meta : MetadataBlock)
    (bs : List ℕ) (t : Table) (l : ℕ) (m : Mapper State) : Type 0 where
  pub holds : Holds m.storage bs
  pub valid : IsValid bs m.table
  pub durable : Durable meta bs m.table l
  pub bytes : (j : ℕ) → file_byte bs m.table j ≡ file_byte bs t j
  pub sized : m.table.logical_size ≡ l

module _ {S : Storage} {Holds : S.State → List ℕ → Type 0} {F : Type 0}
    (lawful : IsLawful S Holds F) (meta : MetadataBlock) where
  module _ {bs : List ℕ} {t : Table} {l : ℕ} (d : Durable meta bs t l)
      (synced : t.pending_records ≡ []) where
    open d use {log}

    pub block_at-reopened : (b : ℕ) → block_at bs (recovered_table log fresh) b ≡ block_at bs t b
    unfolding replay
    block_at-reopened b =
        block_at-recovered_table bs log b
        ∙ sym (
            d.agree b
            ∙ ap
                (λ es.
                  replay b es
                    (stored bs (mapped_at (recovered_table log fresh).logical_to_physical b)))
                (no_events meta t.pending_records d.events synced d.represented))

    pub size-reopened : (recovered_table log fresh).logical_size ≡ l
    unfolding replay_size
    size-reopened =
        sym (
          ap (λ es. replay_size es (recovered_table log fresh).logical_size)
            (no_events meta t.pending_records d.events synced d.represented))
        ∙ d.logged

    recovered-Reopened :
        (m : MapperOf S) → At Holds bs (recovered_table log fresh) m → Reopened Holds meta bs t l m
    unfolding file_byte
    recovered-Reopened m a = record {
      holds = a.holds;
      valid = subst (IsValid bs) (sym a.same) (recovered_table-IsValid meta bs log d.scanned);
      durable =
          subst (λ u. Durable meta bs u l) (sym a.same)
            (subst (Durable meta bs (recovered_table log fresh)) size-reopened
              (recovered_table-Durable meta bs log d.scanned d.all_bytes d.closed));
      bytes = λ j.
          ap (λ u. get_or (or_zeros (block_at bs u (j / 4096))) (j % 4096) 0) a.same
          ∙ ap (λ o. get_or (or_zeros o) (j % 4096) 0) (block_at-reopened (j / 4096));
      sized = ap (λ u. u.logical_size) a.same ∙ size-reopened;
    }

    -- Where the storage holds what a durable mapper without pending records was over, `Init` of a
    -- new mapper leaves the storage as it is and shows the same logical file, with the size that
    -- the log says, in a valid and durable mapper. Only a fault of the storage can make it
    -- fail.
    pub init-Reopened :
        (s : S.State)
        → Holds s bs
        → Returns
            (λ _ m'. Reopened Holds meta bs t l m')
            (Fault lawful bs fresh)
            (init meta S (record { storage = s; table = fresh }))
    init-Reopened s h =
        Returns-weaken
          (init_lem lawful meta log d.scanned d.all_bytes (record { holds = h; same = refl }) refl)
          (λ _ m' a. recovered-Reopened m' a) (λ m' x. x)
