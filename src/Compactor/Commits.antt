-- ===== src/Compactor/Commits.antt =====
-- Logs that grow by one committed record at a time.
use sqlite_on_gcs_rapid.Base.{
  ℕ, ◌*◌, ◌<◌, ◌≡◌, refl, sym, ap, ◌∙◌, List, [], ◌∷◌, ◌++◌, append-nil, none, pos, length, subst,
  arith,
}
use sqlite_on_gcs_rapid.Record.{max_blocks, encode_record}
use sqlite_on_gcs_rapid.Table.{MetadataBlock, Table, fresh, mapped_at}
use sqlite_on_gcs_rapid.View.{stored, block_at, or_else}
use sqlite_on_gcs_rapid.View.Lookup.{find_pending-eq-last_record, last_record}
use sqlite_on_gcs_rapid.Mapper.{sync_record}
use sqlite_on_gcs_rapid.Mapper.Syncs.{encode_all}
use sqlite_on_gcs_rapid.Recovery.{RecoveredRecord, recovered_table}
use sqlite_on_gcs_rapid.Recovery.Scans.{Scans}
use sqlite_on_gcs_rapid.Recovery.Replay.{
  Event, put, replay, replay_size, replay-append, replay_size-append,
}
use sqlite_on_gcs_rapid.Recovery.Flags.{Closed}
use sqlite_on_gcs_rapid.Durability.{Durable}
use sqlite_on_gcs_rapid.Durability.Appended.{all_bytes-appended}
use sqlite_on_gcs_rapid.Durability.Restart.{
  Scans-after, Closed-after, replayed_after, sizes_after, new,
}

-- The recovery of `out` gives what the events say.
pub record Recovers (meta : MetadataBlock) (out : List ℕ) (es : List Event) : Type 0 where
  pub log : List RecoveredRecord
  pub scanned : Scans meta out 0 log
  pub all_bytes : length out ≡ length log * 4105
  pub closed : Closed log
  pub blocks :
      (c : ℕ)
      → stored out (mapped_at (recovered_table log fresh).logical_to_physical c) ≡ replay c es none
  pub sized : (recovered_table log fresh).logical_size ≡ replay_size es 0

-- The recovered table, with one more block written.
abbrev pending_one : List RecoveredRecord → ℕ → List ℕ → ℕ → Table
pending_one log b d n = record (recovered_table log fresh) {
  pending_records = record { block_index = pos b; payload = d } ∷ [];
  logical_size = n;
}

module _ (meta : MetadataBlock) where
  pending_one-Durable :
      (out : List ℕ) (es : List Event) (r : Recovers meta out es) (b : ℕ) (d : List ℕ)
      → b < max_blocks
      → length d ≡ 4096
      → Durable meta out
          (pending_one r.log b d
            (replay_size (put b d ∷ []) (recovered_table r.log fresh).logical_size))
          (replay_size (put b d ∷ []) (recovered_table r.log fresh).logical_size)
  unfolding block_at replay last_record
  pending_one-Durable out es r b d h k = record {
    log = r.log;
    scanned = r.scanned;
    all_bytes = r.all_bytes;
    closed = r.closed;
    events = put b d ∷ [];
    represented = ((refl, refl, h, k), tt);
    agree = λ c.
        ap
          (λ o.
            or_else o (stored out (mapped_at (recovered_table r.log fresh).logical_to_physical c)))
          (find_pending-eq-last_record (pos c) (
            pending_one r.log b d
              (replay_size (put b d ∷ []) (recovered_table r.log fresh).logical_size)))
        ∙ ground arith;
    logged = refl;
    sizes = refl;
  }

  -- A committed record behind a log adds its event.
  pub Recovers-append :
      (out : List ℕ) (es : List Event) (b : ℕ) (d : List ℕ)
      → b < max_blocks
      → length d ≡ 4096
      → Recovers meta out es
      → Recovers meta (out ++ encode_record (pos b) d 1) (es ++ put b d ∷ [])
  unfolding encode_all sync_record pending_one-Durable
  Recovers-append out es b d h k r =
      subst (λ x. Recovers meta (out ++ x) (es ++ put b d ∷ []))
        {x = encode_all (record { block_index = pos b; payload = d } ∷ [])}
        (append-nil (encode_record (pos b) d 1))
        (record {
          log = r.log ++ new meta durable;
          scanned = Scans-after meta durable;
          all_bytes =
              all_bytes-appended meta (record { block_index = pos b; payload = d } ∷ [])
                (put b d ∷ []) out r.log durable.represented r.all_bytes;
          closed = Closed-after meta durable;
          blocks = λ c.
              replayed_after meta durable c
              ∙ ap (replay c (put b d ∷ [])) (r.blocks c)
              ∙ sym (replay-append c es (put b d ∷ []) none);
          sized =
              sizes_after meta durable
              ∙ ap (replay_size (put b d ∷ [])) r.sized
              ∙ sym (replay_size-append es (put b d ∷ []) 0);
        })
    where
      durable :
          Durable meta out
            (pending_one r.log b d
              (replay_size (put b d ∷ []) (recovered_table r.log fresh).logical_size))
            (replay_size (put b d ∷ []) (recovered_table r.log fresh).logical_size)
      durable = pending_one-Durable out es r b d h k
