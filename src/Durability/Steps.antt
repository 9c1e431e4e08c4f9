-- ===== src/Durability/Steps.antt =====
-- `Write` and `Truncate`, and what a restart needs.
use sqlite_on_gcs_rapid.Base.{
  ℕ, ◌+◌, ◌-◌, ◌*◌, ◌/◌, max, ◌≤◌, ◌<◌, ◌≡◌, refl, sym, ap, ◌∙◌, List, [], ◌∷◌, ◌++◌, Option, none,
  some, pos, negsuc, ltb, ltb_ℤ, ◌==◌, if◌then◌else◌, length, subst, le→ltb, Bool-cases, inl, inr,
  arith,
}
use sqlite_on_gcs_rapid.Status.Returns.{Returns, Returns-weaken}
use sqlite_on_gcs_rapid.Storage.{Storage, IsLawful}
use sqlite_on_gcs_rapid.Record.{max_blocks, max_size}
use sqlite_on_gcs_rapid.Table.{
  MetadataBlock, PendingRecord, Table, fresh, mapped_at, ceil_blocks, push_pending, prune,
  find_pending, truncate_table,
}
use sqlite_on_gcs_rapid.View.{stored, block_at, file_byte, IsValid, At}
use sqlite_on_gcs_rapid.Mapper.{Mapper, MapperOf, write}
use sqlite_on_gcs_rapid.Mapper.Writes.{block_at-push_pending, overlay, Stopped, write_lem}
use sqlite_on_gcs_rapid.Mapper.Truncates.{cut_record, block_at-truncate_table}
use sqlite_on_gcs_rapid.Recovery.{RecoveredRecord, recovered_table, or_corrupt}
use sqlite_on_gcs_rapid.Recovery.Metadata.{
  IsFaithful, length-truncate_payload, parse_metadata-encode_record,
}
use sqlite_on_gcs_rapid.Recovery.Scans.{Scans}
use sqlite_on_gcs_rapid.Recovery.Flags.{Closed}
use sqlite_on_gcs_rapid.Recovery.Replay.{
  Event, put, cut, replay, replay_size, replay-append, replay_size-append,
}
use sqlite_on_gcs_rapid.Durability.{Represents, AllRepresent, Durable}

module _ (meta : MetadataBlock) where
  AllRepresent-append :
      (rs ss : List PendingRecord) (es fs : List Event)
      → AllRepresent meta rs es
      → AllRepresent meta ss fs
      → AllRepresent meta (rs ++ ss) (es ++ fs)
  AllRepresent-append [] ss [] fs h k = k
  AllRepresent-append [] ss (e ∷ es) fs h k = absurd h
  AllRepresent-append (r ∷ rs) ss [] fs h k = absurd h
  AllRepresent-append (r ∷ rs) ss (e ∷ es) fs h k = (h.0, AllRepresent-append rs ss es fs h.1 k)

  -- The events of the records that a truncation keeps.
  abbrev prune_events : ℕ → List Event → List Event
  prune_events c [] = []
  prune_events c (put b d ∷ es) =
      let rest = prune_events c es in if ltb b c then put b d ∷ rest else rest
  prune_events c (cut n ∷ es) = cut n ∷ prune_events c es

  AllRepresent-prune :
      (c : ℕ) (rs : List PendingRecord) (es : List Event)
      → AllRepresent meta rs es
      → AllRepresent meta (prune c rs) (prune_events c es)
  unfolding prune
  AllRepresent-prune c [] [] h = tt
  AllRepresent-prune c [] (e ∷ es) h = absurd h
  AllRepresent-prune c (r ∷ rs) [] h = absurd h
  AllRepresent-prune c (r ∷ rs) (put b d ∷ es) h =
      let e : ltb_ℤ r.block_index (pos c) ≡ ltb b c = ap (λ z. ltb_ℤ z (pos c)) h.0.0 in
      elim (Bool-cases (ltb b c)) [
        | inl l ↦ rw (e ∙ l, l) (h.0, AllRepresent-prune c rs es h.1)
        | inr l ↦ rw (e ∙ l, l) (AllRepresent-prune c rs es h.1)
      ]
  AllRepresent-prune c (r ∷ rs) (cut n ∷ es) h =
      rw (ap (λ z. ltb_ℤ z (pos c)) h.0.0) (h.0, AllRepresent-prune c rs es h.1)

  -- Below the cut the pruned events do not matter.
  replay-prune :
      (b c : ℕ) (es : List Event) (o : Option (List ℕ))
      → b < c
      → replay b (prune_events c es) o ≡ replay b es o
  unfolding replay
  replay-prune b c [] o h = refl
  replay-prune b c (put k d ∷ es) o h = elim (Bool-cases (ltb k c)) [
    | inl l ↦ rw l (replay-prune b c es (if k == b then some d else o) h)
    | inr l ↦ rw l (replay-prune b c es o h ∙ ap (replay b es) (ground arith))
  ]
  replay-prune b c (cut n ∷ es) o h =
      replay-prune b c es (if ltb b (ceil_blocks n) then o else none) h

  -- `u` is a table in the middle of a write that began at block `start`, with the blocks below `b`
  -- appended.
  record Writing (bs : List ℕ) (start l : ℕ) (u : Table) (b : ℕ) : Type 0 where
    log : List RecoveredRecord
    scanned : Scans meta bs 0 log
    all_bytes : length bs ≡ length log * 4105
    closed : Closed log
    events : List Event
    represented : AllRepresent meta u.pending_records events
    agree :
        (k : ℕ)
        → block_at bs u k
          ≡ replay k events
              (stored bs (mapped_at (recovered_table log fresh).logical_to_physical k))
    begun : start ≤ b
    logged :
        replay_size events (recovered_table log fresh).logical_size
        ≡ max l (if ltb start b then b * 4096 else 0)
    sizes : ceil_blocks u.logical_size ≡ ceil_blocks l

  push-Writing :
      (bs : List ℕ) (start l : ℕ) (u : Table) (b : ℕ) (d : List ℕ)
      → b < max_blocks
      → length d ≡ 4096
      → Writing bs start l u b
      → Writing bs start l (push_pending (record { block_index = pos b; payload = d }) u) (b + 1)
  unfolding replay replay_size
  push-Writing bs start l u b d small whole w = record {
    log = w.log;
    scanned = w.scanned;
    all_bytes = w.all_bytes;
    closed = w.closed;
    events = w.events ++ put b d ∷ [];
    represented =
        AllRepresent-append u.pending_records (record { block_index = pos b; payload = d } ∷ [])
          w.events (put b d ∷ []) w.represented ((refl, refl, small, whole), tt);
    agree = λ k.
        block_at-push_pending bs u b d k
        ∙ ap (λ o. if b == k then some d else o) (w.agree k)
        ∙ sym (
            replay-append k w.events (put b d ∷ [])
              (stored bs (mapped_at (recovered_table w.log fresh).logical_to_physical k)));
    begun = omega (arith, w.begun);
    logged =
        replay_size-append w.events (put b d ∷ []) (recovered_table w.log fresh).logical_size
        ∙ ground (arith, w.logged, w.begun);
    sizes = w.sizes;
  }

  Durable-Writing :
      (bs : List ℕ) (start l : ℕ) (t : Table) → Durable meta bs t l → Writing bs start l t start
  Durable-Writing bs start l t d = record {
    log = d.log;
    scanned = d.scanned;
    all_bytes = d.all_bytes;
    closed = d.closed;
    events = d.events;
    represented = d.represented;
    agree = d.agree;
    begun = omega arith;
    logged = ground (arith, d.logged);
    sizes = d.sizes;
  }

  -- The end of a write of `n` bytes from `off` on.
  Writing-Durable :
      (bs : List ℕ) (off n l : ℕ) (u : Table)
      → 0 < n
      → Writing bs (off / 4096) l u ((off + n - 1) / 4096 + 1)
      → Durable meta bs
          (record u { logical_size = max u.logical_size (off + n) })
          (max l (ceil_blocks (off + n) * 4096))
  unfolding block_at find_pending
  Writing-Durable bs off n l u h w = record {
    log = w.log;
    scanned = w.scanned;
    all_bytes = w.all_bytes;
    closed = w.closed;
    events = w.events;
    represented = w.represented;
    agree = w.agree;
    logged = w.logged ∙ ground arith;
    sizes = ground (arith, w.sizes);
  }

  prune-append :
      (c : ℕ) (rs : List PendingRecord) (text : List ℕ)
      → prune c (rs ++ cut_record text ∷ []) ≡ prune c rs ++ cut_record text ∷ []
  unfolding prune
  prune-append c [] text = refl
  prune-append c (r ∷ rs) text = elim (Bool-cases (ltb_ℤ r.block_index (pos c))) [
    | inl l ↦ rw l (ap (λ x. r ∷ x) (prune-append c rs text))
    | inr l ↦ rw l (prune-append c rs text)
  ]

  cut_record-Represents :
      (faithful : IsFaithful meta) (n : ℕ)
      → n ≤ max_size
      → Represents meta (cut_record (faithful.text n)) (cut n)
  cut_record-Represents faithful n h = (
    refl,
    λ s.
        parse_metadata-encode_record (negsuc 0) (faithful.text n) s (faithful.fits n h) meta
        ∙ ap or_corrupt (faithful.parse_lem n h)
        ∙ rw (le→ltb max_size n h),
    length-truncate_payload (faithful.text n) (faithful.fits n h),
  )

  -- A truncation keeps the mapper durable.
  pub truncate_table-Durable :
      (faithful : IsFaithful meta) (bs : List ℕ) (t : Table) (n l : ℕ)
      → n ≤ max_size
      → Durable meta bs t l
      → Durable meta bs (truncate_table n (cut_record (faithful.text n)) t) n
  unfolding truncate_table replay replay_size
  truncate_table-Durable faithful bs t n l h d = record {
    log = d.log;
    scanned = d.scanned;
    all_bytes = d.all_bytes;
    closed = d.closed;
    events = prune_events (ceil_blocks n) d.events ++ cut n ∷ [];
    represented =
        subst (λ rs. AllRepresent meta rs (prune_events (ceil_blocks n) d.events ++ cut n ∷ []))
          (sym (prune-append (ceil_blocks n) t.pending_records (faithful.text n)))
          (AllRepresent-append (prune (ceil_blocks n) t.pending_records)
            (cut_record (faithful.text n) ∷ []) (prune_events (ceil_blocks n) d.events) (cut n ∷ [])
            (AllRepresent-prune (ceil_blocks n) t.pending_records d.events d.represented)
            (cut_record-Represents faithful n h, tt));
    agree = λ b.
        unfold truncate_table in
        block_at-truncate_table bs t n (faithful.text n) b
        ∙ kept b
        ∙ sym (replay-append b (prune_events (ceil_blocks n) d.events) (cut n ∷ []) (base b));
    logged =
        replay_size-append (prune_events (ceil_blocks n) d.events) (cut n ∷ [])
          (recovered_table d.log fresh).logical_size;
    sizes = refl;
  }
    where
      base : ℕ → Option (List ℕ)
      base b = stored bs (mapped_at (recovered_table d.log fresh).logical_to_physical b)

      kept :
          (b : ℕ)
          → (if ltb b (ceil_blocks n) then block_at bs t b else none) ≡ (
              if ltb b (ceil_blocks n)
              then replay b (prune_events (ceil_blocks n) d.events) (base b)
              else none)
      kept b = ground (arith, d.agree b, replay-prune b (ceil_blocks n) d.events (base b))

  -- What a successful write of at least one byte leaves.
  pub record Wrote {State : Type 0} (Holds : State → List ℕ → Type 0) (bs : List ℕ) (t : Table)
      (buf : List ℕ) (off l : ℕ) (m : Mapper State) : Type 0 where
    pub holds : Holds m.storage bs
    pub valid : IsValid bs m.table
    pub durable : Durable meta bs m.table (max l (ceil_blocks (off + length buf) * 4096))
    pub bytes : (j : ℕ) → file_byte bs m.table j ≡ overlay buf off (file_byte bs t) j
    pub sized : m.table.logical_size ≡ max t.logical_size (off + length buf)

  -- On a valid and durable mapper over a lawful storage, `Write` of at least one byte within the
  -- bounds overlays these bytes on the logical file and leaves all others. The size becomes the
  -- greater of the old one and the end of the write, the storage keeps its bytes, and the mapper
  -- stays valid and durable, where the log says that the size is the greater of what it said and the
  -- end of the last block written. Only a fault of the storage can make it fail; the storage keeps its
  -- bytes then, and the mapper is valid.
  pub write-Wrote :
      {S : Storage} {Holds : S.State → List ℕ → Type 0} {F : Type 0} (lawful : IsLawful S Holds F)
      (buf : List ℕ) (off : ℕ) {bs : List ℕ} {t : Table} {l : ℕ} {m : MapperOf S}
      → IsValid bs t
      → Durable meta bs t l
      → At Holds bs t m
      → 0 < length buf
      → off + length buf ≤ max_size
      → Returns
          (λ _ m'. Wrote Holds bs t buf off l m')
          (Stopped lawful buf off bs t.logical_size)
          (write S buf (pos off) m)
  write-Wrote lawful buf off {bs} {t} {l} {m} v d a some_bytes small =
      Returns-weaken
        (write_lem lawful buf off bs (Writing bs (off / 4096) l) (push-Writing bs (off / 4096) l) v
          a (Durable-Writing bs (off / 4096) l t d) some_bytes small)
        (λ _ m' w. record {
          holds = w.holds;
          valid = w.valid;
          durable =
              subst (λ u. Durable meta bs u (max l (ceil_blocks (off + length buf) * 4096)))
                (sym (
                  w.grown
                  ∙ ap (λ n. record w.before { logical_size = max n (off + length buf) })
                      (sym w.before_sized)))
                (Writing-Durable bs off (length buf) l w.before some_bytes w.kept);
          bytes = w.bytes;
          sized = w.sized;
        })
        (λ m' x. x)
