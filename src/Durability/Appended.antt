-- ===== src/Durability/Appended.antt =====
-- The records that `Sync` appends, as the recovery reads them.
use sqlite_on_gcs_rapid.Base.{
  ℕ, suc, ◌+◌, ◌*◌, ◌≡◌, refl, sym, ap, ◌∙◌, List, [], ◌∷◌, ◌++◌, append_assoc, Option, none, some,
  true, ◌||◌, ℤ, pos, negsuc, ◌==◌, lt→ltb, length, length-append, slice_middle, slice-append_left,
  slice-append_right, subst, arith,
}
use sqlite_on_gcs_rapid.Status.{ok}
use sqlite_on_gcs_rapid.Record.{max_blocks, decode_int64, encode_record}
use sqlite_on_gcs_rapid.Record.Codec.{InRange, decode_int64-encode_int64, is_good-encode_record}
use sqlite_on_gcs_rapid.Table.{MetadataBlock, PendingRecord}
use sqlite_on_gcs_rapid.Mapper.{sync_record}
use sqlite_on_gcs_rapid.Mapper.Syncs.{encode_all, length-sync_record, payload-sync_record}
use sqlite_on_gcs_rapid.Recovery.{RecoveredRecord, with_size, decode_good, decode_record}
use sqlite_on_gcs_rapid.Recovery.Scans.{Scans}
use sqlite_on_gcs_rapid.Recovery.Replay.{Event, put, cut, Tells, AllTell}
use sqlite_on_gcs_rapid.Recovery.Flags.{Committed}
use sqlite_on_gcs_rapid.Durability.{Represents, AllRepresent}

abbrev pub state_of : List PendingRecord → ℕ
state_of [] = 1
state_of (_ ∷ _) = 2

abbrev pub size_of : Event → Option ℕ
size_of (put _ _) = none
size_of (cut n) = some n

-- What the recovery reads for the pending records, if they are appended at `off`.
abbrev pub appended : ℕ → List PendingRecord → List Event → List RecoveredRecord
appended off [] es = []
appended off (r ∷ rs) [] = []
appended off (r ∷ rs) (e ∷ es) =
    record {
      offset = off;
      block_index = r.block_index;
      is_good = state_of rs;
      new_size = size_of e;
    }
    ∷ appended (off + 4105) rs es

decode_int64-encode_record :
    (z : ℤ) (payload : List ℕ) (s : ℕ) → InRange z → decode_int64 (encode_record z payload s) ≡ z
unfolding encode_record
decode_int64-encode_record z payload s h = decode_int64-encode_int64 z (payload ++ s ∷ []) h

module _ (meta : MetadataBlock) where
  -- A record in state 1 or 2 is decoded by its index.
  decode_record-encode_record :
      (off : ℕ) (z : ℤ) (payload : List ℕ) (s : ℕ)
      → length payload ≡ 4096
      → InRange z
      → ((s == 1) || (s == 2)) ≡ true
      → decode_record meta off (encode_record z payload s)
        ≡ decode_good meta off (encode_record z payload s) s z
  unfolding decode_record
  decode_record-encode_record off z payload s h i g =
      rw (is_good-encode_record z payload s h, g, decode_int64-encode_record z payload s i)

  decode_record-Represents :
      (off : ℕ) (r : PendingRecord) (e : Event) (s : ℕ)
      → Represents meta r e
      → ((s == 1) || (s == 2)) ≡ true
      → decode_record meta off (encode_record r.block_index r.payload s)
        ≡ ok (record {
          offset = off;
          block_index = r.block_index;
          is_good = s;
          new_size = size_of e;
        })
  unfolding decode_good
  decode_record-Represents off r (put c d) s h g =
      subst
        (λ z.
          decode_record meta off (encode_record z r.payload s)
          ≡ ok (record { offset = off; block_index = z; is_good = s; new_size = none }))
        (sym h.0)
        (decode_record-encode_record off (pos c) r.payload s h.3 (omega (arith, h.2)) g
          ∙ rw (lt→ltb c max_blocks h.2))
  decode_record-Represents off r (cut n) s h g =
      subst
        (λ z.
          decode_record meta off (encode_record z r.payload s)
          ≡ ok (record { offset = off; block_index = z; is_good = s; new_size = some n }))
        (sym h.0)
        (decode_record-encode_record off (negsuc 0) r.payload s h.2 (omega arith) g
          ∙ ap (with_size meta off s) (h.1 s))

  pub length-Represents :
      (r : PendingRecord) (e : Event) → Represents meta r e → length r.payload ≡ 4096
  length-Represents r (put c d) h = h.3
  length-Represents r (cut n) h = h.2

  pub decode_sync_record :
      (off : ℕ) (r : PendingRecord) (rs : List PendingRecord) (e : Event)
      → Represents meta r e
      → decode_record meta off (sync_record r rs)
        ≡ ok (record {
          offset = off;
          block_index = r.block_index;
          is_good = state_of rs;
          new_size = size_of e;
        })
  unfolding sync_record
  decode_sync_record off r [] e h = decode_record-Represents off r e 1 h refl
  decode_sync_record off r (x ∷ rs) e h = decode_record-Represents off r e 2 h refl

  Tells-sync_record :
      (bs more : List ℕ) (r : PendingRecord) (rs : List PendingRecord) (e : Event) (s : ℕ)
      → Represents meta r e
      → Tells
          (bs ++ (sync_record r rs ++ more))
          (record {
            offset = length bs;
            block_index = r.block_index;
            is_good = s;
            new_size = size_of e;
          })
          e
  Tells-sync_record bs more r rs (put c d) s h = (
    h.0,
    slice-append_right 8 4096 bs (sync_record r rs ++ more)
        ∙ slice-append_left 8 4096 (sync_record r rs) more
            (omega (arith, length-sync_record r rs h.3))
        ∙ payload-sync_record r rs h.3
        ∙ h.1,
  )
  Tells-sync_record bs more r rs (cut n) s h = (h.0, refl)

  -- The bytes behind the log, in front of the remaining ones.
  pub Scans-appended :
      (rs : List PendingRecord) (es : List Event) (bs : List ℕ)
      → AllRepresent meta rs es
      → Scans meta (bs ++ encode_all rs) (length bs) (appended (length bs) rs es)
  unfolding encode_all
  Scans-appended [] es bs h = tt
  Scans-appended (r ∷ rs) [] bs h = absurd h
  Scans-appended (r ∷ rs) (e ∷ es) bs h = (
    omega (arith, whole, length-append bs (rb ++ encode_all rs), length-append rb (encode_all rs)),
    ap (decode_record meta (length bs))
          (slice_middle (length bs) 4105 bs rb (encode_all rs) refl whole)
        ∙ decode_sync_record (length bs) r rs e h.0,
    subst (λ x. Scans meta x (length bs + 4105) (appended (length bs + 4105) rs es))
        (append_assoc bs rb (encode_all rs))
        (subst (λ o. Scans meta ((bs ++ rb) ++ encode_all rs) o (appended o rs es)) next
          (Scans-appended rs es (bs ++ rb) h.1)),
  )
    where
      rb : List ℕ
      rb = sync_record r rs

      whole : length rb ≡ 4105
      whole = length-sync_record r rs (length-Represents r e h.0)

      next : length (bs ++ rb) ≡ length bs + 4105
      next = omega (arith, length-append bs rb, whole)

  pub AllTell-appended :
      (rs : List PendingRecord) (es : List Event) (bs : List ℕ)
      → AllRepresent meta rs es
      → AllTell (bs ++ encode_all rs) (appended (length bs) rs es) es
  unfolding encode_all
  AllTell-appended [] [] bs h = tt
  AllTell-appended [] (e ∷ es) bs h = absurd h
  AllTell-appended (r ∷ rs) [] bs h = absurd h
  AllTell-appended (r ∷ rs) (e ∷ es) bs h = (
    Tells-sync_record bs (encode_all rs) r rs e (state_of rs) h.0,
    subst (λ x. AllTell x (appended (length bs + 4105) rs es) es)
        (append_assoc bs rb (encode_all rs))
        (subst (λ o. AllTell ((bs ++ rb) ++ encode_all rs) (appended o rs es) es) next
          (AllTell-appended rs es (bs ++ rb) h.1)),
  )
    where
      rb : List ℕ
      rb = sync_record r rs

      next : length (bs ++ rb) ≡ length bs + 4105
      next = omega (arith, length-append bs rb, length-sync_record r rs (length-Represents r e h.0))

  pub Committed-appended :
      (rs : List PendingRecord) (es : List Event) (off : ℕ)
      → AllRepresent meta rs es
      → Committed (appended off rs es)
  Committed-appended [] es off h = tt
  Committed-appended (r ∷ rs) [] off h = absurd h
  Committed-appended (r ∷ []) (e ∷ es) off h = refl
  Committed-appended (r ∷ (x ∷ rs)) (e ∷ []) off h = absurd h.1
  Committed-appended (r ∷ (x ∷ rs)) (e ∷ (f ∷ es)) off h =
      (refl, Committed-appended (x ∷ rs) (f ∷ es) (off + 4105) h.1)

  length-appended :
      (rs : List PendingRecord) (es : List Event) (off : ℕ)
      → AllRepresent meta rs es
      → length (appended off rs es) ≡ length rs
  length-appended [] es off h = refl
  length-appended (r ∷ rs) [] off h = absurd h
  length-appended (r ∷ rs) (e ∷ es) off h = ap suc (length-appended rs es (off + 4105) h.1)

  pub length-encode_all :
      (rs : List PendingRecord) (es : List Event)
      → AllRepresent meta rs es
      → length (encode_all rs) ≡ length rs * 4105
  unfolding encode_all
  length-encode_all [] es h = omega arith
  length-encode_all (r ∷ rs) [] h = absurd h
  length-encode_all (r ∷ rs) (e ∷ es) h = omega (
    arith,
    length-append (sync_record r rs) (encode_all rs),
    length-sync_record r rs (length-Represents r e h.0),
    length-encode_all rs es h.1,
  )

  pub all_bytes-appended :
      (rs : List PendingRecord) (es : List Event) (bs : List ℕ) (log : List RecoveredRecord)
      → AllRepresent meta rs es
      → length bs ≡ length log * 4105
      → length (bs ++ encode_all rs) ≡ length (log ++ appended (length bs) rs es) * 4105
  all_bytes-appended rs es bs log h e = omega (
    arith,
    e,
    length-append bs (encode_all rs),
    length-append log (appended (length bs) rs es),
    length-encode_all rs es h,
    length-appended rs es (length bs) h,
  )
