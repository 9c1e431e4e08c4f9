-- ===== src/Durability/Aborts.antt =====
-- A restart after a crash while `Sync` appends: the pending records count all together or not at all.
use sqlite_on_gcs_rapid.Base.{
  ℕ, ◌+◌, ◌*◌, ◌/◌, ◌%◌, ◌<◌, ◌≡◌, refl, sym, ap, ◌∙◌, List, [], ◌∷◌, ◌++◌, append_assoc,
  append-nil, length, take, replicate, length-append, length-take, get_or, subst, arith,
}
use sqlite_on_gcs_rapid.Status.Returns.{Returns, Returns-weaken}
use sqlite_on_gcs_rapid.Storage.{Storage, IsLawful}
use sqlite_on_gcs_rapid.Table.{MetadataBlock, PendingRecord, Table, fresh, mapped_at}
use sqlite_on_gcs_rapid.View.{stored, block_at, or_zeros, file_byte, IsValid, At}
use sqlite_on_gcs_rapid.Mapper.{Mapper, MapperOf}
use sqlite_on_gcs_rapid.Mapper.Syncs.{encode_all, stored-append}
use sqlite_on_gcs_rapid.Recovery.{RecoveredRecord, recovered_table, init}
use sqlite_on_gcs_rapid.Recovery.Scans.{Scans, Scans-append, Scans-more, recovered_table-Within}
use sqlite_on_gcs_rapid.Recovery.Replay.{Event, apply_all}
use sqlite_on_gcs_rapid.Recovery.Flags.{Closed}
use sqlite_on_gcs_rapid.Recovery.Orphans.{
  Uncommitted, recovered_table-Uncommitted, recovered_table-aborted,
}
use sqlite_on_gcs_rapid.Recovery.Inits.{init_lem}
use sqlite_on_gcs_rapid.Recovery.Fills.{fill, filled_init_lem}
use sqlite_on_gcs_rapid.Durability.{AllRepresent, Durable}
use sqlite_on_gcs_rapid.Durability.Appended.{all_bytes-appended}
use sqlite_on_gcs_rapid.Durability.Crashes.{AtMostPadding, Torn, Torn-take}
use sqlite_on_gcs_rapid.Durability.Restart.{
  new, Scans-after, replayed_after, sizes_after, block_at-recovered_table, block_at-reopened,
  size-reopened, recovered_table-IsValid,
}

-- The mapper `m` is valid and shows, over the bytes of its storage, the file `f` at the size `l`.
pub record Shows {State : Type 0} (Holds : State → List ℕ → Type 0) (f : ℕ → ℕ) (l : ℕ)
    (m : Mapper State) : Type 0 where
  pub bytes_held : List ℕ
  pub holds : Holds m.storage bytes_held
  pub valid : IsValid bytes_held m.table
  pub bytes : (j : ℕ) → file_byte bytes_held m.table j ≡ f j
  pub sized : m.table.logical_size ≡ l

-- Records behind a closed log that do not count.
ignored :
    (log os zs : List RecoveredRecord) (t : Table)
    → Closed log
    → Uncommitted os
    → AtMostPadding zs
    → recovered_table (log ++ (os ++ zs)) t ≡ recovered_table log t
unfolding recovered_table apply_all
ignored log os [] t c u p =
    ap (λ x. recovered_table (log ++ x) t) (append-nil os)
    ∙ recovered_table-Uncommitted log os t c u
ignored log os (z ∷ []) t c u p =
    ap (λ x. recovered_table x t) (sym (append-nil (log ++ (os ++ z ∷ []))))
    ∙ recovered_table-aborted z p log os [] t c u tt
ignored log os (z ∷ (y ∷ zs)) t c u p = absurd p

module _ {S : Storage} {Holds : S.State → List ℕ → Type 0} {F : Type 0}
    (lawful : IsLawful S Holds F) (meta : MetadataBlock) where
  -- A recovered table shows the file whose blocks are where it says.
  Shows-recovered :
      (bs : List ℕ) (log : List RecoveredRecord) (f : ℕ → ℕ) (l : ℕ) (m : MapperOf S)
      → Scans meta bs 0 log
      → ((j : ℕ) → file_byte bs (recovered_table log fresh) j ≡ f j)
      → (recovered_table log fresh).logical_size ≡ l
      → At Holds bs (recovered_table log fresh) m
      → Shows Holds f l m
  Shows-recovered bs log f l m h b e a = record {
    bytes_held = bs;
    holds = a.holds;
    valid = subst (IsValid bs) (sym a.same) (recovered_table-IsValid meta bs log h);
    bytes = λ j. ap (λ u. file_byte bs u j) a.same ∙ b j;
    sized = ap (λ u. u.logical_size) a.same ∙ e;
  }

  -- The storage of a durable mapper without pending records, and a proper prefix of what a `Sync` of
  -- `rs` would append.
  module _ {bs : List ℕ} {t : Table} {l : ℕ} (d : Durable meta bs t l)
      (synced : t.pending_records ≡ []) (rs : List PendingRecord) (es : List Event)
      (h : AllRepresent meta rs es) (k : ℕ) (short : k < length (encode_all rs)) where
    open d use {log}

    abbrev cut : List ℕ
    cut = bs ++ take k (encode_all rs)

    abbrev zeros : List ℕ
    zeros = replicate (fill (length cut)) 0

    cut_length : length cut ≡ length bs + k
    cut_length = omega (
      arith,
      length-append bs (take k (encode_all rs)),
      length-take k (encode_all rs) (omega arith),
    )

    torn : Torn meta bs (take k (encode_all rs) ++ zeros)
    torn =
        Torn-take meta rs es bs k (fill (length cut)) h short
          (omega (arith, cut_length, d.all_bytes)) (omega arith)

    open torn use {orphans, paddings}

    filled : cut ++ zeros ≡ bs ++ (take k (encode_all rs) ++ zeros)
    filled = append_assoc bs (take k (encode_all rs)) zeros

    Scans-torn : Scans meta (cut ++ zeros) 0 (log ++ (orphans ++ paddings))
    Scans-torn =
        subst (λ b. Scans meta b 0 (log ++ (orphans ++ paddings))) (sym filled)
          (Scans-append meta (bs ++ (take k (encode_all rs) ++ zeros)) 0 log (orphans ++ paddings)
            (Scans-more meta bs (take k (encode_all rs) ++ zeros) 0 log d.scanned)
            (subst
              (λ o. Scans meta (bs ++ (take k (encode_all rs) ++ zeros)) o (orphans ++ paddings))
              {x = length bs} {y = 0 + length log * 4105} (omega (arith, d.all_bytes))
              torn.scanned))

    length-torn : length (cut ++ zeros) ≡ length (log ++ (orphans ++ paddings)) * 4105
    length-torn = omega (
      arith,
      ap length filled,
      length-append bs (take k (encode_all rs) ++ zeros),
      torn.whole,
      d.all_bytes,
      length-append log (orphans ++ paddings),
    )

    table-torn : recovered_table (log ++ (orphans ++ paddings)) fresh ≡ recovered_table log fresh
    table-torn = ignored log orphans paddings fresh d.closed torn.uncommitted torn.padded

    block_at-torn :
        (b : ℕ) → block_at (cut ++ zeros) (recovered_table log fresh) b ≡ block_at bs t b
    block_at-torn b =
        block_at-recovered_table (cut ++ zeros) log b
        ∙ ap (λ x. stored x (mapped_at (recovered_table log fresh).logical_to_physical b)) filled
        ∙ stored-append bs (take k (encode_all rs) ++ zeros)
            (mapped_at (recovered_table log fresh).logical_to_physical b)
            (recovered_table-Within meta bs log d.scanned b)
        ∙ sym (block_at-recovered_table bs log b)
        ∙ block_at-reopened lawful meta d synced b

    bytes-torn : (j : ℕ) → file_byte (cut ++ zeros) (recovered_table log fresh) j ≡ file_byte bs t j
    unfolding file_byte
    bytes-torn j = ap (λ o. get_or (or_zeros o) (j % 4096) 0) (block_at-torn (j / 4096))

    -- `Init` over such a storage shows the file as it was without these records.
    pub init-Shows-old :
        (s : S.State)
        → Holds s cut
        → Returns
            (λ _ m'. Shows Holds (file_byte bs t) l m')
            (λ _. F)
            (init meta S (record { storage = s; table = fresh }))
    init-Shows-old s a =
        Returns-weaken
          (filled_init_lem lawful meta (log ++ (orphans ++ paddings)) cut Scans-torn length-torn s
            a)
          (λ _ m' q.
            Shows-recovered (cut ++ zeros) (log ++ (orphans ++ paddings)) (file_byte bs t) l m'
              Scans-torn (λ j. ap (λ u. file_byte (cut ++ zeros) u j) table-torn ∙ bytes-torn j)
              (ap (λ u. u.logical_size) table-torn ∙ size-reopened lawful meta d synced) q)
          (λ _ x. x)

  -- The storage of a durable mapper with all its pending records appended.
  module _ {bs : List ℕ} {t : Table} {l : ℕ} (d : Durable meta bs t l) where
    open d use {log}

    abbrev after : List ℕ
    after = bs ++ encode_all t.pending_records

    bytes-after :
        (j : ℕ) → file_byte after (recovered_table (log ++ new meta d) fresh) j ≡ file_byte bs t j
    unfolding file_byte
    bytes-after j =
        ap (λ o. get_or (or_zeros o) (j % 4096) 0)
          (block_at-recovered_table after (log ++ new meta d) (j / 4096)
            ∙ replayed_after meta d (j / 4096)
            ∙ sym (d.agree (j / 4096)))

    -- `Init` over such a storage shows the file with these records.
    pub init-Shows-new :
        (s : S.State)
        → Holds s after
        → Returns
            (λ _ m'. Shows Holds (file_byte bs t) l m')
            (λ _. F)
            (init meta S (record { storage = s; table = fresh }))
    init-Shows-new s a =
        Returns-weaken
          (init_lem lawful meta (log ++ new meta d) (Scans-after meta d)
            (all_bytes-appended meta t.pending_records d.events bs log d.represented d.all_bytes)
            (record { holds = a; same = refl }) refl)
          (λ _ m' q.
            Shows-recovered after (log ++ new meta d) (file_byte bs t) l m' (Scans-after meta d)
              bytes-after (sizes_after meta d ∙ d.logged) q)
          (λ _ x. x.0)
