-- ===== src/Compactor/Recovered.antt =====
-- What the recovery makes of a compacted log.
use sqlite_on_gcs_rapid.Base.{
  ℕ, zero, suc, ◌+◌, ◌*◌, ◌/◌, ◌%◌, ◌≤◌, ◌≡◌, refl, sym, ap, ◌∙◌, inl, inr, List, [], ◌∷◌, ◌++◌,
  append_assoc, append-nil, Option, none, some, false, Bool-cases, pos, ◌==◌, ltb, leb, ◌&&◌,
  if◌then◌else◌, get_or, get_or-tabulate, get_or-replicate, length-tabulate, subst, arith,
}
use sqlite_on_gcs_rapid.Status.Returns.{Returns, Returns-weaken}
use sqlite_on_gcs_rapid.Storage.{Storage, IsLawful}
use sqlite_on_gcs_rapid.Record.{max_blocks, max_size, encode_record}
use sqlite_on_gcs_rapid.Table.{MetadataBlock, Table, fresh, mapped_at, is_block_mapped, ceil_blocks}
use sqlite_on_gcs_rapid.View.{stored, block_at, or_zeros, file_byte, file_bytes}
use sqlite_on_gcs_rapid.Recovery.{recovered_table, apply_records, init}
use sqlite_on_gcs_rapid.Recovery.Replay.{Event, put, replay, replay_size, replay_size-append}
use sqlite_on_gcs_rapid.Durability.{Durable}
use sqlite_on_gcs_rapid.Durability.Restart.{
  block_at-recovered_table, pending-recovered_table, recovered_table-Durable, init-Reopened,
}
use sqlite_on_gcs_rapid.Session.Refinement.{Represents}
use sqlite_on_gcs_rapid.Compactor.Outputs.{compacted}
use sqlite_on_gcs_rapid.Compactor.Commits.{Recovers, Recovers-append}

-- The event of block `b`, if it is mapped.
abbrev put_block_event : List ℕ → Table → ℕ → List Event
put_block_event bs t b =
    if is_block_mapped t (pos b) then put b (file_bytes bs t (b * 4096) 4096) ∷ [] else []

-- The events of `rounds` blocks from `b` on.
unfoldable pub puts : List ℕ → Table → ℕ → ℕ → List Event
puts bs t zero b = []
puts bs t (suc rounds) b = put_block_event bs t b ++ puts bs t rounds (b + 1)

-- The end of the last mapped block below `rounds`.
unfoldable pub compacted_size : Table → ℕ → ℕ
compacted_size t zero = 0
compacted_size t (suc c) =
    let below = compacted_size t c in if is_block_mapped t (pos c) then (c + 1) * 4096 else below

module _ (bs : List ℕ) (t : Table) where
  abbrev block : ℕ → List ℕ
  block b = file_bytes bs t (b * 4096) 4096

  Recovers-compacted :
      (meta : MetadataBlock) (rounds b : ℕ) (out : List ℕ) (es : List Event)
      → b + rounds ≤ max_blocks
      → Recovers meta out es
      → Recovers meta (out ++ compacted bs t rounds b) (es ++ puts bs t rounds b)
  unfolding compacted puts
  Recovers-compacted meta zero b out es h r =
      subst (λ x. Recovers meta x (es ++ [])) (sym (append-nil out))
        (subst (Recovers meta out) (sym (append-nil es)) r)
  Recovers-compacted meta (suc rounds) b out es h r =
      elim (Bool-cases (is_block_mapped t (pos b))) [
        | inl e ↦ rw e (
            subst (λ x. Recovers meta x (es ++ put b (block b) ∷ puts bs t rounds (b + 1)))
              (append_assoc out (encode_record (pos b) (block b) 1) (compacted bs t rounds (b + 1)))
              (subst
                (Recovers meta
                  ((out ++ encode_record (pos b) (block b) 1) ++ compacted bs t rounds (b + 1)))
                (append_assoc es (put b (block b) ∷ []) (puts bs t rounds (b + 1)))
                (Recovers-compacted meta rounds (b + 1) (out ++ encode_record (pos b) (block b) 1)
                  (es ++ put b (block b) ∷ []) (omega arith)
                  (Recovers-append meta out es b (block b) (omega arith)
                    (length-tabulate (file_byte bs t) (b * 4096) 4096) r))))
        | inr e ↦ rw e (Recovers-compacted meta rounds (b + 1) out es (omega arith) r)
      ]

  replay-puts :
      (c rounds b : ℕ) (o : Option (List ℕ))
      → replay c (puts bs t rounds b) o ≡ (
          if leb b c && (ltb c (b + rounds) && is_block_mapped t (pos c))
          then some (file_bytes bs t (c * 4096) 4096)
          else o)
  unfolding replay puts
  replay-puts c zero b o = ground arith
  replay-puts c (suc rounds) b o = elim (Bool-cases (is_block_mapped t (pos b))) [
    | inl e ↦
        rw e (replay-puts c rounds (b + 1) (if b == c then some (block b) else o) ∙ grind arith)
    | inr e ↦ rw e (replay-puts c rounds (b + 1) o ∙ grind arith)
  ]

  puts-snoc :
      (rounds b : ℕ)
      → puts bs t (suc rounds) b ≡ puts bs t rounds b ++ put_block_event bs t (b + rounds)
  unfolding puts
  puts-snoc zero b = append-nil (put_block_event bs t b) ∙ ap (put_block_event bs t) (omega arith)
  puts-snoc (suc rounds) b =
      ap (λ x. put_block_event bs t b ++ x) (puts-snoc rounds (b + 1))
      ∙ ap (λ k. put_block_event bs t b ++ (puts bs t rounds (b + 1) ++ put_block_event bs t k))
          {x = b + 1 + rounds} {y = b + suc rounds} (omega arith)
      ∙ sym (
          append_assoc (put_block_event bs t b) (puts bs t rounds (b + 1))
            (put_block_event bs t (b + suc rounds)))

  pub compacted_size-le : (rounds : ℕ) → compacted_size t rounds ≤ rounds * 4096
  unfolding compacted_size
  compacted_size-le zero = omega arith
  compacted_size-le (suc c) = ground (arith, compacted_size-le c)

  replay_size-puts : (rounds : ℕ) → replay_size (puts bs t rounds 0) 0 ≡ compacted_size t rounds
  unfolding compacted_size replay_size puts
  replay_size-puts zero = refl
  replay_size-puts (suc c) =
      ap (λ es. replay_size es 0) (puts-snoc c 0)
      ∙ ap (λ k. replay_size (puts bs t c 0 ++ put_block_event bs t k) 0) {x = 0 + c} {y = c}
          (omega arith)
      ∙ replay_size-append (puts bs t c 0) (put_block_event bs t c) 0
      ∙ ap (replay_size (put_block_event bs t c)) (replay_size-puts c)
      ∙ ground (arith, compacted_size-le c)

  unmapped-block_at : (b : ℕ) → is_block_mapped t (pos b) ≡ false → block_at bs t b ≡ none
  unfolding is_block_mapped block_at stored
  unmapped-block_at b h = ground arith

  -- The logical file, up to the last block that the size reaches.
  abbrev pub shown : ℕ → ℕ
  shown j = if ltb (j / 4096) (ceil_blocks t.logical_size) then file_byte bs t j else 0

  unmapped-file_byte : (j : ℕ) → is_block_mapped t (pos (j / 4096)) ≡ false → file_byte bs t j ≡ 0
  unfolding file_byte or_zeros
  unmapped-file_byte j h =
      ap (λ o. get_or (or_zeros o) (j % 4096) 0) (unmapped-block_at (j / 4096) h)
      ∙ get_or-replicate 4096 0 (j % 4096)

  byte-replay :
      (j : ℕ)
      → get_or
          (or_zeros (replay (j / 4096) (puts bs t (ceil_blocks t.logical_size) 0) none))
          (j % 4096)
          0
        ≡ shown j
  unfolding or_zeros
  byte-replay j =
      ap (λ o. get_or (or_zeros o) (j % 4096) 0)
        (replay-puts (j / 4096) (ceil_blocks t.logical_size) 0 none)
      ∙ elim (Bool-cases (is_block_mapped t (pos (j / 4096)))) [
        | inl e ↦
            let inside : get_or (block (j / 4096)) (j % 4096) 0 ≡ file_byte bs t j =
              get_or-tabulate (file_byte bs t) (j / 4096 * 4096) 4096 (j % 4096) 0 (omega arith)
              ∙ ap (file_byte bs t) {x = j / 4096 * 4096 + j % 4096} {y = j} (omega arith) in
            rw e (grind (arith, get_or-replicate {A = ℕ} 4096 0 (j % 4096)))
        | inr e ↦
            rw e (grind (arith, unmapped-file_byte j e, get_or-replicate {A = ℕ} 4096 0 (j % 4096)))
      ]

  Recovers-nil : (meta : MetadataBlock) → Recovers meta [] []
  unfolding recovered_table apply_records stored mapped_at get_or replay replay_size
  Recovers-nil meta = record {
    log = [];
    scanned = tt;
    all_bytes = refl;
    closed = tt;
    blocks = λ c. refl;
    sized = refl;
  }

module _ {S : Storage} {Holds : S.State → List ℕ → Type 0} {F : Type 0}
    (lawful : IsLawful S Holds F) (meta : MetadataBlock) where
  -- Let a storage hold what a compaction writes of a table within the largest size. `Init` of a new
  -- mapper on it shows the same logical file in every block that the old size reaches, zeros behind
  -- them, and the end of the last mapped block as the size. Only a fault of the storage can make it
  -- fail.
  pub compacted-Represents :
      (bs : List ℕ) (t : Table) (s : S.State)
      → t.logical_size ≤ max_size
      → Holds s (compacted bs t (ceil_blocks t.logical_size) 0)
      → Returns
          (λ _ m'.
            Represents Holds meta
              (shown bs t)
              (compacted_size t (ceil_blocks t.logical_size))
              (compacted_size t (ceil_blocks t.logical_size))
              m')
          (λ _. F)
          (init meta S (record { storage = s; table = fresh }))
  unfolding file_byte
  compacted-Represents bs t s h k =
      Returns-weaken
        (init-Reopened lawful meta
          (recovered_table-Durable meta out r.log r.scanned r.all_bytes r.closed)
          (pending-recovered_table r.log) s k)
        (λ _ m' w. record {
          bytes_held = out;
          holds = w.holds;
          valid = w.valid;
          durable = subst (Durable meta out m'.table) size w.durable;
          shows = λ j.
              w.bytes j
              ∙ ap (λ o. get_or (or_zeros o) (j % 4096) 0)
                  (block_at-recovered_table out r.log (j / 4096) ∙ r.blocks (j / 4096))
              ∙ byte-replay bs t j;
          sized = w.sized ∙ size;
        })
        (λ _ x. x.0)
    where
      out : List ℕ
      out = compacted bs t (ceil_blocks t.logical_size) 0

      r : Recovers meta out (puts bs t (ceil_blocks t.logical_size) 0)
      r =
          Recovers-compacted bs t meta (ceil_blocks t.logical_size) 0 [] [] (omega arith)
            (Recovers-nil bs t meta)

      size :
          (recovered_table r.log fresh).logical_size ≡ compacted_size t (ceil_blocks t.logical_size)
      size = r.sized ∙ replay_size-puts bs t (ceil_blocks t.logical_size)
