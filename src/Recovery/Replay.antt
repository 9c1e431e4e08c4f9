-- ===== src/Recovery/Replay.antt =====
-- The two passes of the recovery: which records count, and what they do to the file.
use sqlite_on_gcs_rapid.Base.{
  ℕ, ◌+◌, ◌*◌, max, ◌≡◌, refl, ap, ap₂, ◌∙◌, List, [], ◌∷◌, ◌++◌, Option, none, some, pos, negsuc,
  ltb, ◌==◌, if◌then◌else◌, slice, arith,
}
use sqlite_on_gcs_rapid.Table.{Table, mapped_at, ceil_blocks}
use sqlite_on_gcs_rapid.View.{stored}
use sqlite_on_gcs_rapid.View.Lookup.{mapped_at-put_mapping, mapped_at-resize}
use sqlite_on_gcs_rapid.Recovery.{RecoveredRecord, apply_record, apply_block}

-- What a record of the log says: block `b` has this payload, or the file ends at this size.
pub data Event : Type 0 where
  put : ℕ → List ℕ → Event
  cut : ℕ → Event

-- The specification of the log. Block `b` after some events, from its content before them.
unfoldable pub replay : ℕ → List Event → Option (List ℕ) → Option (List ℕ)
replay b [] o = o
replay b (put c d ∷ es) o = replay b es (if c == b then some d else o)
replay b (cut n ∷ es) o = replay b es (if ltb b (ceil_blocks n) then o else none)

-- The size after some events. A block counts in full.
unfoldable pub replay_size : List Event → ℕ → ℕ
replay_size [] n = n
replay_size (put c d ∷ es) n = replay_size es (max n ((c + 1) * 4096))
replay_size (cut k ∷ es) n = replay_size es k

pub replay-append :
    (b : ℕ) (es fs : List Event) (o : Option (List ℕ))
    → replay b (es ++ fs) o ≡ replay b fs (replay b es o)
unfolding replay
replay-append b [] fs o = refl
replay-append b (put c d ∷ es) fs o = replay-append b es fs (if c == b then some d else o)
replay-append b (cut n ∷ es) fs o =
    replay-append b es fs (if ltb b (ceil_blocks n) then o else none)

pub replay_size-append :
    (es fs : List Event) (n : ℕ) → replay_size (es ++ fs) n ≡ replay_size fs (replay_size es n)
unfolding replay_size
replay_size-append [] fs n = refl
replay_size-append (put c d ∷ es) fs n = replay_size-append es fs (max n ((c + 1) * 4096))
replay_size-append (cut k ∷ es) fs n = replay_size-append es fs k

-- A recovered record says what the event says, in a storage with these bytes.
abbrev pub Tells : List ℕ → RecoveredRecord → Event → Type 0
Tells bs r (put c d) = (r.block_index ≡ pos c) × (slice (r.offset + 8) 4096 bs ≡ d)
Tells bs r (cut n) = (r.block_index ≡ negsuc 0) × (r.new_size ≡ some n)

abbrev pub AllTell : List ℕ → List RecoveredRecord → List Event → Type 0
AllTell bs [] [] = Unit {0}
AllTell bs [] (e ∷ es) = ⊥
AllTell bs (r ∷ rs) [] = ⊥
AllTell bs (r ∷ rs) (e ∷ es) = Tells bs r e × AllTell bs rs es

-- The forward pass over records that all count.
unfoldable pub apply_all : List RecoveredRecord → Table → Table
apply_all [] t = t
apply_all (r ∷ rs) t = apply_all rs (apply_record r t)

-- The block and the size after one record.
apply_record-Tells :
    (bs : List ℕ) (r : RecoveredRecord) (e : Event) (t : Table) (b : ℕ)
    → Tells bs r e
    → stored bs (mapped_at (apply_record r t).logical_to_physical b)
      ≡ replay b (e ∷ []) (stored bs (mapped_at t.logical_to_physical b))
unfolding apply_record replay stored
apply_record-Tells bs r (put c d) t b h =
    ap (λ z. stored bs (mapped_at (apply_block z r.offset r.new_size t).logical_to_physical b)) h.0
    ∙ ap (stored bs) (mapped_at-put_mapping c (r.offset + 8) t.logical_to_physical b)
    ∙ ground (arith, h.1)
apply_record-Tells bs r (cut n) t b h =
    ap₂ (λ z k. stored bs (mapped_at (apply_block z r.offset k t).logical_to_physical b)) h.0 h.1
    ∙ ap (stored bs) (mapped_at-resize (ceil_blocks n) t.logical_to_physical b)
    ∙ ground arith

apply_record-size :
    (bs : List ℕ) (r : RecoveredRecord) (e : Event) (t : Table)
    → Tells bs r e
    → (apply_record r t).logical_size ≡ replay_size (e ∷ []) t.logical_size
unfolding apply_record replay_size
apply_record-size bs r (put c d) t h =
    ap (λ z. (apply_block z r.offset r.new_size t).logical_size) h.0
apply_record-size bs r (cut n) t h = ap₂ (λ z k. (apply_block z r.offset k t).logical_size) h.0 h.1

-- The forward pass computes what the events say.
pub apply_all-replay :
    (bs : List ℕ) (rs : List RecoveredRecord) (es : List Event) (t : Table) (b : ℕ)
    → AllTell bs rs es
    → stored bs (mapped_at (apply_all rs t).logical_to_physical b)
      ≡ replay b es (stored bs (mapped_at t.logical_to_physical b))
unfolding apply_all replay
apply_all-replay bs [] [] t b h = refl
apply_all-replay bs [] (e ∷ es) t b h = absurd h
apply_all-replay bs (r ∷ rs) [] t b h = absurd h
apply_all-replay bs (r ∷ rs) (put c d ∷ es) t b h =
    apply_all-replay bs rs es (apply_record r t) b h.1
    ∙ ap (replay b es) (apply_record-Tells bs r (put c d) t b h.0)
apply_all-replay bs (r ∷ rs) (cut n ∷ es) t b h =
    apply_all-replay bs rs es (apply_record r t) b h.1
    ∙ ap (replay b es) (apply_record-Tells bs r (cut n) t b h.0)

pub apply_all-replay_size :
    (bs : List ℕ) (rs : List RecoveredRecord) (es : List Event) (t : Table)
    → AllTell bs rs es
    → (apply_all rs t).logical_size ≡ replay_size es t.logical_size
unfolding apply_all replay_size
apply_all-replay_size bs [] [] t h = refl
apply_all-replay_size bs [] (e ∷ es) t h = absurd h
apply_all-replay_size bs (r ∷ rs) [] t h = absurd h
apply_all-replay_size bs (r ∷ rs) (put c d ∷ es) t h =
    apply_all-replay_size bs rs es (apply_record r t) h.1
    ∙ ap (replay_size es) (apply_record-size bs r (put c d) t h.0)
apply_all-replay_size bs (r ∷ rs) (cut n ∷ es) t h =
    apply_all-replay_size bs rs es (apply_record r t) h.1
    ∙ ap (replay_size es) (apply_record-size bs r (cut n) t h.0)
