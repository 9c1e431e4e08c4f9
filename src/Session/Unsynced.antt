-- ===== src/Session/Unsynced.antt =====
-- Calls before a `Sync`: they do not change the storage.
use sqlite_on_gcs_rapid.Base.{
  ℕ, ◌+◌, ◌/◌, max, ◌≤◌, ◌≡◌, refl, ap, ◌∙◌, List, [], ◌∷◌, true, pos, if-not, length, arith,
  if◌then◌else◌, ltb,
}
use mathlib.Core.Path.{fun_ext}
use sqlite_on_gcs_rapid.Status.{ok}
use sqlite_on_gcs_rapid.Status.Returns.{Returns, done, Returns-bind, Returns-weaken}
use sqlite_on_gcs_rapid.Storage.{Storage, IsLawful}
use sqlite_on_gcs_rapid.Record.{max_size}
use sqlite_on_gcs_rapid.Table.{MetadataBlock, ceil_blocks, truncate_table}
use sqlite_on_gcs_rapid.View.{file_byte, IsValid}
use sqlite_on_gcs_rapid.Mapper.{Mapper, MapperOf, write}
use sqlite_on_gcs_rapid.Mapper.Reads.{out_of_bounds-of_le}
use sqlite_on_gcs_rapid.Mapper.Writes.{overlay}
use sqlite_on_gcs_rapid.Mapper.Truncates.{
  truncate_lem, truncate_table-IsValid, file_byte-truncate_table,
}
use sqlite_on_gcs_rapid.Recovery.Metadata.{IsFaithful}
use sqlite_on_gcs_rapid.Durability.{Durable}
use sqlite_on_gcs_rapid.Durability.Steps.{truncate_table-Durable, write-Wrote}
use sqlite_on_gcs_rapid.Session.{
  Call, writes, truncates, syncs, InBounds, AllInBounds, bytes_after, size_after, file_after,
  total_after, logged_after, logged_total, perform, run,
}

-- Over the bytes `bs` the mapper is a sound, durable representation of the file `f` of size `n`,
-- whose log says the size `l`.
pub record Held {State : Type 0} (Holds : State → List ℕ → Type 0) (meta : MetadataBlock)
    (bs : List ℕ) (f : ℕ → ℕ) (n l : ℕ) (m : Mapper State) : Type 0 where
  pub holds : Holds m.storage bs
  pub valid : IsValid bs m.table
  pub durable : Durable meta bs m.table l
  pub shows : (j : ℕ) → file_byte bs m.table j ≡ f j
  pub sized : m.table.logical_size ≡ n

-- Every call but `Sync`.
abbrev pub IsUnsynced : Call → Type 0
IsUnsynced (writes buf off) = Unit {0}
IsUnsynced (truncates n) = Unit {0}
IsUnsynced syncs = ⊥

abbrev pub AllUnsynced : List Call → Type 0
AllUnsynced [] = Unit {0}
AllUnsynced (c ∷ cs) = IsUnsynced c × AllUnsynced cs

module _ {S : Storage} {Holds : S.State → List ℕ → Type 0} {F : Type 0}
    (lawful : IsLawful S Holds F) {meta : MetadataBlock} (faithful : IsFaithful meta) where
  pub write_nothing :
      (off : ℕ) (m : MapperOf S)
      → off + 0 ≤ max_size
      → m.table.initialized ≡ true
      → write S [] (pos off) m ≡ (ok tt, m)
  unfolding write
  write_nothing off m h i = rw (out_of_bounds-of_le 0 off h, if-not _ _ m.initialized i)

  module _ (bs : List ℕ) where
    -- A failure before the `Sync`: the storage is as it was.
    abbrev pub Unstored : MapperOf S → Type 0
    Unstored m = F × Holds m.storage bs

    pub perform-Held :
        (c : Call) (f : ℕ → ℕ) (n l : ℕ) (m : MapperOf S)
        → IsUnsynced c
        → InBounds c
        → Held Holds meta bs f n l m
        → Returns
            (λ _ m'. Held Holds meta bs (bytes_after c f) (size_after c n) (logged_after c l) m')
            Unstored
            (perform meta S c m)
    unfolding perform
    perform-Held (writes [] off) f n l m u h r = rw (write_nothing off m h r.valid.inited) (
        done (record {
          holds = r.holds;
          valid = r.valid;
          durable = r.durable;
          shows = λ j. r.shows j ∙ ground arith;
          sized = r.sized;
        }))
    perform-Held (writes (x ∷ buf) off) f n l m u h r =
        Returns-weaken
          (write-Wrote meta lawful (x ∷ buf) off r.valid r.durable
            (record { holds = r.holds; same = refl }) (omega arith) h)
          (λ _ m' w. record {
            holds = w.holds;
            valid = w.valid;
            durable = w.durable;
            shows = λ j. w.bytes j ∙ ap (λ g. overlay (x ∷ buf) off g j) (fun_ext r.shows);
            sized = w.sized ∙ ap (λ k. max k (off + length (x ∷ buf))) r.sized;
          })
          (λ m' e. (e.fault, e.holds))
    perform-Held (truncates k) f n l m u h r = rw (truncate_lem faithful S k m h r.valid.inited) (
        done (record {
          holds = r.holds;
          valid = truncate_table-IsValid k (faithful.text k) (faithful.fits k h) r.valid;
          durable = truncate_table-Durable meta faithful bs m.table k l h r.durable;
          shows = λ j.
              file_byte-truncate_table bs m.table k (faithful.text k) j
              ∙ ap (λ x. if ltb (j / 4096) (ceil_blocks k) then x else 0) (r.shows j);
          sized = unfold truncate_table in refl;
        }))
    perform-Held syncs f n l m u h r = absurd u

    pub run-Held :
        (cs : List Call) (f : ℕ → ℕ) (n l : ℕ) (m : MapperOf S)
        → AllUnsynced cs
        → AllInBounds cs
        → Held Holds meta bs f n l m
        → Returns
            (λ _ m'. Held Holds meta bs (file_after cs f) (total_after cs n) (logged_total cs l) m')
            Unstored
            (run meta S cs m)
    unfolding run file_after total_after logged_total
    run-Held [] f n l m u h r = done r
    run-Held (c ∷ cs) f n l m u h r =
        Returns-bind (perform meta S c) (λ _. run meta S cs) m (perform-Held c f n l m u.0 h.0 r)
          (λ _ m' r'.
            run-Held cs (bytes_after c f) (size_after c n) (logged_after c l) m' u.1 h.1 r')
          (λ m' e. e)
