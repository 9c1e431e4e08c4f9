-- ===== src/Session/Reads.antt =====
-- `Read` of a mapper that represents a file.
use sqlite_on_gcs_rapid.Base.{
  ℕ, ◌+◌, ◌≤◌, ◌≡◌, refl, sym, ap, ◌∙◌, List, pos, tabulate, tabulate_congr, subst,
}
use sqlite_on_gcs_rapid.Status.Returns.{Returns, Returns-weaken}
use sqlite_on_gcs_rapid.Storage.{Storage, IsLawful}
use sqlite_on_gcs_rapid.Record.{max_size}
use sqlite_on_gcs_rapid.Table.{MetadataBlock}
use sqlite_on_gcs_rapid.View.{file_byte, IsValid, At}
use sqlite_on_gcs_rapid.Mapper.{Mapper, MapperOf, read}
use sqlite_on_gcs_rapid.Mapper.Reads.{read_lem}
use sqlite_on_gcs_rapid.Durability.{Durable}
use sqlite_on_gcs_rapid.Session.Refinement.{Represents}

-- A mapper with the same bytes and the same table represents the same file.
pub At-Represents :
    {State : Type 0} (Holds : State → List ℕ → Type 0) (meta : MetadataBlock) {f : ℕ → ℕ} {n l : ℕ}
    {m m' : Mapper State} (r : Represents Holds meta f n l m)
    → At Holds r.bytes_held m.table m'
    → Represents Holds meta f n l m'
At-Represents Holds meta {l = l} r a = record {
  bytes_held = r.bytes_held;
  holds = a.holds;
  valid = subst (IsValid r.bytes_held) (sym a.same) r.valid;
  durable = subst (λ u. Durable meta r.bytes_held u l) (sym a.same) r.durable;
  shows = λ j. ap (λ u. file_byte r.bytes_held u j) a.same ∙ r.shows j;
  sized = ap (λ u. u.logical_size) a.same ∙ r.sized;
}

module _ {S : Storage} {Holds : S.State → List ℕ → Type 0} {F : Type 0}
    (lawful : IsLawful S Holds F) (meta : MetadataBlock) where
  pub read-Represents :
      (size off : ℕ) {f : ℕ → ℕ} {n l : ℕ} {m : MapperOf S}
      → Represents Holds meta f n l m
      → off + size ≤ max_size
      → Returns
          (λ d m'. (d ≡ tabulate f off size) × Represents Holds meta f n l m')
          (λ _. F)
          (read S size (pos off) m)
  read-Represents size off {f} {m = m} r h =
      Returns-weaken (read_lem lawful size off r.valid (record { holds = r.holds; same = refl }) h)
        (λ d m' q. (
          q.0
              ∙ tabulate_congr (file_byte r.bytes_held m.table) f off off size
                  (λ i p. r.shows (off + i)),
          At-Represents Holds meta r q.1,
        ))
        (λ m' x. x.0)
