-- ===== src/ImportExport/Copies.antt =====
-- An action on the mapper or on the raw file, beside the other one.
use sqlite_on_gcs_rapid.Base.{◌≡◌, refl}
use sqlite_on_gcs_rapid.Status.{Result, ok, err}
use sqlite_on_gcs_rapid.Status.Returns.{Returns, done, failed}
use sqlite_on_gcs_rapid.Storage.{Storage}
use sqlite_on_gcs_rapid.Table.{MetadataBlock}
use sqlite_on_gcs_rapid.Mapper.{MapperOf}
use sqlite_on_gcs_rapid.Posix.{Posix}
use sqlite_on_gcs_rapid.ImportExport.{Copying}

module _ (meta : MetadataBlock) (S : Storage) (P : Posix) where
  pub on_mapper_lem :
      {A : Type 0} {Q : A → MapperOf S → Type 0} {E : MapperOf S → Type 0} (raw : P.State)
      (r : Result A × MapperOf S)
      → Returns Q E r
      → Returns {S = Copying meta S P} (λ a p. Q a p.0 × (p.1 ≡ raw)) (λ p. E p.0) (r.0, (r.1, raw))
  on_mapper_lem raw (ok a, m) (done q) = done (q, refl)
  on_mapper_lem raw (err c, m) (failed x) = failed x

  pub on_raw_lem :
      {A : Type 0} {Q : A → P.State → Type 0} {E : P.State → Type 0} (m : MapperOf S)
      (r : Result A × P.State)
      → Returns Q E r
      → Returns {S = Copying meta S P} (λ a p. (p.0 ≡ m) × Q a p.1) (λ p. E p.1) (r.0, (m, r.1))
  on_raw_lem m (ok a, s) (done q) = done (refl, q)
  on_raw_lem m (err c, s) (failed x) = failed x
