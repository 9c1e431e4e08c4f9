-- ===== src/ImportExport/RoundTrip.antt =====
-- An import, and then an export of what it left.
use sqlite_on_gcs_rapid.Base.{
  ℕ, ◌≤◌, ◌≡◌, refl, sym, ◌∙◌, List, [], length, get_or, slice_all, tabulate, tabulate_congr,
  slice-eq-tabulate, subst, arith,
}
use sqlite_on_gcs_rapid.Status.Returns.{Returns, Returns-weaken}
use sqlite_on_gcs_rapid.Storage.{Storage, IsLawful}
use sqlite_on_gcs_rapid.Record.{max_size}
use sqlite_on_gcs_rapid.Table.{MetadataBlock, fresh}
use sqlite_on_gcs_rapid.Mapper.{MapperOf}
use sqlite_on_gcs_rapid.Recovery.{init}
use sqlite_on_gcs_rapid.Recovery.Metadata.{IsFaithful}
use sqlite_on_gcs_rapid.Session.Refinement.{Represents}
use sqlite_on_gcs_rapid.Posix.{Posix, returned, read_only, write_create_truncate}
use sqlite_on_gcs_rapid.Posix.Laws.{IsPosix}
use sqlite_on_gcs_rapid.Vfs.{FilePath}
use sqlite_on_gcs_rapid.ImportExport.Exports.{Exported, export_log_lem}
use sqlite_on_gcs_rapid.ImportExport.Imports.{imported, import_log_lem}
use sqlite_on_gcs_rapid.ImportExport.{export_log, import_log}

pub tabulate-imported :
    (bytes : List ℕ) (f : ℕ → ℕ) → tabulate (imported bytes f) 0 (length bytes) ≡ bytes
tabulate-imported bytes f =
    tabulate_congr (imported bytes f) (λ i. get_or bytes i 0) 0 0 (length bytes)
      (λ i p. ground arith)
    ∙ sym (slice-eq-tabulate 0 (length bytes) bytes 0 (omega arith))
    ∙ slice_all (length bytes) bytes refl

module _ {S : Storage} {Holds : S.State → List ℕ → Type 0} {F : Type 0}
    (lawful : IsLawful S Holds F) {meta : MetadataBlock} (faithful : IsFaithful meta) {P : Posix}
    {Present AtEnd : P.State → List ℕ → Type 0} {Remains : P.State → List ℕ → List ℕ → Type 0}
    (posix : IsPosix P Present AtEnd Remains F) where
  -- `ExportLog` of a storage with the same bytes gives back `bytes`.
  pub record Exports (bytes : List ℕ) (m : MapperOf S) : Type 0 where
    pub bytes_held : List ℕ
    pub holds : Holds m.storage bytes_held
    pub exports :
        (s : S.State) (path : FilePath) (raw : P.State)
        → Holds s bytes_held
        → P.open_file path write_create_truncate ≡ returned raw
        → AtEnd raw []
        → Returns (λ _ p. Exported AtEnd bytes p) (λ _. F) (export_log meta S P s path)

  -- Whatever file the log showed before, an `ImportLog` of a raw file within the largest size and an
  -- `ExportLog` of what it left in the storage give back exactly the bytes of the raw file. Only a
  -- fault of the storage or of the system can make one of them fail, interruptions cannot.
  pub export-import :
      (s : S.State) (path : FilePath) (raw : P.State) (bytes : List ℕ) (f : ℕ → ℕ) (n l : ℕ)
      → length bytes ≤ max_size
      → P.open_file path read_only ≡ returned raw
      → Remains raw bytes bytes
      → Returns
          (λ _ m'. Represents Holds meta f n l m')
          (λ _. F)
          (init meta S (record { storage = s; table = fresh }))
      → Returns (λ _ p. Exports bytes p.0) (λ _. F) (import_log meta S P path s)
  export-import s path raw bytes f n l h o b r =
      Returns-weaken (import_log_lem lawful faithful posix s path raw bytes f n l h o b r)
        (λ _ p w. record {
          bytes_held = w.bytes_held;
          holds = w.holds;
          exports = λ s' path' raw' k o' a.
              subst
                (λ d. Returns (λ _ q. Exported AtEnd d q) (λ _. F) (export_log meta S P s' path'))
                (tabulate-imported bytes f)
                (export_log_lem lawful meta posix s' path' raw' h o' a (w.reopens s' k));
        })
        (λ _ x. x)
