-- ===== src/Tools/LogTool/RoundTrip.antt =====
-- An import by the tool, and then an export by the tool.
use sqlite_on_gcs_rapid.Base.{
  ℕ, ◌≤◌, ◌≡◌, refl, sym, ap, ◌⊎◌, inl, inr, List, [], ◌∷◌, Option, none, some, length, subst,
  tabulate,
}
use sqlite_on_gcs_rapid.Status.{Result, ok, err}
use sqlite_on_gcs_rapid.Status.Returns.{Returns, done, Returns-weaken}
use sqlite_on_gcs_rapid.Storage.{Storage, IsLawful}
use sqlite_on_gcs_rapid.Storage.Either.{EitherStorage}
use sqlite_on_gcs_rapid.Record.{max_size}
use sqlite_on_gcs_rapid.Table.{MetadataBlock, fresh}
use sqlite_on_gcs_rapid.Mapper.{MapperOf}
use sqlite_on_gcs_rapid.Recovery.{init}
use sqlite_on_gcs_rapid.Recovery.Metadata.{IsFaithful}
use sqlite_on_gcs_rapid.Session.Refinement.{Represents}
use sqlite_on_gcs_rapid.Posix.{Posix, returned, read_only, write_create_truncate}
use sqlite_on_gcs_rapid.Posix.Laws.{IsPosix}
use sqlite_on_gcs_rapid.Local.{local_storage}
use sqlite_on_gcs_rapid.ImportExport.{export_log, import_log}
use sqlite_on_gcs_rapid.ImportExport.Exports.{Exported, export_log_lem}
use sqlite_on_gcs_rapid.ImportExport.Imports.{import_log_lem}
use sqlite_on_gcs_rapid.ImportExport.RoundTrip.{tabulate-imported}
use sqlite_on_gcs_rapid.Vfs.{FilePath, same_path}
use sqlite_on_gcs_rapid.Tools.LogTool.{
  Host, AnyStorage, system, delete_storage_path, open_storage_path, Exit, exits, importing,
  exporting, import_command, export_command, log_tool, import_word, export_word,
}

module _ {meta : MetadataBlock} (faithful : IsFaithful meta) {G : Storage} {P : Posix}
    (H : Host G P) {Holds : EitherStorage G (local_storage P) → List ℕ → Type 0} {F : Type 0}
    (lawful : IsLawful (AnyStorage meta H) Holds F) {Present AtEnd : P.State → List ℕ → Type 0}
    {Remains : P.State → List ℕ → List ℕ → Type 0} (posix : IsPosix P Present AtEnd Remains F) where
  -- The laws say nothing about what opening a file gives.
  system-IsPosix : (w : H.World) → IsPosix (system meta H w) Present AtEnd Remains F
  system-IsPosix w = record {
    at_end_holds = λ h. posix.at_end_holds h;
    lseek_lem = λ s h. posix.lseek_lem s h;
    write_lem = λ d s h k. posix.write_lem d s h k;
    pread_lem = λ n o s h k. posix.pread_lem n o s h k;
    read_lem = λ n s h k. posix.read_lem n s h k;
    fsync_lem = λ s h. posix.fsync_lem s h;
    fstat_lem = λ s h. posix.fstat_lem s h;
    fstat_read_lem = λ s h. posix.fstat_read_lem s h;
  }

  abbrev pub Left : Type 0
  Left = MapperOf (AnyStorage meta H) × Option P.State

  -- The exit code is 0 and `Q` holds of what the command leaves, or it is 1 and there was a fault.
  abbrev pub Exits : (Left → Type 0) → Exit meta H → Type 0
  Exits Q (code, w, none) = (code ≡ 1) × F
  Exits Q (code, w, some q) = ((code ≡ 0) × Q q) ⊎ ((code ≡ 1) × F)

  exits_lem :
      {Q : Left → Type 0} (w : H.World) (r : Result (Unit {0}) × Left)
      → Returns (λ _ q. Q q) (λ _. F) r
      → Exits Q (exits meta H w r)
  exits_lem w (ok u, q) (done x) = inl (refl, x)
  exits_lem w (err c, q) (Returns.failed x) = inr (refl, x)

  -- The storage holds a log from which an export gives `bytes`, by whatever path and in whatever
  -- world the log is opened.
  pub record Exportable (bytes : List ℕ) (q : Left) : Type 0 where
    pub bytes_held : List ℕ
    pub holds : Holds q.0.storage bytes_held
    pub exports :
        (prog log raw : FilePath) (w w' : H.World) (s : EitherStorage G (local_storage P))
        (r : P.State)
        → open_storage_path meta H log w ≡ (ok s, w')
        → Holds s bytes_held
        → H.files w' raw write_create_truncate ≡ returned r
        → AtEnd r []
        → Exits
            (λ p. Exported AtEnd bytes p)
            (log_tool meta H (prog ∷ export_word ∷ log ∷ raw ∷ []) w)

  log_tool-export :
      (prog log raw : FilePath) (w w' : H.World) (s : EitherStorage G (local_storage P))
      (r : P.State) {f : ℕ → ℕ} {n l : ℕ}
      → n ≤ max_size
      → open_storage_path meta H log w ≡ (ok s, w')
      → H.files w' raw write_create_truncate ≡ returned r
      → AtEnd r []
      → Returns
          (λ _ m. Represents Holds meta f n l m)
          (λ _. F)
          (init meta (AnyStorage meta H) (record { storage = s; table = fresh }))
      → Exits
          (λ p. Exported AtEnd (tabulate f 0 n) p)
          (log_tool meta H (prog ∷ export_word ∷ log ∷ raw ∷ []) w)
  unfolding log_tool export_command same_path
  log_tool-export prog log raw w w' s r {f} {n} h o k a i =
      subst (Exits (λ p. Exported AtEnd (tabulate f 0 n) p)) (sym (ap (exporting meta H raw) o)) (
        exits_lem w' (export_log meta (AnyStorage meta H) (system meta H w') s raw)
          (export_log_lem lawful meta (system-IsPosix w') s raw r h k a i))

  -- Let the tool import a raw file within the largest size into a log that it can open, behind the
  -- deletion of the old one, and that shows some file then. It exits with 0, and every later export of
  -- the log by the tool gives exactly the raw bytes and exits with 0. Where one of them exits with 1
  -- instead, there was a fault of the storage or of the system.
  pub log_tool-import-export :
      (prog raw log : FilePath) (w w' : H.World) (s : EitherStorage G (local_storage P))
      (r : P.State) (bytes : List ℕ) (f : ℕ → ℕ) (n l : ℕ)
      → length bytes ≤ max_size
      → open_storage_path meta H log (delete_storage_path meta H log w).1 ≡ (ok s, w')
      → H.files w' raw read_only ≡ returned r
      → Remains r bytes bytes
      → Returns
          (λ _ m. Represents Holds meta f n l m)
          (λ _. F)
          (init meta (AnyStorage meta H) (record { storage = s; table = fresh }))
      → Exits (Exportable bytes) (log_tool meta H (prog ∷ import_word ∷ raw ∷ log ∷ []) w)
  unfolding log_tool import_command same_path
  log_tool-import-export prog raw log w w' s r bytes f n l h o k a i =
      subst (Exits (Exportable bytes)) (sym (ap (importing meta H raw) o)) (
        exits_lem {Q = Exportable bytes} w'
          (import_log meta (AnyStorage meta H) (system meta H w') raw s)
          (Returns-weaken
            (import_log_lem lawful faithful (system-IsPosix w') s raw r bytes f n l h k a i)
            (λ _ p z. record {
              bytes_held = z.bytes_held;
              holds = z.holds;
              exports = λ prog' log' raw' v v' s' r' o' b k' a'.
                  subst
                    (λ d.
                      Exits (λ q. Exported AtEnd d q)
                        (log_tool meta H (prog' ∷ export_word ∷ log' ∷ raw' ∷ []) v))
                    (tabulate-imported bytes f)
                    (log_tool-export prog' log' raw' v v' s' r' h o' k' a' (z.reopens s' b));
            })
            (λ _ x. x)))
