-- ===== src/ImportExport/Exports.antt =====
-- `ExportLog`, against the file that the log shows.
use sqlite_on_gcs_rapid.Base.{
  ℕ, zero, suc, ◌+◌, ◌-◌, ◌≤◌, ◌≡◌, sym, ap, ◌∙◌, min, List, [], ◌++◌, append_assoc, append-nil,
  Option, none, some, pos, tabulate, tabulate-append, subst, arith,
}
use sqlite_on_gcs_rapid.Status.{Result, Exec, ok, err, ◌>>◌}
use sqlite_on_gcs_rapid.Status.Returns.{Returns, done, failed, Returns-bind, Returns-weaken}
use sqlite_on_gcs_rapid.Storage.{Storage, IsLawful}
use sqlite_on_gcs_rapid.Record.{max_size}
use sqlite_on_gcs_rapid.Table.{MetadataBlock, fresh}
use sqlite_on_gcs_rapid.Mapper.{MapperOf, read}
use sqlite_on_gcs_rapid.Recovery.{init}
use sqlite_on_gcs_rapid.Session.Refinement.{Represents}
use sqlite_on_gcs_rapid.Session.Reads.{read-Represents}
use sqlite_on_gcs_rapid.Posix.{Posix, returned, write_create_truncate, write_all}
use sqlite_on_gcs_rapid.Posix.Laws.{IsPosix}
use sqlite_on_gcs_rapid.Posix.Writes.{write_all_lem}
use sqlite_on_gcs_rapid.Vfs.{FilePath}
use sqlite_on_gcs_rapid.ImportExport.Copies.{on_mapper_lem, on_raw_lem}
use sqlite_on_gcs_rapid.ImportExport.{
  Copying, on_mapper, on_raw, export_loop, opened_raw, initialised, export_log,
}

-- The raw file is there and has these bytes.
abbrev pub Exported : {M R : Type 0} → (R → List ℕ → Type 0) → List ℕ → M × Option R → Type 0
Exported AtEnd out (m, none) = ⊥
Exported AtEnd out (m, some raw) = AtEnd raw out

module _ {S : Storage} {Holds : S.State → List ℕ → Type 0} {F : Type 0}
    (lawful : IsLawful S Holds F) (meta : MetadataBlock) {P : Posix}
    {Present AtEnd : P.State → List ℕ → Type 0} {Remains : P.State → List ℕ → List ℕ → Type 0}
    (posix : IsPosix P Present AtEnd Remains F) where
  export_loop_lem :
      (fuel remaining off : ℕ) {f : ℕ → ℕ} {n l : ℕ} (p : Copying meta S P) (out : List ℕ)
      → remaining ≤ fuel
      → off + remaining ≤ max_size
      → Represents Holds meta f n l p.0
      → AtEnd p.1 out
      → Returns
          (λ _ p'. AtEnd p'.1 (out ++ tabulate f off remaining))
          (λ _. F)
          (export_loop meta S P fuel remaining off p)
  unfolding export_loop tabulate
  export_loop_lem fuel zero off p out h k r a = done (subst (AtEnd p.1) (sym (append-nil out)) a)
  export_loop_lem zero (suc remaining) off p out h k r a = absurd (omega arith)
  export_loop_lem (suc fuel) (suc remaining) off {f} {n} {l} p out h k r a =
      Returns-bind (on_mapper meta S P (read S to_read (pos off)))
        (λ d. on_raw meta S P (write_all P d) >> rest_loop) p
        (on_mapper_lem meta S P p.1 (read S to_read (pos off) p.0)
          (read-Represents lawful meta to_read off r (omega (arith, k))))
        (λ d p' q.
          Returns-bind (on_raw meta S P (write_all P d)) (λ _. rest_loop) p'
            (on_raw_lem meta S P p'.0 (write_all P d p'.1)
              (write_all_lem posix d p'.1 out (subst (λ x. AtEnd x out) (sym q.1) a)))
            (λ _ p'' w.
              Returns-weaken
                (export_loop_lem fuel (suc remaining - to_read) (off + to_read) p'' (out ++ d)
                  (omega (arith, h)) (omega (arith, k))
                  (subst (Represents Holds meta f n l) (sym w.0) q.0.1) w.1)
                (λ _ p3 z. subst (AtEnd p3.1) (joined d q.0.0) z) (λ _ x. x))
            (λ _ x. x.1))
        (λ _ x. x)
    where
      to_read : ℕ
      to_read = min 4096 (suc remaining)

      rest_loop : Exec (Copying meta S P) (Unit {0})
      rest_loop = export_loop meta S P fuel (suc remaining - to_read) (off + to_read)

      joined :
          (d : List ℕ)
          → d ≡ tabulate f off to_read
          → (out ++ d) ++ tabulate f (off + to_read) (suc remaining - to_read)
            ≡ out ++ tabulate f off (suc remaining)
      joined d e =
          append_assoc out d (tabulate f (off + to_read) (suc remaining - to_read))
          ∙ ap (λ x. out ++ x)
              (ap (λ x. x ++ tabulate f (off + to_read) (suc remaining - to_read)) e
                ∙ tabulate-append f off to_read (suc remaining - to_read)
                ∙ ap (tabulate f off) {x = to_read + (suc remaining - to_read)} {y = suc remaining}
                    (omega arith))

  kept_raw :
      (out : List ℕ) (r : Result (Unit {0}) × Copying meta S P)
      → Returns (λ _ p. AtEnd p.1 out) (λ _. F) r
      → Returns (λ _ p. Exported AtEnd out p) (λ _. F) (r.0, (r.1.0, some r.1.1))
  kept_raw out (ok u, p) (done q) = done q
  kept_raw out (err c, p) (failed x) = failed x

  exports_opened :
      (path : FilePath) (raw : P.State) {f : ℕ → ℕ} {n l : ℕ} (r : Result (Unit {0}) × MapperOf S)
      → n ≤ max_size
      → P.open_file path write_create_truncate ≡ returned raw
      → AtEnd raw []
      → Returns (λ _ m'. Represents Holds meta f n l m') (λ _. F) r
      → Returns
          (λ _ p. Exported AtEnd (tabulate f 0 n) p)
          (λ _. F)
          (initialised meta S P
            (λ m.
              opened_raw meta S P
                (export_loop meta S P m.logical_size m.logical_size 0)
                m
                (P.open_file path write_create_truncate))
            r)
  exports_opened path raw (err c, m) h o a (failed x) = failed x
  exports_opened path raw {f} {n} (ok u, m) h o a (done r) = rw o (
      kept_raw (tabulate f 0 n) (export_loop meta S P m.logical_size m.logical_size 0 (m, raw)) (
        subst
          (λ k.
            Returns (λ _ p. AtEnd p.1 (tabulate f 0 n)) (λ _. F)
              (export_loop meta S P k k 0 (m, raw)))
          (sym r.sized) (export_loop_lem n n 0 (m, raw) [] (omega arith) (omega (arith, h)) r a)))

  -- Where `Init` of a storage gives a mapper that represents a file, within the largest size, and the
  -- raw file can be opened, `ExportLog` leaves exactly the bytes of the file in it. Only a fault of the
  -- storage or of the system can make it fail, interruptions cannot.
  pub export_log_lem :
      (s : S.State) (path : FilePath) (raw : P.State) {f : ℕ → ℕ} {n l : ℕ}
      → n ≤ max_size
      → P.open_file path write_create_truncate ≡ returned raw
      → AtEnd raw []
      → Returns
          (λ _ m'. Represents Holds meta f n l m')
          (λ _. F)
          (init meta S (record { storage = s; table = fresh }))
      → Returns (λ _ p. Exported AtEnd (tabulate f 0 n) p) (λ _. F) (export_log meta S P s path)
  unfolding export_log
  export_log_lem s path raw h o a r =
      exports_opened path raw (init meta S (record { storage = s; table = fresh })) h o a r
