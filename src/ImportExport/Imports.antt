-- ===== src/ImportExport/Imports.antt =====
-- `ImportLog`, against the raw file and the file that the log showed before.
use sqlite_on_gcs_rapid.Base.{
  ℕ, zero, suc, ◌+◌, ◌-◌, ◌*◌, max, ◌≤◌, ◌<◌, ◌≡◌, sym, ap, ◌∙◌, inl, inr, List, [], ◌∷◌, ◌++◌,
  Option, some, pos, length, take, drop, get_or, get_or-append_left, get_or-append_right,
  length-append, length-drop, take-append-drop, le-cases, subst, arith,
}
use mathlib.Core.Path.{fun_ext}
use sqlite_on_gcs_rapid.Status.{Result, Exec, ok, err, ◌>>◌}
use sqlite_on_gcs_rapid.Status.Returns.{Returns, done, Returns-bind, Returns-weaken}
use sqlite_on_gcs_rapid.Storage.{Storage, IsLawful}
use sqlite_on_gcs_rapid.Record.{max_size}
use sqlite_on_gcs_rapid.Table.{MetadataBlock, fresh, ceil_blocks}
use sqlite_on_gcs_rapid.Mapper.{MapperOf, write, truncate, sync}
use sqlite_on_gcs_rapid.Mapper.Writes.{overlay}
use sqlite_on_gcs_rapid.Recovery.{init}
use sqlite_on_gcs_rapid.Recovery.Metadata.{IsFaithful}
use sqlite_on_gcs_rapid.Session.{writes, truncates, bytes_after, perform}
use sqlite_on_gcs_rapid.Session.Refinement.{Represents, Restarts, perform-Represents, sync-Restarts}
use sqlite_on_gcs_rapid.Posix.{Posix, Called, returned, failed, read_only, call, checked}
use sqlite_on_gcs_rapid.Posix.Laws.{Answers, returns, fails, Fails, IsPosix, checked_lem}
use sqlite_on_gcs_rapid.Vfs.{FilePath}
use sqlite_on_gcs_rapid.ImportExport.Copies.{on_mapper_lem, on_raw_lem}
use sqlite_on_gcs_rapid.ImportExport.{
  Copying, on_mapper, on_raw, after_read, import_loop, copy_in, finish_import, import_raw,
  opened_raw, initialised, import_log,
}

overlay_nothing : (d : List ℕ) (off : ℕ) (f : ℕ → ℕ) → length d ≡ 0 → overlay d off f ≡ f
overlay_nothing [] off f h = fun_ext (λ j. ground arith)
overlay_nothing (x ∷ d) off f h = absurd (omega arith)

-- Two pieces laid one behind the other.
overlay-overlay :
    (a b : List ℕ) (off : ℕ) (f : ℕ → ℕ)
    → overlay b (off + length a) (overlay a off f) ≡ overlay (a ++ b) off f
overlay-overlay a b off f = fun_ext at
  where
    at : (j : ℕ) → overlay b (off + length a) (overlay a off f) j ≡ overlay (a ++ b) off f j
    at j = elim (le-cases (off + length a) j) [
      | inl behind ↦
          let e : get_or (a ++ b) (j - off) 0 ≡ get_or b (j - (off + length a)) 0 =
            ap (λ k. get_or (a ++ b) k 0) {x = j - off} {y = length a + (j - (off + length a))}
              (omega arith)
            ∙ get_or-append_right a b (j - (off + length a)) 0 in
          ground (arith, length-append a b)
      | inr before ↦ elim (le-cases off j) [
        | inl inside ↦
            let e : get_or (a ++ b) (j - off) 0 ≡ get_or a (j - off) 0 =
              get_or-append_left a b (j - off) 0 (omega arith) in
            ground (arith, length-append a b)
        | inr outside ↦ ground (arith, length-append a b)
      ]
    ]

-- The file after an import: the raw bytes over the old file, cut behind them.
abbrev pub imported : List ℕ → (ℕ → ℕ) → ℕ → ℕ
imported bytes f = bytes_after (truncates (length bytes)) (overlay bytes 0 f)

module _ {S : Storage} {Holds : S.State → List ℕ → Type 0} {F : Type 0}
    (lawful : IsLawful S Holds F) {meta : MetadataBlock} (faithful : IsFaithful meta) {P : Posix}
    {Present AtEnd : P.State → List ℕ → Type 0} {Remains : P.State → List ℕ → List ℕ → Type 0}
    (posix : IsPosix P Present AtEnd Remains F) where
  -- The mapper represents the file `f`, of some size.
  abbrev Shows : (ℕ → ℕ) → Copying meta S P → Type 0
  Shows f p = (n l : ℕ) × Represents Holds meta f n l p.0

  after_read_lem :
      (fuel off : ℕ) (m : MapperOf S) (raw : P.State) (bs rest : List ℕ) (f : ℕ → ℕ) (n l : ℕ)
      (again : ℕ → Exec (Copying meta S P) (Unit {0}))
      → ((off' : ℕ) (m' : MapperOf S) (raw' : P.State) (rest' : List ℕ) (f' : ℕ → ℕ) (n' l' : ℕ)
          → length rest' + P.interruptions raw' < fuel
          → off' + length rest' ≤ max_size
          → Represents Holds meta f' n' l' m'
          → Remains raw' bs rest'
          → Returns (λ _ p. Shows (overlay rest' off' f') p) (λ _. F) (again off' (m', raw')))
      → length rest + P.interruptions raw < suc fuel
      → off + length rest ≤ max_size
      → Represents Holds meta f n l m
      → (r : Called P.Errno (List ℕ) × P.State)
      → Answers
          (λ d s'.
            (d ≡ take (length d) rest)
            × (length d ≤ 4096)
            × (0 < length rest → 0 < length d)
            × (length d ≤ length rest)
            × (P.interruptions s' ≤ P.interruptions raw)
            × Remains s' bs (drop (length d) rest))
          (λ e s'. Remains s' bs rest × Fails P F raw e s')
          r
      → Returns (λ _ p. Shows (overlay rest off f) p) (λ _. F) (after_read meta S P again off m r)
  unfolding perform
  after_read_lem fuel off m raw bs rest f n l again ih h k r (returned [], s') (returns q) =
      elim (le-cases (length rest) 0) [
        | inl none_left ↦ done (
          n,
          l,
          subst (λ g. Represents Holds meta g n l m)
              (sym (overlay_nothing rest off f (omega arith))) r,
        )
        | inr more ↦ absurd (omega (arith, q.2 more))
      ]
  after_read_lem fuel off m raw bs rest f n l again ih h k r (returned (x ∷ d), s') (returns q) =
      Returns-bind (on_mapper meta S P (write S (x ∷ d) (pos off)))
        (λ _. again (off + length (x ∷ d))) (m, s')
        (on_mapper_lem meta S P s' (write S (x ∷ d) (pos off) m) (
          perform-Represents lawful faithful (writes (x ∷ d) off) f n l m (omega (arith, k, q.3))
            r))
        (λ _ p' w.
          Returns-weaken
            (ih (off + length (x ∷ d)) p'.0 p'.1 (drop (length (x ∷ d)) rest)
              (overlay (x ∷ d) off f) (max n (off + length (x ∷ d)))
              (max l (ceil_blocks (off + length (x ∷ d)) * 4096))
              (omega
                (arith, h, q.3, q.4, ap P.interruptions w.1, length-drop (length (x ∷ d)) rest))
              (omega (arith, k, q.3, length-drop (length (x ∷ d)) rest)) w.0
              (subst (λ t. Remains t bs (drop (length (x ∷ d)) rest)) (sym w.1) q.5))
            (λ _ p'' z. (
              z.0,
              z.1,
              subst (λ g. Represents Holds meta g z.0 z.1 p''.0)
                  (overlay-overlay (x ∷ d) (drop (length (x ∷ d)) rest) off f
                    ∙ ap (λ t. overlay (t ++ drop (length (x ∷ d)) rest) off f) q.0
                    ∙ ap (λ t. overlay t off f) (take-append-drop (length (x ∷ d)) rest))
                  z.2,
            ))
            (λ _ z. z))
        (λ _ z. z)
  after_read_lem fuel off m raw bs rest f n l again ih h k r (failed e, s') (fails (b, inl i)) =
      rw i.0 (ih off m s' rest f n l (omega (arith, h, i.1)) k r b)
  after_read_lem fuel off m raw bs rest f n l again ih h k r (failed e, s') (fails (b, inr x)) =
      rw x.0 (Returns.failed x.1)

  import_loop_lem :
      (fuel off : ℕ) (bs : List ℕ) (m : MapperOf S) (raw : P.State) (rest : List ℕ) (f : ℕ → ℕ)
      (n l : ℕ)
      → length rest + P.interruptions raw < fuel
      → off + length rest ≤ max_size
      → Represents Holds meta f n l m
      → Remains raw bs rest
      → Returns
          (λ _ p. Shows (overlay rest off f) p)
          (λ _. F)
          (import_loop meta S P fuel off (m, raw))
  unfolding import_loop
  import_loop_lem zero off bs m raw rest f n l h k r b = absurd (omega arith)
  import_loop_lem (suc fuel) off bs m raw rest f n l h k r b =
      after_read_lem fuel off m raw bs rest f n l (import_loop meta S P fuel)
        (λ off'. import_loop_lem fuel off' bs) h k r (P.read 4096 raw)
        (posix.read_lem 4096 raw (omega arith) b)

  copied :
      (bytes : List ℕ) (f : ℕ → ℕ) (n l : ℕ) (p : Copying meta S P)
      → length bytes ≤ max_size
      → Represents Holds meta f n l p.0
      → Remains p.1 bytes bytes
      → Returns
          (λ _ p'. Restarts lawful faithful (imported bytes f) (length bytes) p'.0)
          (λ _. F)
          ((copy_in meta S P (length bytes) >> finish_import meta S P (length bytes)) p)
  unfolding perform
  copied bytes f n l p h r b =
      Returns-bind (copy_in meta S P (length bytes)) (λ _. finish_import meta S P (length bytes)) p
        (import_loop_lem (suc (length bytes + P.interruptions p.1)) 0 bytes p.0 p.1 bytes f n l
          (omega arith) (omega (arith, h)) r b)
        (λ _ p' w.
          Returns-bind (on_mapper meta S P (truncate meta S (pos (length bytes))))
            (λ _. on_mapper meta S P (sync S)) p'
            (on_mapper_lem meta S P p'.1 (truncate meta S (pos (length bytes)) p'.0) (
              perform-Represents lawful faithful (truncates (length bytes)) (overlay bytes 0 f) w.0
                w.1 p'.0 h w.2))
            (λ _ p'' v.
              Returns-weaken
                (on_mapper_lem meta S P p''.1 (sync S p''.0) (
                  sync-Restarts lawful faithful (imported bytes f) (length bytes) (length bytes)
                    p''.0 v.0))
                (λ _ _ z. z.0) (λ _ z. z))
            (λ _ z. z))
        (λ _ z. z)

  import_raw_lem :
      (bytes : List ℕ) (f : ℕ → ℕ) (n l : ℕ) (m : MapperOf S) (raw : P.State)
      → length bytes ≤ max_size
      → Represents Holds meta f n l m
      → Remains raw bytes bytes
      → Returns
          (λ _ p. Restarts lawful faithful (imported bytes f) (length bytes) p.0)
          (λ _. F)
          (import_raw meta S P (m, raw))
  unfolding import_raw perform
  import_raw_lem bytes f n l m raw h r b =
      Returns-bind (on_raw meta S P (call P P.fstat_size))
        (λ raw_size. copy_in meta S P raw_size >> finish_import meta S P raw_size) (m, raw)
        (on_raw_lem meta S P m (checked P (P.fstat_size raw))
          (checked_lem P (P.fstat_size raw) (posix.fstat_read_lem raw b)))
        (λ raw_size p q.
          subst
            (λ k.
              Returns (λ _ p'. Restarts lawful faithful (imported bytes f) (length bytes) p'.0)
                (λ _. F) ((copy_in meta S P k >> finish_import meta S P k) p))
            (sym q.1.0)
            (copied bytes f n l p h (subst (Represents Holds meta f n l) (sym q.0) r) q.1.1))
        (λ _ x. x)

  import_opened :
      (path : FilePath) (raw : P.State) (bytes : List ℕ) (f : ℕ → ℕ) (n l : ℕ)
      (r : Result (Unit {0}) × MapperOf S)
      → length bytes ≤ max_size
      → P.open_file path read_only ≡ returned raw
      → Remains raw bytes bytes
      → Returns (λ _ m'. Represents Holds meta f n l m') (λ _. F) r
      → Returns
          (λ _ p. Restarts lawful faithful (imported bytes f) (length bytes) p.0)
          (λ _. F)
          (initialised meta S P
            (λ m. opened_raw meta S P (import_raw meta S P) m (P.open_file path read_only))
            r)
  import_opened path raw bytes f n l (err c, m) h o b (Returns.failed x) = Returns.failed x
  import_opened path raw bytes f n l (ok u, m) h o b (done r) =
      rw o (kept (import_raw meta S P (m, raw)) (import_raw_lem bytes f n l m raw h r b))
    where
      kept :
          (r : Result (Unit {0}) × Copying meta S P)
          → Returns
              (λ _ p. Restarts lawful faithful (imported bytes f) (length bytes) p.0)
              (λ _. F)
              r
          → Returns {S = MapperOf S × Option P.State}
              (λ _ p. Restarts lawful faithful (imported bytes f) (length bytes) p.0)
              (λ _. F)
              (r.0, (r.1.0, some r.1.1))
      kept (ok u', p) (done q) = done q
      kept (err c, p) (Returns.failed x) = Returns.failed x

  -- Where `Init` of a storage gives a mapper that represents a file, and the raw file can be opened
  -- and is within the largest size, `ImportLog` lays the raw bytes over that file, cuts it behind them,
  -- and leaves all this in the storage: every new mapper on its bytes represents the result, with
  -- exactly the size of the raw file. Only a fault of the storage or of the system can make it fail,
  -- interruptions cannot.
  pub import_log_lem :
      (s : S.State) (path : FilePath) (raw : P.State) (bytes : List ℕ) (f : ℕ → ℕ) (n l : ℕ)
      → length bytes ≤ max_size
      → P.open_file path read_only ≡ returned raw
      → Remains raw bytes bytes
      → Returns
          (λ _ m'. Represents Holds meta f n l m')
          (λ _. F)
          (init meta S (record { storage = s; table = fresh }))
      → Returns
          (λ _ p. Restarts lawful faithful (imported bytes f) (length bytes) p.0)
          (λ _. F)
          (import_log meta S P path s)
  unfolding import_log
  import_log_lem s path raw bytes f n l h o b r =
      import_opened path raw bytes f n l (init meta S (record { storage = s; table = fresh })) h o b
        r
