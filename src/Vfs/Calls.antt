-- ===== src/Vfs/Calls.antt =====
-- Sequences of `xWrite`, `xTruncate` and `xSync` on an open file, and what `xFileSize` and `xRead` say
-- behind them.
use sqlite_on_gcs_rapid.Base.{
  ℕ, ◌+◌, ◌≤◌, ◌<◌, ◌≡◌, refl, ap, ◌∙◌, List, [], ◌∷◌, append-nil, Option, none, some, pos, le→ltb,
  lt→leb, replicate, tabulate, arith,
}
use sqlite_on_gcs_rapid.Status.{Result, ok, err}
use sqlite_on_gcs_rapid.Status.Returns.{Returns, done, failed}
use sqlite_on_gcs_rapid.Storage.{Storage, IsLawful}
use sqlite_on_gcs_rapid.Record.{max_size}
use sqlite_on_gcs_rapid.Table.{MetadataBlock}
use sqlite_on_gcs_rapid.Mapper.{MapperOf, read, write, truncate, sync}
use sqlite_on_gcs_rapid.Recovery.Metadata.{IsFaithful}
use sqlite_on_gcs_rapid.Session.{
  Call, writes, truncates, syncs, InBounds, AllInBounds, bytes_after, size_after, logged_after,
  file_after, total_after, logged_total, perform,
}
use sqlite_on_gcs_rapid.Session.Refinement.{Represents, perform-Represents}
use sqlite_on_gcs_rapid.Session.Reads.{read-Represents}
use sqlite_on_gcs_rapid.Vfs.{
  Code, sqlite_ok, ioerr_read, ioerr_write, ioerr_truncate, ioerr_dirty, AppendOnlyFile, keep,
  code_of, finish, read_mapped, x_read, x_write, x_truncate, x_sync, x_file_size,
}

module _ (meta : MetadataBlock) (S : Storage) where
  unfoldable pub vfs_call : Call → AppendOnlyFile meta S → Code × AppendOnlyFile meta S
  unfolding x_write x_truncate x_sync
  vfs_call (writes buf off) file = x_write meta S file buf (pos off)
  vfs_call (truncates n) file = x_truncate meta S file (pos n)
  vfs_call syncs file = x_sync meta S file

  abbrev pub on_ok :
      (AppendOnlyFile meta S → Code × AppendOnlyFile meta S)
      → Code × AppendOnlyFile meta S
      → Code × AppendOnlyFile meta S
  on_ok next (sqlite_ok, file) = next file
  on_ok next (c, file) = (c, file)

  -- The calls, up to the first whose code is not SQLITE_OK.
  unfoldable pub vfs_calls : List Call → AppendOnlyFile meta S → Code × AppendOnlyFile meta S
  unfolding vfs_call
  vfs_calls [] file = (sqlite_ok, file)
  vfs_calls (c ∷ cs) file = on_ok (vfs_calls cs) (vfs_call c file)

module _ {S : Storage} {Holds : S.State → List ℕ → Type 0} {F : Type 0}
    (lawful : IsLawful S Holds F) {meta : MetadataBlock} (faithful : IsFaithful meta) where
  -- The open file shows `f`, of size `n`.
  abbrev pub ShowsFile : (ℕ → ℕ) → ℕ → ℕ → AppendOnlyFile meta S → Type 0
  ShowsFile f n l file = (m : MapperOf S) × (file.mapper ≡ some m) × Represents Holds meta f n l m

  -- SQLITE_OK and `Q`, or another code and the fault.
  abbrev pub Answers : (AppendOnlyFile meta S → Type 0) → Code × AppendOnlyFile meta S → Type 0
  Answers Q (sqlite_ok, file) = Q file
  Answers Q (_, file) = F

  code_of-Answers :
      (c : Code) (file : AppendOnlyFile meta S) (f : ℕ → ℕ) (n l : ℕ)
      (r : Result (Unit {0}) × MapperOf S)
      → ((file' : AppendOnlyFile meta S) → F → Answers (ShowsFile f n l) (c, file'))
      → Returns (λ _ m. Represents Holds meta f n l m) (λ _. F) r
      → Answers (ShowsFile f n l) (code_of meta S c r.0, keep meta S file r.1)
  code_of-Answers c file f n l (ok u, m) h (done x) = (m, refl, x)
  code_of-Answers c file f n l (err e, m) h (failed x) = h (keep meta S file m) x

  vfs_call-Answers :
      (c : Call) (f : ℕ → ℕ) (n l : ℕ) (file : AppendOnlyFile meta S)
      → InBounds c
      → ShowsFile f n l file
      → Answers
          (ShowsFile (bytes_after c f) (size_after c n) (logged_after c l))
          (vfs_call meta S c file)
  unfolding vfs_call x_write x_truncate x_sync perform
  vfs_call-Answers (writes buf off) f n l file h s = rw s.1 (
      code_of-Answers ioerr_write file (bytes_after (writes buf off) f)
        (size_after (writes buf off) n) (logged_after (writes buf off) l)
        (write S buf (pos off) s.0) (λ _ x. x)
        (perform-Represents lawful faithful (writes buf off) f n l s.0 h s.2))
  vfs_call-Answers (truncates k) f n l file h s = rw s.1 (
      code_of-Answers ioerr_truncate file (bytes_after (truncates k) f) k k
        (truncate meta S (pos k) s.0) (λ _ x. x)
        (perform-Represents lawful faithful (truncates k) f n l s.0 h s.2))
  vfs_call-Answers syncs f n l file h s = rw s.1 (
      code_of-Answers ioerr_dirty file f n l (sync S s.0) (λ _ x. x)
        (perform-Represents lawful faithful syncs f n l s.0 h s.2))

  pub on_ok-Answers :
      (Q Q' : AppendOnlyFile meta S → Type 0)
      (next : AppendOnlyFile meta S → Code × AppendOnlyFile meta S)
      → ((file : AppendOnlyFile meta S) → Q file → Answers Q' (next file))
      → (r : Code × AppendOnlyFile meta S) → Answers Q r
      → Answers Q' (on_ok meta S next r)
  on_ok-Answers Q Q' next h (sqlite_ok, file) a = h file a
  on_ok-Answers Q Q' next h (_, file) a = a

  pub vfs_calls-Answers :
      (cs : List Call) (f : ℕ → ℕ) (n l : ℕ) (file : AppendOnlyFile meta S)
      → AllInBounds cs
      → ShowsFile f n l file
      → Answers
          (ShowsFile (file_after cs f) (total_after cs n) (logged_total cs l))
          (vfs_calls meta S cs file)
  unfolding vfs_calls file_after total_after logged_total
  vfs_calls-Answers [] f n l file h s = s
  vfs_calls-Answers (c ∷ cs) f n l file h s =
      on_ok-Answers (ShowsFile (bytes_after c f) (size_after c n) (logged_after c l))
        (ShowsFile (file_after (c ∷ cs) f) (total_after (c ∷ cs) n) (logged_total (c ∷ cs) l))
        (vfs_calls meta S cs)
        (λ file' a.
          vfs_calls-Answers cs (bytes_after c f) (size_after c n) (logged_after c l) file' h.1 a)
        (vfs_call meta S c file) (vfs_call-Answers c f n l file h.0 s)

  -- What `xRead` answers: SQLITE_OK and the bytes, or SQLITE_IOERR_READ and the fault.
  abbrev pub Filled : List ℕ → Code × Option (List ℕ) → Type 0
  Filled d (sqlite_ok, some e) = e ≡ d
  Filled d (ioerr_read, none) = F
  Filled d (_, _) = ⊥

  finish-Filled :
      (d : List ℕ) (file : AppendOnlyFile meta S) {E : MapperOf S → Type 0}
      (r : Result (List ℕ) × MapperOf S)
      → Returns (λ e m. (e ≡ d) × E m) (λ _. F) r
      → Filled d (finish meta S file 0 sqlite_ok r).0
  unfolding replicate
  finish-Filled d file (ok e, m) (done h) = append-nil e ∙ h.0
  finish-Filled d file (err c, m) (failed x) = x

  x_read-Filled :
      (f : ℕ → ℕ) (n l off amt : ℕ) (file : AppendOnlyFile meta S)
      → 0 < amt
      → off + amt ≤ n
      → off + amt ≤ max_size
      → ShowsFile f n l file
      → Filled (tabulate f off amt) (x_read meta S file amt (pos off)).0
  unfolding x_read read_mapped
  x_read-Filled f n l off amt file p h k s =
      rw
        (
          s.1,
          lt→leb s.0.logical_size off (omega (arith, s.2.sized, h, p)),
          le→ltb s.0.logical_size (off + amt) (omega (arith, s.2.sized, h)),
        )
        (finish-Filled (tabulate f off amt) file (read S amt (pos off) s.0)
          (read-Represents lawful meta amt off s.2 k))

  -- What SQLite sees of a file with the bytes `f` and the size `n`.
  abbrev pub Visible : (ℕ → ℕ) → ℕ → AppendOnlyFile meta S → Type 0
  Visible f n file =
      (x_file_size meta S file ≡ (sqlite_ok, some n))
      × ((off amt : ℕ)
          → 0 < amt
          → off + amt ≤ n
          → off + amt ≤ max_size
          → Filled (tabulate f off amt) (x_read meta S file amt (pos off)).0)

  pub shows-Visible :
      (f : ℕ → ℕ) (n l : ℕ) (file : AppendOnlyFile meta S) → ShowsFile f n l file → Visible f n file
  unfolding x_file_size
  shows-Visible f n l file s = (
    rw s.1 (ap (λ k. (sqlite_ok, some k)) s.2.sized),
    λ off amt p h k. x_read-Filled f n l off amt file p h k s,
  )

  -- On an open file that shows `f` of size `n`, let SQLite call `xWrite`, `xTruncate` and `xSync`
  -- within the bounds, in any order, up to the first code that is not SQLITE_OK. If there is none, then
  -- `xFileSize` gives the size, and `xRead` within it the bytes, that the specification says. A code
  -- other than SQLITE_OK comes only from a fault of the storage.
  pub vfs_calls-Visible :
      (cs : List Call) (f : ℕ → ℕ) (n l : ℕ) (file : AppendOnlyFile meta S)
      → AllInBounds cs
      → ShowsFile f n l file
      → Answers (Visible (file_after cs f) (total_after cs n)) (vfs_calls meta S cs file)
  vfs_calls-Visible cs f n l file h s =
      weaken (vfs_calls meta S cs file) (vfs_calls-Answers cs f n l file h s)
    where
      weaken :
          (r : Code × AppendOnlyFile meta S)
          → Answers (ShowsFile (file_after cs f) (total_after cs n) (logged_total cs l)) r
          → Answers (Visible (file_after cs f) (total_after cs n)) r
      weaken (sqlite_ok, file') a =
          shows-Visible (file_after cs f) (total_after cs n) (logged_total cs l) file' a
      weaken (_, file') a = a
