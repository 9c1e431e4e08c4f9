-- ===== src/Tests/Files.antt =====
-- The properties over files at concrete inputs: an operating system whose files are lists of bytes,
-- which takes and gives three bytes at a time, and interrupts the first calls on a descriptor.
use sqlite_on_gcs_rapid.Base.{
  ℕ, zero, suc, ◌+◌, ◌≡◌, refl, sym, ap, ◌∙◌, inl, List, [], ◌∷◌, ◌++◌, true, min, tabulate, length,
  length-drop, length-take-min, take, drop, slice, drop-add, arith,
}
use sqlite_on_gcs_rapid.Status.{internal}
use sqlite_on_gcs_rapid.Status.Returns.{Returns}
use sqlite_on_gcs_rapid.Storage.{Storage, IsLawful}
use sqlite_on_gcs_rapid.Storage.Memory.{empty, memory_storage, Holds, memory-IsLawful}
use sqlite_on_gcs_rapid.Table.{fresh}
use sqlite_on_gcs_rapid.Recovery.{init}
use sqlite_on_gcs_rapid.Session.Starts.{init-new}
use sqlite_on_gcs_rapid.Session.Refinement.{Represents, Restarts}
use sqlite_on_gcs_rapid.Posix.{
  Posix, Called, returned, failed, OpenMode, read_only, read_write_create, write_create_truncate,
}
use sqlite_on_gcs_rapid.Posix.Laws.{returns, fails, Answers, Fails, IsPosix}
use sqlite_on_gcs_rapid.Posix.{write_all}
use sqlite_on_gcs_rapid.Posix.Writes.{Partly, write_all_lem}
use sqlite_on_gcs_rapid.Local.{local_storage}
use sqlite_on_gcs_rapid.Local.Lawful.{local-IsLawful}
use sqlite_on_gcs_rapid.ImportExport.{export_log, import_log}
use sqlite_on_gcs_rapid.ImportExport.Exports.{Exported, export_log_lem}
use sqlite_on_gcs_rapid.ImportExport.Imports.{imported, import_log_lem}
use sqlite_on_gcs_rapid.ImportExport.RoundTrip.{Exports, export-import}
use sqlite_on_gcs_rapid.Tests.{plain, plain-IsFaithful, empty-Holds}

pub record Descriptor : Type 0 where
  pub file : List ℕ
  pub position : ℕ
  pub signals : ℕ

-- The only error is EINTR.
abbrev Answer : Type 0 → Type 0
Answer A = Called (Unit {0}) A × Descriptor

-- The answer, unless a signal is pending.
abbrev unless_signalled : {A : Type 0} → Answer A → ℕ → Descriptor → Answer A
unless_signalled r zero s = r
unless_signalled r (suc k) s = (failed tt, record s { signals = k })

abbrev pub raw_bytes : List ℕ
raw_bytes = 7 ∷ 8 ∷ 9 ∷ 10 ∷ []

abbrev pub raw_file : Descriptor
raw_file = record { file = raw_bytes; position = 0; signals = 2 }

abbrev pub new_file : Descriptor
new_file = record { file = []; position = 0; signals = 1 }

abbrev pub open_test : OpenMode → Descriptor
open_test read_only = raw_file
open_test read_write_create = raw_file
open_test write_create_truncate = new_file

abbrev pub test_posix : Posix
test_posix = record {
  Errno = Unit {0};
  is_eintr = λ _. true;
  errno_to_status = λ _. internal;
  State = Descriptor;
  open_file = λ _ mode. returned (open_test mode);
  lseek_end = λ s. (returned (length s.file), s);
  write = λ d s.
      unless_signalled
        (returned (min 3 (length d)), record s { file = s.file ++ take (min 3 (length d)) d })
        s.signals s;
  read = λ n s.
      unless_signalled
        (
          returned (take (min 3 n) (drop s.position s.file)),
          record s { position = s.position + length (take (min 3 n) (drop s.position s.file)) },
        )
        s.signals s;
  pread = λ n o s. unless_signalled (returned (slice o (min 3 n) s.file), s) s.signals s;
  fsync = λ s. (returned tt, s);
  fstat_size = λ s. (returned (length s.file), s);
  interruptions = λ s. s.signals;
}

-- The file of the descriptor; writes append to it.
abbrev pub Bytes : Descriptor → List ℕ → Type 0
Bytes s bs = s.file ≡ bs

abbrev pub Rest : Descriptor → List ℕ → List ℕ → Type 0
Rest s bs rest = (s.file ≡ bs) × (drop s.position s.file ≡ rest)

take-length : (m : ℕ) (d : List ℕ) → take m d ≡ take (length (take m d)) d
unfolding take
take-length zero d = refl
take-length (suc m) [] = refl
take-length (suc m) (x ∷ d) = ap (λ e. x ∷ e) (take-length m d)

-- A call keeps the laws when its answer without signals does.
unless_signalled_lem :
    {A : Type 0} {Q : A → Descriptor → Type 0} {B : Descriptor → Type 0} (r : Answer A) (k : ℕ)
    (s s₀ : Descriptor)
    → s₀.signals ≡ k
    → Answers Q (λ e s'. B s' × Fails test_posix ⊥ s₀ e s') r
    → ((j : ℕ) → B (record s { signals = j }))
    → Answers Q (λ e s'. B s' × Fails test_posix ⊥ s₀ e s') (unless_signalled r k s)
unless_signalled_lem r zero s s₀ e a b = a
unless_signalled_lem r (suc k) s s₀ e a b = fails (b k, inl (refl, omega (arith, e)))

pub test-IsPosix : IsPosix test_posix Bytes Bytes Rest ⊥
unfolding slice
test-IsPosix = record {
  at_end_holds = λ h. h;
  lseek_lem = λ s h. returns (ap length h, h);
  write_lem = λ d s h k.
      unless_signalled_lem
        (returned (min 3 (length d)), record s { file = s.file ++ take (min 3 (length d)) d })
        s.signals s s refl
        (returns
          (omega (arith, h), omega arith, omega arith, ap (λ f. f ++ take (min 3 (length d)) d) k))
        (λ j. k);
  pread_lem = λ n o s h k.
      unless_signalled_lem (returned (slice o (min 3 n) s.file), s) s.signals s s refl
        (returns (
          take-length (min 3 n) (drop o s.file)
              ∙ ap (λ f. take (length (slice o (min 3 n) s.file)) (drop o f)) k,
          omega (arith, length-take-min (min 3 n) (drop o s.file)),
          λ l. omega (
            arith,
            l,
            h,
            length-take-min (min 3 n) (drop o s.file),
            length-drop o s.file,
            ap length k,
          ),
          omega arith,
          k,
        ))
        (λ j. k);
  read_lem = λ n s {bs} h k.
      unless_signalled_lem
        (
          returned (take (min 3 n) (drop s.position s.file)),
          record s { position = s.position + length (take (min 3 n) (drop s.position s.file)) },
        )
        s.signals s s refl
        (returns (
          take-length (min 3 n) (drop s.position s.file)
              ∙ ap (take (length (take (min 3 n) (drop s.position s.file)))) k.1,
          omega (arith, length-take-min (min 3 n) (drop s.position s.file)),
          λ l.
              omega
                (arith, l, h, length-take-min (min 3 n) (drop s.position s.file), ap length k.1),
          omega (arith, length-take-min (min 3 n) (drop s.position s.file), ap length k.1),
          omega arith,
          (
            k.0,
            sym (drop-add s.position (length (take (min 3 n) (drop s.position s.file))) s.file)
                ∙ ap (drop (length (take (min 3 n) (drop s.position s.file)))) k.1,
          ),
        ))
        (λ j. k);
  fsync_lem = λ s h. returns h;
  fstat_lem = λ s h. returns (ap length h, h);
  fstat_read_lem = λ s h. returns (ap length h.0, h);
}

local-IsLawful_example : IsLawful (local_storage test_posix) Bytes ⊥
local-IsLawful_example = local-IsLawful test-IsPosix

pub starts_empty :
    {S : Storage} {H : S.State → List ℕ → Type 0} (lawful : IsLawful S H ⊥) (s : S.State)
    → H s []
    → Returns
        (λ _ m'. Represents H plain (λ _. 0) 0 0 m')
        (λ _. ⊥)
        (init plain S (record { storage = s; table = fresh }))
starts_empty lawful s h = init-new lawful plain s h

empty_starts :
    Returns
      (λ _ m'. Represents Holds plain (λ _. 0) 0 0 m')
      (λ _. ⊥)
      (init plain memory_storage (record { storage = empty; table = fresh }))
empty_starts = starts_empty memory-IsLawful empty empty-Holds

export_log_lem_example :
    Returns
      (λ _ p. Exported Bytes (tabulate (λ _. 0) 0 0) p)
      (λ _. ⊥)
      (export_log plain memory_storage test_posix empty [])
export_log_lem_example =
    export_log_lem memory-IsLawful plain test-IsPosix empty [] new_file (omega arith) refl refl
      empty_starts

import_log_lem_example :
    Returns
      (λ _ p. Restarts memory-IsLawful plain-IsFaithful (imported raw_bytes (λ _. 0)) 4 p.0)
      (λ _. ⊥)
      (import_log plain memory_storage test_posix [] empty)
unfolding drop
import_log_lem_example =
    import_log_lem memory-IsLawful plain-IsFaithful test-IsPosix empty [] raw_file raw_bytes
      (λ _. 0) 0 0 (omega arith) refl (refl, refl) empty_starts

export-import_example :
    Returns
      (λ _ p. Exports memory-IsLawful plain-IsFaithful test-IsPosix raw_bytes p.0)
      (λ _. ⊥)
      (import_log plain memory_storage test_posix [] empty)
unfolding drop
export-import_example =
    export-import memory-IsLawful plain-IsFaithful test-IsPosix empty [] raw_file raw_bytes (λ _. 0)
      0 0 (omega arith) refl (refl, refl) empty_starts

write_all_lem_example :
    Returns
      (λ _ s. Bytes s ([] ++ raw_bytes))
      (Partly test-IsPosix [] raw_bytes)
      (write_all test_posix raw_bytes new_file)
write_all_lem_example = write_all_lem test-IsPosix raw_bytes new_file [] refl
