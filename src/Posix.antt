-- ===== src/Posix.antt =====
-- The system calls that local_storage.cc and import_export.cc make on a file descriptor, as a
-- parameter, and the loop of both around `write`.
pub mod Laws
pub mod Writes
use sqlite_on_gcs_rapid.Base.{
  ℕ, zero, suc, ◌+◌, List, [], ◌∷◌, Bool, true, false, if◌then◌else◌, length, drop,
}
use sqlite_on_gcs_rapid.Status.{Code, Result, ok, err, internal, Exec}
use sqlite_on_gcs_rapid.Vfs.{FilePath}

-- What a system call returns: its value, or -1 with an `errno`.
pub data Called {ℓ} (Errno : Type 0) (A : Type ℓ) : Type ℓ where
  returned : A → Called Errno A
  failed : Errno → Called Errno A

pub data OpenMode : Type 0 where
  read_write_create write_create_truncate read_only : OpenMode

-- `State` is an open descriptor: its file, its position, and what the system answers next.
-- `interruptions` bounds how often calls on it are still interrupted by signals.
pub record Posix : Type 1 where
  pub Errno : Type 0
  pub is_eintr : Errno → Bool
  pub errno_to_status : Errno → Code
  pub State : Type 0
  pub open_file : FilePath → OpenMode → Called Errno State
  pub lseek_end : State → Called Errno ℕ × State
  pub write : List ℕ → State → Called Errno ℕ × State
  pub read : ℕ → State → Called Errno (List ℕ) × State
  pub pread : ℕ → ℕ → State → Called Errno (List ℕ) × State
  pub fsync : State → Called Errno (Unit {0}) × State
  pub fstat_size : State → Called Errno ℕ × State
  pub interruptions : State → ℕ

module _ (P : Posix) where
  abbrev pub checked {ℓ} : {A : Type ℓ} → Called P.Errno A × P.State → Result A × P.State
  checked (returned a, s) = (ok a, s)
  checked (failed e, s) = (err (P.errno_to_status e), s)

  -- A call whose error is returned whatever it is.
  abbrev pub call {ℓ} : {A : Type ℓ} → (P.State → Called P.Errno A × P.State) → Exec P.State A
  call f s = checked (f s)

  -- The body of the loop: `again` is the loop for the rest.
  abbrev pub after_write :
      (List ℕ → Exec P.State (Unit {0}))
      → List ℕ
      → Called P.Errno ℕ × P.State
      → Result (Unit {0}) × P.State
  after_write again d (returned k, s) = again (drop k d) s
  after_write again d (failed e, s) =
      if P.is_eintr e then again d s else (err (P.errno_to_status e), s)

  -- `while (bytes_written < size)`. Fuel is never short: see `write_all`.
  unfoldable pub write_loop : ℕ → List ℕ → Exec P.State (Unit {0})
  write_loop fuel [] s = (ok tt, s)
  write_loop zero (x ∷ d) s = (err internal, s)
  write_loop (suc fuel) (x ∷ d) s = after_write (write_loop fuel) (x ∷ d) (P.write (x ∷ d) s)

  -- Each round writes a byte or is one of the interruptions.
  unfoldable pub write_all : List ℕ → Exec P.State (Unit {0})
  unfolding write_loop
  write_all d s = write_loop (length d + P.interruptions s) d s
