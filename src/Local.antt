-- ===== src/Local.antt =====
-- local_storage.cc: `LocalStorage`, a local file behind a descriptor. The system calls are a
-- parameter. The mutex is not modelled: each call is one step.
pub mod Reads
pub mod Lawful
use sqlite_on_gcs_rapid.Base.{
  ℕ, zero, suc, ◌+◌, ◌-◌, List, [], ◌∷◌, ◌++◌, ℤ, pos, negsuc, ◌==◌, if◌then◌else◌, length,
}
use sqlite_on_gcs_rapid.Status.{
  Result, ok, err, internal, invalid_argument, Exec, pure, ◌>>=◌, ◌>>◌,
}
use sqlite_on_gcs_rapid.Storage.{Storage}
use sqlite_on_gcs_rapid.Posix.{Posix, Called, returned, failed, read_write_create, call, write_all}
use sqlite_on_gcs_rapid.Vfs.{FilePath}

module _ (P : Posix) where
  -- `Open`
  unfoldable pub open_local : FilePath → Result P.State
  open_local path = elim (P.open_file path read_write_create) [
    | returned s ↦ ok s
    | failed e ↦ err (P.errno_to_status e)
  ]

  -- `Append` at the end of the file.
  unfoldable pub append_at : List ℕ → ℕ → Exec P.State ℕ
  unfolding write_all
  append_at d off = if length d == 0 then pure off else do write_all P d; pure off

  unfoldable pub append : List ℕ → Exec P.State ℕ
  unfolding append_at
  append d = do off ← call P P.lseek_end; append_at d off

  abbrev pub prepend : List ℕ → Result (List ℕ) × P.State → Result (List ℕ) × P.State
  prepend d (ok e, s) = (ok (d ++ e), s)
  prepend d (err c, s) = (err c, s)

  -- The body of the loop of `PRead`: `again` is the loop for the rest.
  abbrev pub after_pread :
      (ℕ → ℕ → Exec P.State (List ℕ))
      → ℕ
      → ℕ
      → Called P.Errno (List ℕ) × P.State
      → Result (List ℕ) × P.State
  after_pread again n o (returned [], s) = (ok [], s)
  after_pread again n o (returned (x ∷ d), s) =
      prepend (x ∷ d) (again (n - length (x ∷ d)) (o + length (x ∷ d)) s)
  after_pread again n o (failed e, s) =
      if P.is_eintr e then again n o s else (err (P.errno_to_status e), s)

  -- `while (bytes_read < size)`. Fuel is never short: see `pread`.
  unfoldable pub pread_loop : ℕ → ℕ → ℕ → Exec P.State (List ℕ)
  pread_loop fuel zero o s = (ok [], s)
  pread_loop zero (suc n) o s = (err internal, s)
  pread_loop (suc fuel) (suc n) o s = after_pread (pread_loop fuel) (suc n) o (P.pread (suc n) o s)

  -- Each round reads a byte, or is the last one, or is one of the interruptions.
  unfoldable pub pread : ℕ → ℤ → Exec P.State (List ℕ)
  unfolding pread_loop
  pread n (negsuc _) s = (err invalid_argument, s)
  pread n (pos o) s = pread_loop (n + P.interruptions s) n o s

  unfoldable pub get_size : Exec P.State ℕ
  get_size = call P P.fstat_size

  unfoldable pub sync : Exec P.State (Unit {0})
  sync = call P P.fsync

  abbrev pub local_storage : Storage
  local_storage = record {
    State = P.State;
    append = append;
    pread = pread;
    get_size = get_size;
    sync = sync;
  }
