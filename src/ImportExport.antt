-- ===== src/ImportExport.antt =====
-- import_export.cc: `ExportLog` writes the logical file of a log to a raw file, `ImportLog` the other
-- way round. The raw file is behind system calls, which are a parameter.
pub mod Copies
pub mod Exports
pub mod Imports
pub mod RoundTrip
use sqlite_on_gcs_rapid.Base.{
  ℕ, zero, suc, ◌+◌, ◌-◌, min, List, [], ◌∷◌, Option, none, some, Bool, true, false, pos,
  if◌then◌else◌, length,
}
use sqlite_on_gcs_rapid.Status.{Result, ok, err, internal, Exec, pure, ◌>>=◌, ◌>>◌}
use sqlite_on_gcs_rapid.Storage.{Storage}
use sqlite_on_gcs_rapid.Table.{MetadataBlock, fresh}
use sqlite_on_gcs_rapid.Mapper.{Mapper, MapperOf, read, write, truncate, sync}
use sqlite_on_gcs_rapid.Recovery.{init}
use sqlite_on_gcs_rapid.Posix.{
  Posix, Called, returned, failed, write_create_truncate, read_only, call, write_all,
}
use sqlite_on_gcs_rapid.Vfs.{FilePath}

module _ (meta : MetadataBlock) (S : Storage) (P : Posix) where
  -- The mapper, and the descriptor of the raw file.
  abbrev pub Copying : Type 0
  Copying = MapperOf S × P.State

  abbrev pub on_mapper {ℓ} : {A : Type ℓ} → Exec (MapperOf S) A → Exec Copying A
  on_mapper f p = let (r, m) = f p.0 in (r, (m, p.1))

  abbrev pub on_raw {ℓ} : {A : Type ℓ} → Exec P.State A → Exec Copying A
  on_raw f p = let (r, s) = f p.1 in (r, (p.0, s))

  -- The loop of `ExportLog`, for the `remaining` bytes from `offset` on. A round takes one at least, so
  -- as many rounds do.
  unfoldable pub export_loop : ℕ → ℕ → ℕ → Exec Copying (Unit {0})
  export_loop fuel zero offset = pure tt
  export_loop zero (suc remaining) offset = λ p. (err internal, p)
  export_loop (suc fuel) (suc remaining) offset = do
    let to_read = min 4096 (suc remaining)
    d ← on_mapper (read S to_read (pos offset))
    on_raw (write_all P d)
    export_loop fuel (suc remaining - to_read) (offset + to_read)

  abbrev pub opened_raw :
      Exec Copying (Unit {0})
      → MapperOf S
      → Called P.Errno P.State
      → Result (Unit {0}) × (MapperOf S × Option P.State)
  opened_raw f m (failed e) = (err (P.errno_to_status e), (m, none))
  opened_raw f m (returned raw) = let (r, p) = f (m, raw) in (r, (p.0, some p.1))

  abbrev pub initialised :
      (MapperOf S → Result (Unit {0}) × (MapperOf S × Option P.State))
      → Result (Unit {0}) × MapperOf S
      → Result (Unit {0}) × (MapperOf S × Option P.State)
  initialised f (err c, m) = (err c, (m, none))
  initialised f (ok _, m) = f m

  -- The result, the mapper at the end, and the raw file if it was opened.
  unfoldable pub export_log : S.State → FilePath → Result (Unit {0}) × (MapperOf S × Option P.State)
  unfolding export_loop
  export_log s path =
      initialised
        (λ m.
          opened_raw (export_loop m.logical_size m.logical_size 0) m
            (P.open_file path write_create_truncate))
        (init meta S (record { storage = s; table = fresh }))

  -- The body of the loop of `ImportLog`: `again` is the loop from an offset on.
  abbrev pub after_read :
      (ℕ → Exec Copying (Unit {0}))
      → ℕ
      → MapperOf S
      → Called P.Errno (List ℕ) × P.State
      → Result (Unit {0}) × Copying
  after_read again offset m (returned [], raw) = (ok tt, (m, raw))
  after_read again offset m (returned (x ∷ d), raw) =
      (on_mapper (write S (x ∷ d) (pos offset)) >> again (offset + length (x ∷ d))) (m, raw)
  after_read again offset m (failed e, raw) =
      if P.is_eintr e then again offset (m, raw) else (err (P.errno_to_status e), (m, raw))

  -- `while (true)`. Fuel is never short: see `import_raw`.
  unfoldable pub import_loop : ℕ → ℕ → Exec Copying (Unit {0})
  import_loop zero offset p = (err internal, p)
  import_loop (suc fuel) offset (m, raw) = after_read (import_loop fuel) offset m (P.read 4096 raw)

  -- Each round of the loop reads a byte, or is the last one, or is one of the interruptions.
  abbrev pub copy_in : ℕ → Exec Copying (Unit {0})
  copy_in raw_size p = import_loop (suc (raw_size + P.interruptions p.1)) 0 p

  abbrev pub finish_import : ℕ → Exec Copying (Unit {0})
  finish_import raw_size = do on_mapper (truncate meta S (pos raw_size)); on_mapper (sync S)

  -- `ImportLog` behind the opening of the raw file.
  unfoldable pub import_raw : Exec Copying (Unit {0})
  unfolding import_loop
  import_raw = do raw_size ← on_raw (call P P.fstat_size); copy_in raw_size; finish_import raw_size

  unfoldable pub import_log : FilePath → S.State → Result (Unit {0}) × (MapperOf S × Option P.State)
  unfolding import_raw
  import_log path s =
      initialised (λ m. opened_raw import_raw m (P.open_file path read_only))
        (init meta S (record { storage = s; table = fresh }))
