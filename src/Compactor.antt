-- ===== src/Compactor.antt =====
-- compactor.cc: `WriteCompactedRecords`, which writes the mapped blocks of a file as a new log. The
-- output stream is a parameter.
pub mod Outputs
pub mod Commits
pub mod Recovered
pub mod Object
use sqlite_on_gcs_rapid.Base.{
  ℕ, zero, suc, ◌+◌, ◌*◌, List, [], ◌∷◌, Bool, true, false, pos, if◌then◌else◌,
}
use sqlite_on_gcs_rapid.Status.{Result, ok, err, internal, Exec, pure, ◌>>=◌, ◌>>◌}
use sqlite_on_gcs_rapid.Storage.{Storage}
use sqlite_on_gcs_rapid.Record.{encode_int64}
use sqlite_on_gcs_rapid.Table.{is_block_mapped, ceil_blocks}
use sqlite_on_gcs_rapid.Mapper.{Mapper, MapperOf, read}

-- `std::ostream`
pub record OutputStream : Type 1 where
  pub State : Type 0
  pub write : List ℕ → State → State
  pub good : State → Bool

module _ (S : Storage) (O : OutputStream) where
  abbrev pub Compaction : Type 0
  Compaction = MapperOf S × O.State

  -- The three writes of a block, and the test of the stream.
  abbrev pub put_block : ℕ → O.State → Result (List ℕ) × MapperOf S → Result (Unit {0}) × Compaction
  put_block b o (err c, m) = (err c, (m, o))
  put_block b o (ok d, m) =
      let o' = O.write (1 ∷ []) (O.write d (O.write (encode_int64 (pos b)) o)) in
      (if O.good o' then ok tt else err internal, (m, o'))

  unfoldable pub write_block : ℕ → Exec Compaction (Unit {0})
  unfolding is_block_mapped
  write_block b (m, o) =
      if is_block_mapped m.table (pos b)
      then put_block b o (read S 4096 (pos (b * 4096)) m)
      else (ok tt, (m, o))

  -- The loop, over `rounds` blocks from `b` on.
  unfoldable pub write_blocks : ℕ → ℕ → Exec Compaction (Unit {0})
  unfolding write_block
  write_blocks zero b = pure tt
  write_blocks (suc rounds) b = do write_block b; write_blocks rounds (b + 1)

  unfoldable pub write_compacted_records : Exec Compaction (Unit {0})
  unfolding write_blocks
  write_compacted_records p = write_blocks (ceil_blocks p.0.table.logical_size) 0 p
