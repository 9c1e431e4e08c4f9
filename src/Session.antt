-- ===== src/Session.antt =====
-- A client's calls of a `BlockMapper` in order, against a file that is a function of the position.
pub mod Unsynced
pub mod Refinement
pub mod Transactions
pub mod Requests
pub mod Reads
pub mod Starts
use sqlite_on_gcs_rapid.Base.{
  ℕ, ◌+◌, ◌*◌, ◌/◌, max, ◌≤◌, List, [], ◌∷◌, pos, ltb, if◌then◌else◌, length,
}
use sqlite_on_gcs_rapid.Status.{Exec, pure, ◌>>=◌, ◌>>◌}
use sqlite_on_gcs_rapid.Storage.{Storage}
use sqlite_on_gcs_rapid.Record.{max_size}
use sqlite_on_gcs_rapid.Table.{MetadataBlock, ceil_blocks}
use sqlite_on_gcs_rapid.Mapper.{MapperOf, write, truncate, sync}
use sqlite_on_gcs_rapid.Mapper.Writes.{overlay}

pub data Call : Type 0 where
  writes : List ℕ → ℕ → Call
  truncates : ℕ → Call
  syncs : Call

-- The calls that `BlockMapper` does not refuse.
abbrev pub InBounds : Call → Type 0
InBounds (writes buf off) = off + length buf ≤ max_size
InBounds (truncates n) = n ≤ max_size
InBounds syncs = Unit {0}

abbrev pub AllInBounds : List Call → Type 0
AllInBounds [] = Unit {0}
AllInBounds (c ∷ cs) = InBounds c × AllInBounds cs

-- The specification: what a call does to the bytes of the file, and to its size.
abbrev pub bytes_after : Call → (ℕ → ℕ) → ℕ → ℕ
bytes_after (writes buf off) f = overlay buf off f
bytes_after (truncates n) f = λ j. if ltb (j / 4096) (ceil_blocks n) then f j else 0
bytes_after syncs f = f

abbrev pub size_after : Call → ℕ → ℕ
size_after (writes [] off) n = n
size_after (writes (x ∷ buf) off) n = max n (off + length (x ∷ buf))
size_after (truncates k) n = k
size_after syncs n = n

-- The size that the log says, pending records included: a write counts its last block in full.
abbrev pub logged_after : Call → ℕ → ℕ
logged_after (writes [] off) l = l
logged_after (writes (x ∷ buf) off) l = max l (ceil_blocks (off + length (x ∷ buf)) * 4096)
logged_after (truncates k) l = k
logged_after syncs l = l

unfoldable pub logged_total : List Call → ℕ → ℕ
logged_total [] l = l
logged_total (c ∷ cs) l = logged_total cs (logged_after c l)

unfoldable pub file_after : List Call → (ℕ → ℕ) → ℕ → ℕ
file_after [] f = f
file_after (c ∷ cs) f = file_after cs (bytes_after c f)

unfoldable pub total_after : List Call → ℕ → ℕ
total_after [] n = n
total_after (c ∷ cs) n = total_after cs (size_after c n)

module _ (meta : MetadataBlock) (S : Storage) where
  unfoldable pub perform : Call → Exec (MapperOf S) (Unit {0})
  perform (writes buf off) = write S buf (pos off)
  perform (truncates n) = truncate meta S (pos n)
  perform syncs = sync S

  -- The calls, up to the first that fails.
  unfoldable pub run : List Call → Exec (MapperOf S) (Unit {0})
  unfolding perform
  run [] = pure tt
  run (c ∷ cs) = do perform c; run cs
