-- ===== src/Vfs.antt =====
-- vfs_backend.cc: the SQLite VFS "appendonly": the methods of an open file, and the registry of open
-- files and in-memory journals. Paths are the bytes of the C strings; a null `zName` is `none`. What
-- other code does (the default VFS, the storages' factories) comes in as `Backends`.
pub mod Registry
pub mod Setup
pub mod Calls
pub mod Reopens
pub mod Journals
pub mod Reads
use sqlite_on_gcs_rapid.Base.{
  ℕ, zero, suc, ◌+◌, ◌-◌, List, [], ◌∷◌, ◌++◌, Option, none, some, Bool, true, false, not, ◌||◌,
  ◌&&◌, ℤ, pos, negsuc, ltb, leb, ◌==◌, if◌then◌else◌, length, replicate, drop, arith,
}
use sqlite_on_gcs_rapid.Status.{Result, ok, err}
use sqlite_on_gcs_rapid.Storage.{Storage}
use sqlite_on_gcs_rapid.Table.{MetadataBlock, fresh}
use sqlite_on_gcs_rapid.Mapper.{Mapper, MapperOf, read, write, truncate, sync}
use sqlite_on_gcs_rapid.Recovery.{init}

-- The result codes of SQLite that the VFS returns.
pub data Code : Type 0 where
  sqlite_ok ioerr_read ioerr_short_read ioerr_write ioerr_truncate ioerr_dirty ioerr : Code
  cantopen busy ioerr_delete notfound sqlite_error : Code

abbrev pub FilePath : Type 0
FilePath = List ℕ

unfoldable pub same_path : FilePath → FilePath → Bool
same_path [] [] = true
same_path [] (_ ∷ _) = false
same_path (_ ∷ _) [] = false
same_path (a ∷ p) (b ∷ q) = a == b && same_path p q

-- A `std::unordered_set` of paths, or the keys of a map.
unfoldable pub contains : FilePath → List FilePath → Bool
unfolding same_path
contains p [] = false
contains p (q ∷ qs) = same_path q p || contains p qs

unfoldable pub insert : FilePath → List FilePath → List FilePath
unfolding contains
insert p qs = if contains p qs then qs else p ∷ qs

unfoldable pub erase : FilePath → List FilePath → List FilePath
unfolding same_path
erase p [] = []
erase p (q ∷ qs) = let rest = erase p qs in if same_path q p then rest else q ∷ rest

-- `path.rfind(prefix, 0) == 0`
unfoldable pub starts_with : List ℕ → FilePath → Bool
starts_with [] p = true
starts_with (c ∷ cs) [] = false
starts_with (c ∷ cs) (a ∷ p) = c == a && starts_with cs p

abbrev pub gcs_prefix : List ℕ
gcs_prefix = b'g' ∷ b'c' ∷ b's' ∷ b':' ∷ b'/' ∷ b'/' ∷ []

unfoldable pub is_gcs : FilePath → Bool
unfolding starts_with
is_gcs p = starts_with gcs_prefix p

-- The bucket and the object around the first '/'; `none` if there is none.
unfoldable pub split_slash : List ℕ → Option (List ℕ × List ℕ)
split_slash [] = none
split_slash (c ∷ cs) = elim (c == b'/') [
  | true ↦ some ([], cs)
  | false ↦ elim (split_slash cs) [
    | none ↦ none
    | some (bucket, object) ↦ some (c ∷ bucket, object)
  ]
]

-- The bucket and the object of a path behind "gcs://".
unfoldable pub gcs_name : FilePath → Option (List ℕ × List ℕ)
unfolding split_slash
gcs_name p = split_slash (drop 6 p)

-- The bits of `flags` that the VFS tests.
pub record OpenFlags : Type 0 where
  pub wal : Bool
  pub main_db : Bool
  pub main_journal : Bool
  pub temp_journal : Bool
  pub subjournal : Bool
  pub super_journal : Bool

unfoldable pub is_journal : OpenFlags → Bool
is_journal f = f.main_journal || f.temp_journal || f.subjournal || f.super_journal

module _ (meta : MetadataBlock) (S : Storage) where
  -- `AppendOnlyFile`; a null `mapper` is `none`.
  pub record AppendOnlyFile : Type 0 where
    pub mapper : Option (MapperOf S)
    pub path : FilePath

  abbrev pub keep : AppendOnlyFile → MapperOf S → AppendOnlyFile
  keep file m = record file { mapper = some m }

  abbrev pub code_of : Code → Result (Unit {0}) → Code
  code_of c (ok _) = sqlite_ok
  code_of c (err _) = c

  -- The outcome of a read of `amt` bytes whose first bytes are asked of the mapper: the code, and
  -- the buffer if it is filled.
  abbrev pub read_code : ℕ → Code → Result (List ℕ) → Code × Option (List ℕ)
  read_code rest c (ok d) = (c, some (d ++ replicate rest 0))
  read_code rest c (err _) = (ioerr_read, none)

  abbrev pub finish :
      AppendOnlyFile
      → ℕ
      → Code
      → Result (List ℕ) × MapperOf S
      → (Code × Option (List ℕ)) × AppendOnlyFile
  finish file rest c (r, m) = (read_code rest c r, keep file m)

  -- A negative offset is below the size, and `Read` refuses it on both of the remaining branches.
  unfoldable pub read_mapped :
      AppendOnlyFile → MapperOf S → ℕ → ℤ → (Code × Option (List ℕ)) × AppendOnlyFile
  read_mapped file m amt (negsuc k) = finish file 0 sqlite_ok (read S amt (negsuc k) m)
  read_mapped file m amt (pos ofst) =
      if leb m.logical_size ofst
      then ((ioerr_short_read, some (replicate amt 0)), file)
      else if ltb m.logical_size (ofst + amt)
      then finish file (amt - (m.logical_size - ofst)) ioerr_short_read
          (read S (m.logical_size - ofst) (pos ofst) m)
      else finish file 0 sqlite_ok (read S amt (pos ofst) m)

  unfoldable pub x_read : AppendOnlyFile → ℕ → ℤ → (Code × Option (List ℕ)) × AppendOnlyFile
  unfolding read_mapped
  x_read file amt ofst = elim file.mapper [
    | none ↦ ((ioerr_read, none), file)
    | some m ↦ read_mapped file m amt ofst
  ]

  unfoldable pub x_write : AppendOnlyFile → List ℕ → ℤ → Code × AppendOnlyFile
  x_write file buf ofst = elim file.mapper [
    | none ↦ (ioerr_write, file)
    | some m ↦ let (r, m') = write S buf ofst m in (code_of ioerr_write r, keep file m')
  ]

  unfoldable pub x_truncate : AppendOnlyFile → ℤ → Code × AppendOnlyFile
  x_truncate file size = elim file.mapper [
    | none ↦ (ioerr_truncate, file)
    | some m ↦ let (r, m') = truncate meta S size m in (code_of ioerr_truncate r, keep file m')
  ]

  unfoldable pub x_sync : AppendOnlyFile → Code × AppendOnlyFile
  x_sync file = elim file.mapper [
    | none ↦ (ioerr_dirty, file)
    | some m ↦ let (r, m') = sync S m in (code_of ioerr_dirty r, keep file m')
  ]

  -- The size goes through `pSize`.
  unfoldable pub x_file_size : AppendOnlyFile → Code × Option ℕ
  x_file_size file = elim file.mapper [
    | none ↦ (ioerr, none)
    | some m ↦ (sqlite_ok, some m.logical_size)
  ]

-- The methods that do nothing.
unfoldable pub x_lock : ℕ → Code
x_lock lock = sqlite_ok

unfoldable pub x_unlock : ℕ → Code
x_unlock lock = sqlite_ok

unfoldable pub x_check_reserved_lock : Code × ℕ
x_check_reserved_lock = (sqlite_ok, 0)

unfoldable pub x_file_control : ℕ → Code
x_file_control op = notfound

unfoldable pub x_sector_size : ℕ
x_sector_size = 4096
