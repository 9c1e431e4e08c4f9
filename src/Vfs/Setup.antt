-- ===== src/Vfs/Setup.antt =====
-- vfs_backend.cc and extension.cc: `xFullPathname`, and the registration of the VFS when SQLite loads
-- the extension. The default VFS and `sqlite3_vfs_register` are parameters.
use sqlite_on_gcs_rapid.Base.{
  ℕ, zero, suc, ◌-◌, max, ◌≤◌, ◌<◌, ◌≡◌, refl, ap, ◌∙◌, List, [], ◌∷◌, ◌++◌, Option, none, some,
  true, false, ◌==◌, if◌then◌else◌, length, length-append, length-take-min, length-replicate,
  append_assoc, replicate, take, arith,
}
use sqlite_on_gcs_rapid.Status.{Result, ok, err, internal}
use sqlite_on_gcs_rapid.Vfs.{Code, sqlite_ok, sqlite_error, cantopen, FilePath, is_gcs}

-- `strncpy` of at most `n` bytes, which fills up with zeros.
abbrev strncpy : FilePath → ℕ → List ℕ
strncpy path n = take n path ++ replicate (n - length path) 0

-- The code and the buffer `zOut` of `n_out` bytes, if it is filled here.
unfoldable pub x_full_pathname :
    (FilePath → ℕ → Code × Option (List ℕ)) → Option FilePath → ℕ → Code × Option (List ℕ)
unfolding is_gcs
x_full_pathname default none n_out = (cantopen, none)
x_full_pathname default (some path) n_out =
    if is_gcs path
    then (sqlite_ok, some (strncpy path (n_out - 1) ++ 0 ∷ []))
    else default path n_out

-- The fields of a `sqlite3_vfs` that are set at the registration.
pub record VfsFields : Type 0 where
  pub mx_pathname : ℕ
  pub sz_os_file : ℕ

abbrev registered : VfsFields → Code → Result (Unit {0}) × Option VfsFields
registered fields sqlite_ok = (ok tt, some fields)
registered fields _ = (err internal, some fields)

-- `find` is the default VFS, `register` what `sqlite3_vfs_register` returns, `size` is
-- `sizeof(AppendOnlyFile)`. The fields of the VFS come back if they are set.
unfoldable pub register_append_only_vfs :
    ℕ → Option VfsFields → (VfsFields → Code) → Result (Unit {0}) × Option VfsFields
register_append_only_vfs size none register = (err internal, none)
register_append_only_vfs size (some vfs) register =
    let fields : VfsFields = record {
      mx_pathname = vfs.mx_pathname;
      sz_os_file = max size vfs.sz_os_file;
    } in
    registered fields (register fields)

abbrev loaded : Result (Unit {0}) × Option VfsFields → Code × Option VfsFields
loaded (ok _, fields) = (sqlite_ok, fields)
loaded (err _, fields) = (sqlite_error, fields)

-- `sqlite3_gcsvfs_init`, and the other two entry points, which call it.
unfoldable pub gcsvfs_init : ℕ → Option VfsFields → (VfsFields → Code) → Code × Option VfsFields
unfolding register_append_only_vfs
gcsvfs_init size find register = loaded (register_append_only_vfs size find register)

-- The bytes of a C string, up to its zero.
unfoldable pub c_string : List ℕ → List ℕ
c_string [] = []
c_string (c ∷ cs) = let rest = c_string cs in if c == 0 then [] else c ∷ rest

abbrev pub HasNoZero : List ℕ → Type 0
HasNoZero [] = Unit {0}
HasNoZero (c ∷ cs) = ((c == 0) ≡ false) × HasNoZero cs

c_string-append : (a b : List ℕ) → HasNoZero a → c_string b ≡ [] → c_string (a ++ b) ≡ a
unfolding c_string
c_string-append [] b h e = e
c_string-append (c ∷ a) b h e = rw (h.0, c_string-append a b h.1 e) refl

c_string-zeros : (k : ℕ) → c_string (replicate k 0 ++ 0 ∷ []) ≡ []
unfolding c_string replicate
c_string-zeros zero = refl
c_string-zeros (suc k) = refl

take-HasNoZero : (n : ℕ) (p : List ℕ) → HasNoZero p → HasNoZero (take n p)
unfolding take
take-HasNoZero zero p h = tt
take-HasNoZero (suc n) [] h = tt
take-HasNoZero (suc n) (c ∷ p) h = (h.0, take-HasNoZero n p h.1)

length-strncpy : (n : ℕ) (p : List ℕ) → length (strncpy p n) ≡ n
length-strncpy n p = omega (
  arith,
  length-append (take n p) (replicate (n - length p) 0),
  length-take-min n p,
  length-replicate {A = ℕ} (n - length p) 0,
)

-- For a path of Cloud Storage without zero bytes, `xFullPathname` succeeds and writes exactly the
-- `n_out` bytes of the buffer, if there is one at least. What SQLite reads there is the path, cut to
-- `n_out - 1` bytes.
pub x_full_pathname-Fits :
    (default : FilePath → ℕ → Code × Option (List ℕ)) (path : FilePath) (n_out : ℕ)
    → is_gcs path ≡ true
    → HasNoZero path
    → 0 < n_out
    → (buf : List ℕ) × (x_full_pathname default (some path) n_out ≡ (sqlite_ok, some buf))
      × (length buf ≡ n_out)
      × (c_string buf ≡ take (n_out - 1) path)
unfolding x_full_pathname
x_full_pathname-Fits default path n_out g h k = (
  strncpy path (n_out - 1) ++ 0 ∷ [],
  rw g refl,
  omega (
    arith,
    length-append (strncpy path (n_out - 1)) (0 ∷ []),
    length-strncpy (n_out - 1) path,
    k,
  ),
  ap c_string
        (append_assoc (take (n_out - 1) path) (replicate (n_out - 1 - length path) 0) (0 ∷ []))
      ∙ c_string-append (take (n_out - 1) path) (replicate (n_out - 1 - length path) 0 ++ 0 ∷ [])
          (take-HasNoZero (n_out - 1) path h) (c_string-zeros (n_out - 1 - length path)),
)

loaded-registered :
    (fields : VfsFields) (c : Code)
    → (loaded (registered fields c)).0 ≡ sqlite_ok
    → (c ≡ sqlite_ok) × ((loaded (registered fields c)).1 ≡ some fields)
loaded-registered fields sqlite_ok h = (refl, refl)
loaded-registered fields _ h = absurd (cc)

-- Where the extension loads, SQLite took the VFS with the default VFS's limit of path names, and with
-- room in a file for an `AppendOnlyFile` and for a file of the default VFS, to which `xOpen` leaves
-- some files.
pub gcsvfs_init-Fits :
    (size : ℕ) (vfs : VfsFields) (register : VfsFields → Code)
    → (gcsvfs_init size (some vfs) register).0 ≡ sqlite_ok
    → (fields : VfsFields) × (register fields ≡ sqlite_ok)
      × ((gcsvfs_init size (some vfs) register).1 ≡ some fields)
      × (fields.mx_pathname ≡ vfs.mx_pathname)
      × (size ≤ fields.sz_os_file)
      × (vfs.sz_os_file ≤ fields.sz_os_file)
unfolding gcsvfs_init register_append_only_vfs
gcsvfs_init-Fits size vfs register h =
    let fields : VfsFields = record {
      mx_pathname = vfs.mx_pathname;
      sz_os_file = max size vfs.sz_os_file;
    } in
    let r : (register fields ≡ sqlite_ok)
        × ((loaded (registered fields (register fields))).1 ≡ some fields) =
      loaded-registered fields (register fields) h in
    (fields, r.0, r.1, refl, omega arith, omega arith)
