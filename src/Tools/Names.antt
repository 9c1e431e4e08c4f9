-- ===== src/Tools/Names.antt =====
-- The spellings of an object's name, in the VFS and in the tools.
use sqlite_on_gcs_rapid.Base.{ℕ, ◌≡◌, refl, List, [], ◌∷◌, ◌++◌, some, false, ◌==◌, drop}
use sqlite_on_gcs_rapid.Table.{MetadataBlock}
use sqlite_on_gcs_rapid.Posix.{Posix}
use sqlite_on_gcs_rapid.Compactor.{OutputStream}
use sqlite_on_gcs_rapid.Compactor.Object.{Client}
use sqlite_on_gcs_rapid.Vfs.{same_path, starts_with, split_slash, gcs_prefix, gcs_name}
use sqlite_on_gcs_rapid.Tools.{gs_prefix, parse_gcs_path}
use sqlite_on_gcs_rapid.Tools.CompactorMain.{request, single_argument, compactor_main}

-- A bucket's name without '/'.
abbrev pub HasNoSlash : List ℕ → Type 0
HasNoSlash [] = Unit {0}
HasNoSlash (c ∷ cs) = ((c == b'/') ≡ false) × HasNoSlash cs

split_slash-append :
    (bucket object : List ℕ)
    → HasNoSlash bucket
    → split_slash (bucket ++ b'/' ∷ object) ≡ some (bucket, object)
unfolding split_slash
split_slash-append [] object h = refl
split_slash-append (c ∷ cs) object h = rw (split_slash, h.0, split_slash-append cs object h.1) refl

-- For a bucket without '/', the VFS and `ParseGcsPath` read "gcs://bucket/object" as this bucket and
-- this object, and `ParseGcsPath` reads "gs://bucket/object" in the same way.
pub parse_gcs_path-append :
    (bucket object : List ℕ)
    → HasNoSlash bucket
    → (gcs_name (gcs_prefix ++ (bucket ++ b'/' ∷ object)) ≡ some (bucket, object))
      × (parse_gcs_path (gcs_prefix ++ (bucket ++ b'/' ∷ object)) ≡ some (bucket, object))
      × (parse_gcs_path (gs_prefix ++ (bucket ++ b'/' ∷ object)) ≡ some (bucket, object))
unfolding gcs_name parse_gcs_path starts_with drop
parse_gcs_path-append bucket object h = (
  split_slash-append bucket object h,
  split_slash-append bucket object h,
  split_slash-append bucket object h,
)

-- The compactor exits with the same code, and leaves the same behind in the same object, with the one
-- argument "gs://bucket/object" as with the two arguments `bucket` and `object`, for a bucket without
-- '/'.
pub compactor_main-uri :
    (meta : MetadataBlock) {P : Posix} {O : OutputStream} (client : List ℕ → List ℕ → Client P O)
    (start : (bucket object : List ℕ) → (client bucket object).State) (prog bucket object : List ℕ)
    → HasNoSlash bucket
    → compactor_main meta client start (prog ∷ (gs_prefix ++ (bucket ++ b'/' ∷ object)) ∷ [])
      ≡ compactor_main meta client start (prog ∷ bucket ∷ object ∷ [])
unfolding compactor_main request single_argument same_path starts_with drop
compactor_main-uri meta client start prog bucket object h =
    rw (split_slash-append bucket object h) refl
