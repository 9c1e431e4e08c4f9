-- ===== src/Tools/CompactorMain.antt =====
-- compactor_main.cc: the arguments of the compactor, and its exit code.
use sqlite_on_gcs_rapid.Base.{
  ℕ, List, [], ◌∷◌, Option, none, some, Bool, true, false, ◌||◌, if◌then◌else◌, drop,
}
use sqlite_on_gcs_rapid.Table.{MetadataBlock}
use sqlite_on_gcs_rapid.Posix.{Posix}
use sqlite_on_gcs_rapid.Compactor.{OutputStream}
use sqlite_on_gcs_rapid.Compactor.Object.{Client, compact_gcs_object}
use sqlite_on_gcs_rapid.Vfs.{same_path, starts_with, split_slash}
use sqlite_on_gcs_rapid.Tools.{gs_prefix, exit_code}

-- What the arguments ask for.
pub data Request : Type 0 where
  help invalid : Request
  compact : List ℕ → List ℕ → Request

abbrev is_empty : List ℕ → Bool
is_empty [] = true
is_empty (_ ∷ _) = false

abbrev pub checked_names : List ℕ → List ℕ → Request
checked_names bucket object =
    if is_empty bucket || is_empty object then invalid else compact bucket object

abbrev of_uri : Option (List ℕ × List ℕ) → Request
of_uri none = invalid
of_uri (some (bucket, object)) = checked_names bucket object

unfoldable pub single_argument : List ℕ → Request
unfolding same_path starts_with split_slash
single_argument arg =
    if same_path arg (b'-' ∷ b'h' ∷ [])
      || same_path arg (b'-' ∷ b'-' ∷ b'h' ∷ b'e' ∷ b'l' ∷ b'p' ∷ [])
    then help
    else if starts_with gs_prefix arg
    then of_uri (split_slash (drop 5 arg))
    else invalid

-- `argv`, with the name of the program first.
unfoldable pub request : List (List ℕ) → Request
unfolding single_argument
request (prog ∷ (arg ∷ [])) = single_argument arg
request (prog ∷ (bucket ∷ (object ∷ []))) = checked_names bucket object
request _ = invalid

module _ (meta : MetadataBlock) {P : Posix} {O : OutputStream}
    (client : List ℕ → List ℕ → Client P O)
    (start : (bucket object : List ℕ) → (client bucket object).State) where
  -- The exit code, and the bucket, the object and what `CompactGcsObject` leaves there, if it is
  -- called.
  abbrev pub Exited : Type 0
  Exited = ℕ × Option ((bucket : List ℕ) × (object : List ℕ) × (client bucket object).State)

  abbrev answered : Request → Exited
  answered help = (0, none)
  answered invalid = (1, none)
  answered (compact bucket object) =
      let (r, c) = compact_gcs_object meta (client bucket object) (start bucket object) in
      (exit_code r, some (bucket, object, c))

  -- `main`
  unfoldable pub compactor_main : List (List ℕ) → Exited
  unfolding request
  compactor_main args = answered (request args)
