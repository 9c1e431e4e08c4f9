-- ===== src/Tools.antt =====
-- The command-line tools, sqlite_log_tool_main.cc and compactor_main.cc. What they print is left out.
pub mod LogTool
pub mod CompactorMain
pub mod Names
use sqlite_on_gcs_rapid.Base.{ℕ, List, [], ◌∷◌, Option, none, some, if◌then◌else◌, drop}
use sqlite_on_gcs_rapid.Status.{Result, ok, err}
use sqlite_on_gcs_rapid.Vfs.{FilePath, starts_with, gcs_prefix, split_slash}

abbrev pub gs_prefix : List ℕ
gs_prefix = b'g' ∷ b's' ∷ b':' ∷ b'/' ∷ b'/' ∷ []

-- `ParseGcsPath`: the bucket and the object; `none` where it returns false.
unfoldable pub parse_gcs_path : FilePath → Option (List ℕ × List ℕ)
unfolding starts_with split_slash
parse_gcs_path path =
    if starts_with gcs_prefix path
    then split_slash (drop 6 path)
    else if starts_with gs_prefix path
    then split_slash (drop 5 path)
    else none

-- The exit code of a program that ends with this status.
abbrev pub exit_code : Result (Unit {0}) → ℕ
exit_code (ok _) = 0
exit_code (err _) = 1
