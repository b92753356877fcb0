-- ===== src/Release/Commits.antt =====
-- The first loop of `run` in hack/tools/release/notes.go: the commits in the output of git.
use cluster_api_provider_bmc.Base.{
  String, Option, none, some, List, [], ◌∷◌, ◌++◌, string_eq, if◌then◌else◌,
}
use cluster_api_provider_bmc.Go.Format.{is_empty}
use cluster_api_provider_bmc.Go.Text.{trim_space, has_prefix}

pub record Commit : Type 0 where
  pub merge : String
  pub body : String

abbrev pub new_commit : Commit
new_commit = record { merge = ""; body = "" }

-- A write to `commits[last]`, where `none` is the panic of the index -1.
unfoldable pub update_last : (Commit → Commit) → List Commit → Option (List Commit)
update_last f [] = none
update_last f (c ∷ []) = some (f c ∷ [])
update_last f (c ∷ (d ∷ cs)) = elim (update_last f (d ∷ cs)) [
  | none ↦ none
  | some rest ↦ some (c ∷ rest)
]

abbrev set_merge : String → Commit → Commit
set_merge line c = record c { merge = line }

abbrev set_body : String → Commit → Commit
set_body line c = record c { body = line }

-- The `switch` on a line that is trimmed.
unfoldable pub add_line : String → List Commit → Option (List Commit)
unfolding update_last
add_line line commits =
    if has_prefix line "commit"
    then some (commits ++ (new_commit ∷ []))
    else if has_prefix line "Merge"
    then update_last (set_merge line) commits
    else if is_empty line
    then some commits
    else update_last (set_body line) commits

unfoldable pub add_lines : List String → List Commit → Option (List Commit)
unfolding add_line
add_lines [] commits = some commits
add_lines (line ∷ lines) commits = elim (add_line (trim_space line) commits) [
  | none ↦ none
  | some commits' ↦ add_lines lines commits'
]
