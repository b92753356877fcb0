-- ===== src/Release/Run.antt =====
-- `run`, `lastTag` and `firstCommit` of hack/tools/release/notes.go. The calls of git are a
-- parameter.
use cluster_api_provider_bmc.Base.{
  ℕ, String, ◌<>◌, Option, none, some, List, [], ◌∷◌, ◌++◌, string_eq, if◌then◌else◌,
}
use cluster_api_provider_bmc.Go.Format.{is_empty}
use cluster_api_provider_bmc.Go.Text.{trim_space, split_lines}
use cluster_api_provider_bmc.Release.Commits.{Commit, add_lines}
use cluster_api_provider_bmc.Release.Notes.{Sections, section, unknown, output_order, add_notes}

-- A command that ended well, or failed; either way it has an output.
pub data GitAnswer : Type 0 where
  printed : String → GitAnswer
  failed : String → GitAnswer

-- An exit code with the lines that were printed, or a panic, before which nothing is printed.
pub data Ending : Type 0 where
  exit : ℕ → List String → Ending
  panicked : Ending

abbrev pub log_command : String → List String
log_command tag = "rev-list" ∷ (tag <> "..HEAD") ∷ "--merges" ∷ "--pretty=format:%B" ∷ []

-- The sections that hold a note, each behind its heading and in front of an empty line.
unfoldable pub print_sections : List String → Sections → List String
print_sections [] merges = []
print_sections (key ∷ keys) merges =
    let rest = print_sections keys merges in
    elim (section key merges) [
      | [] ↦ rest
      | note ∷ notes ↦ (("## " <> key) ∷ (note ∷ notes)) ++ ("" ∷ rest)
    ]

report : String → Option (List Commit) → Ending
unfolding print_sections
report tag none = panicked
report tag (some commits) = exit 0 (
    ("Changes since " <> tag)
    ∷ "---"
    ∷ (print_sections output_order (add_notes commits ((unknown, []) ∷ [])) ++ ("" ∷ [])))

module _ (git : List String → GitAnswer) where
  first_commit : String
  first_commit = elim (git ("rev-list" ∷ "--max-parents=0" ∷ "HEAD" ∷ [])) [
    | failed out ↦ "UNKNOWN"
    | printed out ↦ trim_space out
  ]

  -- The value of the flag `from` is never nil.
  unfoldable pub last_tag : String → String
  unfolding first_commit
  last_tag from_tag =
      if is_empty from_tag
      then (elim (git ("describe" ∷ "--tags" ∷ "--abbrev=0" ∷ [])) [
        | failed out ↦ first_commit
        | printed out ↦ trim_space out
      ])
      else from_tag

  unfoldable pub run : String → Ending
  unfolding report add_lines
  run from_tag =
      let tag = last_tag from_tag in
      elim (git (log_command tag)) [
        | failed out ↦ exit 1 ("Error" ∷ out ∷ [])
        | printed out ↦ report tag (add_lines (split_lines out) [])
      ]
