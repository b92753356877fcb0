-- ===== src/Release/Notes.antt =====
-- The second loop of `run` in hack/tools/release/notes.go: the notes of the commits, by section.
use Prim.Native.Char.{code}
use cluster_api_provider_bmc.Base.{
  ℕ, String, ◌<>◌, Bool, ◌&&◌, ◌||◌, Option, none, some, List, [], ◌∷◌, ◌++◌, leb, ◌==◌, nat_eq,
  string_eq, if◌then◌else◌,
}
use cluster_api_provider_bmc.Go.Format.{is_empty}
use cluster_api_provider_bmc.Go.Maps.{lookup, insert}
use cluster_api_provider_bmc.Go.Text.{trim_space, trim_left, strip_prefix, token, match_format}
use cluster_api_provider_bmc.Release.Commits.{Commit}

abbrev pub unknown : String
unknown = ":question: Sort these by hand"

abbrev pub output_order : List String
output_order = unknown ∷ []

-- The class `[\w-\.]`.
unfoldable pub is_tag_char : ℕ → Bool
is_tag_char c =
    leb b'0' c && leb c b'9'
    || leb b'A' c && leb c b'Z'
    || leb b'a' c && leb c b'z'
    || c == b'_'
    || c == b'-'
    || c == b'.'

-- The rest of a text behind characters of the class and a closing bracket. The bracket is not in
-- the class, so there is one way at most to match.
unfoldable pub behind_tag : String → Option String
behind_tag String.[] = none
behind_tag (String.◌∷◌ c s) =
    let rest = behind_tag s in
    if is_tag_char (code c) then rest else if code c == b']' then some s else none

-- `tagRegex.ReplaceAllString(title, "")`: the expression matches at the start only.
unfoldable pub remove_tag : String → String
unfolding behind_tag
remove_tag title = elim (strip_prefix title "[release-") [
  | none ↦ title
  | some inside ↦ elim (behind_tag inside) [ none ↦ title | some rest ↦ rest ]
]

unfoldable pub trim_title : String → String
unfolding remove_tag
trim_title title = trim_space (remove_tag title)

-- `prNumber` after the call of `fmt.Sscanf`: it is set if the text before the first verb fits and
-- something follows, also if the rest does not fit.
unfoldable pub pr_number : String → String
unfolding token
pr_number merge = elim (match_format "Merge pull request " merge) [
  | none ↦ ""
  | some rest ↦ token (trim_left rest)
]

unfoldable pub format_merge : String → String → String
format_merge line number = if is_empty number then line else line <> " (" <> number <> ")"

abbrev pub Sections : Type 0
Sections = List (String × List String)

abbrev notes_in : Option (List String) → List String
notes_in none = []
notes_in (some notes) = notes

-- `merges[key]`
abbrev pub section : String → Sections → List String
section key merges = notes_in (lookup key merges)

-- One round of the loop.
unfoldable pub add_note : Commit → Sections → Sections
unfolding trim_title pr_number format_merge
add_note c merges =
    let body = trim_space (trim_title c.body) in
    if is_empty body
    then merges
    else insert unknown
        (section unknown merges ++ (format_merge ("- " <> body) (pr_number c.merge) ∷ [])) merges

unfoldable pub add_notes : List Commit → Sections → Sections
unfolding add_note
add_notes [] merges = merges
add_notes (c ∷ commits) merges = add_notes commits (add_note c merges)
