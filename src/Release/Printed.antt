-- ===== src/Release/Printed.antt =====
-- The notes that the release notes tool prints for a log of git.
use mathlib.Core.List.{append_assoc, append-nil, map, filter_map}
use cluster_api_provider_bmc.Base.{
  ◌≡◌, arith, refl, String, ◌<>◌, true, false, Option, none, some, List, [], ◌∷◌, ◌++◌, string_eq,
  string_dec, Option-cases, inl, inr, if◌then◌else◌,
}
use cluster_api_provider_bmc.Go.Format.{is_empty}
use cluster_api_provider_bmc.Go.Maps.{lookup, insert}
use cluster_api_provider_bmc.Go.Text.{trim_space, strip_prefix, has_prefix}
use cluster_api_provider_bmc.Go.Lines.{AllLines, join_from, split_lines-join_from}
use cluster_api_provider_bmc.Release.Commits.{Commit, new_commit, update_last, add_line, add_lines}
use cluster_api_provider_bmc.Release.Notes.{
  unknown, trim_title, pr_number, format_merge, add_note, add_notes,
}
use cluster_api_provider_bmc.Release.Run.{
  GitAnswer, printed, exit, last_tag, log_command, print_sections, run,
}
use cluster_api_provider_bmc.Release.Log.{
  Entry, AllEntries, log_lines, commit_of, add_lines-log_lines,
}

-- The note of a commit, unless nothing is left of its title.
abbrev pub note_of : Commit → Option String
note_of c =
    let title = trim_space (trim_title c.body) in
    if is_empty title then none else some (format_merge ("- " <> title) (pr_number c.merge))

-- The section with the notes, unless there are none.
abbrev pub print_notes : List String → List String
print_notes [] = []
print_notes (note ∷ notes) = ("## " <> unknown) ∷ ((note ∷ notes) ++ ("" ∷ []))

add_note-note_of :
    (c : Commit) (notes : List String)
    → add_note c ((unknown, notes) ∷ []) ≡ (elim (note_of c) [
      | none ↦ (unknown, notes) ∷ []
      | some note ↦ (unknown, notes ++ (note ∷ [])) ∷ []
    ])
unfolding add_note lookup insert string_dec
add_note-note_of c notes = ground arith

add_notes-filter_map :
    (commits : List Commit) (notes : List String)
    → add_notes commits ((unknown, notes) ∷ [])
      ≡ (unknown, notes ++ filter_map note_of commits) ∷ []
unfolding add_notes filter_map
add_notes-filter_map [] notes = rw append-nil
add_notes-filter_map (c ∷ commits) notes = elim (Option-cases (note_of c)) [
  | inl e ↦ ground (arith, e, add_note-note_of c notes, add_notes-filter_map commits notes)
  | inr (note, e) ↦ ground (
    arith,
    e,
    add_note-note_of c notes,
    add_notes-filter_map commits (notes ++ (note ∷ [])),
    append_assoc notes (note ∷ []) (filter_map note_of commits),
  )
]

print_sections_lem :
    (notes : List String)
    → print_sections (unknown ∷ []) ((unknown, notes) ∷ []) ≡ print_notes notes
unfolding print_sections lookup string_dec
print_sections_lem [] = refl
print_sections_lem (note ∷ notes) = refl

-- If git prints a log, the tool prints under the tag's name the notes of its commits, in the order
-- of the log and without a section if there are none: one for each commit whose title is not empty
-- once a tag and white space are cut off, with the number of the pull request if its line of the
-- merge holds one.
pub release_notes :
    (git : List String → GitAnswer) (from_tag : String) (e : Entry) (es : List Entry)
    → AllEntries (e ∷ es)
    → AllLines (log_lines (e ∷ es))
    → git (log_command (last_tag git from_tag))
      ≡ printed (join_from e.head (e.merge ∷ (e.texts ++ log_lines es)))
    → run git from_tag
      ≡ exit 0 (
          ("Changes since " <> last_tag git from_tag)
          ∷ "---"
          ∷ (print_notes (filter_map note_of (map commit_of (e ∷ es))) ++ ("" ∷ [])))
unfolding run
release_notes git from_tag e es all lines logged = ground (
  arith,
  logged,
  split_lines-join_from e.head (e.merge ∷ (e.texts ++ log_lines es)) lines,
  add_lines-log_lines (e ∷ es) all,
  add_notes-filter_map (map commit_of (e ∷ es)) [],
  print_sections_lem (filter_map note_of (map commit_of (e ∷ es))),
)

untitled :
    (merge : String)
    → add_notes ((record { merge = merge; body = "" }) ∷ new_commit ∷ []) ((unknown, []) ∷ [])
      ≡ (unknown, []) ∷ []
unfolding add_notes add_note trim_title trim_space strip_prefix string_dec
untitled merge = refl

-- The lines of a pull request whose title begins with the word "commit" are read as two commits,
-- and neither has a title.
lost_commits :
    (head merge title : String)
    → has_prefix (trim_space head) "commit" ≡ true
    → has_prefix (trim_space merge) "commit" ≡ false
    → has_prefix (trim_space merge) "Merge" ≡ true
    → has_prefix (trim_space title) "commit" ≡ true
    → add_lines (head ∷ merge ∷ title ∷ []) []
      ≡ some ((record { merge = trim_space merge; body = "" }) ∷ new_commit ∷ [])
unfolding add_lines add_line update_last
lost_commits head merge title is_head not_head is_merge is_title = ground arith

-- If the one pull request of a log has a title that begins with "commit", it gets no note.
pub title_lost :
    (git : List String → GitAnswer) (from_tag : String) (head merge title : String)
    → has_prefix (trim_space head) "commit" ≡ true
    → has_prefix (trim_space merge) "commit" ≡ false
    → has_prefix (trim_space merge) "Merge" ≡ true
    → has_prefix (trim_space title) "commit" ≡ true
    → AllLines (head ∷ merge ∷ title ∷ [])
    → git (log_command (last_tag git from_tag)) ≡ printed (join_from head (merge ∷ title ∷ []))
    → run git from_tag ≡ exit 0 (("Changes since " <> last_tag git from_tag) ∷ "---" ∷ "" ∷ [])
unfolding run
title_lost git from_tag head merge title is_head not_head is_merge is_title lines logged = ground (
  arith,
  logged,
  split_lines-join_from head (merge ∷ title ∷ []) lines,
  lost_commits head merge title is_head not_head is_merge is_title,
  untitled (trim_space merge),
  print_sections_lem [],
)
