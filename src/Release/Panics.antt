-- ===== src/Release/Panics.antt =====
-- When the first loop of the release notes tool panics.
use cluster_api_provider_bmc.Base.{
  ◌≡◌, arith, refl, String, Bool, true, false, not, Option, none, some, List, [], ◌∷◌, string_eq,
  if◌then◌else◌,
}
use cluster_api_provider_bmc.Go.Format.{is_empty}
use cluster_api_provider_bmc.Go.Text.{trim_space, has_prefix, split_lines}
use cluster_api_provider_bmc.Release.Commits.{Commit, new_commit, update_last, add_line, add_lines}
use cluster_api_provider_bmc.Release.Run.{
  GitAnswer, printed, Ending, exit, panicked, last_tag, run, log_command,
}

-- The first line that is not blank does not begin a commit.
abbrev pub is_headless : List String → Bool
is_headless [] = false
is_headless (line ∷ lines) =
    let rest = is_headless lines in
    if is_empty (trim_space line) then rest else not (has_prefix (trim_space line) "commit")

abbrev is_none : Option (List Commit) → Bool
is_none none = true
is_none (some commits) = false

abbrev pub is_panicked : Ending → Bool
is_panicked panicked = true
is_panicked (exit code lines) = false

-- With a commit at hand a line is added, and leaves one at hand.
abbrev IsFilled : Option (List Commit) → Type 0
IsFilled none = ⊥
IsFilled (some []) = ⊥
IsFilled (some (c ∷ cs)) = Unit

update_last-IsFilled :
    (f : Commit → Commit) (c : Commit) (cs : List Commit) → IsFilled (update_last f (c ∷ cs))
unfolding update_last
update_last-IsFilled f c [] = tt
update_last-IsFilled f c (d ∷ cs) = ground (arith, update_last-IsFilled f d cs)

add_line-IsFilled :
    (line : String) (c : Commit) (cs : List Commit) → IsFilled (add_line line (c ∷ cs))
unfolding add_line
add_line-IsFilled line c cs = grind (arith, update_last-IsFilled)

add_lines-some :
    (lines : List String) (c : Commit) (cs : List Commit)
    → is_none (add_lines lines (c ∷ cs)) ≡ false
unfolding add_lines
add_lines-some [] c cs = refl
add_lines-some (line ∷ lines) c cs =
    grind (arith, add_line-IsFilled (trim_space line) c cs, add_lines-some lines)

no_commit : has_prefix "" "commit" ≡ false
unfolding has_prefix
no_commit = refl

no_merge : has_prefix "" "Merge" ≡ false
unfolding has_prefix
no_merge = refl

add_lines-is_headless : (lines : List String) → is_none (add_lines lines []) ≡ is_headless lines
unfolding add_lines add_line update_last
add_lines-is_headless [] = refl
add_lines-is_headless (line ∷ lines) =
    ground
      (arith, no_commit, no_merge, add_lines-some lines new_commit [], add_lines-is_headless lines)

-- If git prints a log, the tool panics exactly if the first line of it that is not blank does not
-- begin with the word of a commit.
pub run_panics_iff :
    (git : List String → GitAnswer) (from_tag : String) {out : String}
    → git (log_command (last_tag git from_tag)) ≡ printed out
    → is_panicked (run git from_tag) ≡ is_headless (split_lines out)
unfolding run
run_panics_iff git from_tag {out} logged = ground (arith, add_lines-is_headless (split_lines out))
