-- ===== src/Tests/ReleaseRuns.antt =====
-- Runs of the release notes tool, and its theorems at such runs.
use mathlib.Core.List.{filter_map}
use cluster_api_provider_bmc.Base.{◌≡◌, refl, arith, String, true, some, List, [], ◌∷◌, string_dec}
use cluster_api_provider_bmc.Go.Text.{
  is_space, trim_space, has_prefix, strip_prefix, split_lines, match_format, token,
}
use cluster_api_provider_bmc.Go.Lines.{join_from}
use cluster_api_provider_bmc.Release.Commits.{add_lines}
use cluster_api_provider_bmc.Release.Notes.{is_tag_char, trim_title, pr_number, format_merge}
use cluster_api_provider_bmc.Release.Run.{GitAnswer, printed, exit, last_tag, run}
use cluster_api_provider_bmc.Release.Panics.{is_panicked, run_panics_iff}
use cluster_api_provider_bmc.Release.Log.{Entry, AllEntries, log_lines, add_lines-log_lines}
use cluster_api_provider_bmc.Release.Printed.{release_notes}

abbrev tagged : Entry
tagged = record {
  head = "commit 1f2e";
  merge = "Merge pull request #12 from someone/fix";
  texts = "" ∷ "[release-0.3] Fix the poll " ∷ [];
}

abbrev branch : Entry
branch = record {
  head = "commit 3a4b";
  merge = "Merge branch 'main'";
  texts = "" ∷ "Add a check" ∷ [];
}

abbrev prints : List String → List String → GitAnswer
prints [] args = printed ""
prints (line ∷ lines) args = printed (join_from line lines)

abbrev git : List String → GitAnswer
git = prints (log_lines (tagged ∷ branch ∷ []))

are_entries : AllEntries (tagged ∷ branch ∷ [])
unfolding has_prefix trim_space is_space
are_entries = (
  (refl, refl, refl, ((refl, refl), ((refl, refl), tt))),
  ((refl, refl, refl, ((refl, refl), ((refl, refl), tt))), tt),
)

release_notes_example :
    run git "v0.1"
    ≡ exit 0 (
        "Changes since v0.1" ∷ "---" ∷ "## :question: Sort these by hand" ∷ "- Fix the poll (#12)"
        ∷ "- Add a check" ∷ "" ∷ "" ∷ [])
unfolding last_tag has_prefix is_space trim_space trim_title strip_prefix pr_number format_merge
    match_format token string_dec filter_map is_tag_char
release_notes_example =
    release_notes git "v0.1" tagged (branch ∷ []) are_entries (ground arith) refl

abbrev shy : List String → GitAnswer
shy =
    prints ("commit 1f2e" ∷ "Merge pull request #13 from someone/fix" ∷ "commit the lock file" ∷ [])

abbrev warned : List String → GitAnswer
warned = prints ("warning: refname is ambiguous" ∷ "commit 1f2e" ∷ [])

run_panics_iff_example : is_panicked (run warned "v0.1") ≡ true
unfolding split_lines join_from is_space trim_space has_prefix string_dec
run_panics_iff_example = run_panics_iff warned "v0.1" refl

add_lines-log_lines_example :
    add_lines (log_lines (tagged ∷ branch ∷ [])) []
    ≡ some (
        (record {
          merge = "Merge pull request #12 from someone/fix";
          body = "[release-0.3] Fix the poll";
        })
        ∷ (record { merge = "Merge branch 'main'"; body = "Add a check" })
        ∷ [])
unfolding trim_space is_space string_dec
add_lines-log_lines_example = add_lines-log_lines (tagged ∷ branch ∷ []) are_entries
