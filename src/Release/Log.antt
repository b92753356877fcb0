-- ===== src/Release/Log.antt =====
-- The log that git prints for merge commits, and the commits that the tool reads back from it.
use mathlib.Core.List.{append_assoc, append-nil, map}
use cluster_api_provider_bmc.Base.{
  ◌≡◌, ◌∙◌, ap, arith, refl, String, true, false, some, List, [], ◌∷◌, ◌++◌, string_eq,
  if◌then◌else◌,
}
use cluster_api_provider_bmc.Go.Format.{is_empty}
use cluster_api_provider_bmc.Go.Text.{trim_space, has_prefix}
use cluster_api_provider_bmc.Release.Commits.{Commit, new_commit, update_last, add_line, add_lines}

-- A merge commit: the line with its hash, the line of the merge, and the lines of its text.
pub record Entry : Type 0 where
  pub head : String
  pub merge : String
  pub texts : List String

-- A line of a text is neither taken for the beginning of a commit nor for the line of a merge.
abbrev pub IsText : String → Type 0
IsText line =
    (has_prefix (trim_space line) "commit" ≡ false) × (has_prefix (trim_space line) "Merge" ≡ false)

abbrev pub AllTexts : List String → Type 0
AllTexts [] = Unit
AllTexts (line ∷ lines) = IsText line × AllTexts lines

abbrev pub IsEntry : Entry → Type 0
IsEntry e =
    (has_prefix (trim_space e.head) "commit" ≡ true)
    × (has_prefix (trim_space e.merge) "commit" ≡ false)
    × (has_prefix (trim_space e.merge) "Merge" ≡ true)
    × AllTexts e.texts

abbrev pub AllEntries : List Entry → Type 0
AllEntries [] = Unit
AllEntries (e ∷ es) = IsEntry e × AllEntries es

-- The lines of a log.
abbrev pub log_lines : List Entry → List String
log_lines [] = []
log_lines (e ∷ es) = e.head ∷ e.merge ∷ (e.texts ++ log_lines es)

-- The last line that is not blank, or what stood before.
abbrev pub last_text : List String → String → String
last_text [] before = before
last_text (line ∷ lines) before =
    last_text lines (if is_empty (trim_space line) then before else trim_space line)

abbrev pub commit_of : Entry → Commit
commit_of e = record { merge = trim_space e.merge; body = last_text e.texts "" }

update_last-snoc :
    (f : Commit → Commit) (cs : List Commit) (c : Commit)
    → update_last f (cs ++ (c ∷ [])) ≡ some (cs ++ (f c ∷ []))
unfolding update_last
update_last-snoc f [] c = refl
update_last-snoc f (d ∷ []) c = refl
update_last-snoc f (d ∷ (e ∷ cs)) c = rw (update_last-snoc f (e ∷ cs) c)

-- The lines of a text set the body of the last commit.
add_lines-texts :
    (texts rest : List String) (cs : List Commit) (c : Commit)
    → AllTexts texts
    → add_lines (texts ++ rest) (cs ++ (c ∷ []))
      ≡ add_lines rest (cs ++ ((record c { body = last_text texts c.body }) ∷ []))
unfolding add_lines add_line
add_lines-texts [] rest cs c plain = refl
add_lines-texts (line ∷ lines) rest cs c plain =
    let set : Commit = record c { body = trim_space line } in
    ground (
      arith,
      update_last-snoc (λ (d : Commit). record d { body = trim_space line }) cs c,
      add_lines-texts lines rest cs c plain.1,
      add_lines-texts lines rest cs set plain.1,
    )

add_lines-entry :
    (e : Entry) (rest : List String) (cs : List Commit)
    → IsEntry e
    → add_lines (e.head ∷ e.merge ∷ (e.texts ++ rest)) cs
      ≡ add_lines rest (cs ++ (commit_of e ∷ []))
unfolding add_lines add_line
add_lines-entry e rest cs is_entry =
    let c : Commit = record new_commit { merge = trim_space e.merge } in
    ground (
      arith,
      update_last-snoc (λ (d : Commit). record d { merge = trim_space e.merge }) cs new_commit,
      add_lines-texts e.texts rest cs c is_entry.3,
    )

add_lines-log :
    (es : List Entry) (cs : List Commit)
    → AllEntries es
    → add_lines (log_lines es) cs ≡ some (cs ++ map commit_of es)
unfolding add_lines
add_lines-log [] cs all = rw append-nil
add_lines-log (e ∷ es) cs all =
    add_lines-entry e (log_lines es) cs all.0
    ∙ add_lines-log es (cs ++ (commit_of e ∷ [])) all.1
    ∙ ap some (append_assoc cs (commit_of e ∷ []) (map commit_of es))

-- The commits of a log are read back: one for each entry, in order, with its line of the merge and
-- the last line of its text that is not blank, both trimmed.
pub add_lines-log_lines :
    (es : List Entry) → AllEntries es → add_lines (log_lines es) [] ≡ some (map commit_of es)
add_lines-log_lines es all = add_lines-log es [] all
