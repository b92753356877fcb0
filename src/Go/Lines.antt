-- ===== src/Go/Lines.antt =====
-- Lines that are joined and split again.
use Prim.Native.Char.{Char, code}
use cluster_api_provider_bmc.Base.{◌≡◌, ◌≢◌, arith, refl, String, List, [], ◌∷◌, nat_eq}
use cluster_api_provider_bmc.Go.Text.{split_from, split_lines}

-- The text holds no line break.
abbrev pub IsLine : String → Type 0
IsLine String.[] = Unit
IsLine (String.◌∷◌ c s) = (code c ≢ 10) × IsLine s

abbrev pub AllLines : List String → Type 0
AllLines [] = Unit
AllLines (l ∷ ls) = IsLine l × AllLines ls

abbrev pub line_break : Char
line_break = "\n"

-- A line in front of a text, with a line break between.
unfoldable pub put_line : String → String → String
put_line String.[] rest = String.◌∷◌ line_break rest
put_line (String.◌∷◌ c s) rest = String.◌∷◌ c (put_line s rest)

-- The lines with a line break between each two of them.
unfoldable pub join_from : String → List String → String
unfolding put_line
join_from l [] = l
join_from l (m ∷ ls) = put_line l (join_from m ls)

split_from-put_line :
    (l rest : String)
    → IsLine l
    → split_from (put_line l rest) ≡ (l, (split_from rest).0 ∷ (split_from rest).1)
unfolding split_from put_line
split_from-put_line String.[] rest is_line = refl
split_from-put_line (String.◌∷◌ c s) rest is_line =
    ground (arith, split_from-put_line s rest is_line.1)

split_from_line : (l : String) → IsLine l → split_from l ≡ (l, [])
unfolding split_from
split_from_line String.[] is_line = refl
split_from_line (String.◌∷◌ c s) is_line = ground (arith, split_from_line s is_line.1)

split_from-join_from :
    (l : String) (ls : List String) → AllLines (l ∷ ls) → split_from (join_from l ls) ≡ (l, ls)
unfolding join_from
split_from-join_from l [] all = split_from_line l all.0
split_from-join_from l (m ∷ ls) all =
    ground (arith, split_from-put_line l (join_from m ls) all.0, split_from-join_from m ls all.1)

-- Joined lines are split into the same lines.
pub split_lines-join_from :
    (l : String) (ls : List String) → AllLines (l ∷ ls) → split_lines (join_from l ls) ≡ l ∷ ls
unfolding split_lines
split_lines-join_from l ls all = ground (arith, split_from-join_from l ls all)
