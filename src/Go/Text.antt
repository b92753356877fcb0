-- ===== src/Go/Text.antt =====
-- What the release notes tool uses of `strings`, `unicode` and `fmt`: white space, prefixes, lines,
-- and the scan of a text by a format. A text is its sequence of characters.
use Prim.Native.Char.{code}
use cluster_api_provider_bmc.Base.{
  ℕ, String, Bool, true, false, ◌&&◌, ◌||◌, Option, none, some, List, [], ◌∷◌, leb, ◌==◌, nat_eq,
  string_eq, if◌then◌else◌,
}
use cluster_api_provider_bmc.Go.Format.{is_empty}

-- `unicode.IsSpace`, by the code of a character; `fmt` skips the same characters.
unfoldable pub is_space : ℕ → Bool
is_space c =
    leb 9 c && leb c 13
    || c == 32
    || c == 0x85
    || c == 0xa0
    || c == 0x1680
    || leb 0x2000 c && leb c 0x200a
    || c == 0x2028
    || c == 0x2029
    || c == 0x202f
    || c == 0x205f
    || c == 0x3000

unfoldable pub trim_left : String → String
trim_left String.[] = String.[]
trim_left (String.◌∷◌ c s) = if is_space (code c) then trim_left s else String.◌∷◌ c s

unfoldable pub trim_right : String → String
trim_right String.[] = String.[]
trim_right (String.◌∷◌ c s) =
    let rest = trim_right s in
    if is_space (code c) && is_empty rest then String.[] else String.◌∷◌ c rest

-- `strings.TrimSpace`
unfoldable pub trim_space : String → String
unfolding trim_left trim_right
trim_space s = trim_right (trim_left s)

-- `strings.HasPrefix(s, prefix)`
unfoldable pub has_prefix : String → String → Bool
has_prefix s String.[] = true
has_prefix String.[] (String.◌∷◌ d prefix) = false
has_prefix (String.◌∷◌ c s) (String.◌∷◌ d prefix) = code c == code d && has_prefix s prefix

-- The rest of a text behind a prefix.
unfoldable pub strip_prefix : String → String → Option String
strip_prefix s String.[] = some s
strip_prefix String.[] (String.◌∷◌ d prefix) = none
strip_prefix (String.◌∷◌ c s) (String.◌∷◌ d prefix) =
    if code c == code d then strip_prefix s prefix else none

-- `strings.Split(s, "\n")`: the line that is open, and those behind it.
unfoldable pub split_from : String → String × List String
split_from String.[] = (String.[], [])
split_from (String.◌∷◌ c s) =
    let (line, rest) = split_from s in
    if code c == 10 then (String.[], line ∷ rest) else (String.◌∷◌ c line, rest)

unfoldable pub split_lines : String → List String
unfolding split_from
split_lines s = let (line, rest) = split_from s in line ∷ rest

-- The characters up to white space, which `%s` reads.
unfoldable pub token : String → String
token String.[] = String.[]
token (String.◌∷◌ c s) =
    let rest = token s in if is_space (code c) then String.[] else String.◌∷◌ c rest

-- The part of a format before its first verb, on a text without line breaks. A space of the format
-- stands for some white space or for the end of the text, and no two of them stand in a row. `none`
-- is a mismatch.
unfoldable pub match_format : String → String → Option String
unfolding trim_left
match_format String.[] s = some s
match_format (String.◌∷◌ f format) String.[] =
    if is_space (code f) then match_format format String.[] else none
match_format (String.◌∷◌ f format) (String.◌∷◌ c s) =
    let at_space = match_format format (trim_left (String.◌∷◌ c s)) in
    let at_letter = match_format format s in
    if is_space (code f)
    then (if is_space (code c) then at_space else none)
    else if code f == code c
    then at_letter
    else none
