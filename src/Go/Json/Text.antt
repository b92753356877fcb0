-- ===== src/Go/Json/Text.antt =====
-- A text in JSON, as `json.Marshal` writes it and as RFC 8259 reads it.
use Prim.Native.Char.{Char, code}
use cluster_api_provider_bmc.Base.{
  ℕ, zero, suc, ◌+◌, ◌-◌, ◌*◌, ◌/◌, ◌%◌, String, Bool, ◌&&◌, ◌||◌, Option, none, some, List, [],
  ◌∷◌, ltb, leb, ◌==◌, nat_eq, if◌then◌else◌,
}
use cluster_api_provider_bmc.Go.Format.{char_at}

-- A lower case hexadecimal digit.
unfoldable pub hex : ℕ → Char
unfolding char_at
hex n = char_at "0123456789abcdef" "0" n

-- The letter behind the backslash, for the characters that have one.
unfoldable pub short : ℕ → Option Char
short n =
    if n == b'"'
    then some "\""
    else if n == b'\\'
    then some "\\"
    else if n == 8
    then some "b"
    else if n == 9
    then some "t"
    else if n == 10
    then some "n"
    else if n == 12
    then some "f"
    else if n == 13
    then some "r"
    else none

-- The characters that are written by their code: control characters, `<`, `>`, `&`, and the two
-- separators of lines and paragraphs.
unfoldable pub is_hidden : ℕ → Bool
is_hidden n = ltb n 32 || n == b'<' || n == b'>' || n == b'&' || n == 0x2028 || n == 0x2029

-- Four digits in front of a text.
unfoldable pub put_hex : ℕ → String → String
unfolding hex
put_hex n rest = String.◌∷◌ (hex (n / 4096)) (
    String.◌∷◌ (hex (n / 256 % 16))
      (String.◌∷◌ (hex (n / 16 % 16)) (String.◌∷◌ (hex (n % 16)) rest)))

-- One character in front of a text.
unfoldable pub put_char : Char → String → String
put_char c rest = elim (short (code c)) [
  | some d ↦ String.◌∷◌ "\\" (String.◌∷◌ d rest)
  | none ↦
      if is_hidden (code c)
      then String.◌∷◌ "\\" (String.◌∷◌ "u" (put_hex (code c) rest))
      else String.◌∷◌ c rest
]

unfoldable pub put_chars : String → String → String
unfolding put_char
put_chars String.[] rest = rest
put_chars (String.◌∷◌ c s) rest = put_char c (put_chars s rest)

-- A text with its quotes, in front of a text.
unfoldable pub put_text : String → String → String
unfolding put_chars
put_text s rest = String.◌∷◌ "\"" (put_chars s (String.◌∷◌ "\"" rest))

-- What a text is read as: the codes of its characters.
unfoldable pub codes : String → List ℕ
codes String.[] = []
codes (String.◌∷◌ c s) = code c ∷ codes s

-- The reader stands in the text, behind a backslash, or behind `\u` with some of the four digits.
pub data Mode : Type 0 where
  plain : Mode
  escaped : Mode
  digits : ℕ → ℕ → Mode

-- A character ends the text, is part of one that is not complete, completes one, or does not fit.
pub data Step : Type 0 where
  stop : Step
  go : Mode → Step
  emit : ℕ → Step
  bad : Step

unfoldable pub hex_value : ℕ → Option ℕ
hex_value n =
    if leb b'0' n && leb n b'9'
    then some (n - b'0')
    else if leb b'a' n && leb n b'f'
    then some (n - b'a' + 10)
    else if leb b'A' n && leb n b'F'
    then some (n - b'A' + 10)
    else none

unfoldable pub digit_step : ℕ → ℕ → Option ℕ → Step
digit_step k acc none = bad
digit_step zero acc (some d) = emit (acc * 16 + d)
digit_step (suc k) acc (some d) = go (digits k (acc * 16 + d))

unfoldable pub step : Mode → ℕ → Step
unfolding digit_step
step plain n =
    if n == b'"' then stop else if n == b'\\' then go escaped else if ltb n 32 then bad else emit n
step escaped n =
    if n == b'"' || n == b'\\' || n == b'/'
    then emit n
    else if n == b'b'
    then emit 8
    else if n == b't'
    then emit 9
    else if n == b'n'
    then emit 10
    else if n == b'f'
    then emit 12
    else if n == b'r'
    then emit 13
    else if n == b'u'
    then go (digits 3 0)
    else bad
step (digits k acc) n = digit_step k acc (hex_value n)

unfoldable pub keep : ℕ → Option (List ℕ × String) → Option (List ℕ × String)
keep n none = none
keep n (some (s, rest)) = some (n ∷ s, rest)

-- A text up to its closing quote, with what stands behind.
unfoldable pub read_chars : Mode → String → Option (List ℕ × String)
read_chars mode String.[] = none
read_chars mode (String.◌∷◌ c s) = elim (step mode (code c)) [
  | stop ↦ some ([], s)
  | bad ↦ none
  | go mode' ↦ read_chars mode' s
  | emit n ↦ keep n (read_chars plain s)
]

unfoldable pub read_text : String → Option (List ℕ × String)
unfolding read_chars
read_text s = read_chars plain s
