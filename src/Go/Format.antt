-- ===== src/Go/Format.antt =====
-- What the controllers use of `fmt` and `strings`: decimal numbers, empty texts, and a replacer
-- of single characters.
use Prim.Native.Char.{Char, code}
use cluster_api_provider_bmc.Base.{
  ℕ, zero, suc, ◌/◌, ◌%◌, String, Bool, ◌||◌, ◌==◌, nat_eq, string_eq, if◌then◌else◌,
}

-- `len(s) == 0`
abbrev pub is_empty : String → Bool
is_empty s = s == ""

-- The character at a position, or another one behind the end.
unfoldable pub char_at : String → Char → ℕ → Char
char_at String.[] otherwise n = otherwise
char_at (String.◌∷◌ c s) otherwise zero = c
char_at (String.◌∷◌ c s) otherwise (suc n) = char_at s otherwise n

unfoldable pub digit : ℕ → Char
unfolding char_at
digit n = char_at "0123456789" "9" n

-- The decimal digits of a number in front of a text, from the last digit on. A number has no more
-- digits than the fuel that `put` gives.
unfoldable pub put_digits : ℕ → ℕ → String → String
unfolding digit
put_digits zero n rest = rest
put_digits (suc fuel) n rest =
    let more = put_digits fuel (n / 10) (String.◌∷◌ (digit (n % 10)) rest) in
    if n / 10 == 0 then String.◌∷◌ (digit (n % 10)) rest else more

unfoldable pub put : ℕ → String → String
unfolding put_digits
put n rest = put_digits (suc n) n rest

-- `%v` of an `int` that is not negative.
unfoldable pub itoa : ℕ → String
unfolding put
itoa n = put n ""

-- `strings.NewReplacer(".", "-", "/", "-").Replace(s)`: the two patterns are single characters,
-- so the replacer goes through the text once, character by character.
unfoldable pub replace_separators : String → String
replace_separators String.[] = String.[]
replace_separators (String.◌∷◌ c s) =
    String.◌∷◌ (if code c == b'.' || code c == b'/' then "-" else c) (replace_separators s)
