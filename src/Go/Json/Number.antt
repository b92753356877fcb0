-- ===== src/Go/Json/Number.antt =====
-- What may stand between the parts of a JSON text, and its numbers.
use Prim.Native.Char.{code}
use cluster_api_provider_bmc.Base.{
  ℕ, String, Bool, true, false, ◌&&◌, ◌||◌, Option, none, some, List, [], ◌∷◌, leb, ◌==◌, nat_eq,
  if◌then◌else◌,
}

-- White space: blanks, tabs and ends of lines.
unfoldable pub is_blank : ℕ → Bool
is_blank n = n == 32 || n == 9 || n == 10 || n == 13

unfoldable pub skip : String → String
unfolding is_blank
skip String.[] = String.[]
skip (String.◌∷◌ c s) = let rest = skip s in if is_blank (code c) then rest else String.◌∷◌ c s

-- What has been read of a number.
pub data Place : Type 0 where
  start : Place
  minus : Place
  lead_zero : Place
  whole : Place
  point : Place
  fraction : Place
  exponent : Place
  sign : Place
  power : Place

abbrev is_digit : ℕ → Bool
is_digit n = leb b'0' n && leb n b'9'

-- The first digit of the whole part.
first_digit : ℕ → Option Place
first_digit n = if n == b'0' then some lead_zero else if is_digit n then some whole else none

-- Behind the whole part, or the fraction.
to_exponent : ℕ → Option Place
to_exponent n = if n == b'e' || n == b'E' then some exponent else none

to_point : ℕ → Option Place
unfolding to_exponent
to_point n = if n == b'.' then some point else to_exponent n

digit_to : Place → ℕ → Option Place
digit_to p n = if is_digit n then some p else none

unfoldable pub number_step : Place → ℕ → Option Place
unfolding first_digit to_exponent to_point digit_to
number_step start n = if n == b'-' then some minus else first_digit n
number_step minus n = first_digit n
number_step lead_zero n = to_point n
number_step whole n = if is_digit n then some whole else to_point n
number_step point n = digit_to fraction n
number_step fraction n = if is_digit n then some fraction else to_exponent n
number_step exponent n = if n == b'+' || n == b'-' then some sign else digit_to power n
number_step sign n = digit_to power n
number_step power n = digit_to power n

-- A number may end there.
abbrev is_whole : Place → Bool
is_whole lead_zero = true
is_whole whole = true
is_whole fraction = true
is_whole power = true
is_whole _ = false

unfoldable pub ended : Place → String → Option (List ℕ × String)
ended p s = if is_whole p then some ([], s) else none

unfoldable pub with_digit : ℕ → Option (List ℕ × String) → Option (List ℕ × String)
with_digit n none = none
with_digit n (some (ns, rest)) = some (n ∷ ns, rest)

-- The longest number in front of a text, by the codes of its characters.
unfoldable pub read_number : Place → String → Option (List ℕ × String)
unfolding number_step ended with_digit
read_number p String.[] = ended p String.[]
read_number p (String.◌∷◌ c s) = elim (number_step p (code c)) [
  | none ↦ ended p (String.◌∷◌ c s)
  | some q ↦ with_digit (code c) (read_number q s)
]
