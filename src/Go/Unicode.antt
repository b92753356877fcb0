-- ===== src/Go/Unicode.antt =====
-- Characters by their codes, and texts by codes in which a character may stand as two surrogates:
-- what `unicode/utf16` and `utf8.RuneError` do in the reader of JSON.
use Prim.Native.Char.{Char, char, code, IsLt, IsScalar}
use Prim.Native.Nat.{Ordering, compare}
use cluster_api_provider_bmc.Base.{
  ◌≡◌, ◌⊎◌, inl, inr, arith, refl, ℕ, ◌+◌, ◌-◌, ◌*◌, String, Bool, false, ◌&&◌, Option, none, some,
  List, [], ◌∷◌, leb, if◌then◌else◌,
}
use cluster_api_provider_bmc.Go.Json.Text.{codes}

-- A code is that of a character: it lies in front of the surrogates, or behind them and below the
-- end, by the comparisons with these bounds.
abbrev InUpper : Ordering → Ordering → Type 0
InUpper Ordering.lt below_end = IsLt below_end
InUpper Ordering.eq _ = ⊥
InUpper Ordering.gt _ = ⊥

abbrev InRange : Ordering → Ordering → Ordering → Type 0
InRange Ordering.lt _ _ = Unit
InRange Ordering.eq above below_end = InUpper above below_end
InRange Ordering.gt above below_end = InUpper above below_end

in_upper : (o p : Ordering) → Option (InUpper o p)
in_upper Ordering.lt Ordering.lt = some tt
in_upper _ _ = none

in_range : (o p q : Ordering) → Option (InRange o p q)
unfolding in_upper
in_range Ordering.lt p q = some tt
in_range Ordering.eq p q = in_upper p q
in_range Ordering.gt p q = in_upper p q

unfoldable pub scalar : (n : ℕ) → Option (IsScalar n)
unfolding in_range
scalar n = in_range (compare n 55296) (compare 57343 n) (compare n 1114112)

-- The character of a code, or the replacement character.
unfoldable pub char_of : ℕ → Char
unfolding scalar
char_of n = elim (scalar n) [ none ↦ char 0xfffd tt | some p ↦ char n p ]

-- The first and the second half of a character that is written as two.
abbrev is_high : ℕ → Bool
is_high n = leb 0xd800 n && leb n 0xdbff

abbrev is_low : ℕ → Bool
is_low n = leb 0xdc00 n && leb n 0xdfff

unfoldable pub text_of : List ℕ → String
unfolding char_of
text_of [] = String.[]
text_of (n ∷ []) = String.◌∷◌ (char_of n) String.[]
text_of (n ∷ (m ∷ ns)) =
    let behind = text_of ns in
    let rest = text_of (m ∷ ns) in
    if is_high n && is_low m
    then String.◌∷◌ (char_of (0x10000 + (n - 0xd800) * 1024 + (m - 0xdc00))) behind
    else String.◌∷◌ (char_of n) rest

in_upper-some : (o p : Ordering) (s : InUpper o p) → in_upper o p ≡ some s
unfolding in_upper
in_upper-some Ordering.lt Ordering.lt s = refl
in_upper-some Ordering.lt Ordering.eq s = absurd s
in_upper-some Ordering.lt Ordering.gt s = absurd s
in_upper-some Ordering.eq p s = absurd s
in_upper-some Ordering.gt p s = absurd s

in_range-some : (o p q : Ordering) (s : InRange o p q) → in_range o p q ≡ some s
unfolding in_range
in_range-some Ordering.lt p q s = refl
in_range-some Ordering.eq p q s = in_upper-some p q s
in_range-some Ordering.gt p q s = in_upper-some p q s

-- The character of its code is that character.
pub char_of-code : (c : Char) → char_of (code c) ≡ c
unfolding char_of scalar
char_of-code (char n s) =
    rw (char_of, in_range-some (compare n 55296) (compare 57343 n) (compare n 1114112) s) refl

high-range : (o p q : Ordering) → InRange o p q → (o ≡ Ordering.lt) ⊎ (p ≡ Ordering.lt)
high-range Ordering.lt p q s = inl refl
high-range Ordering.eq Ordering.lt q s = inr refl
high-range Ordering.eq Ordering.eq q s = absurd s
high-range Ordering.eq Ordering.gt q s = absurd s
high-range Ordering.gt Ordering.lt q s = inr refl
high-range Ordering.gt Ordering.eq q s = absurd s
high-range Ordering.gt Ordering.gt q s = absurd s

-- No character is the first half of another.
is_high-code : (c : Char) → is_high (code c) ≡ false
is_high-code (char n s) =
    elim (high-range (compare n 55296) (compare 57343 n) (compare n 1114112) s) [
      | inl low ↦ ground (arith, low)
      | inr high ↦ ground (arith, high)
    ]

-- A text is that of the codes of its characters.
pub text_of-codes : (s : String) → text_of (codes s) ≡ s
unfolding text_of codes
text_of-codes String.[] = refl
text_of-codes (String.◌∷◌ c String.[]) = rw (char_of-code c) refl
text_of-codes (String.◌∷◌ c (String.◌∷◌ d s)) =
    rw (is_high-code c, char_of-code c, text_of-codes (String.◌∷◌ d s)) refl
