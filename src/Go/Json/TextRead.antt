-- ===== src/Go/Json/TextRead.antt =====
-- What `json.Marshal` writes of a text is read back as the text.
use Prim.Native.Char.{Char, code}
use cluster_api_provider_bmc.Base.{
  ◌≡◌, refl, arith, ℕ, ◌/◌, ◌%◌, ◌<◌, String, Bool, true, false, Option, none, some, ◌==◌, nat_eq,
  all_below, all_below-at, Option-cases, Bool-cases, inl, inr,
}
use cluster_api_provider_bmc.Go.Format.{char_at}
use cluster_api_provider_bmc.Go.Json.Text.{
  hex, short, is_hidden, put_hex, put_char, put_chars, codes, plain, escaped, digits, Step, stop,
  go, emit, bad, hex_value, step, keep, read_chars, read_text,
}

abbrev is_read : ℕ → Bool
is_read n = elim (hex_value (code (hex n))) [ none ↦ false | some m ↦ m == n ]

digits_are_read : all_below is_read 16 ≡ true
unfolding all_below hex hex_value char_at
digits_are_read = refl

hex-hex_value : (n : ℕ) → n < 16 → hex_value (code (hex n)) ≡ some n
hex-hex_value n small =
    let read = all_below-at is_read 16 n digits_are_read small in ground (arith, read)

put_hex-read :
    (n : ℕ) (rest : String)
    → n < 65536
    → read_chars (digits 3 0) (put_hex n rest) ≡ keep n (read_chars plain rest)
unfolding read_chars put_hex step
put_hex-read n rest small =
    let a = hex-hex_value (n / 4096) (omega arith) in
    let b = hex-hex_value (n / 256 % 16) (omega arith) in
    let c = hex-hex_value (n / 16 % 16) (omega arith) in
    let d = hex-hex_value (n % 16) (omega arith) in ground (arith, a, b, c, d)

is_emit : ℕ → Step → Bool
is_emit n (emit m) = m == n
is_emit n _ = false

is_emit-eq : (n : ℕ) (s : Step) → is_emit n s ≡ true → s ≡ emit n
unfolding is_emit
is_emit-eq n (emit m) same = ground arith
is_emit-eq n stop same = ground arith
is_emit-eq n bad same = ground arith
is_emit-eq n (go mode) same = ground arith

is_short_read : ℕ → Option Char → Bool
is_short_read n none = true
is_short_read n (some d) = is_emit n (step escaped (code d))

shorts_are_read : all_below (λ n. is_short_read n (short n)) 93 ≡ true
unfolding all_below is_short_read is_emit short step
shorts_are_read = refl

short-small : (n : ℕ) (d : Char) → short n ≡ some d → n < 93
unfolding short
short-small n d found = ground arith

step-short : (n : ℕ) (d : Char) → short n ≡ some d → step escaped (code d) ≡ emit n
unfolding is_emit is_short_read
step-short n d found =
    let read =
      all_below-at (λ n. is_short_read n (short n)) 93 n shorts_are_read (short-small n d found) in
    is_emit-eq n (step escaped (code d)) (rw (found, is_short_read) at read)

hidden-small : (n : ℕ) → is_hidden n ≡ true → n < 65536
unfolding is_hidden
hidden-small n hidden = ground arith

step-plain : (n : ℕ) → short n ≡ none → is_hidden n ≡ false → step plain n ≡ emit n
unfolding short is_hidden step
step-plain n long seen = ground arith

step_slash : step plain b'\\' ≡ go escaped
unfolding step
step_slash = refl

step_u : step escaped b'u' ≡ go (digits 3 0)
unfolding step
step_u = refl

put_char-read :
    (c : Char) (rest : String)
    → read_chars plain (put_char c rest) ≡ keep (code c) (read_chars plain rest)
unfolding read_chars put_char
put_char-read c rest = elim (Option-cases (short (code c))) [
  | inr (d, found) ↦ ground (arith, found, step-short (code c) d found, step_slash)
  | inl long ↦ elim (Bool-cases (is_hidden (code c))) [
    | inl hidden ↦
        ground
          (arith, step_slash, step_u, put_hex-read (code c) rest (hidden-small (code c) hidden))
    | inr seen ↦ ground (arith, step-plain (code c) long seen)
  ]
]

put_chars-read :
    (s rest : String) → read_chars plain (put_chars s (String.◌∷◌ "\"" rest)) ≡ some (codes s, rest)
unfolding read_chars put_chars codes step keep
put_chars-read String.[] rest = refl
put_chars-read (String.◌∷◌ c s) rest =
    rw (put_char-read c (put_chars s (String.◌∷◌ "\"" rest)), put_chars-read s rest, keep) refl

-- A text is read back up to its closing quote.
pub read_text-put_chars :
    (s rest : String) → read_text (put_chars s (String.◌∷◌ "\"" rest)) ≡ some (codes s, rest)
unfolding read_text
read_text-put_chars s rest = put_chars-read s rest
