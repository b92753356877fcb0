-- ===== src/Go/Base64.antt =====
-- `base64.StdEncoding`, which the server request is made with, and what reads its texts back.
use Prim.Native.Char.{Char, code}
use cluster_api_provider_bmc.Base.{
  ◌≡◌, arith, refl, ℕ, suc, ◌+◌, ◌*◌, ◌/◌, ◌%◌, ◌<◌, String, Bool, true, false, ◌&&◌, Option, none,
  some, List, [], ◌∷◌, ◌==◌, nat_eq, string_eq, if◌then◌else◌, all_below, all_below-at,
}
use cluster_api_provider_bmc.Go.Format.{char_at}
use mathlib.Core.Option.{map}

abbrev pub alphabet : String
alphabet = "ABCDEFGHIJKLMNOPQRSTUVWXYZabcdefghijklmnopqrstuvwxyz0123456789+/"

-- The first position of a character; the length of the text, if there is none.
unfoldable position : ℕ → String → ℕ
position c String.[] = 0
position c (String.◌∷◌ d s) = let n = position c s in if c == code d then 0 else suc n

unfoldable letter : ℕ → Char
unfolding char_at
letter n = char_at alphabet "=" n

unfoldable sextet : Char → ℕ
unfolding position
sextet c = position (code c) alphabet

-- `Encode`: three bytes are four letters, and one or two at the end are padded.
unfoldable pub encode : List ℕ → String
unfolding letter
encode [] = ""
encode (a ∷ []) = String.◌∷◌ (letter (a / 4)) (String.◌∷◌ (letter (a % 4 * 16)) "==")
encode (a ∷ b ∷ []) =
    String.◌∷◌ (letter (a / 4))
      (String.◌∷◌ (letter (a % 4 * 16 + b / 16)) (String.◌∷◌ (letter (b % 16 * 4)) "="))
encode (a ∷ b ∷ c ∷ rest) = String.◌∷◌ (letter (a / 4)) (
    String.◌∷◌ (letter (a % 4 * 16 + b / 16))
      (String.◌∷◌ (letter (b % 16 * 4 + c / 64)) (String.◌∷◌ (letter (c % 64)) (encode rest))))

-- Four letters are three bytes; padding makes them fewer, and ends the text.
unfoldable pub decode : String → Option (List ℕ)
unfolding sextet
decode String.[] = some []
decode (String.◌∷◌ p (String.◌∷◌ q (String.◌∷◌ r (String.◌∷◌ s rest)))) =
    let one = sextet p * 4 + sextet q / 16 in
    let two = sextet q % 16 * 16 + sextet r / 4 in
    let three = sextet r % 4 * 64 + sextet s in
    let more = decode rest in
    if code r == b'='
    then (if code s == b'=' && rest == "" then some (one ∷ []) else none)
    else if code s == b'='
    then (if rest == "" then some (one ∷ two ∷ []) else none)
    else map (λ bytes. one ∷ two ∷ three ∷ bytes) more
decode _ = none

abbrev pub AllBytes : List ℕ → Type 0
AllBytes [] = Unit
AllBytes (b ∷ rest) = (b < 256) × AllBytes rest

abbrev is_read : ℕ → Bool
is_read n = (sextet (letter n) == n) && (if code (letter n) == b'=' then false else true)

letters_are_read : all_below is_read 64 ≡ true
unfolding all_below letter sextet char_at position
letters_are_read = refl

sextet-letter : (n : ℕ) → n < 64 → (sextet (letter n) ≡ n) × ((code (letter n) == b'=') ≡ false)
sextet-letter n below =
    let read = all_below-at is_read 64 n letters_are_read below in ground (arith, read)

pub decode-encode : (bytes : List ℕ) → AllBytes bytes → decode (encode bytes) ≡ some bytes
unfolding decode encode
decode-encode [] small = refl
decode-encode (a ∷ []) small =
    let p = sextet-letter (a / 4) (omega arith) in
    let q = sextet-letter (a % 4 * 16) (omega arith) in ground (arith, p, q)
decode-encode (a ∷ b ∷ []) small =
    let p = sextet-letter (a / 4) (omega arith) in
    let q = sextet-letter (a % 4 * 16 + b / 16) (omega arith) in
    let r = sextet-letter (b % 16 * 4) (omega arith) in ground (arith, p, q, r)
decode-encode (a ∷ b ∷ c ∷ rest) small =
    let p = sextet-letter (a / 4) (omega arith) in
    let q = sextet-letter (a % 4 * 16 + b / 16) (omega arith) in
    let r = sextet-letter (b % 16 * 4 + c / 64) (omega arith) in
    let s = sextet-letter (c % 64) (omega arith) in
    let more = decode-encode rest small.1.1.1 in ground (arith, p, q, r, s, more)
