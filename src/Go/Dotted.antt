-- ===== src/Go/Dotted.antt =====
-- Reading a dotted address back: `parse_ip` on the texts that `dotted` writes.
use Prim.Native.Char.{code}
use native.Mathlib.Decide.{dec_lt}
use cluster_api_provider_bmc.Base.{
  ℕ, zero, suc, ◌+◌, ◌*◌, ◌/◌, ◌%◌, ◌≤◌, ◌<◌, ◌≡◌, ◌≢◌, ◌∙◌, ◌⊎◌, arith, refl, String, Option, none,
  some, List, [], ◌∷◌, ◌++◌, nat_eq, string_eq, if◌then◌else◌, ltb,
}
use cluster_api_provider_bmc.Go.Format.{digit, put_digits, put}
use cluster_api_provider_bmc.Go.Ip.{parse_fields, dotted}

pub code-digit : (k : ℕ) → k < 10 → code (digit k) ≡ 48 + k
unfolding digit
code-digit zero h = refl
code-digit (suc zero) h = refl
code-digit (suc (suc zero)) h = refl
code-digit (suc (suc (suc zero))) h = refl
code-digit (suc (suc (suc (suc zero)))) h = refl
code-digit (suc (suc (suc (suc (suc zero))))) h = refl
code-digit (suc (suc (suc (suc (suc (suc zero)))))) h = refl
code-digit (suc (suc (suc (suc (suc (suc (suc zero))))))) h = refl
code-digit (suc (suc (suc (suc (suc (suc (suc (suc zero)))))))) h = refl
code-digit (suc (suc (suc (suc (suc (suc (suc (suc (suc zero))))))))) h = refl
code-digit (suc (suc (suc (suc (suc (suc (suc (suc (suc (suc k)))))))))) h = absurd (omega arith)

last_digit :
    (fuel n : ℕ) (rest : String) → n < 10 → put_digits (suc fuel) n rest ≡ String.◌∷◌ (digit n) rest
unfolding put_digits
last_digit fuel n rest h =
    let same : n % 10 ≡ n = omega arith in
    let none_left : n / 10 ≡ 0 = omega arith in rw (none_left, put_digits) (rw same)

next_digit :
    (fuel n : ℕ) (rest : String)
    → 10 ≤ n
    → put_digits (suc fuel) n rest ≡ put_digits fuel (n / 10) (String.◌∷◌ (digit (n % 10)) rest)
unfolding put_digits
next_digit fuel n rest h = ground arith

-- A number below 1000 is written by one, two or three digits.
put_one : (n : ℕ) (rest : String) → n < 10 → put n rest ≡ String.◌∷◌ (digit n) rest
unfolding put
put_one n rest h = last_digit n n rest h

put_two :
    (n : ℕ) (rest : String)
    → 10 ≤ n
    → n < 100
    → put n rest ≡ String.◌∷◌ (digit (n / 10)) (String.◌∷◌ (digit (n % 10)) rest)
unfolding put
put_two zero rest h _ = absurd (omega arith)
put_two (suc m) rest h l =
    next_digit (suc m) (suc m) rest h ∙ last_digit m (suc m / 10) _ (omega arith)

put_three :
    (n : ℕ) (rest : String)
    → 100 ≤ n
    → n < 1000
    → put n rest
      ≡ String.◌∷◌
          (digit (n / 10 / 10))
          (String.◌∷◌ (digit (n / 10 % 10)) (String.◌∷◌ (digit (n % 10)) rest))
unfolding put
put_three zero rest h _ = absurd (omega arith)
put_three (suc zero) rest h _ = absurd (omega arith)
put_three (suc (suc m)) rest h l =
    let n = suc (suc m) in
    next_digit n n rest h'
    ∙ next_digit (suc m) (n / 10) _ (omega arith)
    ∙ last_digit m (n / 10 / 10) _ (omega arith)
  where
    h' : 10 ≤ suc (suc m)
    h' = omega arith

parse_digit :
    (k : ℕ) (s : String) (prev : Option ℕ) (val dig_len pos : ℕ) (fields : List ℕ)
    → k < 10
    → (dig_len ≡ 0) ⊎ (0 < val)
    → val * 10 + k ≤ 255
    → parse_fields (String.◌∷◌ (digit k) s) prev val dig_len pos fields
      ≡ parse_fields s (some (48 + k)) (val * 10 + k) (dig_len + 1) pos fields
unfolding parse_fields
parse_digit k s prev val dig_len pos fields small fresh fits = ground (arith, code-digit k small)

abbrev digits : ℕ → ℕ
digits n = if ltb n 10 then 1 else if ltb n 100 then 2 else 3

-- The reader takes a whole field, and knows its last character, its value and its length.
parse_field :
    (n : ℕ) (s : String) (prev : Option ℕ) (pos : ℕ) (fields : List ℕ)
    → n < 256
    → parse_fields (put n s) prev 0 0 pos fields
      ≡ parse_fields s (some (48 + n % 10)) n (digits n) pos fields
parse_field n s prev pos fields small = elim (dec_lt n 10) [
  | yes one ↦ ground (arith, put_one n s, parse_digit n s prev 0 0 pos fields)
  | no more ↦ elim (dec_lt n 100) [
    | yes two ↦ ground (
      arith,
      put_two n s,
      parse_digit (n / 10) (String.◌∷◌ (digit (n % 10)) s) prev 0 0 pos fields,
      parse_digit (n % 10) s (some (48 + n / 10)) (n / 10) 1 pos fields,
    )
    | no three ↦
        let low = String.◌∷◌ (digit (n % 10)) s in
        let middle = String.◌∷◌ (digit (n / 10 % 10)) low in
        ground (
          arith,
          put_three n s,
          parse_digit (n / 10 / 10) middle prev 0 0 pos fields,
          parse_digit (n / 10 % 10) low (some (48 + n / 10 / 10)) (n / 10 / 10) 1 pos fields,
          parse_digit (n % 10) s (some (48 + n / 10 % 10)) (n / 10) 2 pos fields,
        )
  ]
]

put-ne-empty : (n : ℕ) (s : String) → n < 256 → put n s ≢ ""
put-ne-empty n s small = elim (dec_lt n 10) [
  | yes one ↦ rw (put_one n s one) (λ e. cc)
  | no more ↦ elim (dec_lt n 100) [
    | yes two ↦ rw (put_two n s (omega arith) two) (λ e. cc)
    | no three ↦ rw (put_three n s (omega arith) (omega arith)) (λ e. cc)
  ]
]

parse_dot :
    (s : String) (p val dig_len pos : ℕ) (fields : List ℕ)
    → p ≢ 46
    → s ≢ ""
    → pos < 3
    → parse_fields (String.◌∷◌ "." s) (some p) val dig_len pos fields
      ≡ parse_fields s (some 46) 0 0 (pos + 1) (fields ++ (val ∷ []))
unfolding parse_fields
parse_dot s p val dig_len pos fields digit_before more room = ground arith

-- One field with the dot after it.
parse_field_dot :
    (n : ℕ) (s : String) (prev : Option ℕ) (pos : ℕ) (fields : List ℕ)
    → n < 256
    → s ≢ ""
    → pos < 3
    → parse_fields (put n (String.◌∷◌ "." s)) prev 0 0 pos fields
      ≡ parse_fields s (some 46) 0 0 (pos + 1) (fields ++ (n ∷ []))
parse_field_dot n s prev pos fields small more room =
    parse_field n (String.◌∷◌ "." s) prev pos fields small
    ∙ parse_dot s (48 + n % 10) n (digits n) pos fields (omega arith) more room

parse_last :
    (n : ℕ) (prev : Option ℕ) (fields : List ℕ)
    → n < 256
    → parse_fields (put n "") prev 0 0 3 fields ≡ some (fields ++ (n ∷ []))
unfolding parse_fields
parse_last n prev fields small = parse_field n "" prev 3 fields small

pub parse_fields-dotted :
    (a b c d : ℕ)
    → a < 256
    → b < 256
    → c < 256
    → d < 256
    → parse_fields (dotted a b c d "") none 0 0 0 [] ≡ some (a ∷ b ∷ c ∷ d ∷ [])
unfolding dotted
parse_fields-dotted a b c d ha hb hc hd =
    parse_field_dot a _ none 0 [] ha (put-ne-empty b _ hb) (omega arith)
    ∙ parse_field_dot b _ (some 46) 1 (a ∷ []) hb (put-ne-empty c _ hc) (omega arith)
    ∙ parse_field_dot c _ (some 46) 2 (a ∷ b ∷ []) hc (put-ne-empty d _ hd) (omega arith)
    ∙ parse_last d (some 46) (a ∷ b ∷ c ∷ []) hd
