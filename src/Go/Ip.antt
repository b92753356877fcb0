-- ===== src/Go/Ip.antt =====
-- `net.ParseIP`, `IP.String` and `strings.TrimSuffix`. The dotted decimal form is written out as
-- `netip.ParseAddr` reads it; texts with a colon before any dot go to an IPv6 reader, which is a
-- parameter.
use Prim.Native.Char.{code}
use cluster_api_provider_bmc.Base.{
  ℕ, ◌+◌, ◌-◌, ◌*◌, ◌%◌, String, Bool, true, false, ◌&&◌, ◌||◌, Option, none, some, List, [], ◌∷◌,
  ◌++◌, ltb, leb, ◌==◌, nat_eq, string_eq, if◌then◌else◌,
}
use cluster_api_provider_bmc.Go.Format.{put, is_empty}

unfoldable pub trim_suffix : String → String → String
trim_suffix String.[] suffix = String.[]
trim_suffix (String.◌∷◌ c s) suffix =
    let rest = trim_suffix s suffix in if String.◌∷◌ c s == suffix then "" else String.◌∷◌ c rest

-- An address of 16 bytes: the first twelve, and the last four.
pub record Ip : Type 0 where
  pub prefix : List ℕ
  pub b12 : ℕ
  pub b13 : ℕ
  pub b14 : ℕ
  pub b15 : ℕ

-- The bytes before an IPv4 address in its 16-byte form.
abbrev pub v4_prefix : List ℕ
v4_prefix = 0 ∷ 0 ∷ 0 ∷ 0 ∷ 0 ∷ 0 ∷ 0 ∷ 0 ∷ 0 ∷ 0 ∷ 255 ∷ 255 ∷ []

abbrev pub v4 : ℕ → ℕ → ℕ → ℕ → Ip
v4 a b c d = record { prefix = v4_prefix; b12 = a; b13 = b; b14 = c; b15 = d }

abbrev is_dot : Option ℕ → Bool
is_dot none = false
is_dot (some c) = c == b'.'

abbrev is_none : Option ℕ → Bool
is_none none = true
is_none (some _) = false

-- The loop of `parseIPv4Fields`: the character before, the value and the number of digits of the
-- field at hand, and the fields before it with their number.
unfoldable pub parse_fields : String → Option ℕ → ℕ → ℕ → ℕ → List ℕ → Option (List ℕ)
parse_fields String.[] prev val dig_len pos fields =
    if ltb pos 3 then none else some (fields ++ (val ∷ []))
parse_fields (String.◌∷◌ ch s) prev val dig_len pos fields =
    let c = code ch in
    let val' = val * 10 + (c - b'0') in
    let in_field = parse_fields s (some c) val' (dig_len + 1) pos fields in
    let next_field = parse_fields s (some c) 0 0 (pos + 1) (fields ++ (val ∷ [])) in
    if leb b'0' c && leb c b'9'
    then (if dig_len == 1 && val == 0 then none else if ltb 255 val' then none else in_field)
    else if c == b'.'
    then (if is_none prev || is_empty s || is_dot prev
        then none
        else if pos == 3
        then none
        else next_field)
    else none

ip_of_fields : Option (List ℕ) → Option Ip
ip_of_fields (some (a ∷ b ∷ c ∷ d ∷ [])) = some (v4 a b c d)
ip_of_fields _ = none

unfoldable pub parse_ipv4 : String → Option Ip
unfolding parse_fields ip_of_fields
parse_ipv4 s = ip_of_fields (parse_fields s none 0 0 0 [])

module _ (parse_ipv6 : String → Option Ip) where
  -- The scan of `ParseAddr` over the rest of a text, for the character that decides the form.
  unfoldable pub scan : String → String → Option Ip
  scan whole String.[] = none
  scan whole (String.◌∷◌ ch s) =
      let rest = scan whole s in
      if code ch == b'.'
      then parse_ipv4 whole
      else if code ch == b':'
      then parse_ipv6 whole
      else if code ch == b'%'
      then none
      else rest

  unfoldable pub parse_ip : String → Option Ip
  unfolding scan parse_ipv4
  parse_ip s = scan s s

-- `addr[15] = addr[15] + 1` on a byte.
unfoldable pub next_address : Ip → Ip
next_address ip = record ip { b15 = (ip.b15 + 1) % 256 }

-- The four bytes in decimal, with dots between, in front of a text.
unfoldable pub dotted : ℕ → ℕ → ℕ → ℕ → String → String
dotted a b c d rest =
    put a (String.◌∷◌ "." (put b (String.◌∷◌ "." (put c (String.◌∷◌ "." (put d rest))))))

unfoldable pub same_bytes : List ℕ → List ℕ → Bool
same_bytes [] [] = true
same_bytes (x ∷ xs) (y ∷ ys) = x == y && same_bytes xs ys
same_bytes _ _ = false

unfoldable pub ip_string : (Ip → String) → Ip → String
unfolding dotted put same_bytes
ip_string ipv6_string ip =
    if same_bytes ip.prefix v4_prefix then dotted ip.b12 ip.b13 ip.b14 ip.b15 "" else ipv6_string ip
