-- ===== src/Go/Address.antt =====
-- From the text of an address block of two to the text of its second address.
use Prim.Native.Char.{Char, code}
use cluster_api_provider_bmc.Base.{
  ℕ, zero, suc, ◌+◌, ◌/◌, ◌%◌, ◌<◌, ◌≡◌, ◌≢◌, ◌∙◌, arith, refl, ap, String, Option, some, nat_eq,
  string_dec,
}
use cluster_api_provider_bmc.Go.Format.{digit, put_digits, put}
use cluster_api_provider_bmc.Go.Ip.{
  Ip, v4, parse_ip, parse_ipv4, scan, trim_suffix, dotted, next_address, ip_string,
}
use cluster_api_provider_bmc.Go.Dotted.{code-digit, parse_fields-dotted}

abbrev head_code : String → ℕ
head_code String.[] = 0
head_code (String.◌∷◌ c s) = code c

-- A character that does not begin the suffix is kept.
trim_suffix-cons :
    (c : Char) (s : String)
    → code c ≢ 47
    → trim_suffix (String.◌∷◌ c s) "/31" ≡ String.◌∷◌ c (trim_suffix s "/31")
unfolding trim_suffix
trim_suffix-cons c s other =
    let differ : String.◌∷◌ c s ≢ "/31" = λ e. other (ap head_code e) in ground (arith, differ)

trim_suffix-put_digits :
    (fuel n : ℕ) (s : String)
    → trim_suffix (put_digits fuel n s) "/31" ≡ put_digits fuel n (trim_suffix s "/31")
unfolding put_digits
trim_suffix-put_digits zero n s = refl
trim_suffix-put_digits (suc fuel) n s = ground (
  arith,
  trim_suffix-put_digits fuel (n / 10) (String.◌∷◌ (digit (n % 10)) s),
  trim_suffix-cons (digit (n % 10)) s,
  code-digit (n % 10),
)

trim_suffix-put : (n : ℕ) (s : String) → trim_suffix (put n s) "/31" ≡ put n (trim_suffix s "/31")
unfolding put
trim_suffix-put n s = trim_suffix-put_digits (suc n) n s

trim_suffix-dot :
    (s : String) → trim_suffix (String.◌∷◌ "." s) "/31" ≡ String.◌∷◌ "." (trim_suffix s "/31")
trim_suffix-dot s = trim_suffix-cons "." s (omega arith)

trim_suffix_self : trim_suffix "/31" "/31" ≡ ""
unfolding trim_suffix string_dec
trim_suffix_self = refl

-- The size of the block is cut off behind its first address.
pub trim_suffix-dotted :
    (a b c d : ℕ) → trim_suffix (dotted a b c d "/31") "/31" ≡ dotted a b c d ""
unfolding dotted
trim_suffix-dotted a b c d = simp (trim_suffix-put, trim_suffix-dot, trim_suffix_self)

module _ (parse_ipv6 : String → Option Ip) (whole : String) where
  scan-digit :
      (k : ℕ) (s : String)
      → k < 10
      → scan parse_ipv6 whole (String.◌∷◌ (digit k) s) ≡ scan parse_ipv6 whole s
  unfolding scan
  scan-digit k s small = ground (arith, code-digit k small)

  scan-put_digits :
      (fuel n : ℕ) (s : String)
      → scan parse_ipv6 whole (put_digits fuel n s) ≡ scan parse_ipv6 whole s
  unfolding put_digits
  scan-put_digits zero n s = refl
  scan-put_digits (suc fuel) n s =
      ground (
        arith,
        scan-put_digits fuel (n / 10) (String.◌∷◌ (digit (n % 10)) s),
        scan-digit (n % 10) s,
      )

module _ (parse_ipv6 : String → Option Ip) (a b c d : ℕ) where
  -- An address that is written in decimal is read back, whatever the IPv6 reader does.
  pub parse_ip-dotted :
      a < 256
      → b < 256
      → c < 256
      → d < 256
      → parse_ip parse_ipv6 (dotted a b c d "") ≡ some (v4 a b c d)
  unfolding parse_ip dotted put
  parse_ip-dotted ha hb hc hd =
      scan-put_digits parse_ipv6 (dotted a b c d "") (suc a) a _
      ∙ rw (parse_fields-dotted a b c d ha hb hc hd, parse_ipv4)

  -- The second address of a block of two, whose first address is even: the last byte does not wrap
  -- round, and the three bytes before it stay.
  pub ip_string-next_address :
      (ipv6_string : Ip → String)
      → d < 256
      → d % 2 ≡ 0
      → ip_string ipv6_string (next_address (v4 a b c d)) ≡ dotted a b c (d + 1) ""
  unfolding ip_string next_address
  ip_string-next_address ipv6_string small even =
      let no_wrap : (d + 1) % 256 ≡ d + 1 = omega arith in rw no_wrap
