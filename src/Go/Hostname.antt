-- ===== src/Go/Hostname.antt =====
-- The replacer of separators gives a text without them, and keeps a text that has none.
use Prim.Native.Char.{code}
use cluster_api_provider_bmc.Base.{
  ◌≡◌, ◌≢◌, inl, inr, arith, refl, String, ◌||◌, ◌==◌, nat_eq, Bool-cases,
}
use cluster_api_provider_bmc.Go.Format.{replace_separators}

-- The text holds no dot and no slash.
abbrev pub IsLabel : String → Type 0
IsLabel String.[] = Unit
IsLabel (String.◌∷◌ c s) = (code c ≢ b'.') × (code c ≢ b'/') × IsLabel s

-- The replacer leaves no separator.
pub replace_separators-IsLabel : (s : String) → IsLabel (replace_separators s)
unfolding replace_separators
replace_separators-IsLabel String.[] = tt
replace_separators-IsLabel (String.◌∷◌ c s) =
    let rest = replace_separators-IsLabel s in
    elim (Bool-cases (code c == b'.' || code c == b'/')) [
      | inl hit ↦ rw (hit, replace_separators) (omega arith, omega arith, rest)
      | inr miss ↦ rw (miss, replace_separators) (ground arith, ground arith, rest)
    ]

-- The replacer keeps a text without separators.
pub replace_separators-eq_of_IsLabel : (s : String) → IsLabel s → replace_separators s ≡ s
unfolding replace_separators
replace_separators-eq_of_IsLabel String.[] clean = refl
replace_separators-eq_of_IsLabel (String.◌∷◌ c s) clean =
    let rest = replace_separators-eq_of_IsLabel s clean.2 in ground (arith, rest)
