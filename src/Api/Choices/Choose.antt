-- ===== src/Api/Choices/Choose.antt =====
-- Which constant has a text.
use mathlib.Core.List.{map}
use cluster_api_provider_bmc.Base.{
  ◌≡◌, refl, arith, String, Bool, true, false, Option, none, some, List, [], ◌∷◌, ◌==◌, string_eq,
  if◌then◌else◌,
}

unfoldable pub is_listed : String → List String → Bool
is_listed s [] = false
is_listed s (t ∷ ts) = let rest = is_listed s ts in if t == s then true else rest

-- The first constant with this text.
unfoldable pub choose : {A : Type 0} → (A → String) → List A → String → Option A
choose text [] s = none
choose text (x ∷ xs) s = let rest = choose text xs s in if text x == s then some x else rest

abbrev pub is_chosen : {A : Type 0} → Option A → Bool
is_chosen none = false
is_chosen (some x) = true

pub choose-is_listed :
    {A : Type 0} (text : A → String) (xs : List A) (s : String)
    → is_listed s (map text xs) ≡ is_chosen (choose text xs s)
unfolding is_listed choose
choose-is_listed text [] s = refl
choose-is_listed text (x ∷ xs) s = ground (arith, choose-is_listed text xs s)
