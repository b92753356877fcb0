-- ===== src/Tests/Finalizers.antt =====
-- The finalizer helpers on lists, which meet their laws: adding appends what is missing, and
-- removing drops every copy.
use cluster_api_provider_bmc.Base.{
  ◌≡◌, refl, arith, String, Bool, true, false, List, [], ◌∷◌, ◌||◌, ◌==◌, string_eq, if◌then◌else◌,
}
use cluster_api_provider_bmc.Outside.{FinalizerUtil, IsLawful}

unfoldable pub contains : List String → String → Bool
contains [] f = false
contains (x ∷ xs) f = x == f || contains xs f

unfoldable pub add : List String → String → List String
add [] f = f ∷ []
add (x ∷ xs) f = if x == f then x ∷ xs else x ∷ add xs f

unfoldable pub remove : List String → String → List String
remove [] f = []
remove (x ∷ xs) f = let rest = remove xs f in if x == f then rest else x ∷ rest

contains-add : (fs : List String) (f : String) → contains (add fs f) f ≡ true
unfolding contains add
contains-add [] f = ground arith
contains-add (x ∷ xs) f = ground (arith, contains-add xs f)

contains-remove : (fs : List String) (f : String) → contains (remove fs f) f ≡ false
unfolding contains remove
contains-remove [] f = refl
contains-remove (x ∷ xs) f = ground (arith, contains-remove xs f)

abbrev pub on_lists : FinalizerUtil
on_lists = record { contains = contains; add = add; remove = remove }

pub on_lists-IsLawful : IsLawful on_lists
on_lists-IsLawful = record { contains-add = contains-add; contains-remove = contains-remove }
