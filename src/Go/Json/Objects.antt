-- ===== src/Go/Json/Objects.antt =====
-- Objects as the list of their fields, those that are left out included.
use cluster_api_provider_bmc.Base.{
  ◌≡◌, refl, arith, ap, String, Bool, Option, none, some, List, [], ◌∷◌, string_eq, if◌then◌else◌,
}
use cluster_api_provider_bmc.Go.Format.{is_empty}
use cluster_api_provider_bmc.Go.Json.Text.{codes}
use cluster_api_provider_bmc.Go.Json.Values.{Json, Members}
use cluster_api_provider_bmc.Go.Json.Read.{
  Value, nothing, truth, letters, sequence, Values, end, next, Fields, no_field, field, value_of,
  values_of, fields_of,
}
use cluster_api_provider_bmc.Go.Json.Tags.{text_member, items, list_member, json_of_pointer}

-- A field in front of others, unless it is left out.
abbrev pub given : String → Option Value → Fields → Fields
given key none rest = rest
given key (some x) rest = field (codes key) x rest

-- An object with these fields, in this order.
abbrev pub given_all : List (String × Option Value) → Fields
given_all [] = no_field
given_all ((key, x) ∷ rest) = given key x (given_all rest)

-- A text, if it is not empty.
abbrev pub some_text : String → Option Value
some_text s = if is_empty s then none else some (letters (codes s))

abbrev pub values : {A : Type 0} → (A → Value) → List A → Values
values value [] = end
values value (x ∷ xs) = next (value x) (values value xs)

-- A list, if it is not empty.
abbrev pub some_list : {A : Type 0} → (A → Value) → List A → Option Value
some_list value [] = none
some_list value (x ∷ xs) = some (sequence (values value (x ∷ xs)))

abbrev pub pointed : Option Bool → Value
pointed none = nothing
pointed (some b) = truth b

pub text_member-given :
    (key s : String) (rest : Members)
    → fields_of (text_member key s rest) ≡ given key (some_text s) (fields_of rest)
unfolding text_member value_of
text_member-given key s rest = ground arith

values_of-items :
    {A : Type 0} (json : A → Json) (value : A → Value)
    → ((x : A) → value_of (json x) ≡ value x)
    → (xs : List A) → values_of (items json xs) ≡ values value xs
unfolding items value_of
values_of-items json value same [] = refl
values_of-items json value same (x ∷ xs) = rw (same x, values_of-items json value same xs) refl

pub list_member-given :
    {A : Type 0} (json : A → Json) (value : A → Value) (key : String)
    → ((x : A) → value_of (json x) ≡ value x)
    → (xs : List A) (rest : Members)
    → fields_of (list_member json key xs rest) ≡ given key (some_list value xs) (fields_of rest)
unfolding list_member value_of
list_member-given json value key same [] rest = refl
list_member-given json value key same (x ∷ xs) rest =
    ap (λ ys. field (codes key) (sequence ys) (fields_of rest))
      (values_of-items json value same (x ∷ xs))

pub pointer-pointed : (b : Option Bool) → value_of (json_of_pointer b) ≡ pointed b
unfolding json_of_pointer value_of
pointer-pointed none = refl
pointer-pointed (some b) = refl
