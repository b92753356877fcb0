-- ===== src/Go/Json/Tags.antt =====
-- What the tags of the structs add: a field with `omitempty` is left out if it is a zero value.
use cluster_api_provider_bmc.Base.{
  String, Bool, Option, none, some, List, [], ◌∷◌, string_eq, if◌then◌else◌,
}
use cluster_api_provider_bmc.Go.Format.{is_empty}
use cluster_api_provider_bmc.Go.Json.Values.{
  Json, null, flag, text, array, Items, no_item, item, Members, member,
}

unfoldable pub text_member : String → String → Members → Members
text_member key s rest = if is_empty s then rest else member key (text s) rest

unfoldable pub items : {A : Type 0} → (A → Json) → List A → Items
items json [] = no_item
items json (x ∷ xs) = item (json x) (items json xs)

unfoldable pub list_member : {A : Type 0} → (A → Json) → String → List A → Members → Members
unfolding items
list_member json key [] rest = rest
list_member json key (x ∷ xs) rest = member key (array (items json (x ∷ xs))) rest

-- A pointer without `omitempty`.
unfoldable pub json_of_pointer : Option Bool → Json
json_of_pointer none = null
json_of_pointer (some b) = flag b
