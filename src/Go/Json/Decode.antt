-- ===== src/Go/Json/Decode.antt =====
-- What `json.Unmarshal` stores in the fields of a struct: a null leaves a field as it is, and a
-- value of another kind is an error. A member is matched by its name up to case.
use cluster_api_provider_bmc.Base.{
  ℕ, ◌+◌, String, Bool, true, false, ◌&&◌, Option, none, some, List, [], ◌∷◌, leb, ◌==◌, nat_eq,
  if◌then◌else◌,
}
use cluster_api_provider_bmc.Go.Unicode.{text_of}
use cluster_api_provider_bmc.Go.Json.Text.{codes}
use cluster_api_provider_bmc.Go.Json.Read.{
  Value, nothing, truth, letters, fields, Fields, no_field, field,
}

-- A letter without its case. Two characters behind ASCII fold to letters of it.
unfoldable pub fold_code : ℕ → ℕ
fold_code n =
    if leb b'A' n && leb n b'Z'
    then n + 32
    else if n == 0x17f
    then b's'
    else if n == 0x212a
    then b'k'
    else n

unfoldable pub is_same_name : List ℕ → List ℕ → Bool
unfolding fold_code
is_same_name [] [] = true
is_same_name [] (m ∷ ms) = false
is_same_name (n ∷ ns) [] = false
is_same_name (n ∷ ns) (m ∷ ms) = fold_code n == fold_code m && is_same_name ns ms

-- The name of a member is that of a field.
unfoldable pub is_named : String → List ℕ → Bool
unfolding is_same_name
is_named name key = is_same_name key (codes name)

-- A field of type `string`, `bool` or `*string`, by the value that it had; `none` is the error.
unfoldable pub as_text : String → Value → Option String
as_text old nothing = some old
as_text old (letters s) = some (text_of s)
as_text old _ = none

unfoldable pub as_flag : Bool → Value → Option Bool
as_flag old nothing = some old
as_flag old (truth b) = some b
as_flag old _ = none

unfoldable pub as_pointer : Value → Option (Option String)
as_pointer nothing = some none
as_pointer (letters s) = some (some (text_of s))
as_pointer _ = none

-- A field is stored, or there was an error.
abbrev pub stored {ℓ ℓ'} : {A : Type ℓ} {S : Type ℓ'} → (A → S) → Option A → Option S
stored store none = none
stored store (some a) = some (store a)

-- The members one after the other, by what each does to the struct.
unfoldable pub decode_members :
    {S : Type 0} → (List ℕ → Value → S → Option S) → Fields → S → Option S
decode_members store no_field s = some s
decode_members store (field key x rest) s = elim (store key x s) [
  | none ↦ none
  | some s' ↦ decode_members store rest s'
]

-- A struct, from its zero value.
unfoldable pub decode_struct : {S : Type 0} → (List ℕ → Value → S → Option S) → S → Value → Option S
unfolding decode_members
decode_struct store zero nothing = some zero
decode_struct store zero (fields fs) = decode_members store fs zero
decode_struct store zero _ = none
