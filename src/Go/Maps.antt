-- ===== src/Go/Maps.antt =====
-- `map[string]string`, as an association list. A map that was never made is nil: it reads as
-- empty, and a write to it panics.
use cluster_api_provider_bmc.Base.{
  ◌≡◌, refl, String, Option, none, some, List, [], ◌∷◌, arith, ◌==◌, string_eq, if◌then◌else◌,
}

module _ {ℓ} {V : Type ℓ} where
  unfoldable pub lookup : String → List (String × V) → Option V
  lookup k [] = none
  lookup k ((j, v) ∷ m) = if j == k then some v else lookup k m

  unfoldable pub insert : String → V → List (String × V) → List (String × V)
  insert k v [] = (k, v) ∷ []
  insert k v ((j, w) ∷ m) = if j == k then (k, v) ∷ m else (j, w) ∷ insert k v m

  pub lookup-insert :
      (j k : String) (v : V) (m : List (String × V))
      → lookup j (insert k v m) ≡ (if k == j then some v else lookup j m)
  unfolding lookup insert
  lookup-insert j k v [] = refl
  lookup-insert j k v (_ ∷ m) = ground (arith, lookup-insert j k v m)

abbrev pub GoMap : Type 0
GoMap = Option (List (String × String))

abbrev or_empty : Option String → String
or_empty none = ""
or_empty (some v) = v

-- `m[k]`, which is the zero value where the key is missing.
unfoldable pub read : GoMap → String → String
read none k = ""
read (some m) k = or_empty (lookup k m)

-- `m[k] = v`; `none` is the panic.
unfoldable pub write : GoMap → String → String → Option GoMap
write none k v = none
write (some m) k v = some (some (insert k v m))

-- A written key is read back, and no other key changes.
pub read-insert :
    (j k v : String) (m : List (String × String))
    → read (some (insert k v m)) j ≡ (if k == j then v else read (some m) j)
unfolding read
read-insert j k v m = ground (arith, lookup-insert j k v m)

pub read-nil : (j : String) → read none j ≡ ""
unfolding read
read-nil j = refl
