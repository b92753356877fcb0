-- ===== src/Go/Json/Read.antt =====
-- A reader of JSON as RFC 8259 defines it. A text is read as the codes of its characters, and a
-- number is kept as it is written.
use Prim.Native.Char.{code}
use cluster_api_provider_bmc.Base.{
  ℕ, zero, suc, String, Bool, true, false, Option, none, some, List, ◌+◌, ◌*◌, ◌==◌, nat_eq,
  string_eq, if◌then◌else◌,
}
use cluster_api_provider_bmc.Go.Format.{is_empty}
use cluster_api_provider_bmc.Go.Text.{strip_prefix}
use cluster_api_provider_bmc.Go.Json.Text.{read_text, codes}
use cluster_api_provider_bmc.Go.Json.Number.{skip, start, read_number}
use cluster_api_provider_bmc.Go.Json.Values.{
  Json, null, flag, text, array, object, Items, no_item, item, Members, no_member, member,
}

mutual
  pub data Value : Type 0 where
    nothing : Value
    truth : Bool → Value
    letters : List ℕ → Value
    number : List ℕ → Value
    sequence : Values → Value
    fields : Fields → Value

  pub data Values : Type 0 where
    end : Values
    next : Value → Values → Values

  pub data Fields : Type 0 where
    no_field : Fields
    field : List ℕ → Value → Fields → Fields

abbrev Reading : Type 0 → Type 0
Reading A = Option (A × String)

unfoldable pub first : String → ℕ
first String.[] = 0
first (String.◌∷◌ c s) = code c

unfoldable pub rest_of : String → String
rest_of String.[] = String.[]
rest_of (String.◌∷◌ c s) = s

-- The value that a word stands for, in front of a text.
unfoldable pub word : String → Value → String → Reading Value
word w v s = elim (strip_prefix s w) [ none ↦ none | some rest ↦ some (v, rest) ]

unfoldable pub as_letters : Reading (List ℕ) → Reading Value
as_letters none = none
as_letters (some (s, rest)) = some (letters s, rest)

unfoldable pub as_number : Reading (List ℕ) → Reading Value
as_number none = none
as_number (some (n, rest)) = some (number n, rest)

unfoldable pub as_sequence : Reading Values → Reading Value
as_sequence none = none
as_sequence (some (xs, rest)) = some (sequence xs, rest)

unfoldable pub as_fields : Reading Fields → Reading Value
as_fields none = none
as_fields (some (fs, rest)) = some (fields fs, rest)

-- The fuel bounds the depth and the length of what is read.
unfoldable mutual
  pub read : ℕ → String → Reading Value
  read zero s = none
  read (suc fuel) blanks =
      let s = skip blanks in
      let t = rest_of s in
      let u = skip t in
      let empty_array = some (sequence end, rest_of u) in
      let items = as_sequence (read_items fuel t) in
      let empty_object = some (fields no_field, rest_of u) in
      let members = as_fields (read_members fuel t) in
      if first s == b'n'
      then word "null" nothing s
      else if first s == b't'
      then word "true" (truth true) s
      else if first s == b'f'
      then word "false" (truth false) s
      else if first s == b'"'
      then as_letters (read_text t)
      else if first s == b'['
      then (if first u == b']' then empty_array else items)
      else if first s == b'{'
      then (if first u == b'}' then empty_object else members)
      else as_number (read_number start s)

  -- Items up to the closing bracket, one at least.
  pub read_items : ℕ → String → Reading Values
  read_items zero s = none
  read_items (suc fuel) s = elim (read fuel s) [
    | none ↦ none
    | some (x, behind) ↦
        let t = skip behind in
        let more = read_items fuel (rest_of t) in
        if first t == b']'
        then some (next x end, rest_of t)
        else if first t == b','
        then (elim more [ none ↦ none | some (xs, u) ↦ some (next x xs, u) ])
        else none
  ]

  -- Members up to the closing brace, one at least.
  pub read_members : ℕ → String → Reading Fields
  read_members zero s = none
  read_members (suc fuel) blanks =
      let s = skip blanks in
      if first s == b'"'
      then (elim (read_text (rest_of s)) [
        | none ↦ none
        | some (k, key_end) ↦
            let t = skip key_end in
            if first t == b':'
            then (elim (read fuel (rest_of t)) [
              | none ↦ none
              | some (x, value_end) ↦
                  let u = skip value_end in
                  let more = read_members fuel (rest_of u) in
                  if first u == b'}'
                  then some (field k x no_field, rest_of u)
                  else if first u == b','
                  then (elim more [ none ↦ none | some (fs, v) ↦ some (field k x fs, v) ])
                  else none
            ])
            else none
      ])
      else none

-- What a value is read as.
unfoldable mutual
  pub value_of : Json → Value
  value_of null = nothing
  value_of (flag b) = truth b
  value_of (text s) = letters (codes s)
  value_of (array xs) = sequence (values_of xs)
  value_of (object ms) = fields (fields_of ms)

  pub values_of : Items → Values
  values_of no_item = end
  values_of (item x xs) = next (value_of x) (values_of xs)

  pub fields_of : Members → Fields
  fields_of no_member = no_field
  fields_of (member k x ms) = field (codes k) (value_of x) (fields_of ms)

-- The fuel that a value needs.
unfoldable mutual
  pub need : Json → ℕ
  need null = 1
  need (flag b) = 1
  need (text s) = 1
  need (array xs) = suc (need_items xs)
  need (object ms) = suc (need_members ms)

  pub need_items : Items → ℕ
  need_items no_item = 0
  need_items (item x xs) = suc (need x + need_items xs)

  pub need_members : Members → ℕ
  need_members no_member = 0
  need_members (member k x ms) = suc (need x + need_members ms)

-- The count of characters.
unfoldable pub extent : String → ℕ
extent String.[] = 0
extent (String.◌∷◌ c s) = suc (extent s)

-- A text that is one value, with white space around it, read with some fuel.
unfoldable pub parse_with : ℕ → String → Option Value
unfolding read
parse_with fuel s = elim (read fuel s) [
  | none ↦ none
  | some (x, rest) ↦ if is_empty (skip rest) then some x else none
]

-- Twice its count of characters is fuel enough.
unfoldable pub parse : String → Option Value
unfolding parse_with extent
parse s = parse_with (2 * extent s) s
