-- ===== src/Go/Json/RoundTrip.antt =====
-- What `json.Marshal` prints is read back as the value that was printed.
use cluster_api_provider_bmc.Base.{
  ◌≡◌, refl, arith, ℕ, zero, suc, ◌≤◌, String, Bool, true, false, some, ◌==◌, nat_eq,
}
use cluster_api_provider_bmc.Go.Json.Text.{put_text, codes}
use cluster_api_provider_bmc.Go.Json.TextRead.{read_text-put_chars}
use cluster_api_provider_bmc.Go.Json.Values.{
  Json, null, flag, text, array, object, Items, no_item, item, Members, no_member, member, put,
  put_items, put_members, put_flag,
}
use cluster_api_provider_bmc.Go.Json.Read.{
  Value, nothing, truth, letters, sequence, fields, Values, end, next, Fields, no_field, field,
  first, rest_of, word, as_letters, as_sequence, as_fields, read, read_items, read_members,
  value_of, values_of, fields_of, need, need_items, need_members,
}
use cluster_api_provider_bmc.Go.Json.Number.{skip}
use cluster_api_provider_bmc.Go.Text.{strip_prefix}

-- A value does not begin with the end of an array.
first-put : (x : Json) (rest : String) → (first (skip (put x rest)) == b']') ≡ false
unfolding first put put_flag put_text skip
first-put null rest = refl
first-put (flag true) rest = refl
first-put (flag false) rest = refl
first-put (text s) rest = refl
first-put (array no_item) rest = refl
first-put (array (item x xs)) rest = refl
first-put (object no_member) rest = refl
first-put (object (member k x ms)) rest = refl

read_flag :
    (fuel : ℕ) (b : Bool) (rest : String) → read (suc fuel) (put_flag b rest) ≡ some (truth b, rest)
unfolding read first rest_of word strip_prefix put_flag skip
read_flag fuel true rest = refl
read_flag fuel false rest = refl

read_array :
    (fuel : ℕ) (t : String) (xs : Values) (rest : String)
    → (first (skip t) == b']') ≡ false
    → read_items fuel t ≡ some (xs, rest)
    → read (suc fuel) (String.◌∷◌ "[" t) ≡ some (sequence xs, rest)
unfolding read first rest_of as_sequence skip
read_array fuel t xs rest more items = rw (more, items) refl

read_object :
    (fuel : ℕ) (t : String) (fs : Fields) (rest : String)
    → (first (skip t) == b'}') ≡ false
    → read_members fuel t ≡ some (fs, rest)
    → read (suc fuel) (String.◌∷◌ "{" t) ≡ some (fields fs, rest)
unfolding read first rest_of as_fields skip
read_object fuel t fs rest more members = rw (more, members) refl

read_null : (fuel : ℕ) (rest : String) → read (suc fuel) (put null rest) ≡ some (nothing, rest)
unfolding read put first rest_of word strip_prefix skip
read_null fuel rest = refl

read_quoted :
    (fuel : ℕ) (s rest : String)
    → read (suc fuel) (put_text s rest) ≡ some (letters (codes s), rest)
unfolding read put_text first rest_of as_letters skip
read_quoted fuel s rest = rw (read_text-put_chars s rest) refl

read_empty_array :
    (fuel : ℕ) (rest : String)
    → read (suc fuel) (put (array no_item) rest) ≡ some (sequence end, rest)
unfolding read put first rest_of skip
read_empty_array fuel rest = refl

read_empty_object :
    (fuel : ℕ) (rest : String)
    → read (suc fuel) (put (object no_member) rest) ≡ some (fields no_field, rest)
unfolding read put first rest_of skip
read_empty_object fuel rest = refl

first-put_text : (s rest : String) → (first (skip (put_text s rest)) == b'}') ≡ false
unfolding first put_text skip
first-put_text s rest = refl

-- One item, and what follows.
last_item :
    (fuel : ℕ) (s : String) (x : Value) (rest : String)
    → read fuel s ≡ some (x, String.◌∷◌ "]" rest)
    → read_items (suc fuel) s ≡ some (next x end, rest)
unfolding read first rest_of skip
last_item fuel s x rest one = rw one refl

more_items :
    (fuel : ℕ) (s t : String) (x : Value) (xs : Values) (rest : String)
    → read fuel s ≡ some (x, String.◌∷◌ "," t)
    → read_items fuel t ≡ some (xs, rest)
    → read_items (suc fuel) s ≡ some (next x xs, rest)
unfolding read first rest_of skip
more_items fuel s t x xs rest one more = rw (one, more) refl

last_member :
    (fuel : ℕ) (k t : String) (x : Value) (rest : String)
    → read fuel t ≡ some (x, String.◌∷◌ "}" rest)
    → read_members (suc fuel) (put_text k (String.◌∷◌ ":" t))
      ≡ some (field (codes k) x no_field, rest)
unfolding read put_text first rest_of skip
last_member fuel k t x rest one = rw (read_text-put_chars k (String.◌∷◌ ":" t), one) refl

more_members :
    (fuel : ℕ) (k t u : String) (x : Value) (fs : Fields) (rest : String)
    → read fuel t ≡ some (x, String.◌∷◌ "," u)
    → read_members fuel u ≡ some (fs, rest)
    → read_members (suc fuel) (put_text k (String.◌∷◌ ":" t)) ≡ some (field (codes k) x fs, rest)
unfolding read put_text first rest_of skip
more_members fuel k t u x fs rest one more =
    rw (read_text-put_chars k (String.◌∷◌ ":" t), one, more) refl

need-pos : (x : Json) → 1 ≤ need x
unfolding need
need-pos null = omega arith
need-pos (flag b) = omega arith
need-pos (text s) = omega arith
need-pos (array xs) = omega arith
need-pos (object ms) = omega arith

mutual
  unfolding put value_of need put_text

  -- With enough fuel a value is read back, whatever stands behind it.
  pub read-put :
      (x : Json) (fuel : ℕ) (rest : String)
      → need x ≤ fuel
      → read fuel (put x rest) ≡ some (value_of x, rest)
  read-put x zero rest enough = absurd (omega (arith, need-pos x))
  read-put null (suc fuel) rest enough = read_null fuel rest
  read-put (flag b) (suc fuel) rest enough = read_flag fuel b rest
  read-put (text s) (suc fuel) rest enough = read_quoted fuel s rest
  read-put (array no_item) (suc fuel) rest enough = read_empty_array fuel rest
  read-put (array (item x xs)) (suc fuel) rest enough =
      read_array fuel (put x (put_items xs rest)) (values_of (item x xs)) rest
        (first-put x (put_items xs rest)) (read_items-put x xs fuel rest (omega (arith, enough)))
  read-put (object no_member) (suc fuel) rest enough = read_empty_object fuel rest
  read-put (object (member k x ms)) (suc fuel) rest enough =
      read_object fuel (put_text k (String.◌∷◌ ":" (put x (put_members ms rest))))
        (fields_of (member k x ms)) rest
        (first-put_text k (String.◌∷◌ ":" (put x (put_members ms rest))))
        (read_members-put k x ms fuel rest (omega (arith, enough)))

  read_items-put :
      (x : Json) (xs : Items) (fuel : ℕ) (rest : String)
      → need_items (item x xs) ≤ fuel
      → read_items fuel (put x (put_items xs rest)) ≡ some (values_of (item x xs), rest)
  read_items-put x xs zero rest enough = absurd (omega (arith, enough))
  read_items-put x no_item (suc fuel) rest enough =
      let one = read-put x fuel (put_items no_item rest) (omega (arith, enough)) in
      last_item fuel (put x (put_items no_item rest)) (value_of x) rest one
  read_items-put x (item y ys) (suc fuel) rest enough =
      let one = read-put x fuel (put_items (item y ys) rest) (omega (arith, enough)) in
      let more = read_items-put y ys fuel rest (omega (arith, enough)) in
      more_items fuel (put x (put_items (item y ys) rest)) (put y (put_items ys rest)) (value_of x)
        (values_of (item y ys)) rest one more

  read_members-put :
      (k : String) (x : Json) (ms : Members) (fuel : ℕ) (rest : String)
      → need_members (member k x ms) ≤ fuel
      → read_members fuel (put_text k (String.◌∷◌ ":" (put x (put_members ms rest))))
        ≡ some (fields_of (member k x ms), rest)
  read_members-put k x ms zero rest enough = absurd (omega (arith, enough))
  read_members-put k x no_member (suc fuel) rest enough =
      let one = read-put x fuel (put_members no_member rest) (omega (arith, enough)) in
      last_member fuel k (put x (put_members no_member rest)) (value_of x) rest one
  read_members-put k x (member l y ys) (suc fuel) rest enough =
      let one = read-put x fuel (put_members (member l y ys) rest) (omega (arith, enough)) in
      let more = read_members-put l y ys fuel rest (omega (arith, enough)) in
      more_members fuel k (put x (put_members (member l y ys) rest))
        (put_text l (String.◌∷◌ ":" (put y (put_members ys rest)))) (value_of x)
        (fields_of (member l y ys)) rest one more
