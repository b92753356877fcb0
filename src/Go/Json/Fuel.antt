-- ===== src/Go/Json/Fuel.antt =====
-- The reader of JSON leaves less text than it was given, and more fuel than its texts need changes
-- nothing.
use Prim.Native.Char.{Char, code}
use cluster_api_provider_bmc.Base.{
  ◌≡◌, arith, ℕ, zero, suc, ◌≤◌, ◌<◌, String, true, false, Option, none, some, List, [], ◌==◌,
  nat_eq, Option-cases, inl, inr,
}
use cluster_api_provider_bmc.Go.Text.{strip_prefix}
use cluster_api_provider_bmc.Go.Json.Text.{
  Mode, stop, go, emit, bad, step, keep, plain, read_chars, read_text,
}
use cluster_api_provider_bmc.Go.Json.Number.{
  skip, Place, start, number_step, read_number, ended, with_digit,
}
use cluster_api_provider_bmc.Go.Json.Read.{
  Value, Values, Fields, nothing, truth, first, rest_of, word, as_letters, as_number, as_sequence,
  as_fields, read, read_items, read_members, extent,
}

pub skip-extent : (s : String) → extent (skip s) ≤ extent s
unfolding skip extent
skip-extent String.[] = omega arith
skip-extent (String.◌∷◌ c s) = ground (arith, skip-extent s)

pub rest_of-extent : (s : String) → extent (rest_of s) ≤ extent s
unfolding rest_of extent
rest_of-extent String.[] = omega arith
rest_of-extent (String.◌∷◌ c s) = omega arith

pub rest_of-shorter :
    (s : String) (n : ℕ) → (first s == suc n) ≡ true → extent (rest_of s) < extent s
unfolding first rest_of extent
rest_of-shorter String.[] n found = ground arith
rest_of-shorter (String.◌∷◌ c s) n found = omega arith

-- One more than the text that is left, if something was read.
abbrev pub left {ℓ} : {A : Type ℓ} → Option (A × String) → ℕ
left none = 0
left (some (x, rest)) = suc (extent rest)

abbrev remains : Option String → ℕ
remains none = 0
remains (some rest) = suc (extent rest)

strip_prefix-remains : (s w : String) → remains (strip_prefix s w) ≤ suc (extent s)
unfolding strip_prefix extent
strip_prefix-remains s String.[] = ground arith
strip_prefix-remains String.[] (String.◌∷◌ d w) = ground arith
strip_prefix-remains (String.◌∷◌ c s) (String.◌∷◌ d w) = ground (arith, strip_prefix-remains s w)

word-left :
    (d : Char) (w : String) (v : Value) (s : String) → left (word (String.◌∷◌ d w) v s) ≤ extent s
unfolding word strip_prefix extent
word-left d w v String.[] = ground arith
word-left d w v (String.◌∷◌ c s) = ground (arith, strip_prefix-remains s w)

read_chars-left : (mode : Mode) (s : String) → left (read_chars mode s) ≤ extent s
unfolding read_chars keep extent
read_chars-left mode String.[] = ground arith
read_chars-left mode (String.◌∷◌ c s) =
    elim (step mode (code c))
      as (λ x.
        left (elim x as (λ _. Option (List ℕ × String)) [
          | stop ↦ some ([], s)
          | go m ↦ read_chars m s
          | emit n ↦ keep n (read_chars plain s)
          | bad ↦ none
        ])
        ≤ suc (extent s)) [
          | stop ↦ omega arith
          | bad ↦ omega arith
          | go m ↦ ground (arith, read_chars-left m s)
          | emit n ↦ ground (arith, read_chars-left plain s)
        ]

ended-left : (p : Place) (s : String) → left (ended p s) ≤ suc (extent s)
unfolding ended
ended-left p s = ground arith

with_digit-left : (n : ℕ) (r : Option (List ℕ × String)) → left (with_digit n r) ≡ left r
unfolding with_digit
with_digit-left n r = ground arith

read_number-left : (p : Place) (s : String) → left (read_number p s) ≤ suc (extent s)
unfolding read_number extent
read_number-left p String.[] = ground (arith, ended-left p String.[])
read_number-left p (String.◌∷◌ c s) = elim (Option-cases (number_step p (code c))) [
  | inl stopped ↦ rw (stopped, read_number) (ended-left p (String.◌∷◌ c s))
  | inr (q, on) ↦
      rw (on, read_number, with_digit-left (code c) (read_number q s))
        (omega (arith, read_number-left q s))
]

number-left : (s : String) → left (read_number start s) ≤ extent s
unfolding read_number extent ended
number-left String.[] = ground arith
number-left (String.◌∷◌ c s) = elim (Option-cases (number_step start (code c))) [
  | inl stopped ↦ rw (stopped, read_number) (omega arith)
  | inr (q, on) ↦
      rw (on, read_number, with_digit-left (code c) (read_number q s))
        (omega (arith, read_number-left q s))
]

pub read_text-left : (s : String) → left (read_text s) ≤ extent s
unfolding read_text
read_text-left s = read_chars-left plain s

letters-left : (r : Option (List ℕ × String)) → left (as_letters r) ≡ left r
unfolding as_letters
letters-left r = ground arith

numbers-left : (r : Option (List ℕ × String)) → left (as_number r) ≡ left r
unfolding as_number
numbers-left r = ground arith

sequence-left : (r : Option (Values × String)) → left (as_sequence r) ≡ left r
unfolding as_sequence
sequence-left r = ground arith

fields-left : (r : Option (Fields × String)) → left (as_fields r) ≡ left r
unfolding as_fields
fields-left r = ground arith

mutual
  unfolding read

  pub read-left : (fuel : ℕ) (s : String) → left (read fuel s) ≤ extent s
  read-left zero s = omega arith
  read-left (suc fuel) blanks =
      let s = skip blanks in
      let t = rest_of s in
      let u = skip t in
      ground (
        arith,
        skip-extent blanks,
        rest_of-extent s,
        skip-extent t,
        rest_of-shorter u 92,
        rest_of-shorter u 124,
        word-left "n" "ull" nothing s,
        word-left "t" "rue" (truth true) s,
        word-left "f" "alse" (truth false) s,
        read_text-left t,
        letters-left (read_text t),
        number-left s,
        numbers-left (read_number start s),
        sequence-left (read_items fuel t),
        read_items-left fuel t,
        fields-left (read_members fuel t),
        read_members-left fuel t,
      )

  pub read_items-left : (fuel : ℕ) (s : String) → left (read_items fuel s) ≤ extent s
  read_items-left zero s = omega arith
  read_items-left (suc fuel) s = elim (Option-cases (read fuel s)) [
    | inl lost ↦ ground (arith, lost)
    | inr ((x, behind), found) ↦
        let t = skip behind in
        ground (
          arith,
          found,
          read-left fuel s,
          skip-extent behind,
          rest_of-extent t,
          read_items-left fuel (rest_of t),
        )
  ]

  pub read_members-left : (fuel : ℕ) (s : String) → left (read_members fuel s) ≤ extent s
  read_members-left zero s = omega arith
  read_members-left (suc fuel) blanks =
      let s = skip blanks in
      elim (Option-cases (read_text (rest_of s))) [
        | inl lost ↦ ground (arith, lost)
        | inr ((k, key_end), named) ↦
            let t = skip key_end in
            elim (Option-cases (read fuel (rest_of t))) [
              | inl lost ↦ ground (arith, named, lost)
              | inr ((x, value_end), found) ↦
                  let u = skip value_end in
                  ground (
                    arith,
                    named,
                    found,
                    skip-extent blanks,
                    rest_of-extent s,
                    read_text-left (rest_of s),
                    skip-extent key_end,
                    rest_of-extent t,
                    read-left fuel (rest_of t),
                    skip-extent value_end,
                    rest_of-extent u,
                    read_members-left fuel (rest_of u),
                  )
            ]
      ]
