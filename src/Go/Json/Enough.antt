-- ===== src/Go/Json/Enough.antt =====
-- Fuel twice the length of a text is enough for the reader of JSON: more changes nothing.
use mathlib.Core.Path.{subst}
use cluster_api_provider_bmc.Base.{
  ◌≡◌, refl, arith, ap, ℕ, zero, suc, ◌*◌, ◌≤◌, String, true, none, some, ◌==◌, nat_eq, string_eq,
  if◌then◌else◌, Option-cases, inl, inr,
}
use cluster_api_provider_bmc.Go.Format.{is_empty}
use cluster_api_provider_bmc.Go.Json.Text.{read_text}
use cluster_api_provider_bmc.Go.Json.Number.{skip, read_number, ended}
use cluster_api_provider_bmc.Go.Json.Read.{
  first, rest_of, as_number, read, read_items, read_members, extent, parse, parse_with,
}
use cluster_api_provider_bmc.Go.Json.Fuel.{
  left, skip-extent, rest_of-extent, rest_of-shorter, read_text-left, read-left,
}

read-empty : (fuel : ℕ) → read fuel "" ≡ none
unfolding read skip first rest_of as_number read_number ended
read-empty zero = refl
read-empty (suc fuel) = refl

extent-zero : (s : String) → extent s ≡ 0 → s ≡ ""
unfolding extent
extent-zero String.[] none_left = refl
extent-zero (String.◌∷◌ c s) none_left = absurd (omega arith)

no_text : (n m : ℕ) (s : String) → 2 * extent s ≤ 0 → read n s ≡ read m s
no_text n m s small = rw (extent-zero s (omega (arith, small)), read-empty n, read-empty m) refl

mutual
  unfolding read

  pub read-enough :
      (n m : ℕ) (s : String) → 2 * extent s ≤ n → 2 * extent s ≤ m → read n s ≡ read m s
  read-enough zero m s hn hm = no_text zero m s hn
  read-enough (suc n) zero s hn hm = no_text (suc n) zero s hm
  read-enough (suc n) (suc m) blanks hn hm =
      let s = skip blanks in
      let t = rest_of s in
      let skipped = skip-extent blanks in
      let items : (first s == b'[') ≡ true → read_items n t ≡ read_items m t = λ opened.
        read_items-enough n m t (omega (arith, rest_of-shorter s 90 opened, skipped, hn))
          (omega (arith, rest_of-shorter s 90 opened, skipped, hm)) in
      let members : (first s == b'{') ≡ true → read_members n t ≡ read_members m t = λ opened.
        read_members-enough n m t (omega (arith, rest_of-shorter s 122 opened, skipped, hn))
          (omega (arith, rest_of-shorter s 122 opened, skipped, hm)) in
      ground (arith, items, members)

  pub read_items-enough :
      (n m : ℕ) (s : String)
      → suc (2 * extent s) ≤ n
      → suc (2 * extent s) ≤ m
      → read_items n s ≡ read_items m s
  read_items-enough zero m s hn hm = absurd (omega (arith, hn))
  read_items-enough (suc n) zero s hn hm = absurd (omega (arith, hm))
  read_items-enough (suc n) (suc m) s hn hm =
      let same = read-enough n m s (omega (arith, hn)) (omega (arith, hm)) in
      elim (Option-cases (read m s)) [
        | inl lost ↦ ground (arith, same, lost)
        | inr ((x, behind), found) ↦
            let rest = rest_of (skip behind) in
            let read_some : suc (extent behind) ≤ extent s =
              subst (λ r. left r ≤ extent s) found (read-left m s) in
            let short : suc (extent rest) ≤ extent s =
              omega (arith, read_some, skip-extent behind, rest_of-extent (skip behind)) in
            ground (
              arith,
              same,
              found,
              read_items-enough n m rest (omega (arith, short, hn)) (omega (arith, short, hm)),
            )
      ]

  pub read_members-enough :
      (n m : ℕ) (s : String)
      → suc (2 * extent s) ≤ n
      → suc (2 * extent s) ≤ m
      → read_members n s ≡ read_members m s
  read_members-enough zero m s hn hm = absurd (omega (arith, hn))
  read_members-enough (suc n) zero s hn hm = absurd (omega (arith, hm))
  read_members-enough (suc n) (suc m) blanks hn hm =
      let s = skip blanks in
      elim (Option-cases (read_text (rest_of s))) [
        | inl lost ↦ ground (arith, lost)
        | inr ((k, key_end), named) ↦
            let t = rest_of (skip key_end) in
            let key : suc (extent key_end) ≤ extent (rest_of s) =
              subst (λ r. left r ≤ extent (rest_of s)) named (read_text-left (rest_of s)) in
            let in_front : suc (extent t) ≤ extent blanks = omega (
              arith,
              key,
              skip-extent blanks,
              rest_of-extent s,
              skip-extent key_end,
              rest_of-extent (skip key_end),
            ) in
            let same =
              read-enough n m t (omega (arith, in_front, hn)) (omega (arith, in_front, hm)) in
            elim (Option-cases (read m t)) [
              | inl lost ↦ ground (arith, named, same, lost)
              | inr ((x, value_end), found) ↦
                  let u = rest_of (skip value_end) in
                  let value : suc (extent value_end) ≤ extent t =
                    subst (λ r. left r ≤ extent t) found (read-left m t) in
                  let short : suc (extent u) ≤ extent blanks = omega (
                    arith,
                    value,
                    in_front,
                    skip-extent value_end,
                    rest_of-extent (skip value_end),
                  ) in
                  ground (
                    arith,
                    named,
                    same,
                    found,
                    read_members-enough n m u (omega (arith, short, hn)) (omega (arith, short, hm)),
                  )
            ]
      ]

-- A text is read alike with any fuel that is at least twice its count of characters.
pub parse-enough : (fuel : ℕ) (s : String) → 2 * extent s ≤ fuel → parse_with fuel s ≡ parse s
unfolding parse parse_with
parse-enough fuel s enough =
    ap
      (λ r. elim r [ none ↦ none | some (x, rest) ↦ if is_empty (skip rest) then some x else none ])
      (read-enough fuel (2 * extent s) s enough (omega arith))
