-- ===== src/Go/Json/Whole.antt =====
-- The text of a value is as long as the reader needs, and is read back as the value.
use Prim.Native.Char.{Char}
use cluster_api_provider_bmc.Base.{
  ◌≡◌, refl, arith, suc, ◌+◌, ◌*◌, ◌≤◌, String, Bool, true, false, some, string_dec,
}
use cluster_api_provider_bmc.Go.Json.Text.{put_text, put_chars, put_char, put_hex}
use cluster_api_provider_bmc.Go.Json.Values.{
  Json, null, flag, text, array, object, Items, no_item, item, Members, no_member, member, put,
  put_items, put_members, put_flag, print,
}
use cluster_api_provider_bmc.Go.Json.Read.{
  need, need_items, need_members, extent, parse, parse_with, value_of,
}
use cluster_api_provider_bmc.Go.Json.Number.{skip}
use cluster_api_provider_bmc.Go.Json.RoundTrip.{read-put}

put_char-extent : (c : Char) (rest : String) → suc (extent rest) ≤ extent (put_char c rest)
unfolding extent put_char put_hex
put_char-extent c rest = ground arith

put_chars-extent : (s rest : String) → extent rest ≤ extent (put_chars s rest)
unfolding put_chars extent
put_chars-extent String.[] rest = omega arith
put_chars-extent (String.◌∷◌ c s) rest =
    omega (arith, put_char-extent c (put_chars s rest), put_chars-extent s rest)

put_text-extent : (s rest : String) → suc (extent rest) ≤ extent (put_text s rest)
unfolding put_text extent
put_text-extent s rest = omega (arith, put_chars-extent s (String.◌∷◌ "\"" rest))

put_flag-extent : (b : Bool) (rest : String) → suc (extent rest) ≤ extent (put_flag b rest)
unfolding put_flag extent
put_flag-extent true rest = omega arith
put_flag-extent false rest = omega arith

mutual
  unfolding put extent need

  need-extent : (x : Json) (rest : String) → need x + extent rest ≤ extent (put x rest)
  need-extent null rest = omega arith
  need-extent (flag b) rest = omega (arith, put_flag-extent b rest)
  need-extent (text s) rest = omega (arith, put_text-extent s rest)
  need-extent (array no_item) rest = omega arith
  need-extent (array (item x xs)) rest =
      omega (arith, need-extent x (put_items xs rest), need_items-extent xs rest)
  need-extent (object no_member) rest = omega arith
  need-extent (object (member k x ms)) rest =
      let value = put x (put_members ms rest) in
      omega (
        arith,
        put_text-extent k (String.◌∷◌ ":" value),
        need-extent x (put_members ms rest),
        need_members-extent ms rest,
      )

  need_items-extent :
      (xs : Items) (rest : String) → suc (need_items xs + extent rest) ≤ extent (put_items xs rest)
  need_items-extent no_item rest = omega arith
  need_items-extent (item x xs) rest =
      omega (arith, need-extent x (put_items xs rest), need_items-extent xs rest)

  need_members-extent :
      (ms : Members) (rest : String)
      → suc (need_members ms + extent rest) ≤ extent (put_members ms rest)
  need_members-extent no_member rest = omega arith
  need_members-extent (member k x ms) rest =
      let value = put x (put_members ms rest) in
      omega (
        arith,
        put_text-extent k (String.◌∷◌ ":" value),
        need-extent x (put_members ms rest),
        need_members-extent ms rest,
      )

-- Every value is read back from its text.
pub parse-print : (x : Json) → parse (print x) ≡ some (value_of x)
unfolding parse parse_with print skip string_dec
parse-print x =
    rw (parse, parse_with, read-put x (2 * extent (put x "")) "" (omega (arith, need-extent x "")))
      refl
