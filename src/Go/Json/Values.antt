-- ===== src/Go/Json/Values.antt =====
-- The values that the program marshals, and the text that `json.Marshal` makes of them.
use cluster_api_provider_bmc.Base.{String, Bool, true, false}
use cluster_api_provider_bmc.Go.Json.Text.{put_text}

mutual
  pub data Json : Type 0 where
    null : Json
    flag : Bool → Json
    text : String → Json
    array : Items → Json
    object : Members → Json

  pub data Items : Type 0 where
    no_item : Items
    item : Json → Items → Items

  pub data Members : Type 0 where
    no_member : Members
    member : String → Json → Members → Members

unfoldable pub put_flag : Bool → String → String
put_flag true rest = String.◌∷◌ "t" (String.◌∷◌ "r" (String.◌∷◌ "u" (String.◌∷◌ "e" rest)))
put_flag false rest =
    String.◌∷◌ "f" (String.◌∷◌ "a" (String.◌∷◌ "l" (String.◌∷◌ "s" (String.◌∷◌ "e" rest))))

-- A value in front of a text; the items behind the first one; the members behind the first one.
unfoldable mutual
  pub put : Json → String → String
  put null rest = String.◌∷◌ "n" (String.◌∷◌ "u" (String.◌∷◌ "l" (String.◌∷◌ "l" rest)))
  put (flag b) rest = put_flag b rest
  put (text s) rest = put_text s rest
  put (array no_item) rest = String.◌∷◌ "[" (String.◌∷◌ "]" rest)
  put (array (item x xs)) rest = String.◌∷◌ "[" (put x (put_items xs rest))
  put (object no_member) rest = String.◌∷◌ "{" (String.◌∷◌ "}" rest)
  put (object (member k x ms)) rest =
      String.◌∷◌ "{" (put_text k (String.◌∷◌ ":" (put x (put_members ms rest))))

  pub put_items : Items → String → String
  put_items no_item rest = String.◌∷◌ "]" rest
  put_items (item x xs) rest = String.◌∷◌ "," (put x (put_items xs rest))

  pub put_members : Members → String → String
  put_members no_member rest = String.◌∷◌ "}" rest
  put_members (member k x ms) rest =
      String.◌∷◌ "," (put_text k (String.◌∷◌ ":" (put x (put_members ms rest))))

-- The text of a value.
unfoldable pub print : Json → String
unfolding put
print x = put x ""
