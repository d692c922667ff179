-- ===== src/Events/Json.antt =====
-- JSON values as Python's json reads them, and how `json.dumps` writes them again without spaces. A
-- number with a fraction is kept by its text, which is what `str` makes of it, and whether it is
-- finite.
use hermes_channel_octo.Prelude.{ℕ, suc, Bool, true, false, ◌++◌, if◌then◌else◌}
use hermes_channel_octo.Prelude.Text.{Text, lit, text_eq}
use hermes_channel_octo.Protocol.Packets.{str_of}
use hermes_channel_octo.Events.Actions.{json_string}

mutual
  pub data Json : Type 0 where
    null : Json
    flag : Bool → Json
    whole minus : ℕ → Json
    real : Bool → Text → Json
    string : Text → Json
    array : Items → Json
    object : Members → Json

  pub data Items : Type 0 where
    no_items : Items
    item : Json → Items → Items

  pub data Members : Type 0 where
    no_members : Members
    member : Text → Json → Members → Members

-- raw.get(key), where null stands for a missing key.
unfoldable pub get_member : Members → Text → Json
get_member no_members key = null
get_member (member k v ms) key = let rest = get_member ms key in if text_eq k key then v else rest

abbrev pub count : Members → ℕ
count no_members = 0
count (member k v ms) = suc (count ms)

unfoldable mutual
  pub dumps : Json → Text
  dumps null = lit "null"
  dumps (flag true) = lit "true"
  dumps (flag false) = lit "false"
  dumps (whole n) = str_of n
  dumps (minus n) = lit "-" ++ str_of n
  dumps (real finite text) = text
  dumps (string s) = json_string s
  dumps (array no_items) = lit "[]"
  dumps (array (item v vs)) = lit "[" ++ dumps v ++ dumps_items vs
  dumps (object no_members) = lit "{}"
  dumps (object (member k v ms)) =
      lit "{" ++ json_string k ++ lit ":" ++ dumps v ++ dumps_members ms

  pub dumps_items : Items → Text
  dumps_items no_items = lit "]"
  dumps_items (item v vs) = lit "," ++ dumps v ++ dumps_items vs

  pub dumps_members : Members → Text
  dumps_members no_members = lit "}"
  dumps_members (member k v ms) = lit "," ++ json_string k ++ lit ":" ++ dumps v ++ dumps_members ms
