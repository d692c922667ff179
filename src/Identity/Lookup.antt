-- ===== src/Identity/Lookup.antt =====
-- The lookup of a chat by its id alone in `IdentityRouteRegistry`, and the other queries.
use hermes_channel_octo.Prelude.{
  ℕ, ◌-◌, Bool, ◌||◌, Option, none, some, List, [], ◌∷◌, length, leb, if◌then◌else◌,
}
use hermes_channel_octo.Prelude.Text.{Text, text_in, nonempty}
use hermes_channel_octo.Prelude.Dict
use hermes_channel_octo.Prelude.Dict.{put, get-put}
use hermes_channel_octo.Identity.Routes.{
  Routes, ChatType, dm_chat, group_chat, target_key, Holder, or_empty, max_persisted_routes,
}

pub record TargetLookup : Type 0 where
  pub chat_type : ChatType
  pub channel_type : ℕ
  pub robot_id : Text
  pub wire_chat_id : Text

unfoldable pub route_count : Routes → ℕ
route_count r = length r.target_routes

unfoldable pub session_count : Routes → ℕ
session_count r = length r.session_routes

unfoldable pub remaining_capacity : Routes → ℕ
remaining_capacity r = max_persisted_routes - length r.target_routes

unfoldable pub capacity_exhausted : Routes → Bool
capacity_exhausted r = leb max_persisted_routes (length r.target_routes)

unfoldable pub session_conflict : Text → Routes → Bool
session_conflict session r = text_in session r.session_conflicts

unfoldable pub target_conflict : ChatType → Text → Routes → Bool
target_conflict chat_type chat_id r = text_in (target_key chat_type chat_id) r.target_conflicts

unfoldable pub chat_id_has_state : Text → Routes → Bool
chat_id_has_state chat_id r =
    nonempty (or_empty (Dict.get r.chat_index chat_id))
    || target_conflict dm_chat chat_id r
    || target_conflict group_chat chat_id r

abbrev both : Holder → Option ℕ → Option Text → Option TargetLookup
both h (some channel_type) (some wire) = some (record {
  chat_type = h.chat_type;
  channel_type = channel_type;
  robot_id = h.robot_id;
  wire_chat_id = wire;
})
both h none wire = none
both h (some channel_type) none = none

abbrev pub lookup_holder : Text → Holder → Routes → Option TargetLookup
lookup_holder chat_id h r =
    let key = target_key h.chat_type chat_id in
    if text_in key r.target_conflicts
    then none
    else both h (Dict.get r.target_channel_types key) (Dict.get r.target_wire_ids key)

-- Only a chat with one holder is found.
abbrev pub lookup_in : List Holder → Text → Routes → Option TargetLookup
lookup_in [] chat_id r = none
lookup_in (h ∷ []) chat_id r = lookup_holder chat_id h r
lookup_in (h ∷ _ ∷ _) chat_id r = none

unfoldable pub lookup_chat_id : Text → Routes → Option TargetLookup
lookup_chat_id chat_id r = lookup_in (or_empty (Dict.get r.chat_index chat_id)) chat_id r
