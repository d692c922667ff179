-- ===== src/Tests/Bots.antt =====
-- identity.py at two bots and one group.
use hermes_channel_octo.Prelude.{◌≡◌, ◌⊎◌, refl, true, none, some, [], ◌∷◌, arith}
use hermes_channel_octo.Prelude.Result.{ok}
use hermes_channel_octo.Prelude.Text.{Text, lit, text_eq, text_in}
use hermes_channel_octo.Prelude.Dict
use hermes_channel_octo.Identity.Routes.{
  Routes, BindCall, conflict, group_chat, new_routes, bind, bind_all, robot_id_for_target,
}
use hermes_channel_octo.Identity.Tokens.{
  parse_bot_tokens, tokens_from, split_semicolons, IsDistinct, IsNonempty,
  parse_bot_tokens-IsDistinct,
}
use hermes_channel_octo.Prelude.{All}
use hermes_channel_octo.Prelude.Dict.{put}
use hermes_channel_octo.Identity.Routes.{
  bind_locked, bind_known, claim_target, claim_session, evict_sessions, set_wire,
}
use hermes_channel_octo.Identity.Lookup.{TargetLookup, lookup_chat_id}
use hermes_channel_octo.Identity.Indexed.{lookup_chat_id-owner}
use hermes_channel_octo.Identity.Owners.{owner_is_stable, contested_is_refused}

abbrev call_of : Text → BindCall
call_of robot = record {
  robot_id = robot;
  session_key = lit "s";
  chat_type = group_chat;
  chat_id = lit "g";
  channel_type = 2;
  wire_chat_id = none;
  wire_chat_id_known = true;
}

abbrev owned : Routes
owned = record new_routes { target_routes = (1 ∷ lit "g", lit "a") ∷ [] }

owner_is_stable_example :
    (robot_id_for_target group_chat (lit "g") (bind_all (call_of (lit "b") ∷ []) owned)
      ≡ some (lit "a"))
    ⊎ (robot_id_for_target group_chat (lit "g") (bind_all (call_of (lit "b") ∷ []) owned) ≡ none)
unfolding robot_id_for_target Dict.get text_eq text_in
owner_is_stable_example =
    owner_is_stable (call_of (lit "b") ∷ []) owned group_chat (lit "g") (lit "a") refl

contested_is_refused_example :
    ((bind (call_of (lit "b")) owned).0 ≡ ok conflict)
    × (robot_id_for_target group_chat
          (lit "g")
          (bind_all (call_of (lit "a") ∷ []) (bind (call_of (lit "b")) owned).1)
        ≡ none)
unfolding robot_id_for_target Dict.get text_eq text_in
contested_is_refused_example =
    contested_is_refused (call_of (lit "b")) (call_of (lit "a") ∷ []) owned (lit "a")
      (refl, refl, refl, refl) refl refl (λ e. ground arith)

parse_bot_tokens-IsDistinct_example :
    IsDistinct (lit "ab" ∷ lit "c" ∷ []) × All IsNonempty (lit "ab" ∷ lit "c" ∷ [])
unfolding parse_bot_tokens tokens_from split_semicolons text_in text_eq
parse_bot_tokens-IsDistinct_example =
    parse_bot_tokens-IsDistinct (some (lit " ab ;c")) (lit "ab" ∷ lit "c" ∷ []) refl

abbrev found : TargetLookup
found = record {
  chat_type = group_chat;
  channel_type = 2;
  robot_id = lit "a";
  wire_chat_id = lit "g";
}

lookup_chat_id-owner_example :
    robot_id_for_target group_chat (lit "g") (bind_all (call_of (lit "a") ∷ []) new_routes)
    ≡ some (lit "a")
unfolding lookup_chat_id bind_all bind bind_locked bind_known claim_target claim_session
    evict_sessions set_wire put Dict.get text_eq text_in
lookup_chat_id-owner_example = lookup_chat_id-owner (call_of (lit "a") ∷ []) (lit "g") found refl
