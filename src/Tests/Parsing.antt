-- ===== src/Tests/Parsing.antt =====
-- A card action as the server sends it.
use hermes_channel_octo.Prelude.{◌≡◌, refl, true, some, [], ◌∷◌}
use hermes_channel_octo.Prelude.Text.{lit, text_eq}
use hermes_channel_octo.Types.{dm}
use hermes_channel_octo.Protocol.Utf8.{encode}
use hermes_channel_octo.Events.Json.{
  Json, flag, whole, string, object, Members, no_members, member, dumps,
}
use hermes_channel_octo.Events.Actions.{CardAction, text_value}
use hermes_channel_octo.Events.Parsed.{parse_card_action}
use hermes_channel_octo.Events.Accepted.{IsAccepted, parse_card_action-IsAccepted}

abbrev raw : Members
raw = member (lit "message_id") (string (lit " m ")) (
    member (lit "channel_id") (string (lit "c")) (
      member (lit "channel_type") (whole 1) (
        member (lit "action_id") (string (lit "ok")) (
          member (lit "operator_uid") (string (lit "u")) (
            member (lit "inputs") (object (member (lit "yes") (flag true) no_members)) (
              member (lit "data") (object (member (lit "k") (string (lit "v")) no_members))
                no_members))))))

abbrev sent : Json
sent = object (
    member (lit "event_id") (whole 5) (
      member (lit "event_type") (string (lit "card_action"))
        (member (lit "event_data") (object raw) no_members)))

abbrev read : CardAction
read = record {
  event_id = 5;
  message_id = lit "m";
  channel_id = lit "c";
  channel_type = dm;
  action_id = lit "ok";
  inputs = (lit "yes", lit "true") ∷ [];
  operator_uid = lit "u";
  fields = (lit "k", text_value (lit "v")) ∷ [];
}

sent-read : parse_card_action sent ≡ some read
unfolding parse_card_action text_eq encode dumps
sent-read = refl

parse_card_action-IsAccepted_example : IsAccepted read
parse_card_action-IsAccepted_example = parse_card_action-IsAccepted sent read sent-read
