-- ===== src/Tests/Reasoning.antt =====
-- An action on a reasoning card.
use hermes_channel_octo.Prelude.{◌≡◌, refl, true, none, some, [], ◌∷◌, arith, if◌then◌else◌}
use hermes_channel_octo.Prelude.Result.{ok}
use hermes_channel_octo.Prelude.Text.{lit, text_eq, text_in}
use hermes_channel_octo.Prelude.Dict
use hermes_channel_octo.Types.{dm}
use hermes_channel_octo.Sessions.Data.{reasoning, Entry, pending, completed}
use hermes_channel_octo.Sessions.Registry.{Registry, Env}
use hermes_channel_octo.Sessions.Claims.{claimed_entry}
use hermes_channel_octo.Events.Poller.{ignored, unsupported}
use hermes_channel_octo.Events.Actions.{
  CardAction, text_value, reasoning_action_matches_session, same_card, channel_matches,
  handle_reasoning_card_action,
}
use hermes_channel_octo.Events.Consumed.{handle_reasoning_card_action-pending}

abbrev thinking : Entry
thinking = record {
  session = record {
    message_id = lit "m";
    binding_id = lit "b";
    session_key = lit "k";
    chat_id = lit "c";
    channel_id = lit "c";
    channel_type = dm;
    requester_uid = lit "u";
    card = lit "{}";
    plain = lit "p";
    action_labels = (lit "stop", lit "Stop") ∷ [];
    input_ids = [];
    action_channel_ids = [];
    max_input_text_bytes = none;
    max_inputs_bytes = none;
    clarify = none;
    kind = reasoning;
  };
  expires_at = 100;
  wall_expires_at = 1100;
  state = pending;
  claimed_event_id = none;
  attempt_event_id = none;
  dispatch_attempts = 0;
  card_seq = 0;
}

abbrev one_card : Registry
one_card = record {
  max_sessions = 2;
  ttl_seconds = 100;
  max_dispatch_attempts = 3;
  entries = (lit "m", thinking) ∷ [];
  attached = true;
  stored = [];
}

abbrev stop : CardAction
stop = record {
  event_id = 5;
  message_id = lit "m";
  channel_id = lit "c";
  channel_type = dm;
  action_id = lit "stop";
  inputs = [];
  operator_uid = lit "u";
  fields = (lit "reasoningId", text_value (lit "b")) ∷ [];
}

abbrev moment : Env
moment = record { now = 10; now_saving = 11; wall = 1010; saved = true }

handle_reasoning_card_action-pending_example :
    ((handle_reasoning_card_action moment moment moment stop one_card).0
      ≡ ok (
          some (
            if reasoning_action_matches_session stop thinking.session
            then unsupported
            else ignored)))
    × (Dict.get
          (handle_reasoning_card_action moment moment moment stop one_card).1.entries
          (lit "m")
        ≡ some (
            if reasoning_action_matches_session stop thinking.session
            then record (claimed_entry 5 thinking) { state = completed }
            else record (claimed_entry 5 thinking) { state = pending; claimed_event_id = none }))
unfolding Dict.get text_eq
handle_reasoning_card_action-pending_example =
    handle_reasoning_card_action-pending moment moment moment stop thinking one_card refl refl refl
      (omega arith, omega arith) (omega arith, omega arith) (omega arith, omega arith) refl refl

-- The action of this test does belong to the card.
stop_belongs : reasoning_action_matches_session stop thinking.session ≡ true
unfolding reasoning_action_matches_session same_card channel_matches Dict.get text_eq text_in
stop_belongs = refl
