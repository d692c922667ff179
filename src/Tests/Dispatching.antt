-- ===== src/Tests/Dispatching.antt =====
-- The handler of card actions at a concrete clarify card, and the gateway behind it.
use hermes_channel_octo.Prelude.{◌≡◌, refl, sym, ap, subst, true, none, some, [], ◌∷◌, arith}
use hermes_channel_octo.Prelude.Text.{lit, text_eq, text_in, texts_eq}
use hermes_channel_octo.Prelude.Dict
use hermes_channel_octo.Types.{dm}
use hermes_channel_octo.Protocol.Utf8.{encode}
use hermes_channel_octo.Sessions.Data.{CardSession, ClarifySession, interactive, pending, Entry}
use hermes_channel_octo.Sessions.Registry.{Registry, Env, persist, entry_locked}
use hermes_channel_octo.Sessions.Claims.{claim, claimed_entry}
use hermes_channel_octo.Sessions.Valid.{IsValid}
use hermes_channel_octo.Sessions.Run.{claim_op, run, run_all}
use hermes_channel_octo.Sessions.Leases.{Move, view}
use hermes_channel_octo.Sessions.Leases.Refines.{run-Move}
use hermes_channel_octo.Sessions.Outcomes.{InTime}
use hermes_channel_octo.Events.Poller.{completed}
use hermes_channel_octo.Events.Actions.{CardAction, text_value, action_matches_session}
use hermes_channel_octo.Events.Dispatch.{
  Attempt, was_raised, replied, handle_card_action, handle_each,
}
use hermes_channel_octo.Events.Settled.{Leaves, Settles, handle_card_action-Settles}
use hermes_channel_octo.Events.Retries.{
  Fails, AllFail, Accepts, DeadLetters, handle_each-dead_letter,
}
use hermes_channel_octo.Clarify.{
  Gateway, named, dispatch_action, selected_choices, entry_matches_session,
}
use hermes_channel_octo.Clarify.Answers.{telling, response_of, dispatch_action-selected_choices}

-- Two toppings, any of which may be chosen.
abbrev question : ClarifySession
question = record {
  clarify_id = lit "q";
  entry = 7;
  multi_select = true;
  question = lit "Which?";
  choices = lit "Cheese" ∷ lit "Ham" ∷ [];
  action_choices = (lit "c0", lit "Cheese") ∷ (lit "c1", lit "Ham") ∷ [];
  input_id = some (lit "pick");
  confirm_action_id = some (lit "confirm");
  other_action_id = lit "other";
}

abbrev card : CardSession
card = record {
  message_id = lit "m";
  binding_id = lit "b";
  session_key = lit "k";
  chat_id = lit "c";
  channel_id = lit "c";
  channel_type = dm;
  requester_uid = lit "u";
  card = lit "{}";
  plain = lit "p";
  action_labels = (lit "confirm", lit "OK") ∷ [];
  input_ids = lit "pick" ∷ [];
  action_channel_ids = [];
  max_input_text_bytes = none;
  max_inputs_bytes = none;
  clarify = some question;
  kind = interactive;
}

abbrev waiting : Entry
waiting = record {
  session = card;
  expires_at = 100;
  wall_expires_at = 1100;
  state = pending;
  claimed_event_id = none;
  attempt_event_id = none;
  dispatch_attempts = 0;
  card_seq = 0;
}

abbrev one_card : Registry
one_card = record {
  max_sessions = 2;
  ttl_seconds = 100;
  max_dispatch_attempts = 3;
  entries = (lit "m", waiting) ∷ [];
  attached = true;
  stored = [];
}

abbrev two_cards : Registry
two_cards = record one_card {
  entries =
      (lit "m", waiting)
      ∷ (lit "n", record waiting { session = record card { message_id = lit "n" } })
      ∷ [];
}

one_card-IsValid : IsValid one_card
unfolding Dict.get
one_card-IsValid = record { unique = (refl, tt); bounded = omega arith; positive = omega arith }

abbrev confirm : CardAction
confirm = record {
  event_id = 5;
  message_id = lit "m";
  channel_id = lit "c";
  channel_type = dm;
  action_id = lit "confirm";
  inputs = (lit "pick", lit "c1,c0") ∷ [];
  operator_uid = lit "u";
  fields = (lit "_octo_binding", text_value (lit "b")) ∷ [];
}

abbrev moment : Env
moment = record { now = 10; now_saving = 11; wall = 1010; saved = true }

abbrev succeeding : Attempt
succeeding = record {
  claiming = moment;
  meanwhile = (moment, claim_op (lit "n") 6) ∷ [];
  settling = moment;
  reaction = replied (named completed);
}

-- Another card is claimed during the dispatch.
abbrev failing : Attempt
failing = record {
  claiming = moment;
  meanwhile = (moment, claim_op (lit "n") 6) ∷ [];
  settling = moment;
  reaction = was_raised;
}

run-Move_example :
    Move
      (lit "m")
      (claim_op (lit "m") 5)
      (view 10 (lit "m") one_card)
      (view 10 (lit "m") (run moment (claim_op (lit "m") 5) one_card))
run-Move_example = run-Move moment (claim_op (lit "m") 5) (lit "m") one_card one_card-IsValid

abbrev gateway : Gateway
gateway = record {
  find = λ id. some (record {
    identity = 7;
    session_key = lit "k";
    question = lit "Which?";
    choices = lit "Cheese" ∷ lit "Ham" ∷ [];
    multi_select = true;
  });
  mark_awaiting_text = λ id. true;
  resolve_gateway_clarify = λ id response. true;
}

-- Both are chosen, in the order of the card.
both_chosen : selected_choices question confirm ≡ lit "Cheese" ∷ lit "Ham" ∷ []
unfolding selected_choices Dict.get text_eq text_in
both_chosen = refl

dispatch_action-selected_choices_example :
    dispatch_action gateway card confirm
    ≡ some (telling gateway question (response_of question (selected_choices question confirm)))
unfolding entry_matches_session text_eq texts_eq
dispatch_action-selected_choices_example =
    dispatch_action-selected_choices gateway card question
      (record {
        identity = 7;
        session_key = lit "k";
        question = lit "Which?";
        choices = lit "Cheese" ∷ lit "Ham" ∷ [];
        multi_select = true;
      })
      confirm refl refl refl refl

handle_card_action-Settles_example :
    Settles (lit "m") (claimed_entry 5 waiting) (handle_card_action succeeding confirm one_card)
unfolding Dict.get text_eq run_all run claim persist entry_locked Dict.keep Dict.put
handle_card_action-Settles_example =
    handle_card_action-Settles succeeding confirm waiting one_card refl refl
      (omega arith, omega arith) (omega arith, omega arith) refl refl refl

abbrev failing_alone : Attempt
failing_alone = record failing { meanwhile = [] }

Fails-meanwhile :
    (t : Attempt) (r : Registry)
    → t.reaction ≡ was_raised
    → t.claiming ≡ moment
    → t.settling ≡ moment
    → Leaves (lit "m") t.meanwhile (claim t.claiming (lit "m") 5 r).1
    → Fails confirm 100 t r
Fails-meanwhile t r w c s l =
    let early : InTime moment 100 = (omega arith, omega arith) in
    record {
      raised = w;
      claims = subst (λ m. InTime m 100) (sym c) early;
      settles = subst (λ m. InTime m 100) (sym s) early;
      claim_saved = ap (λ (m : Env). m.saved) c;
      settle_saved = ap (λ (m : Env). m.saved) s;
      leaves = l;
    }

failing-Fails : Fails confirm 100 failing two_cards
unfolding run_all run Dict.get Dict.put Dict.pop Dict.keep text_eq claim persist entry_locked
failing-Fails = Fails-meanwhile failing two_cards refl refl refl refl

failing_alone-Fails : (r : Registry) → Fails confirm 100 failing_alone r
unfolding run_all
failing_alone-Fails r = Fails-meanwhile failing_alone r refl refl refl refl

failing-AllFail : AllFail confirm 100 (failing ∷ failing_alone ∷ failing_alone ∷ []) two_cards
failing-AllFail = (failing-Fails, (failing_alone-Fails _, (failing_alone-Fails _, tt)))

confirm-Accepts : Accepts confirm waiting
unfolding action_matches_session selected_choices Dict.get text_eq text_in encode
confirm-Accepts = record { waits = refl; matches = refl; selects = refl }

handle_each-dead_letter_example :
    DeadLetters confirm
      (failing ∷ failing_alone ∷ [])
      (handle_each (failing ∷ failing_alone ∷ failing_alone ∷ []) confirm two_cards)
unfolding Dict.get text_eq
handle_each-dead_letter_example =
    handle_each-dead_letter confirm (failing ∷ failing_alone ∷ []) failing_alone waiting two_cards
      refl confirm-Accepts failing-AllFail refl
