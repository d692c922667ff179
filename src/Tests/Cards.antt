-- ===== src/Tests/Cards.antt =====
-- card_sessions.py at a concrete card.
use hermes_channel_octo.Prelude.{◌+◌, ◌-◌, ◌≡◌, refl, true, false, none, some, [], ◌∷◌, arith}
use hermes_channel_octo.Prelude.Result.{ok, err}
use hermes_channel_octo.Prelude.Text.{lit, text_eq}
use hermes_channel_octo.Prelude.Dict
use hermes_channel_octo.Prelude.Dict.{put}
use hermes_channel_octo.Types.{dm}
use hermes_channel_octo.Sessions.Data.{
  CardSession, interactive, pending, Entry, event, claimed, Binding, entry_to_record,
  entry_from_record, restored_state,
}
use hermes_channel_octo.Sessions.Registry.{
  Registry, Env, save_failed, new_registry, persist, entry_locked,
}
use hermes_channel_octo.Sessions.Claims.{claim, release, claimed_entry}
use hermes_channel_octo.Sessions.Valid.{IsValid}
use hermes_channel_octo.Sessions.Run.{register_op, attach_persistence_op, claim_op, run_all}
use hermes_channel_octo.Sessions.Run.Invariant.{reachable-IsValid}
use hermes_channel_octo.Sessions.Exclusive.Claims.{IsClaimed, claim_exclusive}
use hermes_channel_octo.Sessions.Outcomes.{claim_rolled_back, claim-release-claim, from-to_record}

abbrev card : CardSession
card = record {
  message_id = lit "m";
  binding_id = lit "b";
  session_key = lit "k";
  chat_id = lit "c";
  channel_id = lit "c";
  channel_type = dm;
  requester_uid = lit "u";
  card = lit "{}";
  plain = lit "p";
  action_labels = [];
  input_ids = [];
  action_channel_ids = [];
  max_input_text_bytes = none;
  max_inputs_bytes = none;
  clarify = none;
  kind = interactive;
}

abbrev waiting : Entry
waiting = record {
  session = card;
  expires_at = 100;
  wall_expires_at = 1100;
  state = pending;
  claimed_event_id = none;
  attempt_event_id = none;
  dispatch_attempts = 0;
  card_seq = 0;
}

abbrev one_card : Registry
one_card = record {
  max_sessions = 2;
  ttl_seconds = 100;
  max_dispatch_attempts = 3;
  entries = (lit "m", waiting) ∷ [];
  attached = true;
  stored = [];
}

-- A moment at which the storage can be written, and one at which it can not.
abbrev moment : Env
moment = record { now = 10; now_saving = 11; wall = 1010; saved = true }

abbrev unsaved : Env
unsaved = record { now = 20; now_saving = 21; wall = 1020; saved = false }

one_card-IsValid : IsValid one_card
unfolding Dict.get
one_card-IsValid = record { unique = (refl, tt); bounded = omega arith; positive = omega arith }

reachable-IsValid_example : IsValid (
    run_all
      ((moment, attach_persistence_op [])
        ∷ (moment, register_op card)
        ∷ (unsaved, claim_op (lit "m") 5)
        ∷ [])
      (new_registry 2 100 3 none))
reachable-IsValid_example = reachable-IsValid 2 100 3 none (
    (moment, attach_persistence_op [])
    ∷ (moment, register_op card)
    ∷ (unsaved, claim_op (lit "m") 5)
    ∷ [])

claim_exclusive_example :
    ¬ IsClaimed
      (claim moment
        (lit "m")
        6
        (run_all ((unsaved, claim_op (lit "m") 7) ∷ []) (claim moment (lit "m") 5 one_card).1)).0
unfolding claim persist entry_locked Dict.get text_eq
claim_exclusive_example =
    claim_exclusive moment moment (lit "m") 5 6 ((unsaved, claim_op (lit "m") 7) ∷ []) one_card
      one_card-IsValid tt (tt, tt)

claim_rolled_back_example :
    ((claim unsaved (lit "m") 5 one_card).0 ≡ err save_failed)
    × (Dict.get (claim unsaved (lit "m") 5 one_card).1.entries (lit "m") ≡ some waiting)
unfolding Dict.get text_eq
claim_rolled_back_example =
    claim_rolled_back unsaved (lit "m") 5 waiting one_card refl refl (omega arith, omega arith) refl
      refl

claim-release-claim_example :
    (claim moment
      (lit "m")
      5
      (release moment (lit "m") (event 5) (claim moment (lit "m") 5 one_card).1).1).0
    ≡ ok (claimed card ((claimed_entry 5 waiting).dispatch_attempts + 1))
unfolding Dict.get text_eq
claim-release-claim_example =
    claim-release-claim moment moment moment (lit "m") 5 waiting one_card refl refl
      (omega arith, omega arith) (omega arith, omega arith) (omega arith, omega arith) refl refl

from-to_record_example :
    (b : Binding) × (entry_to_record waiting ≡ some b)
    × (entry_from_record 1050 7 b
        ≡ some (record waiting {
          expires_at = 7 + (1100 - 1050);
          state = restored_state pending;
          claimed_event_id = none;
        }))
from-to_record_example = from-to_record 1050 7 waiting refl refl refl (omega arith)
