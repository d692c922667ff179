-- ===== src/Events/Settled.antt =====
-- How the handler of card actions leaves the card.
use hermes_channel_octo.Prelude.{
  ℕ, ◌≡◌, refl, Bool, true, false, Option, none, some, List, leb, arith, inl, inr, Bool-cases,
}
use hermes_channel_octo.Prelude.Result.{Result, ok, err}
use hermes_channel_octo.Prelude.Text.{Text}
use hermes_channel_octo.Prelude.Dict
use hermes_channel_octo.Sessions.Data.{
  CardSession, Entry, pending, completed, event, CardClaim, claimed,
}
use hermes_channel_octo.Sessions.Registry.{Registry, RegistryError, Env}
use hermes_channel_octo.Sessions.Claims.{claim, release, complete, claimed_entry, holds}
use hermes_channel_octo.Sessions.Run.{Op, release_op, run, run_all}
use hermes_channel_octo.Sessions.Run.Limits.{run-limit}
use hermes_channel_octo.Sessions.Outcomes.{InTime, claim_pending, release_claimed}
use hermes_channel_octo.Events.Poller.{Status, dead_letter, ignored, invalid}
use hermes_channel_octo.Events.Actions.{CardAction, action_matches_session}
use hermes_channel_octo.Events.Consumed.{complete_claimed, completes, releases}
use hermes_channel_octo.Events.Dispatch.{
  Reaction, was_cancelled, was_raised, replied, HandlerError, cancelled, dispatch_raised, Attempt,
  Handled, ending, reply_status, is_terminal, is_empty_confirm, released, consumed, after_dispatch,
  handle_claimed, after_claim, handle_card_action,
}

-- The answers that end a card.
abbrev pub ends_card : Result HandlerError Status → Bool
ends_card (err _) = false
ends_card (ok dead_letter) = true
ends_card (ok status) = is_terminal status

abbrev pub settled_entry : Bool → Entry → Entry
settled_entry true e = record e { state = completed }
settled_entry false e = record e { state = pending; claimed_event_id = none }

-- The answer of a handler, and the entry of the card that goes with it.
abbrev pub Settles : Text → Entry → Handled → Type 0
Settles id e x = Dict.get x.1.entries id ≡ some (settled_entry (ends_card x.0) e)

ending-ok :
    (answer : Result HandlerError Status) (x : Result RegistryError (Unit {0}) × Registry)
    → x.0 ≡ ok tt
    → ending answer x ≡ (answer, x.1)
ending-ok answer (ok _, r) h = refl
ending-ok answer (err _, r) h = absurd (cc)

pub after_claim-claimed :
    (t : Attempt) (a : CardAction) (s : CardSession) (n : ℕ)
    (x : Result RegistryError CardClaim × Registry)
    → x.0 ≡ ok (claimed s n)
    → after_claim t a x ≡ handle_claimed t a (action_matches_session a s) s n x.1
after_claim-claimed t a s n (ok c, r) h = let e : c ≡ claimed s n = cc in rw e refl
after_claim-claimed t a s n (err _, r) h = absurd (cc)

module _ (env : Env) (a : CardAction) (e : Entry) (r : Registry)
    (there : Dict.get r.entries a.message_id ≡ some e) (held : holds (event a.event_id) e ≡ true)
    (in_time : InTime env e.expires_at) (saved : env.saved ≡ true) where
  pub released-get :
      (answer : Result HandlerError Status)
      → (x : Registry) × (released env a answer r ≡ (answer, x))
        × (Dict.get x.entries a.message_id ≡ some (settled_entry false e))
        × (x.max_dispatch_attempts ≡ r.max_dispatch_attempts)
  released-get answer = (
    (release env a.message_id (event a.event_id) r).1,
    ending-ok answer (release env a.message_id (event a.event_id) r)
        (releases env a.message_id a.event_id r saved),
    release_claimed env a.message_id (event a.event_id) e r there held in_time,
    unfold run in run-limit env (release_op a.message_id (event a.event_id)) r,
  )

  pub consumed-get :
      (answer : Status)
      → (x : Registry) × (consumed env a answer r ≡ (ok answer, x))
        × (Dict.get x.entries a.message_id ≡ some (settled_entry true e))
  consumed-get answer = (
    (complete env a.message_id a.event_id r).1,
    ending-ok (ok answer) (complete env a.message_id a.event_id r)
        (completes env a.message_id a.event_id r saved),
    complete_claimed env a.message_id a.event_id e r there held in_time,
  )

  released-Settles :
      (answer : Result HandlerError Status)
      → ends_card answer ≡ false
      → Settles a.message_id e (released env a answer r)
  released-Settles answer h = let (x, out, got, limit) = released-get answer in rw (out, h) got

  consumed-Settles :
      (answer : Status)
      → ends_card (ok answer) ≡ true
      → Settles a.message_id e (consumed env a answer r)
  consumed-Settles answer h = let (x, out, got) = consumed-get answer in rw (out, h) got

  terminal-ends : (s : Status) → is_terminal s ≡ true → ends_card (ok s) ≡ true
  terminal-ends s h = ground arith

  after_dispatch-Settles :
      (n : ℕ) (reaction : Reaction) → Settles a.message_id e (after_dispatch env a n reaction r)
  unfolding after_dispatch
  after_dispatch-Settles n was_cancelled = released-Settles (err cancelled) refl
  after_dispatch-Settles n was_raised = elim (Bool-cases (leb r.max_dispatch_attempts n)) [
    | inl t ↦ rw t (consumed-Settles dead_letter refl)
    | inr t ↦ rw t (released-Settles (err dispatch_raised) refl)
  ]
  after_dispatch-Settles n (replied reply) = elim (Bool-cases (is_terminal (reply_status reply))) [
    | inl t ↦ rw t (consumed-Settles (reply_status reply) (terminal-ends _ t))
    | inr t ↦ rw t (released-Settles (ok ignored) refl)
  ]

-- What other tasks do while the dispatch is awaited leaves this card's entry as it is.
abbrev pub Leaves : Text → List (Env × Op) → Registry → Type 0
Leaves id steps r = Dict.get (run_all steps r).entries id ≡ Dict.get r.entries id

handle_claimed-Settles :
    (t : Attempt) (a : CardAction) (m : Option Bool) (s : CardSession) (n : ℕ) (e : Entry)
    (r : Registry)
    → Dict.get r.entries a.message_id ≡ some e
    → holds (event a.event_id) e ≡ true
    → InTime t.settling e.expires_at
    → t.settling.saved ≡ true
    → Leaves a.message_id t.meanwhile r
    → Settles a.message_id e (handle_claimed t a m s n r)
handle_claimed-Settles t a none s n e r h k i w l =
    released-Settles t.settling a e r h k i w (ok ignored) refl
handle_claimed-Settles t a (some false) s n e r h k i w l =
    released-Settles t.settling a e r h k i w (ok ignored) refl
handle_claimed-Settles t a (some true) s n e r h k i w l =
    elim (Bool-cases (is_empty_confirm s.clarify a)) [
      | inl c ↦ rw c (released-Settles t.settling a e r h k i w (ok invalid) refl)
      | inr c ↦ rw c (
          after_dispatch-Settles t.settling a e (run_all t.meanwhile r) (rw l h) k i w n t.reaction)
    ]

pub claimed-holds : (n : ℕ) (e : Entry) → holds (event n) (claimed_entry n e) ≡ true
claimed-holds n e = ground arith

-- The handler never leaves a pending card claimed: when its calls are in time and reach the
-- storage, and the tasks that run while the dispatch is awaited leave the card alone, then the
-- card is completed if the answer is one that ends it (completed, awaiting text, expired, failed,
-- dead letter), and otherwise pending again, whether the answer is another one or an exception;
-- and the attempt is counted.
pub handle_card_action-Settles :
    (t : Attempt) (a : CardAction) (e : Entry) (r : Registry)
    → Dict.get r.entries a.message_id ≡ some e
    → e.state ≡ pending
    → InTime t.claiming e.expires_at
    → InTime t.settling e.expires_at
    → t.claiming.saved ≡ true
    → t.settling.saved ≡ true
    → Leaves a.message_id t.meanwhile (claim t.claiming a.message_id a.event_id r).1
    → Settles a.message_id (claimed_entry a.event_id e) (handle_card_action t a r)
unfolding handle_card_action
handle_card_action-Settles t a e r h p t1 t2 s1 s2 l =
    let (out, held) = claim_pending t.claiming a.message_id a.event_id e r h p t1 s1 in
    rw (after_claim-claimed t a e.session _ (claim t.claiming a.message_id a.event_id r) out) (
      handle_claimed-Settles t a (action_matches_session a e.session) e.session _
        (claimed_entry a.event_id e) (claim t.claiming a.message_id a.event_id r).1 held
        (claimed-holds a.event_id e) t2 s2 l)
