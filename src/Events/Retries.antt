-- ===== src/Events/Retries.antt =====
-- The retries of a card action whose dispatch raises.
use hermes_channel_octo.Prelude.{
  ℕ, ◌+◌, ◌≡◌, refl, sym, ap, subst, ◌∙◌, true, false, some, List, [], ◌∷◌, ◌++◌, length, map, leb,
  if◌then◌else◌, arith,
}
use hermes_channel_octo.Prelude.Result.{Result, ok, err}
use hermes_channel_octo.Prelude.Dict
use hermes_channel_octo.Sessions.Data.{Entry, pending, completed, same_event}
use hermes_channel_octo.Sessions.Registry.{Registry}
use hermes_channel_octo.Sessions.Claims.{claim, claimed_entry}
use hermes_channel_octo.Sessions.Run.{claim_op, run, run_all}
use hermes_channel_octo.Sessions.Run.Limits.{run-limit, run_all-limit}
use hermes_channel_octo.Sessions.Outcomes.{InTime, claim_pending}
use hermes_channel_octo.Events.Poller.{Status, dead_letter}
use hermes_channel_octo.Events.Actions.{CardAction, action_matches_session}
use hermes_channel_octo.Events.Dispatch.{
  was_raised, HandlerError, dispatch_raised, Attempt, is_empty_confirm, after_dispatch,
  handle_card_action, handle_each,
}
use hermes_channel_octo.Events.Settled.{
  Leaves, settled_entry, after_claim-claimed, released-get, consumed-get, claimed-holds,
}

-- The attempts of this event that the entry counts.
abbrev pub tries : ℕ → Entry → ℕ
tries n e = if same_event n e.attempt_event_id then e.dispatch_attempts else 0

module _ (a : CardAction) where
  -- An attempt at this registry whose dispatch raises, while the storage works, the card has not
  -- expired, and what other tasks do between the claim and the settlement leaves this card alone.
  pub record Fails (deadline : ℕ) (t : Attempt) (r : Registry) : Type 0 where
    pub raised : t.reaction ≡ was_raised
    pub claims : InTime t.claiming deadline
    pub settles : InTime t.settling deadline
    pub claim_saved : t.claiming.saved ≡ true
    pub settle_saved : t.settling.saved ≡ true
    pub leaves : Leaves a.message_id t.meanwhile (claim t.claiming a.message_id a.event_id r).1

  -- Each attempt fails at the registry that the ones before it leave.
  abbrev pub AllFail : ℕ → List Attempt → Registry → Type 0
  AllFail deadline [] r = Unit
  AllFail deadline (t ∷ ts) r =
      Fails deadline t r × AllFail deadline ts (handle_card_action t a r).1

  -- A pending card that the action belongs to, and on which it is not an empty confirmation.
  pub record Accepts (e : Entry) : Type 0 where
    pub waits : e.state ≡ pending
    pub matches : action_matches_session a e.session ≡ some true
    pub selects : is_empty_confirm e.session.clarify a ≡ false

  tries-claimed :
      (e : Entry) → (claimed_entry a.event_id e).dispatch_attempts ≡ tries a.event_id e + 1
  tries-claimed e = ground arith

  handle-dispatched :
      (t : Attempt) (e : Entry) (r : Registry)
      → Dict.get r.entries a.message_id ≡ some e
      → Accepts e
      → Fails e.expires_at t r
      → let r' = run_all t.meanwhile (claim t.claiming a.message_id a.event_id r).1 in
        (handle_card_action t a r
          ≡ after_dispatch t.settling a (tries a.event_id e + 1) was_raised r')
        × (Dict.get r'.entries a.message_id ≡ some (claimed_entry a.event_id e))
        × (r'.max_dispatch_attempts ≡ r.max_dispatch_attempts)
  unfolding handle_card_action
  handle-dispatched t e r h k f =
      let (out, held) =
        claim_pending t.claiming a.message_id a.event_id e r h k.waits f.claims f.claim_saved in
      let x = claim t.claiming a.message_id a.event_id r in
      (
        rw
            (
              after_claim-claimed t a e.session _ x out,
              k.matches,
              k.selects,
              f.raised,
              tries-claimed e,
            )
            refl,
        f.leaves ∙ held,
        run_all-limit t.meanwhile x.1
            ∙ unfold run in run-limit t.claiming (claim_op a.message_id a.event_id) r,
      )

  -- What an attempt does that is not the last.
  raises-again :
      (t : Attempt) (e : Entry) (r : Registry)
      → Dict.get r.entries a.message_id ≡ some e
      → Accepts e
      → Fails e.expires_at t r
      → leb r.max_dispatch_attempts (tries a.event_id e + 1) ≡ false
      → (x : Registry) × (handle_card_action t a r ≡ (err dispatch_raised, x))
        × (Dict.get x.entries a.message_id
            ≡ some (settled_entry false (claimed_entry a.event_id e)))
        × (x.max_dispatch_attempts ≡ r.max_dispatch_attempts)
  unfolding after_dispatch
  raises-again t e r h k f n =
      let (out, held, limit) = handle-dispatched t e r h k f in
      let r' = run_all t.meanwhile (claim t.claiming a.message_id a.event_id r).1 in
      let e' = claimed_entry a.event_id e in
      let (x, ends, got, limit2) =
        released-get t.settling a e' r' held (claimed-holds a.event_id e) f.settles f.settle_saved
          (err dispatch_raised) in
      let n' : leb r'.max_dispatch_attempts (tries a.event_id e + 1) ≡ false = rw limit n in
      (x, out ∙ rw n' ends, got, limit2 ∙ limit)

  raises-last :
      (t : Attempt) (e : Entry) (r : Registry)
      → Dict.get r.entries a.message_id ≡ some e
      → Accepts e
      → Fails e.expires_at t r
      → leb r.max_dispatch_attempts (tries a.event_id e + 1) ≡ true
      → (x : Registry) × (handle_card_action t a r ≡ (ok dead_letter, x))
        × (Dict.get x.entries a.message_id ≡ some (settled_entry true (claimed_entry a.event_id e)))
  unfolding after_dispatch
  raises-last t e r h k f n =
      let (out, held, limit) = handle-dispatched t e r h k f in
      let r' = run_all t.meanwhile (claim t.claiming a.message_id a.event_id r).1 in
      let e' = claimed_entry a.event_id e in
      let (x, ends, got) =
        consumed-get t.settling a e' r' held (claimed-holds a.event_id e) f.settles f.settle_saved
          dead_letter in
      let n' : leb r'.max_dispatch_attempts (tries a.event_id e + 1) ≡ true = rw limit n in
      (x, out ∙ rw n' ends, got)

  counted : (n : ℕ) (e : Entry) → tries n (settled_entry false (claimed_entry n e)) ≡ tries n e + 1
  counted n e = ground arith

  each-step :
      (t : Attempt) (ts : List Attempt) (r x : Registry) (answer : Result HandlerError Status)
      → handle_card_action t a r ≡ (answer, x)
      → handle_each (t ∷ ts) a r ≡ (answer ∷ (handle_each ts a x).0, (handle_each ts a x).1)
  unfolding handle_each
  each-step t ts r x answer h = simp h refl

  abbrev all_raise : List Attempt → List (Result HandlerError Status)
  all_raise ts = map (λ _. err dispatch_raised) ts

  -- The answers of a run whose last attempt ends the card.
  abbrev pub DeadLetters : List Attempt → List (Result HandlerError Status) × Registry → Type 0
  DeadLetters ts x =
      (x.0 ≡ all_raise ts ++ ok dead_letter ∷ [])
      × (c : Entry) × (Dict.get x.1.entries a.message_id ≡ some c)
      × (c.state ≡ completed)

  -- An action that is handled again and again, and whose dispatch raises every time, comes to an end:
  -- when the attempts that the registry still allows are used up, the last of them answers that the
  -- action is dead and completes the card, and each earlier one raised. The action belongs to a
  -- pending card and is no empty confirmation; the calls are in time, their writes succeed, and what
  -- other tasks do during each dispatch leaves the entry of this card as it is, whatever it does to
  -- others.
  pub handle_each-dead_letter :
      (ts : List Attempt) (last : Attempt) (e : Entry) (r : Registry)
      → Dict.get r.entries a.message_id ≡ some e
      → Accepts e
      → AllFail e.expires_at (ts ++ last ∷ []) r
      → tries a.event_id e + length ts + 1 ≡ r.max_dispatch_attempts
      → DeadLetters ts (handle_each (ts ++ last ∷ []) a r)
  handle_each-dead_letter [] last e r h k (f, fs) n =
      let (x, out, got) = raises-last last e r h k f (ground arith) in
      subst (DeadLetters []) (sym (each-step last [] r x (ok dead_letter) out))
        (unfold handle_each in (refl, settled_entry true (claimed_entry a.event_id e), got, refl))
  handle_each-dead_letter (t ∷ ts) last e r h k (f, fs) n =
      let (x, out, got, limit) = raises-again t e r h k f (ground arith) in
      let e' = settled_entry false (claimed_entry a.event_id e) in
      let k' : Accepts e' = record { waits = refl; matches = k.matches; selects = k.selects } in
      let fs' =
        subst
          (λ (y : Result HandlerError Status × Registry).
            AllFail e.expires_at (ts ++ last ∷ []) y.1)
          out fs in
      let (answers, c, there, done) =
        handle_each-dead_letter ts last e' x got k' fs'
          (omega (arith, n, limit, counted a.event_id e)) in
      subst (DeadLetters (t ∷ ts))
        (sym (each-step t (ts ++ last ∷ []) r x (err dispatch_raised) out))
        (ap (λ l. err dispatch_raised ∷ l) answers, c, there, done)
