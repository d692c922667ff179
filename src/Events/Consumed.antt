-- ===== src/Events/Consumed.antt =====
-- What the handler of reasoning cards makes of an action.
use hermes_channel_octo.Prelude.{
  ℕ, ◌<◌, inl, inr, ◌≡◌, refl, true, none, some, arith, if◌then◌else◌, Bool-cases,
}
use hermes_channel_octo.Prelude.Result.{Result, ok, err}
use hermes_channel_octo.Prelude.Text.{Text, text_eq_refl}
use hermes_channel_octo.Prelude.Dict
use hermes_channel_octo.Prelude.Dict.{put, get-put}
use hermes_channel_octo.Sessions.Data.{
  CardSession, Entry, pending, completed, event, CardClaim, claimed, is_reasoning,
}
use hermes_channel_octo.Sessions.Registry.{Registry, RegistryError, Env, persist, peek}
use hermes_channel_octo.Sessions.Claims.{claim, release, complete, claimed_entry, holds}
use hermes_channel_octo.Sessions.Outcomes.{
  InTime, persist-get, entry_locked-live, claim_pending, release_claimed,
}
use hermes_channel_octo.Events.Poller.{ignored, unsupported}
use hermes_channel_octo.Events.Actions.{
  CardAction, reasoning_action_matches_session, settle_reasoning, answering,
  handle_reasoning_card_action,
}

pub complete_claimed :
    (env : Env) (id : Text) (n : ℕ) (e : Entry) (r : Registry)
    → Dict.get r.entries id ≡ some e
    → holds (event n) e ≡ true
    → InTime env e.expires_at
    → Dict.get (complete env id n r).1.entries id ≡ some (record e { state = completed })
unfolding complete
complete_claimed env id n e r h k t =
    let e' : Entry = record e { state = completed } in
    rw (entry_locked-live env id e r t.0 h, k)
      (persist-get env id e' (record r { entries = put r.entries id e' }) t.1
        (rw (get-put r.entries id id e', text_eq_refl)))

pub completes :
    (env : Env) (id : Text) (n : ℕ) (r : Registry)
    → env.saved ≡ true
    → (complete env id n r).0 ≡ ok tt
unfolding complete persist
completes env id n r s = ground arith

pub releases :
    (env : Env) (id : Text) (n : ℕ) (r : Registry)
    → env.saved ≡ true
    → (release env id (event n) r).0 ≡ ok tt
unfolding release persist
releases env id n r s = ground arith

peek-live :
    (env : Env) (id : Text) (e : Entry) (r : Registry)
    → env.now < e.expires_at
    → Dict.get r.entries id ≡ some e
    → peek env id r ≡ (some e.session, r)
unfolding peek
peek-live env id e r t h = let found = entry_locked-live env id e r t h in rw (peek, found, found)

answering-ok :
    {A : Type 0} (a : A) (x : Result RegistryError (Unit {0}) × Registry)
    → x.0 ≡ ok tt
    → answering a x ≡ (ok (some a), x.1)
answering-ok a (ok _, r) h = refl
answering-ok a (err _, r) h = absurd (cc)

pub settle_claimed :
    (env : Env) (a : CardAction) (s : CardSession) (n : ℕ)
    (x : Result RegistryError CardClaim × Registry)
    → x.0 ≡ ok (claimed s n)
    → settle_reasoning env a x ≡ (
        if reasoning_action_matches_session a s
        then answering unsupported (complete env a.message_id a.event_id x.1)
        else answering ignored (release env a.message_id (event a.event_id) x.1))
settle_claimed env a s n (ok c, r) h = let e : c ≡ claimed s n = cc in rw e refl
settle_claimed env a s n (err _, r) h = absurd (cc)

-- An action on a pending reasoning card, when every write of the registry succeeds and the card does
-- not expire meanwhile: one that belongs to the card is answered as unsupported and completes it, and
-- any other is ignored and leaves it pending, with one attempt counted.
pub handle_reasoning_card_action-pending :
    (peeking claiming settling : Env) (a : CardAction) (e : Entry) (r : Registry)
    → Dict.get r.entries a.message_id ≡ some e
    → e.state ≡ pending
    → is_reasoning e.session.kind ≡ true
    → InTime peeking e.expires_at
    → InTime claiming e.expires_at
    → InTime settling e.expires_at
    → claiming.saved ≡ true
    → settling.saved ≡ true
    → let x = handle_reasoning_card_action peeking claiming settling a r in
      let c = claimed_entry a.event_id e in
      (x.0
        ≡ ok (some (if reasoning_action_matches_session a e.session then unsupported else ignored)))
      × (Dict.get x.1.entries a.message_id
          ≡ some (
              if reasoning_action_matches_session a e.session
              then record c { state = completed }
              else record c { state = pending; claimed_event_id = none }))
unfolding handle_reasoning_card_action
handle_reasoning_card_action-pending peeking claiming settling a e r h p k t1 t2 t3 s2 s3 =
    let (out, held) = claim_pending claiming a.message_id a.event_id e r h p t2 s2 in
    let x = claim claiming a.message_id a.event_id r in
    let c = claimed_entry a.event_id e in
    let holding : holds (event a.event_id) c ≡ true = ground arith in
    rw (peek-live peeking a.message_id e r t1.0 h, k, settle_claimed settling a e.session _ x out)
      (elim (Bool-cases (reasoning_action_matches_session a e.session)) [
        | inl m ↦
            rw
              (
                m,
                answering-ok unsupported (complete settling a.message_id a.event_id x.1)
                    (completes settling a.message_id a.event_id x.1 s3),
              )
              (refl, complete_claimed settling a.message_id a.event_id c x.1 held holding t3)
        | inr m ↦
            rw
              (
                m,
                answering-ok ignored (release settling a.message_id (event a.event_id) x.1)
                    (releases settling a.message_id a.event_id x.1 s3),
              )
              (refl, release_claimed settling a.message_id (event a.event_id) c x.1 held holding t3)
      ])
