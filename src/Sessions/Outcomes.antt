-- ===== src/Sessions/Outcomes.antt =====
-- What a claim, a release and a restart leave of an entry.
use hermes_channel_octo.Prelude.{
  ℕ, ◌+◌, ◌-◌, ◌<◌, ◌≡◌, refl, ◌∙◌, true, false, none, some, arith, ltb, if◌then◌else◌,
}
use hermes_channel_octo.Prelude.Result.{Result, ok, err}
use hermes_channel_octo.Prelude.Text.{Text, text_eq_refl}
use hermes_channel_octo.Prelude.Dict
use hermes_channel_octo.Prelude.Dict.{
  Dict, put, modify, keep, get-keep, get-put, get-modify, option_map,
}
use hermes_channel_octo.Sessions.Data.{
  Entry, pending, Claimant, event, CardClaim, claimed, Binding, is_pending, is_interactive,
  binding_of, same_event, bounded_message_id, entry_to_record, entry_from_record, restored_state,
}
use hermes_channel_octo.Sessions.Registry.{
  Registry, RegistryError, Env, save_failed, persist, entry_locked,
}
use hermes_channel_octo.Sessions.Claims.{
  claimed_entry, unclaimed, claim, holds, release, or_roll_back,
}

-- The call happens before the deadline, by both readings of the clock.
abbrev pub InTime : Env → ℕ → Type 0
InTime env deadline = (env.now < deadline) × (env.now_saving < deadline)

module _ (env : Env) (id : Text) (e : Entry) (r : Registry) where
  pub persist-get :
      env.now_saving < e.expires_at
      → Dict.get r.entries id ≡ some e
      → Dict.get (persist env r).1.entries id ≡ some e
  unfolding persist
  persist-get t h =
      let kept =
        get-keep (λ (x : Entry). ltb env.now_saving x.expires_at) r.entries id e h (ground arith) in
      ground (arith, kept)

  pub entry_locked-live :
      env.now < e.expires_at
      → Dict.get r.entries id ≡ some e
      → entry_locked env.now id r ≡ (some e, r)
  unfolding entry_locked
  entry_locked-live t h = ground arith

  pub saved-persist : env.saved ≡ true → (persist env r).0 ≡ ok tt
  unfolding persist
  saved-persist s = ground arith

  failed-persist : r.attached ≡ true → env.saved ≡ false → (persist env r).0 ≡ err save_failed
  unfolding persist
  failed-persist a s = ground arith

or_roll_back-ok :
    (a : CardClaim) (f : Entry → Entry) (id : Text) (x : Result RegistryError (Unit {0}) × Registry)
    → x.0 ≡ ok tt
    → or_roll_back a f id x ≡ (ok a, x.1)
or_roll_back-ok a f id (ok _, r) h = refl
or_roll_back-ok a f id (err _, r) h = absurd (cc)

or_roll_back-err :
    (a : CardClaim) (f : Entry → Entry) (id : Text) (x : Result RegistryError (Unit {0}) × Registry)
    → x.0 ≡ err save_failed
    → or_roll_back a f id x ≡ (err save_failed, record x.1 { entries = modify f x.1.entries id })
or_roll_back-err a f id (ok _, r) h = absurd (cc)
or_roll_back-err a f id (err save_failed, r) h = refl
or_roll_back-err a f id (err _, r) h = absurd (cc)

module _ (env : Env) (id : Text) (n : ℕ) (e : Entry) (r : Registry) where
  abbrev after_claim : Registry
  after_claim = record r { entries = put r.entries id (claimed_entry n e) }

  claim-live :
      Dict.get r.entries id ≡ some e
      → e.state ≡ pending
      → env.now < e.expires_at
      → claim env id n r
        ≡ or_roll_back
            (claimed e.session (claimed_entry n e).dispatch_attempts)
            (unclaimed e)
            id
            (persist env after_claim)
  unfolding claim
  claim-live h p t =
      let is : is_pending e.state ≡ true = ground arith in rw (entry_locked-live env id e r t h, is)

  put-after_claim : Dict.get after_claim.entries id ≡ some (claimed_entry n e)
  put-after_claim = rw (get-put r.entries id id (claimed_entry n e), text_eq_refl)

  -- A claim of a pending card that is in time and reaches the storage returns the card with its
  -- number of attempts, which starts anew with another event, and leaves the entry claimed.
  pub claim_pending :
      Dict.get r.entries id ≡ some e
      → e.state ≡ pending
      → InTime env e.expires_at
      → env.saved ≡ true
      → ((claim env id n r).0
          ≡ ok (
              claimed e.session
                (if same_event n e.attempt_event_id then e.dispatch_attempts + 1 else 1)))
        × (Dict.get (claim env id n r).1.entries id ≡ some (claimed_entry n e))
  claim_pending h p t s =
      rw
        (
          claim-live h p t.0,
          or_roll_back-ok _ (unclaimed e) id (persist env after_claim)
              (saved-persist env id e after_claim s),
        )
        (refl, persist-get env id (claimed_entry n e) after_claim t.1 put-after_claim)

  -- A claim of a pending card that is in time and does not reach the storage raises, and leaves
  -- the entry as it was.
  pub claim_rolled_back :
      Dict.get r.entries id ≡ some e
      → e.state ≡ pending
      → InTime env e.expires_at
      → r.attached ≡ true
      → env.saved ≡ false
      → ((claim env id n r).0 ≡ err save_failed)
        × (Dict.get (claim env id n r).1.entries id ≡ some e)
  claim_rolled_back h p t a s =
      let there = persist-get env id (claimed_entry n e) after_claim t.1 put-after_claim in
      rw
        (
          claim-live h p t.0,
          or_roll_back-err _ (unclaimed e) id (persist env after_claim)
              (failed-persist env id e after_claim a s),
        )
        (
          refl,
          rw
              (
                get-modify (unclaimed e) (persist env after_claim).1.entries id id,
                text_eq_refl,
                there,
              )
              refl,
        )

-- A release by the claimant makes the card pending again, and keeps its count of attempts.
pub release_claimed :
    (env : Env) (id : Text) (c : Claimant) (e : Entry) (r : Registry)
    → Dict.get r.entries id ≡ some e
    → holds c e ≡ true
    → InTime env e.expires_at
    → Dict.get (release env id c r).1.entries id
      ≡ some (record e { state = pending; claimed_event_id = none })
unfolding release
release_claimed env id c e r h k t =
    let e' : Entry = record e { state = pending; claimed_event_id = none } in
    rw (entry_locked-live env id e r t.0 h, k)
      (persist-get env id e' (record r { entries = put r.entries id e' }) t.1
        (rw (get-put r.entries id id e', text_eq_refl)))

-- The attempts of one event add up over claims and releases: if every call is in time and both
-- claims reach the storage, the second claim of a card by the same event counts one more than the
-- first.
pub claim-release-claim :
    (first second third : Env) (id : Text) (n : ℕ) (e : Entry) (r : Registry)
    → Dict.get r.entries id ≡ some e
    → e.state ≡ pending
    → InTime first e.expires_at
    → InTime second e.expires_at
    → InTime third e.expires_at
    → first.saved ≡ true
    → third.saved ≡ true
    → (claim third id n (release second id (event n) (claim first id n r).1).1).0
      ≡ ok (claimed e.session ((claimed_entry n e).dispatch_attempts + 1))
claim-release-claim first second third id n e r h p t1 t2 t3 s1 s3 =
    let (_, g1) = claim_pending first id n e r h p t1 s1 in
    let e' = claimed_entry n e in
    let g2 = release_claimed second id (event n) e' (claim first id n r).1 g1 (ground arith) t2 in
    let (out, _) =
      claim_pending third id n (record e' { state = pending; claimed_event_id = none })
        (release second id (event n) (claim first id n r).1).1 g2 refl t3 s3 in
    out ∙ ground arith

-- An interactive card that is not a clarify card, has a valid id and has not expired comes back
-- from the storage with its session, its deadline, its attempts and its sequence, and a claim that
-- was under way is pending again.
pub from-to_record :
    (wall mono : ℕ) (e : Entry)
    → is_interactive e.session.kind ≡ true
    → e.session.clarify ≡ none
    → bounded_message_id e.session.message_id ≡ true
    → wall < e.wall_expires_at
    → (b : Binding) × (entry_to_record e ≡ some b)
      × (entry_from_record wall mono b
          ≡ some (record e {
            expires_at = mono + (e.wall_expires_at - wall);
            state = restored_state e.state;
            claimed_event_id = none;
          }))
unfolding entry_to_record entry_from_record
from-to_record wall mono e i c b t = (binding_of e, ground arith, ground arith)
