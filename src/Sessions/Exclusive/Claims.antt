-- ===== src/Sessions/Exclusive/Claims.antt =====
-- Claims of a card of `CardSessionRegistry` while another claim is under way.
use hermes_channel_octo.Prelude.{
  ℕ, ◌≡◌, ◌≢◌, refl, ◌⊎◌, inl, inr, true, false, Option, none, some, List, [], ◌∷◌, arith, All,
  Bool-cases,
}
use hermes_channel_octo.Prelude.Result.{Result, ok, err}
use hermes_channel_octo.Prelude.Text.{Text, text_eq_refl}
use hermes_channel_octo.Prelude.Dict
use hermes_channel_octo.Prelude.Dict.{
  Dict, put, modify, keep, get-pop, get-put, get-modify, option_map,
}
use hermes_channel_octo.Prelude.Dict.Unique.{put-IsUnique}
use hermes_channel_octo.Sessions.Data.{
  Binding, CardSession, Entry, Claimant, event, CardClaim, claimed, missing, duplicate, is_pending,
}
use hermes_channel_octo.Sessions.Registry.{
  set_persistence, Registry, RegistryError, Env, persist, returning, peek, discard, clear,
}
use hermes_channel_octo.Sessions.Claims.{
  claimed_entry, unclaimed, claim_entry, claim, edit_matches, claim_edit_entry, claim_edit,
  next_seq_entry, next_card_seq, holds, release, complete, or_roll_back,
}
use hermes_channel_octo.Sessions.Valid.{IsValid, entry_locked-cases, pop-IsValid}
use hermes_channel_octo.Sessions.Run.{
  Op, register_op, refresh_op, peek_op, discard_op, next_card_seq_op, claim_op, complete_op,
  claim_edit_op, release_op, clear_op, restore_op, set_persistence_op, attach_persistence_op, run,
  run_all,
}
use hermes_channel_octo.Sessions.Run.Claiming.{returning-state, claim-IsValid, settle-IsValid}
use hermes_channel_octo.Sessions.Run.Invariant.{run-IsValid}
use hermes_channel_octo.Sessions.Exclusive.{
  Guarded, persist-Guarded, pop-Guarded, Guarded-holds, on_entry-Guarded, save-Guarded,
}
use hermes_channel_octo.Sessions.Exclusive.Steps.{
  claim_entry-Guarded, claim_edit_entry-Guarded, settle-Guarded, register-Guarded,
  refresh_reasoning-Guarded,
}

-- A call that may happen while the claimant has the card: anything but its own release or
-- completion of that card, a new card under the same id, and a restore from the storage.
abbrev pub Concurrent : Text → Claimant → Op → Type 0
Concurrent id c (register_op s) = s.message_id ≢ id
Concurrent id c (release_op j d) = (j ≢ id) ⊎ (d ≢ c)
Concurrent id c (complete_op j n) = (j ≢ id) ⊎ (event n ≢ c)
Concurrent id c restore_op = ⊥
Concurrent id c (attach_persistence_op bs) = ⊥
Concurrent id c _ = Unit

peek-Guarded :
    (env : Env) (j id : Text) (c : Claimant) {r : Registry}
    → Guarded id c r
    → Guarded id c (peek env j r).1
unfolding peek
peek-Guarded env j id c {r} g = elim (entry_locked-cases env.now j r) [
  | inl (inl e) ↦ rw (peek, e, e) (pop-Guarded j id c g)
  | inl (inr (e, h)) ↦ rw (peek, e, e) g
  | inr (x, e, h, t) ↦ rw (peek, e, e) g
]

next_seq-Guarded :
    (env : Env) (j id : Text) (c : Claimant) (e : Entry) {r : Registry}
    → IsValid r
    → Guarded id c r
    → Dict.get r.entries j ≡ some e
    → Guarded id c (next_seq_entry env j e r).1
next_seq-Guarded env j id c e v g h =
    rw returning-state (save-Guarded env j id c v g e _ h (λ held. held))

cleared-Guarded :
    (id : Text) (c : Claimant) (r : Registry) → Guarded id c (record r { entries = [] })
unfolding Dict.get
cleared-Guarded id c r = record { held = tt }

set_persistence-Guarded :
    (p : Option (List Binding)) (id : Text) (c : Claimant) (r : Registry)
    → Guarded id c r
    → Guarded id c (set_persistence p r)
unfolding set_persistence
set_persistence-Guarded none id c r g = record { held = g.held }
set_persistence-Guarded (some bs) id c r g = record { held = g.held }

run-Guarded :
    (env : Env) (op : Op) (id : Text) (c : Claimant) {r : Registry}
    → Concurrent id c op
    → IsValid r
    → Guarded id c r
    → Guarded id c (run env op r)
unfolding run discard clear claim claim_edit next_card_seq release complete
run-Guarded env (register_op s) id c ne v g = register-Guarded env s id c ne v g
run-Guarded env (refresh_op s) id c q v g = refresh_reasoning-Guarded env s id c v g
run-Guarded env (peek_op j) id c q v g = peek-Guarded env j id c g
run-Guarded env (discard_op j) id c q v g =
    persist-Guarded env id c (pop-IsValid j v).unique (pop-Guarded j id c g)
run-Guarded env (next_card_seq_op j) id c q v g =
    on_entry-Guarded none (next_seq_entry env j) env.now j id c
      (λ e h. next_seq-Guarded env j id c e v g h) g
run-Guarded env (claim_op j n) id c q v g =
    on_entry-Guarded missing (claim_entry env j n) env.now j id c
      (λ e h. claim_entry-Guarded env j id c v g n e h) g
run-Guarded env (complete_op j n) id c q v g =
    persist-Guarded env id c (settle-IsValid env.now (event n) _ j v).unique
      (settle-Guarded env j id c v g env.now (event n) _ q)
run-Guarded env (claim_edit_op j key channel type uid) id c q v g =
    let allowed = edit_matches key channel type uid in
    on_entry-Guarded none (claim_edit_entry env j allowed) env.now j id c
      (λ e h. claim_edit_entry-Guarded env j id c v g allowed e h) g
run-Guarded env (release_op j d) id c q v g =
    persist-Guarded env id c (settle-IsValid env.now d _ j v).unique
      (settle-Guarded env j id c v g env.now d _ q)
run-Guarded env clear_op id c {r} q v g =
    persist-Guarded env id c {r = record r { entries = [] }} tt (cleared-Guarded id c r)
run-Guarded env restore_op id c q v g = absurd q
run-Guarded env (set_persistence_op p) id c {r} q v g = set_persistence-Guarded p id c r g
run-Guarded env (attach_persistence_op bs) id c q v g = absurd q

run_all-Guarded :
    (steps : List (Env × Op)) (id : Text) (c : Claimant) {r : Registry}
    → All (λ (s : Env × Op). Concurrent id c s.1) steps
    → IsValid r
    → Guarded id c r
    → Guarded id c (run_all steps r) × IsValid (run_all steps r)
unfolding run_all
run_all-Guarded [] id c q v g = (g, v)
run_all-Guarded ((env, op) ∷ rest) id c (q, qs) v g =
    run_all-Guarded rest id c qs (run-IsValid env op v) (run-Guarded env op id c q v g)

abbrev pub IsClaimed : Result RegistryError CardClaim → Type 0
IsClaimed (ok (claimed s n)) = Unit
IsClaimed (ok (duplicate s)) = ⊥
IsClaimed (ok missing) = ⊥
IsClaimed (err e) = ⊥

or_roll_back-kept :
    (a : CardClaim) (f : Entry → Entry) (id : Text) (x : Result RegistryError (Unit {0}) × Registry)
    → IsClaimed (or_roll_back a f id x).0
    → (or_roll_back a f id x).1 ≡ x.1
or_roll_back-kept a f id (ok _, r) k = refl
or_roll_back-kept a f id (err _, r) k = absurd k

returning-IsClaimed :
    (s : CardSession) (x : Result RegistryError (Unit {0}) × Registry)
    → ¬ IsClaimed (returning (duplicate s) x).0
returning-IsClaimed s (ok _, r) k = k
returning-IsClaimed s (err _, r) k = k

claimed-holds : (n : ℕ) (e : Entry) → holds (event n) (claimed_entry n e) ≡ true
claimed-holds n e = ground arith

claim_entry-IsClaimed :
    (env : Env) (id : Text) (n : ℕ) (e : Entry) {r : Registry}
    → IsValid r
    → Dict.get r.entries id ≡ some e
    → IsClaimed (claim_entry env id n e r).0
    → Guarded id (event n) (claim_entry env id n e r).1
claim_entry-IsClaimed env id n e {r} v h k = elim (Bool-cases (is_pending e.state)) [
  | inl t ↦
      let e' = claimed_entry n e in
      let saved : Guarded id (event n)
          (persist env (record r { entries = put r.entries id e' })).1 =
        persist-Guarded env id (event n) (put-IsUnique r.entries id e' v.unique)
          (record { held = rw (get-put r.entries id id e', text_eq_refl) (claimed-holds n e) }) in
      rw (t, or_roll_back-kept _ (unclaimed e) id _ (rw t at k)) saved
  | inr t ↦ absurd (returning-IsClaimed e.session (persist env r) (rw t at k))
]

-- A successful claim puts the card into the hands of its event.
claim-IsClaimed :
    (env : Env) (id : Text) (n : ℕ) {r : Registry}
    → IsValid r
    → IsClaimed (claim env id n r).0
    → Guarded id (event n) (claim env id n r).1
unfolding claim
claim-IsClaimed env id n {r} v k = elim (entry_locked-cases env.now id r) [
  | inl (inl e) ↦ absurd (rw e at k)
  | inl (inr (e, h)) ↦ absurd (rw e at k)
  | inr (x, e, h, t) ↦ rw e (claim_entry-IsClaimed env id n x v h (rw e at k))
]

claim-Guarded-fails :
    (env : Env) (id : Text) (c : Claimant) (n : ℕ) {r : Registry}
    → Guarded id c r
    → ¬ IsClaimed (claim env id n r).0
unfolding claim
claim-Guarded-fails env id c n {r} g k = elim (entry_locked-cases env.now id r) [
  | inl (inl e) ↦ rw e at k
  | inl (inr (e, h)) ↦ rw e at k
  | inr (x, e, h, t) ↦
      let held = Guarded-holds id id c x g h refl in
      let busy : is_pending x.state ≡ false = ground arith in
      returning-IsClaimed x.session (persist env r) (rw (e, busy) at k)
]

-- While an event has a card, no other claim of that card succeeds, whatever calls come between:
-- other claims, edits, refreshed and discarded cards, failing writes and expiry, for as long as
-- the event has not released or completed its claim, no card is registered anew under the id, and
-- the registry is not restored from its storage.
pub claim_exclusive :
    (env env' : Env) (id : Text) (n n' : ℕ) (steps : List (Env × Op)) (r : Registry)
    → IsValid r
    → IsClaimed (claim env id n r).0
    → All (λ (s : Env × Op). Concurrent id (event n) s.1) steps
    → ¬ IsClaimed (claim env' id n' (run_all steps (claim env id n r).1)).0
claim_exclusive env env' id n n' steps r v k q =
    claim-Guarded-fails env' id (event n) n'
      (run_all-Guarded steps id (event n) q (claim-IsValid env id n v)
        (claim-IsClaimed env id n v k)).0
