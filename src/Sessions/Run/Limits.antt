-- ===== src/Sessions/Run/Limits.antt =====
-- The bounds of the registry, which no call changes.
use hermes_channel_octo.Prelude.{
  ℕ, ◌≡◌, refl, ◌∙◌, Bool, true, false, not, ◌&&◌, ◌||◌, Option, none, some, List, [], ◌∷◌, arith,
  length, inl, inr, Bool-cases,
}
use hermes_channel_octo.Prelude.Result.{Result, ok, err}
use hermes_channel_octo.Prelude.Text.{Text}
use hermes_channel_octo.Prelude.Dict
use hermes_channel_octo.Sessions.Data.{
  Binding, CardSession, Entry, Claimant, event, is_pending, bounded_message_id, is_reasoning,
  missing,
}
use hermes_channel_octo.Sessions.Registry.{
  set_persistence, attach_persistence, Registry, RegistryError, Env, prune_locked, persist,
  entry_locked, make_room, is_active, register_pruned, register, peek, discard, returning,
  same_identity, refresh_entry, refresh_reasoning, clear, restore_if, restore,
}
use hermes_channel_octo.Sessions.Claims.{
  or_roll_back, claim_entry, claim, edit_matches, claim_edit_entry, claim_edit, on_entry,
  next_seq_entry, next_card_seq, holds, settle, release, complete,
}
use hermes_channel_octo.Sessions.Valid.{entry_locked-cases}
use hermes_channel_octo.Sessions.Run.{
  Op, register_op, refresh_op, peek_op, discard_op, next_card_seq_op, claim_op, complete_op,
  claim_edit_op, release_op, clear_op, restore_op, set_persistence_op, attach_persistence_op, run,
  run_all,
}

-- The limit on the attempts is the one of the registry before.
abbrev pub Same : Registry → Registry → Type 0
Same r x = x.max_dispatch_attempts ≡ r.max_dispatch_attempts

pub persist-limit : (env : Env) (r : Registry) → Same r (persist env r).1
unfolding persist prune_locked
persist-limit env r = ground arith

entry_locked-limit : (now : ℕ) (id : Text) (r : Registry) → Same r (entry_locked now id r).1
unfolding entry_locked
entry_locked-limit now id r = ground arith

returning-limit :
    {A : Type 0} (a : A) (r : Registry) (x : Result RegistryError (Unit {0}) × Registry)
    → Same r x.1
    → Same r (returning a x).1
returning-limit a r (ok _, x) h = h
returning-limit a r (err _, x) h = h

or_roll_back-limit :
    {A : Type 0} (a : A) (f : Entry → Entry) (id : Text) (r : Registry)
    (x : Result RegistryError (Unit {0}) × Registry)
    → Same r x.1
    → Same r (or_roll_back a f id x).1
or_roll_back-limit a f id r (ok _, x) h = h
or_roll_back-limit a f id r (err _, x) h = h

on_entry-limit :
    {A : Type 0} (absent : A) (act : Entry → Registry → Result RegistryError A × Registry)
    (r : Registry) (x : Option Entry × Registry)
    → ((e : Entry) (y : Registry) → Same y (act e y).1)
    → Same r x.1
    → Same r (on_entry absent act x).1
on_entry-limit absent act r (none, x) k h = h
on_entry-limit absent act r (some e, x) k h = k e x ∙ h

settle-limit :
    (c : Claimant) (f : Entry → Entry) (id : Text) (x : Option Entry × Registry)
    → Same x.1 (settle c f id x)
settle-limit c f id (none, r) = refl
settle-limit c f id (some e, r) = elim (Bool-cases (holds c e)) [
  | inl t ↦ rw t refl
  | inr t ↦ rw t refl
]

settled-limit :
    (env : Env) (c : Claimant) (f : Entry → Entry) (id : Text) (r : Registry)
    → Same r (persist env (settle c f id (entry_locked env.now id r))).1
settled-limit env c f id r =
    persist-limit env (settle c f id (entry_locked env.now id r))
    ∙ settle-limit c f id (entry_locked env.now id r)
    ∙ entry_locked-limit env.now id r

peek-limit : (env : Env) (id : Text) (r : Registry) → Same r (peek env id r).1
unfolding peek
peek-limit env id r = elim (entry_locked-cases env.now id r) [
  | inl (inl e) ↦ rw (peek, e, e) refl
  | inl (inr (e, h)) ↦ rw (peek, e, e) refl
  | inr (x, e, h, t) ↦ rw (peek, e, e) refl
]

claim_entry-limit :
    (env : Env) (id : Text) (n : ℕ) (e : Entry) (r : Registry) → Same r (claim_entry env id n e r).1
claim_entry-limit env id n e r = elim (Bool-cases (is_pending e.state)) [
  | inl t ↦ rw t (or_roll_back-limit _ _ id r _ (persist-limit env (record r { entries = _ })))
  | inr t ↦ rw t (returning-limit _ r _ (persist-limit env r))
]

claim_edit_entry-limit :
    (env : Env) (id : Text) (allowed : CardSession → Bool) (e : Entry) (r : Registry)
    → Same r (claim_edit_entry env id allowed e r).1
claim_edit_entry-limit env id allowed e r =
    elim (Bool-cases (is_pending e.state && allowed e.session)) [
      | inl t ↦ rw t (or_roll_back-limit _ _ id r _ (persist-limit env (record r { entries = _ })))
      | inr t ↦ rw t refl
    ]

register_pruned-limit :
    (env : Env) (s : CardSession) (r : Registry) → Same r (register_pruned env s r).1
register_pruned-limit env s r =
    let d = Dict.pop r.entries s.message_id in
    elim (Bool-cases (is_active (Dict.get r.entries s.message_id))) [
      | inl t ↦ rw t refl
      | inr t ↦ elim (Bool-cases (make_room (length d) r.max_sessions d).0) [
        | inl room ↦ rw (t, room) (persist-limit env (record r { entries = _ }))
        | inr full ↦ rw (t, full) refl
      ]
    ]

register-limit : (env : Env) (s : CardSession) (r : Registry) → Same r (register env s r).1
unfolding register
register-limit env s r = elim (Bool-cases (bounded_message_id s.message_id)) [
  | inl t ↦
      rw t (register_pruned-limit env s (prune_locked env.now r) ∙ unfold prune_locked in refl)
  | inr t ↦ rw t refl
]

refresh_entry-limit :
    (env : Env) (s : CardSession) (o : Option Entry) (r : Registry)
    → Same r (refresh_entry env s o r).1
refresh_entry-limit env s none r = refl
refresh_entry-limit env s (some e) r = elim (Bool-cases (is_pending e.state)) [
  | inl t ↦ elim (Bool-cases (same_identity e.session s)) [
    | inl same ↦ rw (t, same) refl
    | inr other ↦ rw (t, other) refl
  ]
  | inr t ↦ rw t refl
]

refresh_reasoning-limit :
    (env : Env) (s : CardSession) (r : Registry) → Same r (refresh_reasoning env s r).1
unfolding refresh_reasoning
refresh_reasoning-limit env s r =
    elim (Bool-cases (not (bounded_message_id s.message_id) || not (is_reasoning s.kind))) [
      | inl t ↦ rw t refl
      | inr t ↦
          rw t (refresh_entry-limit env s _ (prune_locked env.now r) ∙ unfold prune_locked in refl)
    ]

restore_if-limit : (b : Bool) (env : Env) (r : Registry) → Same r (restore_if b env r)
restore_if-limit true env r = refl
restore_if-limit false env r = refl

set_persistence-limit : (p : Option (List Binding)) (r : Registry) → Same r (set_persistence p r)
unfolding set_persistence
set_persistence-limit none r = refl
set_persistence-limit (some bs) r = refl

attach_persistence-limit :
    (env : Env) (bs : List Binding) (r : Registry) → Same r (attach_persistence env bs r)
unfolding attach_persistence
attach_persistence-limit env bs r =
    restore_if-limit true env (record r { attached = true; stored = bs })

pub run-limit : (env : Env) (op : Op) (r : Registry) → Same r (run env op r)
unfolding run discard clear claim claim_edit next_card_seq release complete restore
run-limit env (register_op s) r = register-limit env s r
run-limit env (refresh_op s) r = refresh_reasoning-limit env s r
run-limit env (peek_op id) r = peek-limit env id r
run-limit env (discard_op id) r = persist-limit env (record r { entries = _ })
run-limit env (next_card_seq_op id) r =
    on_entry-limit none (next_seq_entry env id) r (entry_locked env.now id r)
      (λ e y. returning-limit _ y _ (persist-limit env (record y { entries = _ })))
      (entry_locked-limit env.now id r)
run-limit env (claim_op id n) r =
    on_entry-limit missing (claim_entry env id n) r (entry_locked env.now id r)
      (claim_entry-limit env id n) (entry_locked-limit env.now id r)
run-limit env (complete_op id n) r = settled-limit env (event n) _ id r
run-limit env (claim_edit_op id key channel type uid) r =
    on_entry-limit none (claim_edit_entry env id (edit_matches key channel type uid)) r
      (entry_locked env.now id r)
      (claim_edit_entry-limit env id (edit_matches key channel type uid))
      (entry_locked-limit env.now id r)
run-limit env (release_op id c) r = settled-limit env c _ id r
run-limit env clear_op r = persist-limit env (record r { entries = [] })
run-limit env restore_op r = restore_if-limit r.attached env r
run-limit env (set_persistence_op p) r = set_persistence-limit p r
run-limit env (attach_persistence_op bs) r = attach_persistence-limit env bs r

pub run_all-limit : (steps : List (Env × Op)) (r : Registry) → Same r (run_all steps r)
unfolding run_all
run_all-limit [] r = refl
run_all-limit ((env, op) ∷ rest) r = run_all-limit rest (run env op r) ∙ run-limit env op r
