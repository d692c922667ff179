-- ===== src/Sessions/Run/Invariant.antt =====
-- The invariant of `CardSessionRegistry` through all its methods and sequences of calls.
use hermes_channel_octo.Prelude.{
  ℕ, ◌≤◌, ◌≡◌, refl, inl, inr, Bool, true, false, not, ◌||◌, Option, none, some, List, [], ◌∷◌,
  length, length-append, arith, leb, Bool-cases,
}
use hermes_channel_octo.Prelude.Text.{Text, text_eq_refl}
use hermes_channel_octo.Prelude.Dict
use hermes_channel_octo.Prelude.Dict.{Dict, put, get-pop, length-pop, length-put}
use hermes_channel_octo.Prelude.Dict.Unique.{
  IsUnique, pop-IsUnique, put-IsUnique, concat-IsUnique, length-pop_present,
}
use hermes_channel_octo.Sessions.Data.{
  CardSession, Entry, Binding, is_pending, is_reasoning, entry_from_record, bounded_message_id,
}
use hermes_channel_octo.Sessions.Registry.{
  set_persistence, attach_persistence, Registry, Env, same_identity, make_room, is_active,
  fresh_entry, register_pruned, register, discard, refreshed, refresh_entry, refresh_reasoning,
  clear, restore_one, restore_from, restore_if, restore, new_registry,
}
use hermes_channel_octo.Sessions.Valid.{
  IsValid, prune-IsValid, persist-IsValid, pop-IsValid, make_room-MadeRoom,
}
use hermes_channel_octo.Sessions.Run.Claiming.{
  claim-IsValid, claim_edit-IsValid, next_card_seq-IsValid, peek-IsValid, release-IsValid,
  complete-IsValid,
}
use hermes_channel_octo.Sessions.Run.{
  Op, register_op, refresh_op, peek_op, discard_op, next_card_seq_op, claim_op, complete_op,
  claim_edit_op, release_op, clear_op, restore_op, set_persistence_op, attach_persistence_op, run,
  run_all,
}

pub new-IsValid : (m t d : ℕ) (a : Option (List Binding)) → IsValid (new_registry m t d a)
unfolding new_registry
new-IsValid m t d none = record { unique = tt; bounded = omega arith; positive = omega arith }
new-IsValid m t d (some bs) = record { unique = tt; bounded = omega arith; positive = omega arith }

discard-IsValid : (env : Env) (id : Text) {r : Registry} → IsValid r → IsValid (discard env id r).1
discard-IsValid env id v = unfold discard in persist-IsValid env (pop-IsValid id v)

clear-IsValid : (env : Env) {r : Registry} → IsValid r → IsValid (clear env r).1
clear-IsValid env {r} v =
    unfold clear in
    persist-IsValid env {r = record r { entries = [] }}
      (record { unique = tt; bounded = omega (arith, v.positive); positive = v.positive })

register_pruned-IsValid :
    (env : Env) (s : CardSession) {r : Registry} → IsValid r → IsValid (register_pruned env s r).1
register_pruned-IsValid env s {r} v =
    let d = Dict.pop r.entries s.message_id in
    let made =
      make_room-MadeRoom (length d) r.max_sessions d
        (pop-IsUnique r.entries s.message_id v.unique) in
    let new = fresh_entry env r.ttl_seconds s in
    let shorter = length-pop r.entries s.message_id in
    elim (Bool-cases (is_active (Dict.get r.entries s.message_id))) [
      | inl t ↦ rw t v
      | inr t ↦ elim (Bool-cases (make_room (length d) r.max_sessions d).0) [
        | inl room ↦
            rw (t, room)
              (persist-IsValid env (record {
                unique = put-IsUnique _ s.message_id new made.unique;
                bounded = omega (
                  arith,
                  length-put (make_room (length d) r.max_sessions d).1 s.message_id new,
                  made.room room,
                );
                positive = v.positive;
              }))
        | inr full ↦
            rw (t, full)
              (record {
                unique = made.unique;
                bounded = omega (arith, made.shorter, shorter, v.bounded);
                positive = v.positive;
              })
      ]
    ]

register-IsValid :
    (env : Env) (s : CardSession) {r : Registry} → IsValid r → IsValid (register env s r).1
unfolding register
register-IsValid env s {r} v = elim (Bool-cases (bounded_message_id s.message_id)) [
  | inl t ↦ rw t (register_pruned-IsValid env s (prune-IsValid env.now v))
  | inr t ↦ rw t v
]

refreshed-IsValid :
    (env : Env) (s : CardSession) (e : Entry) {r : Registry}
    → Dict.get r.entries s.message_id ≡ some e
    → IsValid r
    → IsValid (refreshed env s e r)
refreshed-IsValid env s e {r} h v = record {
  unique =
      concat-IsUnique (Dict.pop r.entries s.message_id) s.message_id _ (rw (get-pop, text_eq_refl))
        (pop-IsUnique r.entries s.message_id v.unique);
  bounded = omega (
    arith,
    length-append (Dict.pop r.entries s.message_id) _,
    length-pop_present r.entries s.message_id e h,
    v.bounded,
  );
  positive = v.positive;
}

refresh_entry-IsValid :
    (env : Env) (s : CardSession) (o : Option Entry) {r : Registry}
    → Dict.get r.entries s.message_id ≡ o
    → IsValid r
    → IsValid (refresh_entry env s o r).1
refresh_entry-IsValid env s none h v = v
refresh_entry-IsValid env s (some e) h v = elim (Bool-cases (is_pending e.state)) [
  | inl t ↦ elim (Bool-cases (same_identity e.session s)) [
    | inl same ↦ rw (t, same) (refreshed-IsValid env s e h v)
    | inr other ↦ rw (t, other) v
  ]
  | inr t ↦ rw t v
]

refresh_reasoning-IsValid :
    (env : Env) (s : CardSession) {r : Registry} → IsValid r → IsValid (refresh_reasoning env s r).1
unfolding refresh_reasoning
refresh_reasoning-IsValid env s {r} v =
    elim (Bool-cases (not (bounded_message_id s.message_id) || not (is_reasoning s.kind))) [
      | inl t ↦ rw t v
      | inr t ↦ rw t (refresh_entry-IsValid env s _ refl (prune-IsValid env.now v))
    ]

Fits : ℕ → Dict Entry → Type 0
Fits m d = IsUnique d × (length d ≤ m)

restore_one-Fits :
    (m : ℕ) (o : Option Entry) (rest : Dict Entry → Dict Entry) (d : Dict Entry)
    → ((d' : Dict Entry) → Fits m d' → Fits m (rest d'))
    → Fits m d
    → Fits m (restore_one m o rest d)
unfolding Fits
restore_one-Fits m none rest d k h = k d h
restore_one-Fits m (some e) rest d k h = elim (Bool-cases (leb m (length d))) [
  | inl full ↦ rw full h
  | inr room ↦
      let id = e.session.message_id in
      rw room (k (put d id e) (put-IsUnique d id e h.0, ground (arith, length-put d id e)))
]

restore_from-Fits :
    (env : Env) (m : ℕ) (bs : List Binding) (d : Dict Entry)
    → Fits m d
    → Fits m (restore_from env m bs d)
unfolding restore_from
restore_from-Fits env m [] d h = h
restore_from-Fits env m (b ∷ bs) d h =
    restore_one-Fits m (entry_from_record env.wall env.now b) (restore_from env m bs) d
      (restore_from-Fits env m bs) h

restore_if-IsValid :
    (b : Bool) (env : Env) {r : Registry} → IsValid r → IsValid (restore_if b env r)
unfolding Fits
restore_if-IsValid false env v = v
restore_if-IsValid true env {r} v =
    let (u, b) = restore_from-Fits env r.max_sessions r.stored r.entries (v.unique, v.bounded) in
    record { unique = u; bounded = b; positive = v.positive }

restore-IsValid : (env : Env) {r : Registry} → IsValid r → IsValid (restore env r)
restore-IsValid env {r} v = unfold restore in restore_if-IsValid r.attached env v

set_persistence-IsValid :
    (p : Option (List Binding)) {r : Registry} → IsValid r → IsValid (set_persistence p r)
unfolding set_persistence
set_persistence-IsValid none v = record {
  unique = v.unique;
  bounded = v.bounded;
  positive = v.positive;
}
set_persistence-IsValid (some bs) v = record {
  unique = v.unique;
  bounded = v.bounded;
  positive = v.positive;
}

attach_persistence-IsValid :
    (env : Env) (bs : List Binding) {r : Registry}
    → IsValid r
    → IsValid (attach_persistence env bs r)
unfolding attach_persistence
attach_persistence-IsValid env bs v = restore-IsValid env (set_persistence-IsValid (some bs) v)

-- Every call of the registry, whether it returns or raises, keeps one entry to an id and no more
-- entries than the bound.
pub run-IsValid : (env : Env) (op : Op) {r : Registry} → IsValid r → IsValid (run env op r)
unfolding run
run-IsValid env (register_op s) v = register-IsValid env s v
run-IsValid env (refresh_op s) v = refresh_reasoning-IsValid env s v
run-IsValid env (peek_op id) v = peek-IsValid env id v
run-IsValid env (discard_op id) v = discard-IsValid env id v
run-IsValid env (next_card_seq_op id) v = next_card_seq-IsValid env id v
run-IsValid env (claim_op id n) v = claim-IsValid env id n v
run-IsValid env (complete_op id n) v = complete-IsValid env id n v
run-IsValid env (claim_edit_op id key channel type uid) v =
    claim_edit-IsValid env id key channel type uid v
run-IsValid env (release_op id c) v = release-IsValid env id c v
run-IsValid env clear_op v = clear-IsValid env v
run-IsValid env restore_op v = restore-IsValid env v
run-IsValid env (set_persistence_op p) v = set_persistence-IsValid p v
run-IsValid env (attach_persistence_op bs) v = attach_persistence-IsValid env bs v

pub run_all-IsValid :
    (steps : List (Env × Op)) {r : Registry} → IsValid r → IsValid (run_all steps r)
unfolding run_all
run_all-IsValid [] v = v
run_all-IsValid ((env, op) ∷ rest) v = run_all-IsValid rest (run-IsValid env op v)

-- Whatever calls a new registry has seen, with or without storage, which may hold any records of an
-- earlier run or be attached later, and with whatever clocks and failing writes, each id has one
-- entry, and there are at most `max(1, max_sessions)` entries.
pub reachable-IsValid :
    (m t d : ℕ) (a : Option (List Binding)) (steps : List (Env × Op))
    → IsValid (run_all steps (new_registry m t d a))
reachable-IsValid m t d a steps = run_all-IsValid steps (new-IsValid m t d a)
