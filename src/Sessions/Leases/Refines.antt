-- ===== src/Sessions/Leases/Refines.antt =====
-- The moves of all calls.
use hermes_channel_octo.Prelude.{
  ℕ, ◌≡◌, refl, inl, inr, Bool, true, false, Option, none, some, List, [], ◌∷◌, arith, length, ltb,
  leb, Bool-cases, Option-cases,
}
use hermes_channel_octo.Prelude.Text.{Text, text_eq}
use hermes_channel_octo.Prelude.Dict
use hermes_channel_octo.Prelude.Dict.{Dict, put, get-put, get-pop, keep}
use hermes_channel_octo.Sessions.Data.{
  Entry, State, Claimant, is_processing, pending, processing, completed, Binding, missing,
  entry_from_record,
}
use hermes_channel_octo.Sessions.Registry.{
  set_persistence, attach_persistence, Registry, Env, peek, discard, clear, restore_from,
  restore_if, restore,
}
use hermes_channel_octo.Sessions.Claims.{
  claim_entry, claim, edit_matches, claim_edit_entry, claim_edit, next_seq_entry, next_card_seq,
}
use hermes_channel_octo.Sessions.Valid.{IsValid, pop-IsValid, entry_locked-cases}
use hermes_channel_octo.Sessions.Run.{
  Op, register_op, refresh_op, peek_op, discard_op, next_card_seq_op, claim_op, complete_op,
  claim_edit_op, release_op, clear_op, restore_op, set_persistence_op, attach_persistence_op, run,
}
use hermes_channel_octo.Sessions.Run.Claiming.{returning-state}
use hermes_channel_octo.Sessions.Leases.{
  Restores, View, waiting, held, done, shows, live, view, Move, keeps, loses, restores,
  restores_done, Moved, persist-Moved, pop-Moved,
}
use hermes_channel_octo.Sessions.Leases.Steps.{
  claim_entry-Moved, claim_edit_entry-Moved, unseen-Moved, released-Moved, completed-Moved,
  on_entry-Moved,
}
use hermes_channel_octo.Sessions.Leases.Registering.{register-Moved}
use hermes_channel_octo.Sessions.Leases.Refreshing.{refresh_reasoning-Moved}

restored-idle :
    (wall now : ℕ) (b : Binding) (e : Entry)
    → entry_from_record wall now b ≡ some e
    → is_processing e.state ≡ false
unfolding entry_from_record
restored-idle wall now b e h = ground arith

idle-view :
    {op : Op} (k : Restores op) (id : Text) (v : View) (o : Option Claimant) (s : State)
    → is_processing s ≡ false
    → Move id op v (elim s [ pending ↦ waiting | processing ↦ held o | completed ↦ done ])
idle-view k id v o pending h = restores k
idle-view k id v o processing h = absurd (cc)
idle-view k id v o completed h = restores_done k

idle-Move :
    {op : Op} (k : Restores op) (now : ℕ) (id : Text) (v : View) (e : Entry) (s : State)
    → e.state ≡ s
    → is_processing s ≡ false
    → Move id op v (shows (live now (some e)))
idle-Move k now id v e s same idle = elim (Bool-cases (ltb now e.expires_at)) [
  | inl t ↦ rw (t, same) (idle-view k id v e.claimed_event_id s idle)
  | inr t ↦ rw t loses
]

restored-Move :
    {op : Op} (k : Restores op) (env : Env) (id : Text) (v : View) (b : Binding) (e : Entry)
    → entry_from_record env.wall env.now b ≡ some e
    → Move id op v (shows (live env.now (some e)))
restored-Move k env id v b e h =
    idle-Move k env.now id v e e.state refl (restored-idle env.wall env.now b e h)

restore_from-Move :
    {op : Op} (s : Restores op) (env : Env) (id : Text) (v : View) (m : ℕ) (bs : List Binding)
    (d : Dict Entry)
    → Move id op v (shows (live env.now (Dict.get d id)))
    → Move id op v (shows (live env.now (Dict.get (restore_from env m bs d) id)))
unfolding restore_from
restore_from-Move s env id v m [] d k = k
restore_from-Move s env id v m (b ∷ bs) d k =
    elim (Option-cases (entry_from_record env.wall env.now b)) [
      | inl h ↦ rw h (restore_from-Move s env id v m bs d k)
      | inr (e, h) ↦ elim (Bool-cases (leb m (length d))) [
        | inl full ↦ rw (h, full) k
        | inr room ↦
            let j = e.session.message_id in
            rw (h, room)
              (restore_from-Move s env id v m bs (put d j e) (elim (Bool-cases (text_eq j id)) [
                | inl t ↦ rw (get-put d j id e, t) (restored-Move s env id v b e h)
                | inr t ↦ rw (get-put d j id e, t) k
              ]))
      ]
    ]

restore_if-Moved :
    {op : Op} (s : Restores op) (b : Bool) (env : Env) (id : Text) (r : Registry)
    → Moved env.now id op (view env.now id r) (restore_if b env r)
restore_if-Moved s false env id r = record { moves = keeps }
restore_if-Moved s true env id r = record {
  moves = restore_from-Move s env id (view env.now id r) r.max_sessions r.stored r.entries keeps;
}

set_persistence-Moved :
    (p : Option (List Binding)) (now : ℕ) (id : Text) (r : Registry)
    → Moved now id (set_persistence_op p) (view now id r) (set_persistence p r)
unfolding set_persistence
set_persistence-Moved none now id r = record { moves = keeps }
set_persistence-Moved (some bs) now id r = record { moves = keeps }

attach_persistence-Moved :
    (env : Env) (bs : List Binding) (id : Text) (r : Registry)
    → Moved env.now id (attach_persistence_op bs) (view env.now id r) (attach_persistence env bs r)
unfolding attach_persistence
attach_persistence-Moved env bs id r = record {
  moves =
      (restore_if-Moved {op = attach_persistence_op bs} tt true env id
        (record r { attached = true; stored = bs })).moves;
}

peek-Moved :
    (env : Env) (j id : Text) (r : Registry)
    → Moved env.now id (peek_op j) (view env.now id r) (peek env j r).1
unfolding peek
peek-Moved env j id r = elim (entry_locked-cases env.now j r) [
  | inl (inl e) ↦ rw (peek, e, e) (pop-Moved j (record { moves = keeps }))
  | inl (inr (e, h)) ↦ rw (peek, e, e) (record { moves = keeps })
  | inr (x, e, h, t) ↦ rw (peek, e, e) (record { moves = keeps })
]

run-Moved :
    (env : Env) (op : Op) (id : Text) {r : Registry}
    → IsValid r
    → Moved env.now id op (view env.now id r) (run env op r)
unfolding run discard clear claim claim_edit next_card_seq restore Dict.get
run-Moved env (register_op s) id v = register-Moved env s id v
run-Moved env (refresh_op s) id v = refresh_reasoning-Moved env s id v
run-Moved env (peek_op j) id {r} v = peek-Moved env j id r
run-Moved env (discard_op j) id {r} v =
    persist-Moved env {r = record r { entries = Dict.pop r.entries j }} (pop-IsValid j v).unique
      (pop-Moved j {r = r} (record { moves = keeps }))
run-Moved env (next_card_seq_op j) id v =
    on_entry-Moved env j id v none (next_seq_entry env j)
      (λ e h t. rw returning-state (unseen-Moved env j id v e _ h t t refl))
run-Moved env (claim_op j n) id v =
    on_entry-Moved env j id v missing (claim_entry env j n) (claim_entry-Moved env j id v n)
run-Moved env (complete_op j n) id v = completed-Moved env j id v n
run-Moved env (claim_edit_op j key channel type uid) id v =
    let allowed = edit_matches key channel type uid in
    on_entry-Moved env j id v none (claim_edit_entry env j allowed)
      (claim_edit_entry-Moved env j id v key channel type uid allowed)
run-Moved env (release_op j c) id v = released-Moved env j id v c
run-Moved env clear_op id {r} v =
    persist-Moved env {r = record r { entries = [] }} tt (record { moves = loses })
run-Moved env restore_op id {r} v = restore_if-Moved tt r.attached env id r
run-Moved env (set_persistence_op p) id {r} v = set_persistence-Moved p env.now id r
run-Moved env (attach_persistence_op bs) id {r} v = attach_persistence-Moved env bs id r

-- The registry refines its abstract view: of every card that has not expired, whatever the state of
-- the registry, the call, the clocks and the storage, a call makes one of the allowed moves. A card
-- that is free can be claimed or edited; one in someone's hands changes hands only by a release or
-- a completion of its own claimant, unless it is lost or the registry is restored; and only an
-- absent or a used card is registered anew.
pub run-Move :
    (env : Env) (op : Op) (id : Text) (r : Registry)
    → IsValid r
    → Move id op (view env.now id r) (view env.now id (run env op r))
run-Move env op id r v = (run-Moved env op id v).moves
