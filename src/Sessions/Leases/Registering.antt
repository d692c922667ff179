-- ===== src/Sessions/Leases/Registering.antt =====
-- The moves of `register`.
use hermes_channel_octo.Prelude.{
  ℕ, zero, suc, ◌≡◌, refl, sym, ◌⊎◌, inl, inr, true, false, Option, none, some, arith, length, ltb,
  Bool-cases, Option-cases,
}
use hermes_channel_octo.Prelude.Text.{Text}
use hermes_channel_octo.Prelude.Dict
use hermes_channel_octo.Prelude.Dict.{Dict, put, get-put, get-pop, keep}
use hermes_channel_octo.Prelude.Dict.Unique.{put-IsUnique, pop-IsUnique}
use hermes_channel_octo.Sessions.Data.{
  CardSession, Entry, State, pending, processing, completed, is_completed, bounded_message_id,
}
use hermes_channel_octo.Sessions.Registry.{
  Registry, Env, first_completed, make_room, is_active, fresh_entry, register_pruned, register,
}
use hermes_channel_octo.Sessions.Valid.{IsValid, prune-IsValid, make_room-MadeRoom}
use hermes_channel_octo.Sessions.Run.{Op, register_op}
use hermes_channel_octo.Sessions.Leases.{
  View, waiting, shows, live, view, Move, keeps, loses, registers, replaces, Moved, view-prune,
  persist-Moved, pop-Moved, put-Moved,
}

-- Room is made by giving up entries, never by changing one.
make_room-get :
    (fuel m : ℕ) (d : Dict Entry) (id : Text)
    → (Dict.get (make_room fuel m d).1 id ≡ Dict.get d id)
      ⊎ (Dict.get (make_room fuel m d).1 id ≡ none)
unfolding make_room
make_room-get zero m d id = inl refl
make_room-get (suc fuel) m d id = elim (Bool-cases (ltb (length d) m)) [
  | inl t ↦ inl (rw t refl)
  | inr t ↦ elim (Option-cases (first_completed d)) [
    | inl missed ↦ inl (rw (t, missed) refl)
    | inr (j, found) ↦
        rw (t, found) (ground (arith, make_room-get fuel m (Dict.pop d j) id, get-pop d j id))
  ]
]

is_completed→eq : (s : State) → is_completed s ≡ true → s ≡ completed
is_completed→eq completed h = refl
is_completed→eq pending h = absurd (cc)
is_completed→eq processing h = absurd (cc)

inactive-Move :
    (now : ℕ) (s : CardSession) (id : Text) (o : Option Entry)
    → s.message_id ≡ id
    → is_active o ≡ false
    → Move id (register_op s) (shows (live now o)) waiting
inactive-Move now s id none same h = registers same
inactive-Move now s id (some e) same h = elim (Bool-cases (ltb now e.expires_at)) [
  | inl t ↦
      let c : e.state ≡ completed = is_completed→eq e.state (ground arith) in
      rw (t, c) (replaces same)
  | inr t ↦ rw t (registers same)
]

-- A new entry is seen as free, if at all.
fresh-Move :
    (env : Env) (ttl : ℕ) (s : CardSession) (id : Text) (v : View)
    → Move id (register_op s) v waiting
    → Move id (register_op s) v (shows (live env.now (some (fresh_entry env ttl s))))
fresh-Move env ttl s id v m = elim (Bool-cases (ltb env.now (fresh_entry env ttl s).expires_at)) [
  | inl t ↦ rw t m
  | inr t ↦ rw t loses
]

room-Moved :
    (now : ℕ) (fuel : ℕ) (j id : Text) (op : Op) (r : Registry)
    → Moved now id op
        (view now id r)
        (record r { entries = (make_room fuel r.max_sessions (Dict.pop r.entries j)).1 })
room-Moved now fuel j id op r =
    let popped : Moved now id op (view now id r) (record r { entries = Dict.pop r.entries j }) =
      pop-Moved j (record { moves = keeps }) in
    elim (make_room-get fuel r.max_sessions (Dict.pop r.entries j) id) [
      | inl e ↦ record { moves = rw e popped.moves }
      | inr e ↦ record { moves = rw e loses }
    ]

register_pruned-Moved :
    (env : Env) (s : CardSession) (id : Text) {r : Registry}
    → IsValid r
    → Moved env.now id (register_op s) (view env.now id r) (register_pruned env s r).1
register_pruned-Moved env s id {r} v =
    let j = s.message_id in
    let d = Dict.pop r.entries j in
    let made = make_room-MadeRoom (length d) r.max_sessions d (pop-IsUnique r.entries j v.unique) in
    let left : Registry = record r { entries = (make_room (length d) r.max_sessions d).1 } in
    let kept = room-Moved env.now (length d) j id (register_op s) r in
    elim (Bool-cases (is_active (Dict.get r.entries j))) [
      | inl t ↦ rw t (record { moves = keeps })
      | inr t ↦ elim (Bool-cases (make_room (length d) r.max_sessions d).0) [
        | inl room ↦
            rw (t, room)
              (persist-Moved env (put-IsUnique left.entries j _ made.unique) (
                put-Moved j _
                  (λ same.
                    fresh-Move env r.ttl_seconds s id (view env.now id r)
                      (inactive-Move env.now s id (Dict.get r.entries id) same (rw (← same) t)))
                  kept))
        | inr full ↦ rw (t, full) kept
      ]
    ]

pub register-Moved :
    (env : Env) (s : CardSession) (id : Text) {r : Registry}
    → IsValid r
    → Moved env.now id (register_op s) (view env.now id r) (register env s r).1
unfolding register
register-Moved env s id {r} v = elim (Bool-cases (bounded_message_id s.message_id)) [
  | inl t ↦
      rw (t, sym (view-prune env.now id r v.unique))
        (register_pruned-Moved env s id (prune-IsValid env.now v))
  | inr t ↦ rw t (record { moves = keeps })
]
