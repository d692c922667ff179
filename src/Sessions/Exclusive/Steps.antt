-- ===== src/Sessions/Exclusive/Steps.antt =====
-- The claimant of a card through `register`, `refresh_reasoning` and the methods for claims.
use hermes_channel_octo.Prelude.{
  ℕ, zero, suc, ◌≡◌, ◌≢◌, refl, ◌⊎◌, inl, inr, Bool, true, not, ◌&&◌, ◌||◌, Option, none, some,
  arith, ltb, length, Bool-cases, Option-cases,
}
use hermes_channel_octo.Prelude.Result.{Result, ok, err}
use hermes_channel_octo.Prelude.Text.{Text, text_eq_iff, text_eq_refl}
use hermes_channel_octo.Prelude.Dict
use hermes_channel_octo.Prelude.Dict.{Dict, put, modify, keep, get-pop, get-put, get-modify}
use hermes_channel_octo.Prelude.Dict.Unique.{pop-IsUnique, put-IsUnique, get-concat}
use hermes_channel_octo.Sessions.Data.{
  CardSession, Entry, Claimant, event, edit, is_pending, claimed_by, bounded_message_id,
  is_reasoning,
}
use hermes_channel_octo.Sessions.Registry.{
  Registry, RegistryError, Env, entry_locked, first_completed, make_room, is_active, same_identity,
  register_pruned, register, refreshed, refresh_entry, refresh_reasoning,
}
use hermes_channel_octo.Sessions.Claims.{claim_entry, claim_edit_entry, holds, settle, or_roll_back}
use hermes_channel_octo.Sessions.Valid.{
  IsValid, prune-IsValid, entry_locked-cases, make_room-MadeRoom,
}
use hermes_channel_octo.Sessions.Run.Claiming.{returning-state}
use hermes_channel_octo.Sessions.Exclusive.{
  InHands, Guarded, keep-Guarded, persist-Guarded, pop-Guarded, put-Guarded, modify-Guarded,
  Guarded-holds, save-Guarded, not_pending,
}

or_roll_back-Guarded :
    {A : Type 0} (a : A) (f : Entry → Entry) (j id : Text) (c : Claimant)
    (x : Result RegistryError (Unit {0}) × Registry)
    → j ≢ id
    → Guarded id c x.1
    → Guarded id c (or_roll_back a f j x).1
or_roll_back-Guarded a f j id c (ok _, r) ne g = g
or_roll_back-Guarded a f j id c (err _, r) ne g = modify-Guarded f j id c ne g

claimed_by-eq :
    (c c' : Claimant) (o : Option Claimant)
    → claimed_by c o ≡ true
    → claimed_by c' o ≡ true
    → c ≡ c'
claimed_by-eq c c' none h k = cc
claimed_by-eq (event n) (event m) (some (event x)) h k = ground arith
claimed_by-eq (edit n) (edit m) (some (edit x)) h k = ground arith
claimed_by-eq (event n) (edit m) (some (edit x)) h k = cc
claimed_by-eq (edit n) (event m) (some (edit x)) h k = cc
claimed_by-eq (event n) (event m) (some (edit x)) h k = cc
claimed_by-eq (event n) (edit m) (some (event x)) h k = cc
claimed_by-eq (edit n) (event m) (some (event x)) h k = cc
claimed_by-eq (edit n) (edit m) (some (event x)) h k = cc

module _ (env : Env) (j id : Text) (c : Claimant) {r : Registry} (v : IsValid r)
    (g : Guarded id c r) where
  pub claim_entry-Guarded :
      (n : ℕ) (e : Entry) → Dict.get r.entries j ≡ some e → Guarded id c (claim_entry env j n e r).1
  claim_entry-Guarded n e h = elim (Bool-cases (is_pending e.state)) [
    | inl t ↦ rw t (
        or_roll_back-Guarded _ _ j id c _ (not_pending env j id c v g e h t)
          (save-Guarded env j id c v g e _ h (λ held. absurd (ground arith))))
    | inr t ↦ rw (t, returning-state) (persist-Guarded env id c v.unique g)
  ]

  pub claim_edit_entry-Guarded :
      (allowed : CardSession → Bool) (e : Entry)
      → Dict.get r.entries j ≡ some e
      → Guarded id c (claim_edit_entry env j allowed e r).1
  claim_edit_entry-Guarded allowed e h =
      elim (Bool-cases (is_pending e.state && allowed e.session)) [
        | inl t ↦ rw t (
            or_roll_back-Guarded _ _ j id c _ (not_pending env j id c v g e h (ground arith))
              (save-Guarded env j id c v g e _ h (λ held. absurd (ground arith))))
        | inr t ↦ rw t g
      ]

  pub settle-Guarded :
      (now : ℕ) (c' : Claimant) (f : Entry → Entry)
      → ((j ≢ id) ⊎ (c' ≢ c))
      → Guarded id c (settle c' f j (entry_locked now j r))
  settle-Guarded now c' f other = elim (entry_locked-cases now j r) [
    | inl (inl e) ↦ rw e (pop-Guarded j id c g)
    | inl (inr (e, h)) ↦ rw e g
    | inr (x, e, h, t) ↦ elim (Bool-cases (holds c' x)) [
      | inl held ↦
          rw (e, held)
            (put-Guarded j id c (f x)
              (λ same. absurd (
                ground (
                  arith,
                  other,
                  Guarded-holds j id c x g h same,
                  claimed_by-eq c' c x.claimed_event_id,
                )))
              g)
      | inr free ↦ rw (e, free) g
    ]
  ]

make_room-InHands :
    (fuel m : ℕ) (id : Text) (c : Claimant) (d : Dict Entry)
    → InHands c (Dict.get d id)
    → InHands c (Dict.get (make_room fuel m d).1 id)
unfolding make_room
make_room-InHands zero m id c d h = h
make_room-InHands (suc fuel) m id c d h = elim (Bool-cases (ltb (length d) m)) [
  | inl t ↦ rw t h
  | inr t ↦ elim (Option-cases (first_completed d)) [
    | inl missed ↦ rw (t, missed) h
    | inr (j, found) ↦
        rw (t, found)
          (make_room-InHands fuel m id c (Dict.pop d j) (rw (get-pop d j id) (ground arith)))
  ]
]

module _ (env : Env) (s : CardSession) (id : Text) (c : Claimant) where
  register_pruned-Guarded :
      {r : Registry}
      → s.message_id ≢ id
      → IsValid r
      → Guarded id c r
      → Guarded id c (register_pruned env s r).1
  register_pruned-Guarded {r} ne v g =
      let j = s.message_id in
      let d = Dict.pop r.entries j in
      let made =
        make_room-MadeRoom (length d) r.max_sessions d (pop-IsUnique r.entries j v.unique) in
      let left : Registry = record r { entries = (make_room (length d) r.max_sessions d).1 } in
      let kept : Guarded id c left = record {
        held = make_room-InHands (length d) r.max_sessions id c d (pop-Guarded j id c g).held;
      } in
      elim (Bool-cases (is_active (Dict.get r.entries j))) [
        | inl t ↦ rw t g
        | inr t ↦ elim (Bool-cases (make_room (length d) r.max_sessions d).0) [
          | inl room ↦
              rw (t, room)
                (persist-Guarded env id c (put-IsUnique left.entries j _ made.unique)
                  (put-Guarded j id c _ (λ same. absurd (ne same)) kept))
          | inr full ↦ rw (t, full) kept
        ]
      ]

  pub register-Guarded :
      {r : Registry}
      → s.message_id ≢ id
      → IsValid r
      → Guarded id c r
      → Guarded id c (register env s r).1
  unfolding register
  register-Guarded {r} ne v g = elim (Bool-cases (bounded_message_id s.message_id)) [
    | inl t ↦ rw t (
        register_pruned-Guarded ne (prune-IsValid env.now v)
          (keep-Guarded (λ e. ltb env.now e.expires_at) id c v.unique g))
    | inr t ↦ rw t g
  ]

  refreshed-Guarded :
      (e : Entry) {r : Registry}
      → s.message_id ≢ id
      → Guarded id c r
      → Guarded id c (refreshed env s e r)
  refreshed-Guarded e {r} ne g = record {
    held =
        rw
          (
            get-concat (Dict.pop r.entries s.message_id) s.message_id id _
                (rw (get-pop, text_eq_refl)),
            get-pop r.entries s.message_id id,
          )
          (ground (arith, text_eq_iff s.message_id id, g.held));
  }

  refresh_entry-Guarded :
      (o : Option Entry) {r : Registry}
      → Dict.get r.entries s.message_id ≡ o
      → IsValid r
      → Guarded id c r
      → Guarded id c (refresh_entry env s o r).1
  refresh_entry-Guarded none h v g = g
  refresh_entry-Guarded (some e) h v g = elim (Bool-cases (is_pending e.state)) [
    | inl t ↦ elim (Bool-cases (same_identity e.session s)) [
      | inl same ↦
          rw (t, same) (refreshed-Guarded e (not_pending env s.message_id id c v g e h t) g)
      | inr other ↦ rw (t, other) g
    ]
    | inr t ↦ rw t g
  ]

  pub refresh_reasoning-Guarded :
      {r : Registry} → IsValid r → Guarded id c r → Guarded id c (refresh_reasoning env s r).1
  unfolding refresh_reasoning
  refresh_reasoning-Guarded {r} v g =
      elim (Bool-cases (not (bounded_message_id s.message_id) || not (is_reasoning s.kind))) [
        | inl t ↦ rw t g
        | inr t ↦ rw t (
            refresh_entry-Guarded _ refl (prune-IsValid env.now v)
              (keep-Guarded (λ e. ltb env.now e.expires_at) id c v.unique g))
      ]
