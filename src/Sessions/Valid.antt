-- ===== src/Sessions/Valid.antt =====
-- The invariant of `CardSessionRegistry` through the building blocks of its methods.
use hermes_channel_octo.Prelude.{
  ℕ, zero, suc, ◌≤◌, ◌<◌, ◌≡◌, ◌⊎◌, inl, inr, Bool, true, false, none, some, [], ◌∷◌, length, arith,
  ltb, leb, Bool-cases, Option-cases,
}
use hermes_channel_octo.Prelude.Text.{Text, text_eq_refl, text_eq_iff}
use hermes_channel_octo.Prelude.Dict
use hermes_channel_octo.Prelude.Dict.{
  Dict, keep, put, modify, get-pop, length-pop, length-put, length-modify, length-keep,
}
use hermes_channel_octo.Prelude.Dict.Unique.{
  IsUnique, pop-IsUnique, put-IsUnique, modify-IsUnique, keep-IsUnique, length-put_present,
}
use hermes_channel_octo.Sessions.Data.{Entry, is_completed}
use hermes_channel_octo.Sessions.Registry.{
  Registry, Env, prune_locked, persist, entry_locked, first_completed, make_room,
}

-- Every id has one entry, and no more cards are kept than the bound allows.
pub record IsValid (r : Registry) : Type 0 where
  pub unique : IsUnique r.entries
  pub bounded : length r.entries ≤ r.max_sessions
  pub positive : 0 < r.max_sessions

pub prune-IsValid : (now : ℕ) {r : Registry} → IsValid r → IsValid (prune_locked now r)
unfolding prune_locked
prune-IsValid now {r} v = record {
  unique = keep-IsUnique _ r.entries v.unique;
  bounded = omega (arith, length-keep (λ (e : Entry). ltb now e.expires_at) r.entries, v.bounded);
  positive = v.positive;
}

pub persist-IsValid : (env : Env) {r : Registry} → IsValid r → IsValid (persist env r).1
unfolding persist
persist-IsValid env {r} v = ground (
  arith,
  keep-IsUnique (λ (e : Entry). ltb env.now_saving e.expires_at) r.entries v.unique,
  length-keep (λ (e : Entry). ltb env.now_saving e.expires_at) r.entries,
)

pub pop-IsValid :
    {r : Registry} (id : Text) → IsValid r → IsValid (record r { entries = Dict.pop r.entries id })
pop-IsValid {r} id v = record {
  unique = pop-IsUnique r.entries id v.unique;
  bounded = omega (arith, length-pop r.entries id, v.bounded);
  positive = v.positive;
}

pub put-IsValid :
    {r : Registry} (id : Text) (e e' : Entry)
    → Dict.get r.entries id ≡ some e
    → IsValid r
    → IsValid (record r { entries = put r.entries id e' })
put-IsValid {r} id e e' h v = record {
  unique = put-IsUnique r.entries id e' v.unique;
  bounded = omega (arith, length-put_present r.entries id e' e h, v.bounded);
  positive = v.positive;
}

pub modify-IsValid :
    {r : Registry} (f : Entry → Entry) (id : Text)
    → IsValid r
    → IsValid (record r { entries = modify f r.entries id })
modify-IsValid {r} f id v = record {
  unique = modify-IsUnique f r.entries id v.unique;
  bounded = omega (arith, length-modify f r.entries id, v.bounded);
  positive = v.positive;
}

-- What `_entry_locked` answers: the live entry and the same registry, or nothing and a registry
-- in which the id is gone.
pub entry_locked-cases :
    (now : ℕ) (id : Text) (r : Registry)
    → ((entry_locked now id r ≡ (none, record r { entries = Dict.pop r.entries id }))
        ⊎ ((entry_locked now id r ≡ (none, r)) × (Dict.get r.entries id ≡ none)))
      ⊎ ((e : Entry) × (entry_locked now id r ≡ (some e, r))
          × (Dict.get r.entries id ≡ some e)
          × (now < e.expires_at))
unfolding entry_locked
entry_locked-cases now id r = elim (Option-cases (Dict.get r.entries id)) [
  | inl h ↦ inl (inr (rw (entry_locked, h), h))
  | inr (e, h) ↦ elim (Bool-cases (leb e.expires_at now)) [
    | inl t ↦ inl (inl (rw (entry_locked, h, t)))
    | inr t ↦ inr (e, rw (entry_locked, h, t), h, ground arith)
  ]
]

pub first_completed-get :
    (d : Dict Entry) (id : Text)
    → IsUnique d
    → first_completed d ≡ some id
    → (e : Entry) × (Dict.get d id ≡ some e) × (is_completed e.state ≡ true)
unfolding first_completed Dict.get
first_completed-get [] id u h = absurd (cc)
first_completed-get ((k, e) ∷ d) id (n, u) h = elim (Bool-cases (is_completed e.state)) [
  | inl t ↦ (e, ground (arith, text_eq_refl id), t)
  | inr t ↦
      let (e', g, c) = first_completed-get d id u (ground arith) in
      (e', ground (arith, text_eq_iff k id), c)
]

-- What `register` may rely on when it has made room.
pub record MadeRoom (max_sessions : ℕ) (d : Dict Entry) (result : Bool × Dict Entry) : Type 0 where
  pub unique : IsUnique result.1
  pub shorter : length result.1 ≤ length d
  pub room : result.0 ≡ true → length result.1 < max_sessions
  pub no_room : result.0 ≡ false → max_sessions ≤ length result.1
  pub kept :
      (id : Text) (e : Entry)
      → Dict.get d id ≡ some e
      → is_completed e.state ≡ false
      → Dict.get result.1 id ≡ some e

MadeRoom-here : (m : ℕ) (d : Dict Entry) → IsUnique d → MadeRoom m d (ltb (length d) m, d)
MadeRoom-here m d u = record {
  unique = u;
  shorter = omega arith;
  room = λ h. ground arith;
  no_room = λ h. ground arith;
  kept = λ id e g c. g;
}

MadeRoom-pop :
    (m : ℕ) (d : Dict Entry) (id : Text) (e : Entry) (result : Bool × Dict Entry)
    → Dict.get d id ≡ some e
    → is_completed e.state ≡ true
    → MadeRoom m (Dict.pop d id) result
    → MadeRoom m d result
MadeRoom-pop m d id e result g c made = record {
  unique = made.unique;
  shorter = omega (arith, made.shorter, length-pop d id);
  room = made.room;
  no_room = made.no_room;
  kept = λ j e' g' c'. made.kept j e' (ground (arith, get-pop d id j, text_eq_iff id j)) c';
}

pub make_room-MadeRoom :
    (fuel m : ℕ) (d : Dict Entry) → IsUnique d → MadeRoom m d (make_room fuel m d)
unfolding make_room
make_room-MadeRoom zero m d u = MadeRoom-here m d u
make_room-MadeRoom (suc fuel) m d u = elim (Bool-cases (ltb (length d) m)) [
  | inl t ↦ rw t (rw t at (MadeRoom-here m d u))
  | inr t ↦ elim (Option-cases (first_completed d)) [
    | inl h ↦ rw (t, h) (rw t at (MadeRoom-here m d u))
    | inr (id, h) ↦
        let (e, g, c) = first_completed-get d id u h in
        rw (t, h)
          (MadeRoom-pop m d id e (make_room fuel m (Dict.pop d id)) g c
            (make_room-MadeRoom fuel m (Dict.pop d id) (pop-IsUnique d id u)))
  ]
]
