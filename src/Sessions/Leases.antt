-- ===== src/Sessions/Leases.antt =====
-- What the registry promises about one card, without times, counters and storage: who has it.
pub mod Steps
pub mod Registering
pub mod Refreshing
pub mod Refines
use hermes_channel_octo.Prelude.{
  ℕ, ◌≡◌, refl, ◌⊎◌, inl, inr, Bool, true, false, Option, none, some, arith, ltb, if◌then◌else◌,
  Bool-cases, Option-cases,
}
use hermes_channel_octo.Prelude.Text.{Text, text_eq, text_eq_iff}
use hermes_channel_octo.Prelude.Dict
use hermes_channel_octo.Prelude.Dict.{put, modify, keep, get-pop, get-put, get-modify, option_map}
use hermes_channel_octo.Prelude.Dict.Unique.{IsUnique, only, get-keep_unique}
use hermes_channel_octo.Types.{ChannelType}
use hermes_channel_octo.Sessions.Data.{
  CardSession, Entry, State, pending, processing, completed, Claimant, event, edit,
}
use hermes_channel_octo.Sessions.Registry.{Registry, Env, persist, prune_locked}
use hermes_channel_octo.Sessions.Run.{
  Op, register_op, claim_op, complete_op, claim_edit_op, release_op, restore_op,
  attach_persistence_op,
}

-- A card as its users see it: not there, free, in someone's hands, or used up.
pub data View : Type 0 where
  absent waiting done : View
  held : Option Claimant → View

abbrev pub view_entry : Entry → View
view_entry e = elim e.state [
  | pending ↦ waiting
  | processing ↦ held e.claimed_event_id
  | completed ↦ done
]

abbrev pub shows : Option Entry → View
shows none = absent
shows (some e) = view_entry e

-- An entry whose time is up is not there.
abbrev pub live : ℕ → Option Entry → Option Entry
live now o = only (λ e. ltb now e.expires_at) o

abbrev pub view : ℕ → Text → Registry → View
view now id r = shows (live now (Dict.get r.entries id))

-- The calls that read the storage.
abbrev pub Restores : Op → Type 0
Restores restore_op = Unit
Restores (attach_persistence_op bs) = Unit
Restores _ = ⊥

-- The moves that a call may make on the card with this id: a free card is registered where there
-- is none or a used one, and claimed or edited only where it is free; it is released or completed
-- only by the one that has it; and it may be lost.
pub data Move (id : Text) : Op → View → View → Type 0 where
  keeps : {op : Op} {v : View} → Move id op v v
  loses : {op : Op} {v : View} → Move id op v absent
  registers : {s : CardSession} → s.message_id ≡ id → Move id (register_op s) absent waiting
  replaces : {s : CardSession} → s.message_id ≡ id → Move id (register_op s) done waiting
  claims : {j : Text} {n : ℕ} → j ≡ id → Move id (claim_op j n) waiting (held (some (event n)))
  edits :
      {j key channel uid : Text} {type : ChannelType} {seq : ℕ}
      → j ≡ id
      → Move id (claim_edit_op j key channel type uid) waiting (held (some (edit seq)))
  releases : {j : Text} {c : Claimant} → j ≡ id → Move id (release_op j c) (held (some c)) waiting
  completes : {j : Text} {n : ℕ} → j ≡ id → Move id (complete_op j n) (held (some (event n))) done
  restores : {op : Op} {v : View} → Restores op → Move id op v waiting
  restores_done : {op : Op} {v : View} → Restores op → Move id op v done

-- The move from one view to that of a registry.
pub record Moved (now : ℕ) (id : Text) (op : Op) (v : View) (r : Registry) : Type 0 where
  pub moves : Move id op v (view now id r)

only-only :
    (p q : Entry → Bool) (o : Option Entry)
    → (only p (only q o) ≡ only p o) ⊎ (only p (only q o) ≡ none)
only-only p q none = inl refl
only-only p q (some e) = elim (Bool-cases (q e)) [
  | inl t ↦ inl (rw t refl)
  | inr t ↦ inr (rw t refl)
]

only_same : (p : Entry → Bool) (o : Option Entry) → only p (only p o) ≡ only p o
only_same p none = refl
only_same p (some e) = elim (Bool-cases (p e)) [ inl t ↦ rw (t, t) refl | inr t ↦ rw (t) refl ]

pub view-prune :
    (now : ℕ) (id : Text) (r : Registry)
    → IsUnique r.entries
    → view now id (prune_locked now r) ≡ view now id r
unfolding prune_locked
view-prune now id r u =
    rw
      (
        get-keep_unique (λ (e : Entry). ltb now e.expires_at) r.entries id u,
        only_same (λ (e : Entry). ltb now e.expires_at) (Dict.get r.entries id),
      )
      refl

module _ {now : ℕ} {id : Text} {op : Op} {v : View} where
  pub keep-Moved :
      (p : Entry → Bool) {r : Registry}
      → IsUnique r.entries
      → Moved now id op v r
      → Moved now id op v (record r { entries = keep p r.entries })
  keep-Moved p {r} u m = elim (only-only (λ e. ltb now e.expires_at) p (Dict.get r.entries id)) [
    | inl e ↦ record { moves = rw (get-keep_unique p r.entries id u, e) m.moves }
    | inr e ↦ record { moves = rw (get-keep_unique p r.entries id u, e) loses }
  ]

  pub persist-Moved :
      (env : Env) {r : Registry}
      → IsUnique r.entries
      → Moved now id op v r
      → Moved now id op v (persist env r).1
  unfolding persist prune_locked
  persist-Moved env {r} u m =
      let kept = keep-Moved (λ e. ltb env.now_saving e.expires_at) u m in
      elim (Bool-cases r.attached) [
        | inl a ↦ elim (Bool-cases env.saved) [
          | inl b ↦ record { moves = rw (a, b) kept.moves }
          | inr b ↦ record { moves = rw (a, b) kept.moves }
        ]
        | inr a ↦ record { moves = rw (a) m.moves }
      ]

  pub pop-Moved :
      (j : Text) {r : Registry}
      → Moved now id op v r
      → Moved now id op v (record r { entries = Dict.pop r.entries j })
  pop-Moved j {r} m = elim (Bool-cases (text_eq j id)) [
    | inl t ↦ record { moves = rw (get-pop r.entries j id, t) loses }
    | inr t ↦ record { moves = rw (get-pop r.entries j id, t) m.moves }
  ]

  pub put-Moved :
      (j : Text) (e' : Entry) {r : Registry}
      → (j ≡ id → Move id op v (shows (live now (some e'))))
      → Moved now id op v r
      → Moved now id op v (record r { entries = put r.entries j e' })
  put-Moved j e' {r} k m = elim (Bool-cases (text_eq j id)) [
    | inl t ↦ record { moves = rw (get-put r.entries j id e', t) (k ((text_eq_iff j id).0 t)) }
    | inr t ↦ record { moves = rw (get-put r.entries j id e', t) m.moves }
  ]

  pub modify-Moved :
      (f : Entry → Entry) (j : Text) {r : Registry}
      → (j ≡ id → Move id op v (shows (live now (option_map f (Dict.get r.entries id)))))
      → Moved now id op v r
      → Moved now id op v (record r { entries = modify f r.entries j })
  modify-Moved f j {r} k m = elim (Bool-cases (text_eq j id)) [
    | inl t ↦ record { moves = rw (get-modify f r.entries j id, t) (k ((text_eq_iff j id).0 t)) }
    | inr t ↦ record { moves = rw (get-modify f r.entries j id, t) m.moves }
  ]
