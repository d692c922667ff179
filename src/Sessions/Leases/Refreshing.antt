-- ===== src/Sessions/Leases/Refreshing.antt =====
-- The moves of `refresh_reasoning`.
use hermes_channel_octo.Prelude.{
  ℕ, ◌+◌, ◌≡◌, ◌<◌, refl, sym, ◌∙◌, inl, inr, Bool, true, not, ◌||◌, Option, none, some, arith, ltb,
  Bool-cases,
}
use hermes_channel_octo.Prelude.Text.{Text, text_eq, text_eq_iff, text_eq_refl}
use hermes_channel_octo.Prelude.Dict
use hermes_channel_octo.Prelude.Dict.{Dict, put, get-put, get-pop, keep}
use hermes_channel_octo.Prelude.Dict.Unique.{get-concat, get-keep_unique, only}
use hermes_channel_octo.Sessions.Data.{
  CardSession, Entry, is_pending, is_reasoning, bounded_message_id,
}
use hermes_channel_octo.Sessions.Registry.{
  Registry, Env, prune_locked, same_identity, refreshed, refresh_entry, refresh_reasoning,
}
use hermes_channel_octo.Sessions.Valid.{IsValid}
use hermes_channel_octo.Sessions.Run.{Op, refresh_op}
use hermes_channel_octo.Sessions.Leases.{
  waiting, shows, live, view, Move, keeps, loses, Moved, view-prune,
}
use hermes_channel_octo.Sessions.Leases.Steps.{found-view, pending-view}

still-Move :
    (now : ℕ) (id : Text) (op : Op) (e : Entry)
    → is_pending e.state ≡ true
    → Move id op waiting (shows (live now (some e)))
still-Move now id op e p = elim (Bool-cases (ltb now e.expires_at)) [
  | inl t ↦ rw (t, pending-view e p) keeps
  | inr t ↦ rw t loses
]

refreshed-Moved :
    (env : Env) (s : CardSession) (e : Entry) (id : Text) (r : Registry)
    → Dict.get r.entries s.message_id ≡ some e
    → env.now < e.expires_at
    → is_pending e.state ≡ true
    → Moved env.now id (refresh_op s) (view env.now id r) (refreshed env s e r)
refreshed-Moved env s e id r h t p =
    let j = s.message_id in
    let e' : Entry = record e {
      session = s;
      expires_at = env.now + r.ttl_seconds;
      wall_expires_at = env.wall + r.ttl_seconds;
    } in
    let found = get-concat (Dict.pop r.entries j) j id e' (rw (get-pop, text_eq_refl)) in
    elim (Bool-cases (text_eq j id)) [
      | inl same ↦ record {
        moves =
            rw
              (
                found,
                same,
                found-view env.now j id e r h t ((text_eq_iff j id).0 same),
                pending-view e p,
              )
              (still-Move env.now id (refresh_op s) e' p);
      }
      | inr other ↦ record { moves = rw (found, other, get-pop r.entries j id, other) keeps }
    ]

refresh_entry-Moved :
    (env : Env) (s : CardSession) (id : Text) (o : Option Entry) (r : Registry)
    → Dict.get r.entries s.message_id ≡ o
    → ((e : Entry) → o ≡ some e → env.now < e.expires_at)
    → Moved env.now id (refresh_op s) (view env.now id r) (refresh_entry env s o r).1
refresh_entry-Moved env s id none r h k = record { moves = keeps }
refresh_entry-Moved env s id (some e) r h k = elim (Bool-cases (is_pending e.state)) [
  | inl t ↦ elim (Bool-cases (same_identity e.session s)) [
    | inl same ↦ rw (t, same) (refreshed-Moved env s e id r h (k e refl) t)
    | inr other ↦ rw (t, other) (record { moves = keeps })
  ]
  | inr t ↦ rw t (record { moves = keeps })
]

only-true : (p : Entry → Bool) (o : Option Entry) (e : Entry) → only p o ≡ some e → p e ≡ true
only-true p none e h = absurd (cc)
only-true p (some x) e h = elim (Bool-cases (p x)) [
  | inl t ↦ let same : some x ≡ some e = rw t at h in cc
  | inr t ↦ let none_same : none ≡ some e = rw t at h in absurd (cc)
]

pruned-live :
    (now : ℕ) (id : Text) (r : Registry)
    → IsValid r
    → (e : Entry) → Dict.get (prune_locked now r).entries id ≡ some e
    → now < e.expires_at
unfolding prune_locked
pruned-live now id r v e h =
    let kept =
      only-true (λ (x : Entry). ltb now x.expires_at) (Dict.get r.entries id) e
        (sym (get-keep_unique (λ (x : Entry). ltb now x.expires_at) r.entries id v.unique) ∙ h) in
    ground arith

pub refresh_reasoning-Moved :
    (env : Env) (s : CardSession) (id : Text) {r : Registry}
    → IsValid r
    → Moved env.now id (refresh_op s) (view env.now id r) (refresh_reasoning env s r).1
unfolding refresh_reasoning
refresh_reasoning-Moved env s id {r} v =
    elim (Bool-cases (not (bounded_message_id s.message_id) || not (is_reasoning s.kind))) [
      | inl t ↦ rw t (record { moves = keeps })
      | inr t ↦
          rw (t, sym (view-prune env.now id r v.unique))
            (refresh_entry-Moved env s id _ (prune_locked env.now r) refl
              (pruned-live env.now s.message_id r v))
    ]
