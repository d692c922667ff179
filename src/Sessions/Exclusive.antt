-- ===== src/Sessions/Exclusive.antt =====
-- The claimant of a card of `CardSessionRegistry` through the building blocks of its methods.
pub mod Steps
pub mod Claims
use hermes_channel_octo.Prelude.{
  ℕ, suc, ◌+◌, ◌≤◌, ◌<◌, ◌≡◌, ◌≢◌, refl, ap, sym, ◌∙◌, ◌⊎◌, inl, inr, Bool, true, false, ◌&&◌,
  Option, none, some, List, [], ◌∷◌, ◌++◌, arith, ltb, leb, if◌then◌else◌, Bool-cases, Option-cases,
}
use hermes_channel_octo.Prelude.Result.{Result, ok, err}
use hermes_channel_octo.Prelude.Text.{Text, text_eq, text_eq_iff, text_eq_refl}
use hermes_channel_octo.Prelude.Dict
use hermes_channel_octo.Prelude.Dict.{Dict, put, modify, keep, get-pop, get-put, get-modify}
use hermes_channel_octo.Prelude.Dict.Unique.{IsUnique, only, get-keep_unique, put-IsUnique}
use hermes_channel_octo.Sessions.Data.{
  CardSession, Entry, Claimant, event, edit, is_processing, is_pending, claimed_by,
}
use hermes_channel_octo.Sessions.Registry.{
  Registry, RegistryError, Env, Exec, persist, entry_locked, returning,
}
use hermes_channel_octo.Sessions.Claims.{
  claim_entry, claim, claim_edit_entry, claim_edit, next_card_seq, holds, settle, release, complete,
  or_roll_back, on_entry,
}
use hermes_channel_octo.Sessions.Valid.{IsValid, entry_locked-cases}

-- The card is in the hands of this claimant, or it is gone.
abbrev pub InHands : Claimant → Option Entry → Type 0
InHands c none = Unit
InHands c (some e) = holds c e ≡ true

pub record Guarded (id : Text) (c : Claimant) (r : Registry) : Type 0 where
  pub held : InHands c (Dict.get r.entries id)

InHands-only :
    (p : Entry → Bool) (c : Claimant) (o : Option Entry) → InHands c o → InHands c (only p o)
InHands-only p c none h = tt
InHands-only p c (some e) h = ground arith

pub keep-Guarded :
    (p : Entry → Bool) (id : Text) (c : Claimant) {r : Registry}
    → IsUnique r.entries
    → Guarded id c r
    → Guarded id c (record r { entries = keep p r.entries })
keep-Guarded p id c {r} u h = record {
  held = rw (get-keep_unique p r.entries id u) (InHands-only p c (Dict.get r.entries id) h.held);
}

pub persist-Guarded :
    (env : Env) (id : Text) (c : Claimant) {r : Registry}
    → IsUnique r.entries
    → Guarded id c r
    → Guarded id c (persist env r).1
unfolding persist
persist-Guarded env id c {r} u h =
    let kept = keep-Guarded (λ e. ltb env.now_saving e.expires_at) id c u h in
    ground (arith, kept.held, h.held)

pub pop-Guarded :
    (j id : Text) (c : Claimant) {r : Registry}
    → Guarded id c r
    → Guarded id c (record r { entries = Dict.pop r.entries j })
pop-Guarded j id c {r} h = record { held = rw (get-pop r.entries j id) (ground (arith, h.held)) }

pub put-Guarded :
    (j id : Text) (c : Claimant) (e' : Entry) {r : Registry}
    → (j ≡ id → holds c e' ≡ true)
    → Guarded id c r
    → Guarded id c (record r { entries = put r.entries j e' })
put-Guarded j id c e' {r} k h = elim (Bool-cases (text_eq j id)) [
  | inl t ↦ record { held = rw (get-put r.entries j id e', t) (k ((text_eq_iff j id).0 t)) }
  | inr t ↦ record { held = rw (get-put r.entries j id e', t) h.held }
]

pub modify-Guarded :
    (f : Entry → Entry) (j id : Text) (c : Claimant) {r : Registry}
    → j ≢ id
    → Guarded id c r
    → Guarded id c (record r { entries = modify f r.entries j })
modify-Guarded f j id c {r} ne h = elim (Bool-cases (text_eq j id)) [
  | inl t ↦ absurd (ne ((text_eq_iff j id).0 t))
  | inr t ↦ record { held = rw (get-modify f r.entries j id, t) h.held }
]

-- An entry that is found under the guarded id is in the claimant's hands.
pub Guarded-holds :
    (j id : Text) (c : Claimant) (e : Entry) {r : Registry}
    → Guarded id c r
    → Dict.get r.entries j ≡ some e
    → j ≡ id
    → holds c e ≡ true
Guarded-holds j id c e {r} g h same =
    let found : Dict.get r.entries id ≡ some e = rw (← same) h in rw found at g.held

pub on_entry-Guarded :
    {A : Type 0} (absent : A) (act : Entry → Exec A) (now : ℕ) (j id : Text) (c : Claimant)
    {r : Registry}
    → ((e : Entry) → Dict.get r.entries j ≡ some e → Guarded id c (act e r).1)
    → Guarded id c r
    → Guarded id c (on_entry absent act (entry_locked now j r)).1
on_entry-Guarded absent act now j id c {r} k g = elim (entry_locked-cases now j r) [
  | inl (inl e) ↦ rw e (pop-Guarded j id c g)
  | inl (inr (e, h)) ↦ rw e g
  | inr (x, e, h, t) ↦ rw e (k x h)
]

module _ (env : Env) (j id : Text) (c : Claimant) {r : Registry} (v : IsValid r)
    (g : Guarded id c r) where
  -- An entry that is not in these hands may be changed in any way.
  pub save-Guarded :
      (e e' : Entry)
      → Dict.get r.entries j ≡ some e
      → (holds c e ≡ true → holds c e' ≡ true)
      → Guarded id c (persist env (record r { entries = put r.entries j e' })).1
  save-Guarded e e' h k =
      persist-Guarded env id c (put-IsUnique r.entries j e' v.unique)
        (put-Guarded j id c e' (λ same. k (Guarded-holds j id c e g h same)) g)

  pub not_pending : (e : Entry) → Dict.get r.entries j ≡ some e → is_pending e.state ≡ true → j ≢ id
  not_pending e h p same = ground (arith, Guarded-holds j id c e g h same)
