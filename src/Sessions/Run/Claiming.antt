-- ===== src/Sessions/Run/Claiming.antt =====
-- The invariant of `CardSessionRegistry` through its methods for claims.
use hermes_channel_octo.Prelude.{ℕ, ◌≡◌, refl, inl, inr, Bool, ◌&&◌, none, some, Bool-cases}
use hermes_channel_octo.Prelude.Result.{Result, ok, err}
use hermes_channel_octo.Prelude.Text.{Text}
use hermes_channel_octo.Prelude.Dict
use hermes_channel_octo.Prelude.Dict.{Dict, put, get-pop, length-pop, length-put}
use hermes_channel_octo.Types.{ChannelType}
use hermes_channel_octo.Sessions.Data.{CardSession, Entry, Claimant, event, missing, is_pending}
use hermes_channel_octo.Sessions.Registry.{
  Registry, RegistryError, Env, Exec, persist, entry_locked, peek, returning,
}
use hermes_channel_octo.Sessions.Claims.{
  or_roll_back, claim_entry, claim, claim_edit_entry, claim_edit, on_entry, edit_matches,
  next_seq_entry, next_card_seq, holds, settle, release, complete,
}
use hermes_channel_octo.Sessions.Valid.{
  IsValid, persist-IsValid, pop-IsValid, put-IsValid, modify-IsValid, entry_locked-cases,
}

pub returning-state :
    {A : Type 0} (a : A) (x : Result RegistryError (Unit {0}) × Registry) → (returning a x).1 ≡ x.1
returning-state a (ok _, r) = refl
returning-state a (err _, r) = refl

-- A change of the entry that is there, and a write to the storage.
save-IsValid :
    (env : Env) {r : Registry} (id : Text) (e e' : Entry)
    → Dict.get r.entries id ≡ some e
    → IsValid r
    → IsValid (persist env (record r { entries = put r.entries id e' })).1
save-IsValid env id e e' h v = persist-IsValid env (put-IsValid id e e' h v)

or_roll_back-IsValid :
    {A : Type 0} (a : A) (f : Entry → Entry) (id : Text)
    (x : Result RegistryError (Unit {0}) × Registry)
    → IsValid x.1
    → IsValid (or_roll_back a f id x).1
or_roll_back-IsValid a f id (ok _, r) v = v
or_roll_back-IsValid a f id (err _, r) v = modify-IsValid f id v

claim_entry-IsValid :
    (env : Env) (id : Text) (n : ℕ) (e : Entry) {r : Registry}
    → Dict.get r.entries id ≡ some e
    → IsValid r
    → IsValid (claim_entry env id n e r).1
claim_entry-IsValid env id n e {r} h v = elim (Bool-cases (is_pending e.state)) [
  | inl t ↦ rw t (or_roll_back-IsValid _ _ id _ (save-IsValid env id e _ h v))
  | inr t ↦ rw (t, returning-state) (persist-IsValid env v)
]

on_entry-IsValid :
    {A : Type 0} (absent : A) (act : Entry → Exec A) (now : ℕ) (id : Text) {r : Registry}
    → ((e : Entry) → Dict.get r.entries id ≡ some e → IsValid (act e r).1)
    → IsValid r
    → IsValid (on_entry absent act (entry_locked now id r)).1
on_entry-IsValid absent act now id {r} k v = elim (entry_locked-cases now id r) [
  | inl (inl e) ↦ rw e (pop-IsValid id v)
  | inl (inr (e, h)) ↦ rw e v
  | inr (x, e, h, t) ↦ rw e (k x h)
]

pub claim-IsValid :
    (env : Env) (id : Text) (n : ℕ) {r : Registry} → IsValid r → IsValid (claim env id n r).1
unfolding claim
claim-IsValid env id n v =
    on_entry-IsValid missing (claim_entry env id n) env.now id
      (λ e h. claim_entry-IsValid env id n e h v) v

claim_edit_entry-IsValid :
    (env : Env) (id : Text) (allowed : CardSession → Bool) (e : Entry) {r : Registry}
    → Dict.get r.entries id ≡ some e
    → IsValid r
    → IsValid (claim_edit_entry env id allowed e r).1
claim_edit_entry-IsValid env id allowed e {r} h v =
    elim (Bool-cases (is_pending e.state && allowed e.session)) [
      | inl t ↦ rw t (or_roll_back-IsValid _ _ id _ (save-IsValid env id e _ h v))
      | inr t ↦ rw t v
    ]

pub claim_edit-IsValid :
    (env : Env) (id key channel : Text) (type : ChannelType) (uid : Text) {r : Registry}
    → IsValid r
    → IsValid (claim_edit env id key channel type uid r).1
unfolding claim_edit
claim_edit-IsValid env id key channel type uid v =
    let allowed = edit_matches key channel type uid in
    on_entry-IsValid none (claim_edit_entry env id allowed) env.now id
      (λ e h. claim_edit_entry-IsValid env id allowed e h v) v

pub next_card_seq-IsValid :
    (env : Env) (id : Text) {r : Registry} → IsValid r → IsValid (next_card_seq env id r).1
unfolding next_card_seq
next_card_seq-IsValid env id v =
    on_entry-IsValid none (next_seq_entry env id) env.now id
      (λ e h. rw returning-state (save-IsValid env id e _ h v)) v

pub peek-IsValid : (env : Env) (id : Text) {r : Registry} → IsValid r → IsValid (peek env id r).1
unfolding peek
peek-IsValid env id {r} v = elim (entry_locked-cases env.now id r) [
  | inl (inl e) ↦ rw (peek, e, e) (pop-IsValid id v)
  | inl (inr (e, h)) ↦ rw (peek, e, e) v
  | inr (x, e, h, t) ↦ rw (peek, e, e) v
]

-- `release` and `complete`: the change of an entry that the claimant holds.
pub settle-IsValid :
    (now : ℕ) (c : Claimant) (f : Entry → Entry) (id : Text) {r : Registry}
    → IsValid r
    → IsValid (settle c f id (entry_locked now id r))
settle-IsValid now c f id {r} v = elim (entry_locked-cases now id r) [
  | inl (inl e) ↦ rw e (pop-IsValid id v)
  | inl (inr (e, h)) ↦ rw e v
  | inr (x, e, h, t) ↦ elim (Bool-cases (holds c x)) [
    | inl held ↦ rw (e, held) (put-IsValid id x (f x) h v)
    | inr free ↦ rw (e, free) v
  ]
]

pub release-IsValid :
    (env : Env) (id : Text) (c : Claimant) {r : Registry}
    → IsValid r
    → IsValid (release env id c r).1
release-IsValid env id c v = unfold release in persist-IsValid env (settle-IsValid env.now c _ id v)

pub complete-IsValid :
    (env : Env) (id : Text) (n : ℕ) {r : Registry} → IsValid r → IsValid (complete env id n r).1
complete-IsValid env id n v =
    unfold complete in persist-IsValid env (settle-IsValid env.now (event n) _ id v)
