-- ===== src/Sessions/Leases/Steps.antt =====
-- The moves of the methods for claims.
use hermes_channel_octo.Prelude.{
  ℕ, ◌≡◌, ◌<◌, refl, inl, inr, Bool, true, ◌&&◌, Option, none, some, arith, ltb, Bool-cases,
}
use hermes_channel_octo.Prelude.Result.{Result, ok, err}
use hermes_channel_octo.Prelude.Text.{Text}
use hermes_channel_octo.Prelude.Dict
use hermes_channel_octo.Prelude.Dict.{put, modify, get-put, option_map}
use hermes_channel_octo.Prelude.Dict.Unique.{put-IsUnique, pop-IsUnique}
use hermes_channel_octo.Sessions.Data.{
  CardSession, Entry, State, pending, processing, completed, Claimant, event, edit, is_pending,
  is_processing, claimed_by,
}
use hermes_channel_octo.Types.{ChannelType}
use hermes_channel_octo.Sessions.Registry.{
  Registry, RegistryError, Env, Exec, persist, entry_locked,
}
use hermes_channel_octo.Sessions.Claims.{
  or_roll_back, claim_entry, claimed_entry, unclaimed, claim_edit_entry, edited_entry, unedited,
  holds, settle, release, complete, on_entry,
}
use hermes_channel_octo.Sessions.Valid.{IsValid, entry_locked-cases}
use hermes_channel_octo.Sessions.Run.{Op, claim_op, claim_edit_op, release_op, complete_op}
use hermes_channel_octo.Sessions.Run.Claiming.{returning-state}
use hermes_channel_octo.Sessions.Leases.{
  View, waiting, held, view_entry, shows, live, view, Move, keeps, loses, claims, edits, releases,
  completes, Moved, persist-Moved, pop-Moved, put-Moved, modify-Moved,
}

-- The view of an entry that has not expired.
pub live-view :
    (now : ℕ) (e : Entry) → now < e.expires_at → shows (live now (some e)) ≡ view_entry e
live-view now e t = let t' : ltb now e.expires_at ≡ true = ground arith in rw t' refl

pub found-view :
    (now : ℕ) (j id : Text) (e : Entry) (r : Registry)
    → Dict.get r.entries j ≡ some e
    → now < e.expires_at
    → j ≡ id
    → view now id r ≡ view_entry e
found-view now j id e r h t same =
    let h' : Dict.get r.entries id ≡ some e = rw (← same) h in rw h' (live-view now e t)

is_pending→eq : (s : State) → is_pending s ≡ true → s ≡ pending
is_pending→eq pending h = refl
is_pending→eq processing h = absurd (cc)
is_pending→eq completed h = absurd (cc)

pub pending-view : (e : Entry) → is_pending e.state ≡ true → view_entry e ≡ waiting
pending-view e h = rw (is_pending→eq e.state h) refl

claimed_by→eq : (c : Claimant) (o : Option Claimant) → claimed_by c o ≡ true → o ≡ some c
claimed_by→eq c none h = absurd (cc)
claimed_by→eq (event n) (some (event m)) h = ground arith
claimed_by→eq (edit n) (some (edit m)) h = ground arith
claimed_by→eq (event n) (some (edit m)) h = absurd (cc)
claimed_by→eq (edit n) (some (event m)) h = absurd (cc)

is_processing→eq : (s : State) → is_processing s ≡ true → s ≡ processing
is_processing→eq processing h = refl
is_processing→eq pending h = absurd (cc)
is_processing→eq completed h = absurd (cc)

held-view : (c : Claimant) (e : Entry) → holds c e ≡ true → view_entry e ≡ held (some c)
held-view c e h =
    let p : is_processing e.state ≡ true = ground arith in
    let q : claimed_by c e.claimed_event_id ≡ true = ground arith in
    rw (is_processing→eq e.state p, claimed_by→eq c e.claimed_event_id q) refl

module _ (now : ℕ) (id : Text) {op : Op} where
  undone-Move :
      (f : Entry → Entry) (o : Option Entry)
      → ((x : Entry) → view_entry (f x) ≡ waiting)
      → Move id op waiting (shows (live now (option_map f o)))
  undone-Move f none k = loses
  undone-Move f (some x) k = elim (Bool-cases (ltb now (f x).expires_at)) [
    | inl t ↦ rw (t, k x) keeps
    | inr t ↦ rw t loses
  ]

  or_roll_back-Moved :
      {A : Type 0} (a : A) (f : Entry → Entry) (j : Text) (v : View)
      (x : Result RegistryError (Unit {0}) × Registry)
      → ((y : Entry) → view_entry (f y) ≡ waiting)
      → (j ≡ id → v ≡ waiting)
      → Moved now id op v x.1
      → Moved now id op v (or_roll_back a f j x).1
  or_roll_back-Moved a f j v (ok _, r) k w m = m
  or_roll_back-Moved a f j v (err _, r) k w m =
      modify-Moved f j (λ same. rw (w same) (undone-Move f (Dict.get r.entries id) k)) m

module _ (env : Env) (j id : Text) {r : Registry} (v : IsValid r) where
  abbrev Stepped : Op → Registry → Type 0
  Stepped op x = Moved env.now id op (view env.now id r) x

  -- An entry that was found changes, and is written.
  saved-Moved :
      {op : Op} (e e' : Entry)
      → (j ≡ id → Move id op (view env.now id r) (shows (live env.now (some e'))))
      → Stepped op (persist env (record r { entries = put r.entries j e' })).1
  saved-Moved e e' k =
      persist-Moved env (put-IsUnique r.entries j e' v.unique)
        (put-Moved j e' k (record { moves = keeps }))

  pub claim_entry-Moved :
      (n : ℕ) (e : Entry)
      → Dict.get r.entries j ≡ some e
      → env.now < e.expires_at
      → Stepped (claim_op j n) (claim_entry env j n e r).1
  claim_entry-Moved n e h t = elim (Bool-cases (is_pending e.state)) [
    | inl p ↦ rw p (
        or_roll_back-Moved env.now id _ (unclaimed e) j (view env.now id r) _
          (λ y. pending-view (unclaimed e y) p)
          (λ same. rw (found-view env.now j id e r h t same) (pending-view e p))
          (saved-Moved e (claimed_entry n e) (λ same.
            rw
              (
                found-view env.now j id e r h t same,
                pending-view e p,
                live-view env.now (claimed_entry n e) t,
              )
              (claims same))))
    | inr p ↦ rw (p, returning-state) (persist-Moved env v.unique (record { moves = keeps }))
  ]

  pub claim_edit_entry-Moved :
      (key channel : Text) (type : ChannelType) (uid : Text) (allowed : CardSession → Bool)
      (e : Entry)
      → Dict.get r.entries j ≡ some e
      → env.now < e.expires_at
      → Stepped (claim_edit_op j key channel type uid) (claim_edit_entry env j allowed e r).1
  claim_edit_entry-Moved key channel type uid allowed e h t =
      elim (Bool-cases (is_pending e.state && allowed e.session)) [
        | inl p ↦
            let q : is_pending e.state ≡ true = ground arith in
            rw p (
              or_roll_back-Moved env.now id _ (unedited e) j (view env.now id r) _
                (λ y. pending-view (unedited e y) q)
                (λ same. rw (found-view env.now j id e r h t same) (pending-view e q))
                (saved-Moved e (edited_entry e) (λ same.
                  rw
                    (
                      found-view env.now j id e r h t same,
                      pending-view e q,
                      live-view env.now (edited_entry e) t,
                    )
                    (edits same))))
        | inr p ↦ rw p (record { moves = keeps })
      ]

  -- A change that the view does not show.
  pub unseen-Moved :
      {op : Op} (e e' : Entry)
      → Dict.get r.entries j ≡ some e
      → env.now < e.expires_at
      → env.now < e'.expires_at
      → view_entry e' ≡ view_entry e
      → Stepped op (persist env (record r { entries = put r.entries j e' })).1
  unseen-Moved e e' h t t' w =
      saved-Moved e e'
        (λ same. rw (found-view env.now j id e r h t same, live-view env.now e' t', w) keeps)

  settled-Moved :
      {op : Op} (c : Claimant) (f : Entry → Entry)
      → ((e : Entry) → (f e).expires_at ≡ e.expires_at)
      → ((e : Entry) → j ≡ id → Move id op (held (some c)) (view_entry (f e)))
      → Stepped op (persist env (settle c f j (entry_locked env.now j r))).1
  settled-Moved c f same_time step = elim (entry_locked-cases env.now j r) [
    | inl (inl e) ↦ rw e (
        persist-Moved env (pop-IsUnique r.entries j v.unique)
          (pop-Moved j (record { moves = keeps })))
    | inl (inr (e, h)) ↦ rw e (persist-Moved env v.unique (record { moves = keeps }))
    | inr (x, e, h, t) ↦ elim (Bool-cases (holds c x)) [
      | inl p ↦
          let t' : env.now < (f x).expires_at = rw (same_time x) t in
          rw (e, p)
            (saved-Moved x (f x) (λ same.
              rw (found-view env.now j id x r h t same, held-view c x p, live-view env.now (f x) t')
                (step x same)))
      | inr p ↦ rw (e, p) (persist-Moved env v.unique (record { moves = keeps }))
    ]
  ]

  pub released-Moved : (c : Claimant) → Stepped (release_op j c) (release env j c r).1
  unfolding release
  released-Moved c = settled-Moved c _ (λ e. refl) (λ e same. releases same)

  pub completed-Moved : (n : ℕ) → Stepped (complete_op j n) (complete env j n r).1
  unfolding complete
  completed-Moved n = settled-Moved (event n) _ (λ e. refl) (λ e same. completes same)

  pub on_entry-Moved :
      {op : Op} {A : Type 0} (nothing : A) (act : Entry → Exec A)
      → ((e : Entry)
          → Dict.get r.entries j ≡ some e
          → env.now < e.expires_at
          → Stepped op (act e r).1)
      → Stepped op (on_entry nothing act (entry_locked env.now j r)).1
  on_entry-Moved nothing act k = elim (entry_locked-cases env.now j r) [
    | inl (inl e) ↦ rw e (pop-Moved j (record { moves = keeps }))
    | inl (inr (e, h)) ↦ rw e (record { moves = keeps })
    | inr (x, e, h, t) ↦ rw e (k x h t)
  ]
