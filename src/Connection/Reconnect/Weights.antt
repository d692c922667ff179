-- ===== src/Connection/Reconnect/Weights.antt =====
-- The tasks past the guard at the start of the method, and the outcomes of its operations.
use hermes_channel_octo.Prelude.{
  ℕ, zero, suc, ◌+◌, ◌≡◌, ◌⊎◌, refl, ap, Bool, false, some, inl, inr, List, [], ◌∷◌, ◌++◌, length,
  get_elem?, arith, Bool-cases, if◌then◌else◌,
}
use hermes_channel_octo.Connection.Reconnect.{
  Phase, queued, delaying, locking, connecting, finished, Reconnect, set_phase, has_live_task,
  spawn_reconnect_task, clear_task, leaves, fail,
}

-- A task past the guard.
abbrev pub weight : Phase → ℕ
weight queued = 0
weight finished = 0
weight (delaying delay) = 1
weight locking = 1
weight connecting = 1

abbrev pub under_way : List Phase → ℕ
under_way [] = 0
under_way (p ∷ ps) = weight p + under_way ps

abbrev pub allowed : Bool → ℕ
allowed flag = if flag then 1 else 0

pub under_way-set_phase :
    (ps : List Phase) (i : ℕ) (p q : Phase)
    → get_elem? ps i ≡ some q
    → under_way (set_phase i p ps) + weight q ≡ under_way ps + weight p
under_way-set_phase [] i p q h = absurd (cc)
under_way-set_phase (x ∷ ps) zero p q h =
    let same : weight x ≡ weight q = ap weight (cc) in omega arith
under_way-set_phase (x ∷ ps) (suc i) p q h =
    let more = under_way-set_phase ps i p q h in omega arith

pub under_way-append : (ps : List Phase) → under_way (ps ++ queued ∷ []) ≡ under_way ps
under_way-append [] = refl
under_way-append (p ∷ ps) = ap (λ n. weight p + n) (under_way-append ps)

pub get_elem?-append :
    (ps : List Phase) (i : ℕ) (q : Phase)
    → get_elem? ps i ≡ some q
    → get_elem? (ps ++ queued ∷ []) i ≡ some q
get_elem?-append [] i q h = absurd (cc)
get_elem?-append (p ∷ ps) zero q h = h
get_elem?-append (p ∷ ps) (suc i) q h = get_elem?-append ps i q h

abbrev pub spawned : Reconnect → Reconnect
spawned r = record r { tracked = some (length r.tasks); tasks = r.tasks ++ queued ∷ [] }

pub spawn-cases :
    (r : Reconnect) → (spawn_reconnect_task r ≡ r) ⊎ (spawn_reconnect_task r ≡ spawned r)
unfolding spawn_reconnect_task
spawn-cases r = elim (Bool-cases r.connection.need_reconnect) [
  | inr t ↦ inl (simp t refl)
  | inl t ↦ elim (Bool-cases (has_live_task r.tracked r.tasks)) [
    | inl l ↦ inl (simp (t, l) refl)
    | inr l ↦ inr (simp (t, l) refl)
  ]
]

abbrev pub respawned : ℕ → Reconnect → Reconnect
respawned i r = leaves i (spawn_reconnect_task (clear_task i (record r { in_progress = false })))

pub fail-cases : (i : ℕ) (r : Reconnect) → (fail i r ≡ respawned i r) ⊎ (fail i r ≡ leaves i r)
unfolding fail
fail-cases i r = elim (Bool-cases r.connection.need_reconnect) [
  | inl n ↦ inl (simp n refl)
  | inr n ↦ inr (simp n refl)
]
