-- ===== src/Connection/Reconnect/Exclusive.antt =====
-- How many of the tasks of a reconnection are past the guard at its start.
use hermes_channel_octo.Prelude.{
  ℕ, ◌+◌, ◌≡◌, ◌⊎◌, refl, sym, ap, ◌∙◌, Bool, true, false, some, inl, inr, get_elem?, arith,
  Bool-cases, if◌then◌else◌,
}
use hermes_channel_octo.Connection.{Connection}
use hermes_channel_octo.Connection.Reconnect.Weights.{
  under_way, allowed, weight, under_way-set_phase, under_way-append, get_elem?-append, spawned,
  spawn-cases, fail-cases,
}
use hermes_channel_octo.Connection.Reconnect.{
  Phase, queued, delaying, locking, connecting, finished, Reconnect, set_phase,
  spawn_reconnect_task, clear_task, goes_on, leaves, begin, wake, attempt, fail, cancel,
  delay_after, Step, others, forgets, spawns, clears, begins, wakes, attempts, connects, fails,
  cancels, Reach, starts, then_step,
}

abbrev pub IsExclusive : Reconnect → Type 0
IsExclusive r = under_way r.tasks ≡ allowed r.in_progress

allowed-one : (flag : Bool) (u v : ℕ) → u ≡ allowed flag → v + 1 ≡ u + 0 → v ≡ 0
allowed-one true u v h k = omega arith
allowed-one false u v h k = absurd (omega arith)

-- A task that is past the guard is the only one, and nobody is when it leaves.
leaves-under_way :
    (i : ℕ) (r : Reconnect) (q : Phase)
    → get_elem? r.tasks i ≡ some q
    → weight q ≡ 1
    → under_way r.tasks ≡ 1
    → IsExclusive (leaves i r)
leaves-under_way i r q h w u = let more = under_way-set_phase r.tasks i finished q h in omega arith

one_under_way :
    (i : ℕ) (r : Reconnect) (q : Phase)
    → get_elem? r.tasks i ≡ some q
    → weight q ≡ 1
    → IsExclusive r
    → under_way r.tasks ≡ 1
one_under_way i r q h w e =
    let more = under_way-set_phase r.tasks i finished q h in
    elim (Bool-cases r.in_progress) [
      | inl t ↦ e ∙ ap allowed t
      | inr t ↦ let e' : under_way r.tasks ≡ 0 = e ∙ ap allowed t in absurd (omega arith)
    ]

goes_on-IsExclusive :
    (i : ℕ) (r : Reconnect) (p q : Phase)
    → get_elem? r.tasks i ≡ some q
    → weight p ≡ weight q
    → IsExclusive r
    → IsExclusive (goes_on i p r)
goes_on-IsExclusive i r p q h w e =
    let more = under_way-set_phase r.tasks i p q h in
    let same : under_way (set_phase i p r.tasks) ≡ under_way r.tasks = omega arith in same ∙ e

leaves-IsExclusive :
    (i : ℕ) (r : Reconnect) (q : Phase)
    → get_elem? r.tasks i ≡ some q
    → weight q ≡ 1
    → IsExclusive r
    → IsExclusive (leaves i r)
leaves-IsExclusive i r q h w e = leaves-under_way i r q h w (one_under_way i r q h w e)

-- What a task that spawns another one keeps.
record Kept (r s : Reconnect) : Type 0 where
  in_progress : s.in_progress ≡ r.in_progress
  under : under_way s.tasks ≡ under_way r.tasks
  place : (i : ℕ) (q : Phase) → get_elem? r.tasks i ≡ some q → get_elem? s.tasks i ≡ some q

Kept-self : (r : Reconnect) → Kept r r
Kept-self r = record { in_progress = refl; under = refl; place = λ i q h. h }

spawned-Kept : (r : Reconnect) → Kept r (spawned r)
spawned-Kept r = record {
  in_progress = refl;
  under = under_way-append r.tasks;
  place = get_elem?-append r.tasks;
}

spawn-Kept : (r : Reconnect) → Kept r (spawn_reconnect_task r)
spawn-Kept r = elim (spawn-cases r) [ inl e ↦ rw e (Kept-self r) | inr e ↦ rw e (spawned-Kept r) ]

clear_task-Kept : (i : ℕ) (r : Reconnect) → Kept r (clear_task i r)
unfolding clear_task
clear_task-Kept i r = record { in_progress = refl; under = refl; place = λ k q h. h }

Kept-IsExclusive : {r s : Reconnect} → Kept r s → IsExclusive r → IsExclusive s
Kept-IsExclusive k e = k.under ∙ e ∙ ap allowed (sym k.in_progress)

abbrev begun : ℕ → Reconnect → Reconnect
begun i r =
    let c = r.connection in
    record (goes_on i (delaying (delay_after c.reconnect_attempts)) r) {
      in_progress = true;
      connection = record c { reconnect_attempts = c.reconnect_attempts + 1 };
    }

begun-IsExclusive :
    (i : ℕ) (r : Reconnect)
    → get_elem? r.tasks i ≡ some queued
    → r.in_progress ≡ false
    → IsExclusive r
    → IsExclusive (begun i r)
begun-IsExclusive i r h t e =
    let none_yet : under_way r.tasks ≡ 0 = e ∙ ap allowed t in
    let more =
      under_way-set_phase r.tasks i (delaying (delay_after r.connection.reconnect_attempts)) queued
        h in
    omega arith

begin-cases :
    (i : ℕ) (r : Reconnect)
    → (begin i r ≡ goes_on i finished r) ⊎ ((r.in_progress ≡ false) × (begin i r ≡ begun i r))
unfolding begin
begin-cases i r = elim (Bool-cases r.in_progress) [
  | inl t ↦ inl (simp t refl)
  | inr t ↦ elim (Bool-cases r.connection.need_reconnect) [
    | inr n ↦ inl (simp (t, n) refl)
    | inl n ↦ inr (t, simp (t, n) refl)
  ]
]

begin-IsExclusive :
    (i : ℕ) (r : Reconnect)
    → get_elem? r.tasks i ≡ some queued
    → IsExclusive r
    → IsExclusive (begin i r)
begin-IsExclusive i r h e = elim (begin-cases i r) [
  | inl k ↦ rw k (goes_on-IsExclusive i r finished queued h refl e)
  | inr (t, k) ↦ rw k (begun-IsExclusive i r h t e)
]

wake-IsExclusive :
    (i delay : ℕ) (r : Reconnect)
    → get_elem? r.tasks i ≡ some (delaying delay)
    → IsExclusive r
    → IsExclusive (wake i r)
unfolding wake
wake-IsExclusive i delay r h e = elim (Bool-cases r.connection.need_reconnect) [
  | inr n ↦ simp n (leaves-IsExclusive i r (delaying delay) h refl e)
  | inl n ↦ simp n (goes_on-IsExclusive i r locking (delaying delay) h refl e)
]

attempt-IsExclusive :
    (i : ℕ) (r : Reconnect)
    → get_elem? r.tasks i ≡ some locking
    → IsExclusive r
    → IsExclusive (attempt i r)
unfolding attempt
attempt-IsExclusive i r h e = elim (Bool-cases r.connection.need_reconnect) [
  | inr n ↦ simp n (leaves-IsExclusive i r locking h refl e)
  | inl n ↦ simp n (goes_on-IsExclusive i r connecting locking h refl e)
]

respawned-IsExclusive :
    (i : ℕ) (r : Reconnect)
    → get_elem? r.tasks i ≡ some connecting
    → IsExclusive r
    → IsExclusive
        (leaves i (spawn_reconnect_task (clear_task i (record r { in_progress = false }))))
respawned-IsExclusive i r h e =
    let cleared = clear_task i (record r { in_progress = false }) in
    let k = clear_task-Kept i (record r { in_progress = false }) in
    let k' = spawn-Kept cleared in
    leaves-under_way i (spawn_reconnect_task cleared) connecting
      (k'.place i connecting (k.place i connecting h)) refl
      (k'.under ∙ k.under ∙ one_under_way i r connecting h refl e)

fail-IsExclusive :
    (i : ℕ) (r : Reconnect)
    → get_elem? r.tasks i ≡ some connecting
    → IsExclusive r
    → IsExclusive (fail i r)
fail-IsExclusive i r h e = elim (fail-cases i r) [
  | inl k ↦ rw k (respawned-IsExclusive i r h e)
  | inr k ↦ rw k (leaves-IsExclusive i r connecting h refl e)
]

cancel-IsExclusive :
    (i : ℕ) (p : Phase) (r : Reconnect)
    → get_elem? r.tasks i ≡ some p
    → IsExclusive r
    → IsExclusive (cancel p i r)
cancel-IsExclusive i queued r h e = goes_on-IsExclusive i r finished queued h refl e
cancel-IsExclusive i finished r h e = e
cancel-IsExclusive i (delaying d) r h e = leaves-IsExclusive i r (delaying d) h refl e
cancel-IsExclusive i locking r h e = leaves-IsExclusive i r locking h refl e
cancel-IsExclusive i connecting r h e = leaves-IsExclusive i r connecting h refl e

Step-IsExclusive : {r s : Reconnect} → Step r s → IsExclusive r → IsExclusive s
Step-IsExclusive (others c) e = e
Step-IsExclusive forgets e = e
Step-IsExclusive (spawns {r}) e = Kept-IsExclusive (spawn-Kept r) e
Step-IsExclusive (clears {r} i h) e = Kept-IsExclusive (clear_task-Kept i r) e
Step-IsExclusive (begins {r} i h) e = begin-IsExclusive i r h e
Step-IsExclusive (wakes {r} i delay h) e = wake-IsExclusive i delay r h e
Step-IsExclusive (attempts {r} i h) e = attempt-IsExclusive i r h e
Step-IsExclusive (connects {r} i h) e = leaves-IsExclusive i r connecting h refl e
Step-IsExclusive (fails {r} i h) e = fail-IsExclusive i r h e
Step-IsExclusive (cancels {r} i p h) e = cancel-IsExclusive i p r h e

-- However the tasks of a reconnection are interleaved with each other, with cancellations and with
-- what other coroutines do to the connection, the number of tasks past the guard at the start of
-- the method is one while in_progress is set and zero otherwise: there are never two of them, and
-- the flag is never left set by a task that is gone.
pub Reach-under_way :
    (c : Connection) (r : Reconnect)
    → Reach c r
    → under_way r.tasks ≡ (if r.in_progress then 1 else 0)
Reach-under_way c _ starts = refl
Reach-under_way c _ (then_step {r} h step) = Step-IsExclusive step (Reach-under_way c r h)
