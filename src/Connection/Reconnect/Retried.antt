-- ===== src/Connection/Reconnect/Retried.antt =====
-- What a failed attempt leaves behind.
use hermes_channel_octo.Prelude.{
  ℕ, zero, suc, ◌≡◌, refl, ◌∙◌, true, false, Option, none, some, inl, inr, List, [], ◌∷◌, ◌++◌,
  length, ◌==◌, get_elem?, arith, Bool-cases,
}
use hermes_channel_octo.Connection.Reconnect.Weights.{spawned, respawned}
use hermes_channel_octo.Connection.Reconnect.{
  Phase, queued, connecting, finished, Reconnect, set_phase, has_live_task, spawn_reconnect_task,
  clear_task, leaves, fail, cleared,
}

get_elem?-set_phase :
    (ps : List Phase) (i j : ℕ) (p : Phase)
    → (i == j) ≡ false
    → get_elem? (set_phase i p ps) j ≡ get_elem? ps j
get_elem?-set_phase [] i j p h = refl
get_elem?-set_phase (x ∷ ps) zero zero p h = absurd (cc)
get_elem?-set_phase (x ∷ ps) zero (suc j) p h = refl
get_elem?-set_phase (x ∷ ps) (suc i) zero p h = refl
get_elem?-set_phase (x ∷ ps) (suc i) (suc j) p h = get_elem?-set_phase ps i j p (ground arith)

get_elem?-last : (ps : List Phase) (p : Phase) → get_elem? (ps ++ p ∷ []) (length ps) ≡ some p
get_elem?-last [] p = refl
get_elem?-last (x ∷ ps) p = get_elem?-last ps p

not_last :
    (ps : List Phase) (i : ℕ) (q : Phase) → get_elem? ps i ≡ some q → (i == length ps) ≡ false
not_last [] i q h = absurd (cc)
not_last (x ∷ ps) zero q h = ground arith
not_last (x ∷ ps) (suc i) q h = let more = not_last ps i q h in ground arith

cleared-live :
    (o : Option ℕ) (i : ℕ) (ps : List Phase)
    → has_live_task (cleared i o) ps ≡ true
    → has_live_task (cleared i o) (set_phase i finished ps) ≡ true
cleared-live none i ps h = h
cleared-live (some j) i ps h = elim (Bool-cases (i == j)) [
  | inl t ↦ let h' = rw t at h in absurd (cc)
  | inr t ↦ rw t (rw (get_elem?-set_phase ps i j finished t) (rw t at h))
]

spawned-live :
    (i : ℕ) (q : Phase) (r : Reconnect)
    → get_elem? r.tasks i ≡ some q
    → has_live_task (spawned r).tracked (set_phase i finished (spawned r).tasks) ≡ true
spawned-live i q r h =
    let k =
      get_elem?-set_phase (r.tasks ++ queued ∷ []) i (length r.tasks) finished
        (not_last r.tasks i q h) in
    let l = k ∙ get_elem?-last r.tasks queued in rw l refl

spawn-live :
    (i : ℕ) (q : Phase) (r : Reconnect)
    → get_elem? r.tasks i ≡ some q
    → r.connection.need_reconnect ≡ true
    → (has_live_task r.tracked r.tasks ≡ true
        → has_live_task r.tracked (set_phase i finished r.tasks) ≡ true)
    → has_live_task
        (leaves i (spawn_reconnect_task r)).tracked
        (leaves i (spawn_reconnect_task r)).tasks
      ≡ true
unfolding spawn_reconnect_task
spawn-live i q r h need keep = elim (Bool-cases (has_live_task r.tracked r.tasks)) [
  | inl l ↦ simp (need, l) (keep l)
  | inr l ↦ simp (need, l) (spawned-live i q r h)
]

respawned-live :
    (i : ℕ) (r : Reconnect)
    → get_elem? r.tasks i ≡ some connecting
    → r.connection.need_reconnect ≡ true
    → has_live_task (respawned i r).tracked (respawned i r).tasks ≡ true
unfolding clear_task
respawned-live i r h need =
    spawn-live i connecting (clear_task i (record r { in_progress = false })) h need
      (cleared-live r.tracked i r.tasks)

-- While the connection is wanted, an attempt that fails never leaves the bot without another one:
-- whatever was tracked before, a task that is not done is tracked behind the failed one.
pub fail-tracked :
    (i : ℕ) (r : Reconnect)
    → get_elem? r.tasks i ≡ some connecting
    → r.connection.need_reconnect ≡ true
    → has_live_task (fail i r).tracked (fail i r).tasks ≡ true
unfolding fail
fail-tracked i r h need =
    let e : fail i r ≡ respawned i r = simp need refl in rw e (respawned-live i r h need)
