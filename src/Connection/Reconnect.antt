-- ===== src/Connection/Reconnect.antt =====
-- The reconnection of a bot in adapter.py: _spawn_reconnect_task, _schedule_reconnect and the
-- cancellation of its task. A task is known by its number in the order of their creation, and runs
-- from one await to the next. What other coroutines do to the connection in between is any change of
-- it. Delays are in seconds and without their random part.
pub mod Weights
pub mod Exclusive
pub mod Retried
use hermes_channel_octo.Prelude.{
  ℕ, zero, suc, ◌+◌, ◌*◌, ◌^◌, ◌≡◌, Bool, true, false, not, Option, none, some, List, [], ◌∷◌, ◌++◌,
  length, min, ◌==◌, get_elem?, if◌then◌else◌,
}
use hermes_channel_octo.Connection.{Connection}

-- Where a task waits: for its first turn, in the sleep with its delay, for the lifecycle lock, and
-- in the attempt to connect.
pub data Phase : Type 0 where
  queued locking connecting finished : Phase
  delaying : ℕ → Phase

pub record Reconnect : Type 0 where
  pub connection : Connection
  pub in_progress : Bool
  pub tracked : Option ℕ
  pub tasks : List Phase

abbrev pub set_phase : ℕ → Phase → List Phase → List Phase
set_phase i p [] = []
set_phase zero p (q ∷ qs) = p ∷ qs
set_phase (suc i) p (q ∷ qs) = q ∷ set_phase i p qs

-- `task.done()`.
abbrev pub is_done : Option Phase → Bool
is_done none = true
is_done (some finished) = true
is_done (some _) = false

abbrev pub has_live_task : Option ℕ → List Phase → Bool
has_live_task none ps = false
has_live_task (some i) ps = not (is_done (get_elem? ps i))

unfoldable pub spawn_reconnect_task : Reconnect → Reconnect
spawn_reconnect_task r =
    if not r.connection.need_reconnect
    then r
    else if has_live_task r.tracked r.tasks
    then r
    else record r { tracked = some (length r.tasks); tasks = r.tasks ++ queued ∷ [] }

abbrev pub cleared : ℕ → Option ℕ → Option ℕ
cleared i none = none
cleared i (some j) = if i == j then none else some j

-- The callback of a task that is done.
unfoldable pub clear_task : ℕ → Reconnect → Reconnect
clear_task i r = record r { tracked = cleared i r.tracked }

abbrev pub goes_on : ℕ → Phase → Reconnect → Reconnect
goes_on i p r = record r { tasks = set_phase i p r.tasks }

-- The `finally` of the method.
abbrev pub leaves : ℕ → Reconnect → Reconnect
leaves i r = record (goes_on i finished r) { in_progress = false }

abbrev pub delay_after : ℕ → ℕ
delay_after attempts = min (3 * 2 ^ attempts) 60

-- The method up to its sleep.
unfoldable pub begin : ℕ → Reconnect → Reconnect
begin i r =
    let c = r.connection in
    if r.in_progress
    then goes_on i finished r
    else if not c.need_reconnect
    then goes_on i finished r
    else record (goes_on i (delaying (delay_after c.reconnect_attempts)) r) {
      in_progress = true;
      connection = record c { reconnect_attempts = c.reconnect_attempts + 1 };
    }

-- From the sleep to the lock.
unfoldable pub wake : ℕ → Reconnect → Reconnect
wake i r = if not r.connection.need_reconnect then leaves i r else goes_on i locking r

-- From the lock to the attempt, which starts with no socket and an empty buffer. The closing of the
-- old socket counts as a part of it.
unfoldable pub attempt : ℕ → Reconnect → Reconnect
attempt i r =
    if not r.connection.need_reconnect then leaves i r else record (goes_on i connecting r) {
      connection = record r.connection { socket_open = false; buffer = [] };
    }

-- The attempt has raised an exception.
unfoldable pub fail : ℕ → Reconnect → Reconnect
unfolding spawn_reconnect_task clear_task
fail i r =
    if r.connection.need_reconnect
    then leaves i (spawn_reconnect_task (clear_task i (record r { in_progress = false })))
    else leaves i r

-- A task that is cancelled before its first turn never enters the method.
abbrev pub cancel : Phase → ℕ → Reconnect → Reconnect
cancel queued i r = goes_on i finished r
cancel finished i r = r
cancel _ i r = leaves i r

-- `others` is a step of other coroutines, and `forgets` is the end of the cleanup.
pub data Step : Reconnect → Reconnect → Type 0 where
  others : {r : Reconnect} (c : Connection) → Step r (record r { connection = c })
  forgets : {r : Reconnect} → Step r (record r { tracked = none })
  spawns : {r : Reconnect} → Step r (spawn_reconnect_task r)
  clears : {r : Reconnect} (i : ℕ) → get_elem? r.tasks i ≡ some finished → Step r (clear_task i r)
  begins : {r : Reconnect} (i : ℕ) → get_elem? r.tasks i ≡ some queued → Step r (begin i r)
  wakes :
      {r : Reconnect} (i : ℕ) (delay : ℕ)
      → get_elem? r.tasks i ≡ some (delaying delay)
      → Step r (wake i r)
  attempts : {r : Reconnect} (i : ℕ) → get_elem? r.tasks i ≡ some locking → Step r (attempt i r)
  connects : {r : Reconnect} (i : ℕ) → get_elem? r.tasks i ≡ some connecting → Step r (leaves i r)
  fails : {r : Reconnect} (i : ℕ) → get_elem? r.tasks i ≡ some connecting → Step r (fail i r)
  cancels :
      {r : Reconnect} (i : ℕ) (p : Phase) → get_elem? r.tasks i ≡ some p → Step r (cancel p i r)

abbrev pub no_tasks : Connection → Reconnect
no_tasks c = record { connection = c; in_progress = false; tracked = none; tasks = [] }

pub data Reach (c : Connection) : Reconnect → Type 0 where
  starts : Reach c (no_tasks c)
  then_step : {r s : Reconnect} → Reach c r → Step r s → Reach c s
