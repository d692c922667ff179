-- ===== src/Events/Restart.antt =====
-- Starting again over the cursor file, and the delays after errors.
use hermes_channel_octo.Prelude.{ℕ, ◌-◌, ◌*◌, ◌^◌, ◌≤◌, ◌≡◌, Bool, true, refl, arith, min}
use native.Mathlib.Nat.{pow-le-pow_right, mul-le-mul}
use hermes_channel_octo.Events.Poller.{Outside, Stored, readable, Poller, max_event_backoff}
use hermes_channel_octo.Events.Poll.{backoff, initialize, poll_once}
use hermes_channel_octo.Events.Saved.{IsSynced, AllLe-nil, is_reached}
use hermes_channel_octo.Events.Synced.{poll_once-IsSynced}

-- A poller that starts over a file, and can read its cursor, is in step with what the file holds.
pub initialize-IsSynced :
    (interval seconds : ℕ) (read_pending : Bool) (s : Stored)
    → IsSynced 0 (initialize interval seconds true read_pending s)
unfolding initialize
initialize-IsSynced interval seconds read_pending s =
    ground (arith, AllLe-nil s.event_id, AllLe-nil 0)

restarted :
    (interval seconds : ℕ) (read_pending : Bool) (s : Stored)
    → (initialize interval seconds true read_pending s).cursor ≡ (readable s).event_id
unfolding initialize
restarted interval seconds read_pending s = refl

-- A stop between two polls sets nothing back, and skips to no event that nobody has handled. The
-- poller that starts over the file after a poll, and can read its cursor, has the cursor of the
-- poller that stopped, or that of a later event which that poller had handled; and its polls keep
-- this in turn. Nor is the cursor of the poller that stopped behind where that poll began. Then, its
-- file was not behind its cursor, and ahead of it only at an event that it had handled.
pub restart_after_poll :
    (o : Outside) (interval seconds : ℕ) (read_pending : Bool) (p : Poller)
    → IsSynced 0 p
    → let after = (poll_once o p).1 in
      let again = initialize interval seconds true read_pending after.stored in
      (p.cursor ≤ after.cursor)
      × (after.cursor ≤ again.cursor)
      × (is_reached again.cursor after ≡ true)
      × IsSynced 0 again
restart_after_poll o interval seconds read_pending p h =
    let from_here : IsSynced p.cursor p = ground arith in
    let after = poll_once-IsSynced o p.cursor p from_here in
    let stored = (poll_once o p).1.stored in
    (
      after.forward,
      rw (restarted interval seconds read_pending stored) after.file,
      rw (restarted interval seconds read_pending stored) after.reached,
      initialize-IsSynced interval seconds read_pending stored,
    )

-- The delay after errors does not shrink as errors follow each other, and it is at most 30 seconds.
pub backoff_mono :
    (interval a b : ℕ)
    → a ≤ b
    → (backoff interval a ≤ backoff interval b) × (backoff interval b ≤ max_event_backoff)
unfolding backoff
backoff_mono interval a b h =
    let low = min (a - 1) 30 in
    let high = min (b - 1) 30 in
    let le : low ≤ high = omega arith in
    let scaled : interval * 2 ^ low ≤ interval * 2 ^ high =
      mul-le-mul (omega arith) (pow-le-pow_right (omega arith) le) in
    ground arith
