-- ===== src/Tests/Reconnecting.antt =====
-- The reconnection of a concrete connection.
use hermes_channel_octo.Prelude.{◌≡◌, refl, true, false, [], ◌∷◌, if◌then◌else◌}
use hermes_channel_octo.Connection.{Connection}
use hermes_channel_octo.Connection.Reconnect.{
  Reconnect, has_live_task, spawn_reconnect_task, clear_task, begin, wake, attempt, fail, spawns,
  begins, wakes, attempts, fails, Reach, starts, then_step, no_tasks,
}
use hermes_channel_octo.Connection.Reconnect.Weights.{under_way}
use hermes_channel_octo.Connection.Reconnect.Exclusive.{Reach-under_way}
use hermes_channel_octo.Connection.Reconnect.Retried.{fail-tracked}

-- A connection that was lost after an attempt.
abbrev lost : Connection
lost = record {
  connected = false;
  socket_open = false;
  buffer = 112 ∷ [];
  ping_retry_count = 0;
  ping_max_retry = 3;
  heartbeat_running = false;
  need_reconnect = true;
  reconnect_scheduled = false;
  reconnect_attempts = 1;
  aes_iv = [];
  server_version = 4;
  writes = 0;
  sent = [];
  received = [];
}

-- An attempt of the first task has failed, and a second one has begun.
abbrev trying : Reconnect
trying = attempt 0 (wake 0 (begin 0 (spawn_reconnect_task (no_tasks lost))))

abbrev retrying : Reconnect
retrying = begin 1 (fail 0 trying)

trying-Reach : Reach lost trying
unfolding spawn_reconnect_task begin wake attempt
trying-Reach =
    then_step (then_step (then_step (then_step starts spawns) (begins 0 refl)) (wakes 0 6 refl))
      (attempts 0 refl)

retrying-Reach : Reach lost retrying
unfolding spawn_reconnect_task clear_task begin wake attempt fail
retrying-Reach = then_step (then_step trying-Reach (fails 0 refl)) (begins 1 refl)

Reach-under_way_example : under_way retrying.tasks ≡ (if retrying.in_progress then 1 else 0)
Reach-under_way_example = Reach-under_way lost retrying retrying-Reach

retrying-in_progress : retrying.in_progress ≡ true
unfolding spawn_reconnect_task clear_task begin wake attempt fail
retrying-in_progress = refl

fail-tracked_example : has_live_task (fail 0 trying).tracked (fail 0 trying).tasks ≡ true
unfolding spawn_reconnect_task begin wake attempt
fail-tracked_example = fail-tracked 0 trying refl refl
