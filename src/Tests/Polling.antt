-- ===== src/Tests/Polling.antt =====
-- The poller of card_events.py at concrete files, batches and answers.
use hermes_channel_octo.Prelude.{◌≡◌, ◌≤◌, refl, true, none, some, List, [], ◌∷◌, arith}
use mathlib.Core.List.{Memᴰ}
use hermes_channel_octo.Events.Poller.{
  Outside, Stored, Poller, RawEvent, unusable, raw_event, completed, replaced, replaced_raising,
  flush_pending_ack, ◌>>=◌, gets, modify, pure, next_call, ack_loop, forget_pending, process,
  handle_event, advance, save,
}
use hermes_channel_octo.Events.Poll.{
  insert_event, sort_events, poll_once, poll_body, poll_events, fetch_events, newer, initialize,
}
use hermes_channel_octo.Events.Saved.{IsSynced, is_reached}
use hermes_channel_octo.Events.Synced.{poll_once-IsSynced}
use hermes_channel_octo.Events.Frame.{is_handled}
use hermes_channel_octo.Events.Handled.{poll_once-handles}
use hermes_channel_octo.Events.Restart.{initialize-IsSynced, restart_after_poll}

abbrev batch : List RawEvent
batch = raw_event 6 true ∷ unusable ∷ raw_event 5 true ∷ []

-- Every call succeeds, and a poll finds the batch.
abbrev outside : Outside
outside = record {
  fetch = λ n. some batch;
  ack = λ n. true;
  handle = λ n id. some completed;
  read = λ n. true;
  write = λ n. replaced;
  elapsed = λ n. 0;
}

abbrev file : Stored
file = record { event_id = 4; pending_ack = none }

abbrev started : Poller
started = record {
  interval = 2000;
  wait = 25000;
  cursor = 4;
  pending_ack = none;
  consecutive_errors = 0;
  flush_failures = 0;
  stored = file;
  calls = 0;
  handled = [];
  acked = [];
}

started-IsSynced : IsSynced 0 started
unfolding initialize
started-IsSynced = initialize-IsSynced 2000 25 true file

-- The first write replaces the file, and the call raises.
abbrev torn : Outside
torn = record outside { write = λ n. replaced_raising }

poll_once-IsSynced_example : IsSynced 0 (poll_once torn started).1
poll_once-IsSynced_example = poll_once-IsSynced torn 0 started started-IsSynced

restart_after_poll_example :
    (started.cursor ≤ (poll_once torn started).1.cursor)
    × ((poll_once torn started).1.cursor
        ≤ (initialize 2000 25 true true (poll_once torn started).1.stored).cursor)
    × (is_reached
          (initialize 2000 25 true true (poll_once torn started).1.stored).cursor
          (poll_once torn started).1
        ≡ true)
    × IsSynced 0 (initialize 2000 25 true true (poll_once torn started).1.stored)
restart_after_poll_example = restart_after_poll torn 2000 25 true started started-IsSynced

-- The file is ahead of the fields.
torn-stored :
    ((poll_once torn started).1.stored.event_id ≡ 5) × ((poll_once torn started).1.cursor ≡ 4)
unfolding flush_pending_ack ◌>>=◌ gets modify pure next_call process handle_event advance save
    ack_loop forget_pending poll_once poll_body poll_events fetch_events newer sort_events
    insert_event
torn-stored = (refl, refl)

poll_once-handles_example : is_handled (poll_once outside started).1 6 ≡ true
unfolding flush_pending_ack ◌>>=◌ gets modify pure next_call process handle_event advance save
    ack_loop forget_pending poll_once poll_body poll_events fetch_events newer sort_events
    insert_event
poll_once-handles_example =
    poll_once-handles outside started started batch 6 true refl refl (Memᴰ.head refl) refl
      (omega arith) (omega arith)
