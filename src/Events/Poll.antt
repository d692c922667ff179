-- ===== src/Events/Poll.antt =====
-- `poll_once` and `initialize` of `EventPoller`.
use hermes_channel_octo.Prelude.{
  ℕ, ◌+◌, ◌-◌, ◌*◌, ◌^◌, Bool, ◌&&◌, ◌||◌, Option, none, some, List, [], ◌∷◌, min, max, ltb, leb,
  ◌==◌, if◌then◌else◌,
}
use hermes_channel_octo.Prelude.Text.{nonempty}
use hermes_channel_octo.Events.Poller.{
  Outside, Stored, Poller, Act, RawEvent, unusable, raw_event, Event, pure, gets, modify, next_call,
  ◌>>=◌, ◌>>◌, is_safe, pending_fits, read_state, flush_pending_ack, process, max_event_backoff,
}

-- The usable events behind the cursor.
unfoldable pub newer : ℕ → List RawEvent → List Event
newer cursor [] = []
newer cursor (unusable ∷ es) = newer cursor es
newer cursor (raw_event id action ∷ es) =
    let rest = newer cursor es in
    if is_safe id && ltb cursor id
    then record { event_id = id; is_action = action } ∷ rest
    else rest

-- `sorted` by the id, which keeps the order of equal ones.
unfoldable pub insert_event : Event → List Event → List Event
insert_event e [] = e ∷ []
insert_event e (x ∷ xs) = if leb e.event_id x.event_id then e ∷ x ∷ xs else x ∷ insert_event e xs

unfoldable pub sort_events : List Event → List Event
unfolding insert_event
sort_events [] = []
sort_events (e ∷ es) = insert_event e (sort_events es)

-- The exponential delay after so many errors in a row.
unfoldable pub backoff : ℕ → ℕ → ℕ
backoff interval errors = min max_event_backoff (interval * 2 ^ (min (errors - 1) 30))

module _ (o : Outside) where
  unfoldable pub fetch_events : Act (List RawEvent)
  fetch_events p = (o.fetch p.calls, record p { calls = p.calls + 1 })

  -- The pause after a poll with no error.
  abbrev pub pause_after : Bool → Bool → ℕ → Poller → ℕ
  pause_after ack_failed some_events elapsed p =
      if ack_failed || p.wait == 0
      then p.interval
      else if some_events
      then 0
      else if ltb (elapsed * 2) p.wait
      then p.interval
      else 0

  -- The rest of the `try` block, once the pending acknowledgement is out of the way.
  unfoldable pub poll_events : Act ℕ
  poll_events = do
    cursor ← gets (λ p. p.cursor)
    events ← fetch_events
    ordered ← pure (sort_events (newer cursor events))
    ack_failed ← process o ordered
    modify (λ p. record p { consecutive_errors = 0 })
    n ← next_call
    gets (pause_after ack_failed (nonempty ordered) (o.elapsed n))

  abbrev pub unflushed : Act ℕ
  unflushed = do modify (λ p. record p { consecutive_errors = 0 }); gets (λ p. p.interval)

  unfoldable pub poll_body : Act ℕ
  poll_body = do flushed ← flush_pending_ack o; if flushed then poll_events else unflushed

  -- `except Exception`: one more error, and its pause.
  abbrev pub recover : Option ℕ × Poller → ℕ × Poller
  recover (some pause, p) = (pause, p)
  recover (none, p) =
      let errors = p.consecutive_errors + 1 in
      (backoff p.interval errors, record p { consecutive_errors = errors })

  unfoldable pub poll_once : Poller → ℕ × Poller
  poll_once p = recover (poll_body p)

-- The constructor's bounds, the wait in seconds.
abbrev pub bounded_interval : ℕ → ℕ
bounded_interval interval = max 500 interval

abbrev pub bounded_wait : ℕ → ℕ
bounded_wait seconds = if ltb 0 seconds then min 30 (max 5 seconds) * 1000 else 0

-- A poller that starts over the file, which it reads twice: for its cursor, and for the pending
-- acknowledgement.
unfoldable pub initialize : ℕ → ℕ → Bool → Bool → Stored → Poller
initialize interval seconds read_cursor read_pending stored =
    let cursor = (read_state read_cursor stored).event_id in
    let pending = (read_state read_pending stored).pending_ack in
    record {
      interval = bounded_interval interval;
      wait = bounded_wait seconds;
      cursor = cursor;
      pending_ack = if pending_fits pending cursor then pending else none;
      consecutive_errors = 0;
      flush_failures = 0;
      stored = stored;
      calls = 0;
      handled = [];
      acked = [];
    }
