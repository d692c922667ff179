-- ===== src/Events/Synced.antt =====
-- The cursor file of `EventPoller` set against its fields, through each of its methods.
use hermes_channel_octo.Prelude.{
  Bool-cases, Option-cases, inl, inr, ℕ, zero, suc, ◌+◌, ◌≤◌, ◌≡◌, refl, Bool, true, false, Option,
  none, some, List, [], ◌∷◌, arith,
}
use hermes_channel_octo.Events.Poller.{
  Outside, Poller, Event, pure, gets, modify, next_call, ◌>>=◌, save, ack_loop, forget_pending,
  after_ack, flush_event, flush_pending_ack, handle_event, process, should_ack, ack_attempts,
  RawEvent,
}
use hermes_channel_octo.Events.Poll.{
  newer, sort_events, fetch_events, poll_events, poll_body, recover, poll_once,
}
use hermes_channel_octo.Events.Ensures.{
  Outcome, Ensures, continue-Outcome, Ensures-bind, Ensures-if, Keeps-Ensures, Ensures-Keeps,
}
use hermes_channel_octo.Events.Order.{
  IsSorted, AllFrom-has, newer-AllFrom, sort_events-has, sort_events-IsSorted,
}
use hermes_channel_octo.Events.Frame.{is_handled, flush_pending_ack-IsAt}
use hermes_channel_octo.Events.Keeps.{Keeps, Keeps-continue, Keeps-bind, keeps_rules}
use hermes_channel_octo.Events.Saved.{
  AllLe-cons, IsSynced, IsAhead, IsInHand, called-IsSynced, save-IsWritten, advance-IsAhead,
}

module _ (o : Outside) (least : ℕ) where
  forgotten :
      (p : Poller)
      → IsSynced least p
      → IsSynced least (record p { pending_ack = none; flush_failures = 0 })
  forgotten p h = ground arith

  forget_pending-IsSynced : Keeps (IsSynced least) (forget_pending o)
  unfolding forget_pending ◌>>=◌ modify gets pure
  forget_pending-IsSynced = Ensures-Keeps _ (record {
    at = λ p h.
        continue-Outcome _ (save o p.cursor none p)
          (λ done. record { at = λ q w. forgotten q w.synced })
          (save-IsWritten o least p.cursor none p (omega arith) (ground arith) h);
  })

  ack_loop-IsSynced :
      (k i : ℕ) (p : Poller) → i ≤ p.cursor → IsSynced least p → IsSynced least (ack_loop o k i p).1
  unfolding ack_loop
  ack_loop-IsSynced zero i p le h = h
  ack_loop-IsSynced (suc k) i p le h = ground (
    arith,
    ack_loop-IsSynced k i (record p { calls = p.calls + 1 }) le,
    AllLe-cons p.cursor i p.acked,
  )

  count_failure-IsSynced :
      Keeps (IsSynced least) (modify λ p. record p { flush_failures = p.flush_failures + 1 })
  unfolding modify
  count_failure-IsSynced = record { at = λ p h. ground arith }

  reset_failures-IsSynced : Keeps (IsSynced least) (modify λ p. record p { flush_failures = 0 })
  unfolding modify
  reset_failures-IsSynced = record { at = λ p h. ground arith }

  reset_errors-IsSynced : Keeps (IsSynced least) (modify λ p. record p { consecutive_errors = 0 })
  unfolding modify
  reset_errors-IsSynced = record { at = λ p h. ground arith }

  next_call-IsSynced : Keeps (IsSynced least) next_call
  unfolding next_call
  next_call-IsSynced = record { at = λ p h. ground arith }

  after_ack-IsSynced : (acked : Bool) → Keeps (IsSynced least) (after_ack o acked)
  after_ack-IsSynced true = forget_pending-IsSynced
  after_ack-IsSynced false = search (keeps_rules, count_failure-IsSynced, forget_pending-IsSynced)

  pending_behind : (i : ℕ) (p : Poller) → p.pending_ack ≡ some i → IsSynced least p → i ≤ p.cursor
  pending_behind i p e h = ground arith

  flush_event-IsSynced :
      (pending : Option ℕ) (p : Poller)
      → p.pending_ack ≡ pending
      → IsSynced least p
      → IsSynced least (flush_event o pending p).1
  unfolding ◌>>=◌
  flush_event-IsSynced none p e h =
      let keeps : Keeps (IsSynced least) (flush_event o none) =
        search (keeps_rules, reset_failures-IsSynced) in
      keeps.at p h
  flush_event-IsSynced (some i) p e h =
      Keeps-continue (after_ack o) (ack_loop o ack_attempts i p) after_ack-IsSynced
        (ack_loop-IsSynced ack_attempts i p (pending_behind i p e h) h)

  flush_pending_ack-IsSynced : Keeps (IsSynced least) (flush_pending_ack o)
  unfolding flush_pending_ack ◌>>=◌ gets
  flush_pending_ack-IsSynced = record { at = λ p h. flush_event-IsSynced p.pending_ack p refl h }

  handle_event-IsSynced : (e : Event) → Keeps (IsSynced least) (handle_event o e)
  unfolding handle_event
  handle_event-IsSynced e = record { at = λ p h. ground arith }

  same-IsAhead :
      {A : Type 0} (es : List Event) (p : Poller) (x : Option A × Poller)
      → IsAhead least es p
      → IsSynced least x.1
      → x.1.cursor ≡ p.cursor
      → Outcome (λ a. IsAhead least es) (IsSynced least) x
  same-IsAhead es p (none, q) h s e = s
  same-IsAhead es p (some a, q) h s e = record { synced = s; ahead = λ i k. rw e (h.ahead i k) }

  handle_event-cursor : (e : Event) (p : Poller) → (handle_event o e p).1.cursor ≡ p.cursor
  unfolding handle_event
  handle_event-cursor e p = ground arith

  handle_event-handled :
      (e : Event) (p : Poller)
      → Outcome (λ status q. is_handled q e.event_id ≡ true) (λ q. Unit) (handle_event o e p)
  unfolding handle_event
  handle_event-handled e p = elim (Bool-cases e.is_action) [
    | inr f ↦ rw f (ground arith)
    | inl t ↦ elim (Option-cases (o.handle p.calls e.event_id)) [
      | inl n ↦ rw (t, n) tt
      | inr (status, s) ↦ rw (t, s) (ground arith)
    ]
  ]

  in_hand :
      {A : Type 0} (i : ℕ) (es : List Event) (x : Option A × Poller)
      → Outcome (λ a. IsAhead least es) (IsSynced least) x
      → Outcome (λ a q. is_handled q i ≡ true) (λ q. Unit) x
      → Outcome (λ a. IsInHand least i es) (IsSynced least) x
  in_hand i es (none, q) h k = h
  in_hand i es (some a, q) h k = record { others = h; handled = k }

  handle_event-IsInHand :
      (e : Event) (es : List Event)
      → Ensures
          (IsAhead least es)
          (handle_event o e)
          (λ status. IsInHand least e.event_id es)
          (IsSynced least)
  handle_event-IsInHand e es = record {
    at = λ p h.
        in_hand e.event_id es (handle_event o e p)
          (same-IsAhead es p (handle_event o e p) h ((handle_event-IsSynced e).at p h.synced)
            (handle_event-cursor e p))
          (handle_event-handled e p);
  }

  flush-IsAhead :
      (es : List Event)
      → Ensures
          (IsAhead least es)
          (flush_pending_ack o)
          (λ flushed. IsAhead least es)
          (IsSynced least)
  flush-IsAhead es = record {
    at = λ p h.
        same-IsAhead es p (flush_pending_ack o p) h (flush_pending_ack-IsSynced.at p h.synced)
          ((flush_pending_ack-IsAt o).at p
            (record { at_cursor = refl; at_handled = refl })).at_cursor;
  }

  go_on-IsAhead :
      (es : List Event) (b : Bool)
      → Ensures (IsAhead least es) (pure b) (λ flushed. IsAhead least es) (IsSynced least)
  unfolding pure
  go_on-IsAhead es b = record { at = λ p h. h }

  stop-IsSynced :
      (es : List Event) (b : Bool)
      → Ensures (IsAhead least es) (pure b) (λ failed. IsSynced least) (IsSynced least)
  unfolding pure
  stop-IsSynced es b = record { at = λ p h. h.synced }

  process-IsSynced :
      (es : List Event)
      → IsSorted es
      → Ensures (IsAhead least es) (process o es) (λ failed. IsSynced least) (IsSynced least)
  unfolding process
  process-IsSynced [] h = stop-IsSynced [] false
  process-IsSynced (e ∷ es) (all, h) =
      Ensures-bind _ _ (handle_event-IsInHand e (e ∷ es)) (λ status.
        Ensures-bind _ _ (advance-IsAhead o least e es _ all) (λ done.
          Ensures-bind _ _
            (Ensures-if (should_ack o status) _ _ (flush-IsAhead es) (go_on-IsAhead es true))
            (λ flushed. Ensures-if flushed _ _ (process-IsSynced es h) (stop-IsSynced es true))))

  -- The cursor is still the one that was read.
  record IsFrom (cursor : ℕ) (p : Poller) : Type 0 where
    synced : IsSynced least p
    same : p.cursor ≡ cursor

  newer-IsAhead :
      (cursor : ℕ) (events : List RawEvent) (p : Poller)
      → IsFrom cursor p
      → IsAhead least (sort_events (newer cursor events)) p
  newer-IsAhead cursor events p h = record {
    synced = h.synced;
    ahead = λ i k.
        let later =
          AllFrom-has (cursor + 1) i (newer cursor events) (newer-AllFrom cursor events)
            (rw⁻¹ (sort_events-has i (newer cursor events)) k) in
        omega (arith, h.same);
  }

  -- A batch that can be processed.
  record IsReady (es : List Event) (p : Poller) : Type 0 where
    ahead : IsAhead least es p
    sorted : IsSorted es

  process-IsReady :
      (es : List Event)
      → Ensures (IsReady es) (process o es) (λ failed. IsSynced least) (IsSynced least)
  process-IsReady es = record { at = λ p h. (process-IsSynced es h.sorted).at p h.ahead }

  read_cursor :
      Ensures (IsSynced least) (gets λ p. p.cursor) (λ cursor. IsFrom cursor) (IsSynced least)
  unfolding gets
  read_cursor = record { at = λ p h. record { synced = h; same = refl } }

  fetched :
      (cursor calls : ℕ) (events : Option (List RawEvent)) (p : Poller)
      → IsFrom cursor p
      → Outcome (λ events. IsFrom cursor) (IsSynced least) (events, record p { calls = calls })
  fetched cursor calls none p h = called-IsSynced o least calls p h.synced
  fetched cursor calls (some events) p h = record {
    synced = called-IsSynced o least calls p h.synced;
    same = h.same;
  }

  fetch_events-IsFrom :
      (cursor : ℕ)
      → Ensures (IsFrom cursor) (fetch_events o) (λ events. IsFrom cursor) (IsSynced least)
  unfolding fetch_events
  fetch_events-IsFrom cursor = record {
    at = λ p h. fetched cursor (p.calls + 1) (o.fetch p.calls) p h;
  }

  order_events :
      (cursor : ℕ) (events : List RawEvent)
      → Ensures (IsFrom cursor) (pure (sort_events (newer cursor events))) IsReady (IsSynced least)
  unfolding pure
  order_events cursor events = record {
    at = λ p h. record {
      ahead = newer-IsAhead cursor events p h;
      sorted = sort_events-IsSorted (newer cursor events);
    };
  }

  poll_events-IsSynced : Keeps (IsSynced least) (poll_events o)
  unfolding poll_events
  poll_events-IsSynced = Ensures-Keeps _ (
      Ensures-bind _ _ read_cursor (λ cursor.
        Ensures-bind _ _ (fetch_events-IsFrom cursor) (λ events.
          Ensures-bind _ _ (order_events cursor events) (λ ordered.
            Ensures-bind _ _ (process-IsReady ordered) (λ failed. Keeps-Ensures _ (
              Keeps-bind _ _ reset_errors-IsSynced
                (λ done. search (keeps_rules, next_call-IsSynced))))))))

  poll_body-IsSynced : Keeps (IsSynced least) (poll_body o)
  unfolding poll_body
  poll_body-IsSynced =
      Keeps-bind _ _ flush_pending_ack-IsSynced
        (λ flushed. search (keeps_rules, poll_events-IsSynced, reset_errors-IsSynced))

  recover-IsSynced : (x : Option ℕ × Poller) → IsSynced least x.1 → IsSynced least (recover o x).1
  recover-IsSynced (some pause, p) h = h
  recover-IsSynced (none, p) h = ground arith

  -- Take a poller whose file is not behind its cursor, and is ahead of it only at an event that has
  -- been handled, neither a pending nor an acknowledged event being ahead of the cursor. Whatever the
  -- server, the disk and the handler answer, a poll leaves it so, and does not move the cursor back:
  -- also where the file can not be read, is not written, or is replaced by a call that raises.
  pub poll_once-IsSynced : (p : Poller) → IsSynced least p → IsSynced least (poll_once o p).1
  unfolding poll_once
  poll_once-IsSynced p h = recover-IsSynced (poll_body o p) (poll_body-IsSynced.at p h)
