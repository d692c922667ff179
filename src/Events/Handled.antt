-- ===== src/Events/Handled.antt =====
-- The cursor of `EventPoller` set against the events that it has handled.
use hermes_channel_octo.Prelude.{
  ℕ, ◌+◌, ◌≤◌, ◌<◌, ◌≡◌, refl, Bool, true, false, ◌&&◌, ◌⊎◌, inl, inr, Option, none, some, List, [],
  ◌∷◌, arith, leb, Bool-cases, Option-cases,
}
use mathlib.Core.List.{Memᴰ}
use hermes_channel_octo.Prelude.Text.{nonempty}
use hermes_channel_octo.Events.Poller.{
  Outside, Written, kept, replaced, replaced_raising, read_state, write_state, Stored, Poller,
  RawEvent, raw_event, Event, pure, gets, modify, next_call, continue, ◌>>=◌, ◌>>◌, is_safe,
  pending_fits, save, flush_pending_ack, handle_event, should_ack, advance, process,
}
use hermes_channel_octo.Events.Poll.{
  newer, sort_events, fetch_events, pause_after, poll_events, poll_body, recover, poll_once,
}
use hermes_channel_octo.Events.Order.{
  has, AllFrom, IsSorted, AllFrom-has, newer-AllFrom, newer_complete, sort_events-has,
  sort_events-IsSorted,
}
use hermes_channel_octo.Events.Ensures.{Outcome, Ensures, Ensures-bind, Ensures-if}
use hermes_channel_octo.Events.Frame.{is_handled, IsAt, flush_pending_ack-IsAt}

-- Of the events of the batch, those up to the cursor are handled.
pub record IsDone (batch : List Event) (p : Poller) : Type 0 where
  pub done : (i : ℕ) → has i batch ≡ true → i ≤ p.cursor → is_handled p i ≡ true

-- And those that are not among the rest are handled too.
record IsLeft (batch es : List Event) (p : Poller) : Type 0 where
  so_far : IsDone batch p
  left : (i : ℕ) → has i batch ≡ true → (is_handled p i ≡ true) ⊎ (has i es ≡ true)

-- And so is the event in hand.
record InHand (batch es : List Event) (event_id : ℕ) (p : Poller) : Type 0 where
  others : IsLeft batch es p
  current : is_handled p event_id ≡ true

IsDone-frame :
    {batch : List Event} (p q : Poller)
    → IsAt p.cursor p.handled q
    → IsDone batch p
    → IsDone batch q
IsDone-frame p q f h = record {
  done = λ i m le. ground (arith, f.at_handled, f.at_cursor, h.done i m);
}

IsLeft-frame :
    {batch es : List Event} (p q : Poller)
    → IsAt p.cursor p.handled q
    → IsLeft batch es p
    → IsLeft batch es q
IsLeft-frame p q f h = record {
  so_far = IsDone-frame p q f h.so_far;
  left = λ i m. ground (arith, f.at_handled, h.left i m);
}

module _ (o : Outside) (batch : List Event) where
  -- The event is handled, and nothing else has changed.
  in_hand :
      (e : Event) (es : List Event) (calls : ℕ) (p : Poller)
      → IsLeft batch (e ∷ es) p
      → InHand batch es e.event_id (record p { calls = calls; handled = e.event_id ∷ p.handled })
  in_hand e es calls p h = record {
    others = record {
      so_far = record { done = λ i m le. ground (arith, h.so_far.done i m) };
      left = λ i m. ground (arith, h.left i m);
    };
    current = ground arith;
  }

  handle_event-IsLeft :
      (e : Event) (es : List Event)
      → Ensures
          (IsLeft batch (e ∷ es))
          (handle_event o e)
          (λ status. InHand batch es e.event_id)
          (IsDone batch)
  unfolding handle_event
  handle_event-IsLeft e es = record {
    at = λ p h. elim (Bool-cases e.is_action) [
      | inl t ↦ elim (Option-cases (o.handle p.calls e.event_id)) [
        | inl n ↦
            rw (t, n)
              (IsDone-frame p (record p { calls = p.calls + 1 })
                (record { at_cursor = refl; at_handled = refl }) h.so_far)
        | inr (status, s) ↦ rw (t, s) (in_hand e es (p.calls + 1) p h)
      ]
      | inr f ↦ rw f (in_hand e es p.calls p h)
    ];
  }

  advanced :
      (e : Event) (es : List Event) (pending : Option ℕ) (p : Poller)
      → AllFrom e.event_id es
      → InHand batch es e.event_id p
      → IsLeft batch es (record p { cursor = e.event_id; pending_ack = pending })
  advanced e es pending p all h = record {
    so_far = record {
      done = λ i m le. elim (h.others.left i m) [
        | inl t ↦ t
        | inr t ↦
            let ge : e.event_id ≤ i = AllFrom-has e.event_id i es all t in ground (arith, h.current)
      ];
    };
    left = λ i m. h.others.left i m;
  }

  saved :
      (es : List Event) (i : ℕ) (stored : Stored) (calls : ℕ) (p : Poller)
      → InHand batch es i p
      → InHand batch es i (record p { calls = calls; stored = stored })
  saved es i stored calls p h = record {
    others =
        IsLeft-frame p (record p { calls = calls; stored = stored })
          (record { at_cursor = refl; at_handled = refl }) h.others;
    current = h.current;
  }

  write_state-keeps :
      (es : List Event) (i calls : ℕ) (s : Stored) (w : Written) (p : Poller)
      → InHand batch es i p
      → Outcome
          (λ done. InHand batch es i)
          (IsDone batch)
          (write_state s w (record p { calls = calls }))
  write_state-keeps es i calls s kept p h = (saved es i p.stored calls p h).others.so_far
  write_state-keeps es i calls s replaced p h = saved es i s calls p h
  write_state-keeps es i calls s replaced_raising p h = (saved es i s calls p h).others.so_far

  save-keeps :
      (es : List Event) (i : ℕ) (pending : Option ℕ)
      → Ensures (InHand batch es i) (save o i pending) (λ done. InHand batch es i) (IsDone batch)
  unfolding save
  save-keeps es i pending = record {
    at = λ p h. elim (Bool-cases (is_safe i && pending_fits pending i)) [
      | inr t ↦ rw t h.others.so_far
      | inl t ↦ elim (Bool-cases (leb (read_state (o.read p.calls) p.stored).event_id i)) [
        | inl l ↦ rw (t, l) (write_state-keeps es i (p.calls + 2) _ (o.write (p.calls + 1)) p h)
        | inr l ↦ rw (t, l) (saved es i p.stored (p.calls + 1) p h).others.so_far
      ]
    ];
  }

  advance-IsLeft :
      (e : Event) (es : List Event) (pending : Option ℕ)
      → AllFrom e.event_id es
      → Ensures
          (InHand batch es e.event_id)
          (advance o e.event_id pending)
          (λ done. IsLeft batch es)
          (IsDone batch)
  unfolding advance modify
  advance-IsLeft e es pending all =
      Ensures-bind _ _ (save-keeps es e.event_id pending)
        (λ done. record { at = λ p h. advanced e es pending p all h })

  same-Outcome :
      {A : Type 0} (es : List Event) (p : Poller) (x : Option A × Poller)
      → IsLeft batch es p
      → IsAt p.cursor p.handled x.1
      → Outcome (λ a. IsLeft batch es) (IsDone batch) x
  same-Outcome es p (none, q) h f = IsDone-frame p q f h.so_far
  same-Outcome es p (some a, q) h f = IsLeft-frame p q f h

  flush_pending_ack-IsLeft :
      (es : List Event)
      → Ensures (IsLeft batch es) (flush_pending_ack o) (λ flushed. IsLeft batch es) (IsDone batch)
  flush_pending_ack-IsLeft es = record {
    at = λ p h.
        same-Outcome es p (flush_pending_ack o p) h
          ((flush_pending_ack-IsAt o).at p (record { at_cursor = refl; at_handled = refl }));
  }

  pure-IsLeft :
      (es : List Event) (b : Bool)
      → Ensures (IsLeft batch es) (pure b) (λ flushed. IsLeft batch es) (IsDone batch)
  unfolding pure
  pure-IsLeft es b = record { at = λ p h. h }

  stop-IsLeft :
      (es : List Event) (b : Bool)
      → Ensures (IsLeft batch es) (pure b) (λ flushed. IsDone batch) (IsDone batch)
  unfolding pure
  stop-IsLeft es b = record { at = λ p h. h.so_far }

  process-IsLeft :
      (es : List Event)
      → IsSorted es
      → Ensures (IsLeft batch es) (process o es) (λ failed. IsDone batch) (IsDone batch)
  unfolding process
  process-IsLeft [] h = stop-IsLeft [] false
  process-IsLeft (e ∷ es) (all, h) = Ensures-bind _ _ (handle_event-IsLeft e es) (λ status.
      Ensures-bind _ _ (advance-IsLeft e es _ all) (λ done.
        Ensures-bind _ _
          (Ensures-if (should_ack o status) _ _ (flush_pending_ack-IsLeft es) (pure-IsLeft es true))
          (λ flushed. Ensures-if flushed _ _ (process-IsLeft es h) (stop-IsLeft es true))))

  -- What follows the loop, and the handler of exceptions, change neither the cursor nor what is
  -- handled.
  after_process :
      (events : Bool) (x : Option Bool × Poller)
      → Outcome (λ failed. IsDone batch) (IsDone batch) x
      → IsDone batch
          (recover o (
            continue
              (λ failed.
                modify (λ p. record p { consecutive_errors = 0 })
                >> (next_call >>= λ n. gets (pause_after o failed events (o.elapsed n))))
              x)).1
  unfolding modify ◌>>=◌ next_call gets
  after_process events (none, p) h =
      IsDone-frame p _ (record { at_cursor = refl; at_handled = refl }) h
  after_process events (some failed, p) h =
      IsDone-frame p _ (record { at_cursor = refl; at_handled = refl }) h

initially :
    (cursor : ℕ) (events : List RawEvent) (p : Poller)
    → p.cursor ≡ cursor
    → IsLeft (sort_events (newer cursor events)) (sort_events (newer cursor events)) p
initially cursor events p e = record {
  so_far = record {
    done = λ i m le.
        let ge : cursor + 1 ≤ i =
          AllFrom-has (cursor + 1) i (newer cursor events) (newer-AllFrom cursor events)
            (rw⁻¹ (sort_events-has i (newer cursor events)) m) in
        absurd (omega arith);
  };
  left = λ i m. inr m;
}

-- If the pending acknowledgement is out of the way and the server then answers with a batch, every
-- event of the batch with a safe id behind the cursor that the poll moves the cursor to or past is
-- among the handled ones. So none is skipped, whichever later call fails.
pub poll_once-handles :
    (o : Outside) (p flushed : Poller) (events : List RawEvent) (i : ℕ) (action : Bool)
    → flush_pending_ack o p ≡ (some true, flushed)
    → o.fetch flushed.calls ≡ some events
    → Memᴰ (raw_event i action) events
    → is_safe i ≡ true
    → flushed.cursor < i
    → i ≤ (poll_once o p).1.cursor
    → is_handled (poll_once o p).1 i ≡ true
unfolding poll_once poll_body poll_events fetch_events ◌>>=◌ gets pure
poll_once-handles o p flushed events i action e f m s lt =
    let batch = sort_events (newer flushed.cursor events) in
    let handled =
      after_process o batch (nonempty batch)
        (process o batch (record flushed { calls = flushed.calls + 1 }))
        ((process-IsLeft o batch batch (sort_events-IsSorted (newer flushed.cursor events))).at _
          (initially flushed.cursor events _ refl)) in
    rw (e, f)
      (handled.done i (
        rw (sort_events-has i (newer flushed.cursor events))
          (newer_complete flushed.cursor i action events m s lt)))
