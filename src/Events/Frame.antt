-- ===== src/Events/Frame.antt =====
-- What flushing an acknowledgement leaves as it was.
use hermes_channel_octo.Prelude.{
  ℕ, zero, suc, ◌+◌, ◌≡◌, Bool, true, false, Option, none, some, List, any, ◌==◌, arith,
}
use hermes_channel_octo.Events.Poller.{
  Outside, Poller, modify, gets, pure, ◌>>=◌, save, ack_loop, forget_pending, after_ack,
  flush_event, flush_pending_ack, ack_attempts,
}
use hermes_channel_octo.Events.Keeps.{Keeps, Keeps-continue, keeps_rules}

-- The handler has answered for the event, or it was seen to be no card action.
abbrev pub is_handled : Poller → ℕ → Bool
is_handled p i = any (λ j. i == j) p.handled

-- The cursor and the handled events.
pub record IsAt (cursor : ℕ) (handled : List ℕ) (p : Poller) : Type 0 where
  pub at_cursor : p.cursor ≡ cursor
  pub at_handled : p.handled ≡ handled

module _ (o : Outside) {cursor : ℕ} {handled : List ℕ} where
  forget_pending-IsAt : Keeps (IsAt cursor handled) (forget_pending o)
  unfolding forget_pending save ◌>>=◌ modify gets pure
  forget_pending-IsAt = record { at = λ p h. ground arith }

  ack_loop-IsAt :
      (k i : ℕ) (p : Poller) → IsAt cursor handled p → IsAt cursor handled (ack_loop o k i p).1
  unfolding ack_loop
  ack_loop-IsAt zero i p h = h
  ack_loop-IsAt (suc k) i p h = ground (arith, ack_loop-IsAt k i (record p { calls = p.calls + 1 }))

  count_failure-IsAt :
      Keeps (IsAt cursor handled) (modify λ p. record p { flush_failures = p.flush_failures + 1 })
  unfolding modify
  count_failure-IsAt = record { at = λ p h. ground arith }

  reset_failures-IsAt : Keeps (IsAt cursor handled) (modify λ p. record p { flush_failures = 0 })
  unfolding modify
  reset_failures-IsAt = record { at = λ p h. ground arith }

  after_ack-IsAt : (acked : Bool) → Keeps (IsAt cursor handled) (after_ack o acked)
  after_ack-IsAt true = forget_pending-IsAt
  after_ack-IsAt false = search (keeps_rules, count_failure-IsAt, forget_pending-IsAt)

  flush_event-IsAt : (pending : Option ℕ) → Keeps (IsAt cursor handled) (flush_event o pending)
  unfolding ◌>>=◌
  flush_event-IsAt none = search (keeps_rules, reset_failures-IsAt)
  flush_event-IsAt (some i) = record {
    at = λ p h.
        Keeps-continue (after_ack o) (ack_loop o ack_attempts i p) after_ack-IsAt
          (ack_loop-IsAt ack_attempts i p h);
  }

  pub flush_pending_ack-IsAt : Keeps (IsAt cursor handled) (flush_pending_ack o)
  unfolding flush_pending_ack
  flush_pending_ack-IsAt = search (keeps_rules, flush_event-IsAt)
