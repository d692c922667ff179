-- ===== src/Events/Poller.antt =====
-- `EventPoller` and `FileEventCursorStore` of card_events.py. Times are milliseconds. What the poller
-- asks of the server, of the disk and of the handler is answered by `Outside`, call by call. The
-- sleeps between the attempts of an acknowledgement, and what is only logged, are left out.
use hermes_channel_octo.Prelude.{
  ℕ, zero, suc, ◌+◌, ◌-◌, ◌^◌, Bool, true, false, ◌&&◌, Option, none, some, List, [], ◌∷◌, ltb, leb,
  if◌then◌else◌,
}

abbrev pub max_safe_event_id : ℕ
max_safe_event_id = 2 ^ 53 - 1

abbrev pub max_event_backoff : ℕ
max_event_backoff = 30000

abbrev pub ack_attempts : ℕ
ack_attempts = 3

abbrev pub max_pending_ack_flush_failures : ℕ
max_pending_ack_flush_failures = 3

-- What the handler of a card action may answer.
pub data Status : Type 0 where
  completed awaiting_text expired failed dead_letter invalid duplicate unsupported missing ignored :
      Status
  other_status : Status

abbrev pub is_acked : Status → Bool
is_acked missing = false
is_acked ignored = false
is_acked other_status = false
is_acked _ = true

-- An element of a batch: one with no usable id, or an event with its id, and whether it parses as a
-- card action.
pub data RawEvent : Type 0 where
  unusable : RawEvent
  raw_event : ℕ → Bool → RawEvent

pub record Event : Type 0 where
  pub event_id : ℕ
  pub is_action : Bool

-- The outcome of the writing of the cursor file, which is replaced as a whole: it may keep what it
-- has, or be replaced, and the latter also where the directory can then not be synced and the call
-- raises.
pub data Written : Type 0 where
  kept replaced replaced_raising : Written

-- The answers from outside to the call with a number. none is an exception, and a file that can not
-- be read is false.
pub record Outside : Type 0 where
  pub fetch : ℕ → Option (List RawEvent)
  pub ack : ℕ → Bool
  pub handle : ℕ → ℕ → Option Status
  pub read : ℕ → Bool
  pub write : ℕ → Written
  pub elapsed : ℕ → ℕ

-- The cursor file. One that is missing counts as one of the number 0.
pub record Stored : Type 0 where
  pub event_id : ℕ
  pub pending_ack : Option ℕ

-- The poller, its file, and what the outside has seen: the number of calls, the events that the
-- handler has answered or that were seen to be no card action, and those that were acknowledged,
-- the latest first.
pub record Poller : Type 0 where
  pub interval : ℕ
  pub wait : ℕ
  pub cursor : ℕ
  pub pending_ack : Option ℕ
  pub consecutive_errors : ℕ
  pub flush_failures : ℕ
  pub stored : Stored
  pub calls : ℕ
  pub handled : List ℕ
  pub acked : List ℕ

-- A method: none is an exception, with the state that it leaves.
abbrev pub Act : Type 0 → Type 0
Act A = Poller → Option A × Poller

unfoldable pub pure : {A : Type 0} → A → Act A
pure a p = (some a, p)

unfoldable pub raise : {A : Type 0} → Act A
raise p = (none, p)

unfoldable pub gets : {A : Type 0} → (Poller → A) → Act A
gets f p = (some (f p), p)

unfoldable pub modify : (Poller → Poller) → Act (Unit {0})
modify f p = (some tt, f p)

abbrev pub continue : {A B : Type 0} → (A → Act B) → Option A × Poller → Option B × Poller
continue f (none, p) = (none, p)
continue f (some a, p) = f a p

infixl 10 ◌>>=◌ ◌>>◌
unfoldable pub ◌>>=◌ : {A B : Type 0} → Act A → (A → Act B) → Act B
◌>>=◌ m f p = continue f (m p)

abbrev pub ◌>>◌ : {A B : Type 0} → Act A → Act B → Act B
m >> n = m >>= λ _. n

-- The number of the next call outside.
unfoldable pub next_call : Act ℕ
next_call p = (some p.calls, record p { calls = p.calls + 1 })

abbrev pub is_safe : ℕ → Bool
is_safe event_id = leb event_id max_safe_event_id

abbrev pub pending_fits : Option ℕ → ℕ → Bool
pending_fits none event_id = true
pending_fits (some pending) event_id = is_safe pending && leb pending event_id

-- A file whose id is no safe number counts as empty, and a pending acknowledgement that is none, or
-- is ahead of the cursor, is dropped.
abbrev pub readable : Stored → Stored
readable s =
    if is_safe s.event_id
    then record s {
      pending_ack = if pending_fits s.pending_ack s.event_id then s.pending_ack else none;
    }
    else record { event_id = 0; pending_ack = none }

-- `_read_state_unlocked`, where a file that can not be read counts as empty.
abbrev pub read_state : Bool → Stored → Stored
read_state true s = readable s
read_state false s = record { event_id = 0; pending_ack = none }

abbrev pub write_state : Stored → Written → Act (Unit {0})
write_state s kept p = (none, p)
write_state s replaced p = (some tt, record p { stored = s })
write_state s replaced_raising p = (none, record p { stored = s })

module _ (o : Outside) where
  -- `_save_sync`: the comparison with what the file holds, and the write.
  abbrev pub save_sync : ℕ → Option ℕ → Act (Unit {0})
  save_sync event_id pending p =
      if leb (read_state (o.read p.calls) p.stored).event_id event_id
      then write_state (record { event_id = event_id; pending_ack = pending })
          (o.write (p.calls + 1)) (record p { calls = p.calls + 2 })
      else (none, record p { calls = p.calls + 1 })

  -- `save` of the cursor store.
  unfoldable pub save : ℕ → Option ℕ → Act (Unit {0})
  save event_id pending p =
      if is_safe event_id && pending_fits pending event_id
      then save_sync event_id pending p
      else (none, p)

  -- The calls of `_ack`.
  unfoldable pub ack_loop : ℕ → ℕ → Act Bool
  ack_loop zero event_id p = (some false, p)
  ack_loop (suc attempts) event_id p =
      let again = ack_loop attempts event_id (record p { calls = p.calls + 1 }) in
      if o.ack p.calls
      then (some true, record p { calls = p.calls + 1; acked = event_id ∷ p.acked })
      else again

  -- `save(self._cursor)`, and no acknowledgement is pending any more.
  unfoldable pub forget_pending : Act Bool
  forget_pending = do
    cursor ← gets (λ p. p.cursor)
    save cursor none
    modify (λ p. record p { pending_ack = none; flush_failures = 0 })
    pure true

  abbrev pub after_ack : Bool → Act Bool
  after_ack true = forget_pending
  after_ack false = do
    modify (λ p. record p { flush_failures = p.flush_failures + 1 })
    failures ← gets (λ p. p.flush_failures)
    if ltb failures max_pending_ack_flush_failures then pure false else forget_pending

  abbrev pub flush_event : Option ℕ → Act Bool
  flush_event none = do modify (λ p. record p { flush_failures = 0 }); pure true
  flush_event (some event_id) = do done ← ack_loop ack_attempts event_id; after_ack done

  unfoldable pub flush_pending_ack : Act Bool
  flush_pending_ack = do pending ← gets (λ p. p.pending_ack); flush_event pending

  -- The handler's answer to an event that is a card action.
  unfoldable pub handle_event : Event → Act (Option Status)
  handle_event e p =
      if e.is_action
      then elim (o.handle p.calls e.event_id) [
        | none ↦ (none, record p { calls = p.calls + 1 })
        | some status ↦
            (some (some status), record p { calls = p.calls + 1; handled = e.event_id ∷ p.handled })
      ]
      else (some none, record p { handled = e.event_id ∷ p.handled })

  abbrev pub should_ack : Option Status → Bool
  should_ack none = false
  should_ack (some status) = is_acked status

  -- The file first, and then the fields.
  unfoldable pub advance : ℕ → Option ℕ → Act (Unit {0})
  advance event_id pending = do
    save event_id pending
    modify (λ p. record p { cursor = event_id; pending_ack = pending })

  -- The loop over a batch; true where an acknowledgement failed and ended it.
  unfoldable pub process : List Event → Act Bool
  process [] = pure false
  process (e ∷ es) = do
    status ← handle_event e
    advance e.event_id (if should_ack status then some e.event_id else none)
    flushed ← if should_ack status then flush_pending_ack else pure true
    if flushed then process es else pure true
