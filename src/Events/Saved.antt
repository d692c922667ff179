-- ===== src/Events/Saved.antt =====
-- What writing the cursor file keeps in step with the fields of `EventPoller`.
use hermes_channel_octo.Prelude.{
  ℕ, ◌+◌, ◌≤◌, ◌≡◌, Bool, true, ◌&&◌, ◌||◌, ◌==◌, Option, List, [], ◌∷◌, All, arith, leb,
  Bool-cases, inl, inr,
}
use hermes_channel_octo.Events.Poller.{
  Outside, Written, kept, replaced, replaced_raising, readable, read_state, write_state, Poller,
  Event, modify, ◌>>=◌, is_safe, pending_fits, save, advance,
}
use hermes_channel_octo.Events.Ensures.{Outcome, Ensures, continue-Outcome}
use hermes_channel_octo.Events.Frame.{is_handled}
use hermes_channel_octo.Events.Order.{has, AllFrom, AllFrom-has}

-- No element is greater than the bound.
pub AllLe : ℕ → List ℕ → Type 0
AllLe bound xs = All (λ i. i ≤ bound) xs

pub AllLe-cons : (bound x : ℕ) (xs : List ℕ) → x ≤ bound → AllLe bound xs → AllLe bound (x ∷ xs)
unfolding AllLe
AllLe-cons bound x xs h k = (h, k)

pub AllLe-nil : (bound : ℕ) → AllLe bound []
unfolding AllLe
AllLe-nil bound = tt

pub AllLe-mono : (a b : ℕ) (xs : List ℕ) → a ≤ b → AllLe a xs → AllLe b xs
unfolding AllLe
AllLe-mono a b [] h k = tt
AllLe-mono a b (x ∷ xs) h (k, ks) = (omega arith, AllLe-mono a b xs h ks)

-- The event is at the cursor, or has been handled.
abbrev pub is_reached : ℕ → Poller → Bool
is_reached i p = i == p.cursor || is_handled p i

-- The file is not behind the cursor, and where it is ahead, then at an event that has been handled.
-- Neither a pending nor an acknowledged event is ahead of the cursor.
-- The cursor has not moved back behind `least`.
pub record IsSynced (least : ℕ) (p : Poller) : Type 0 where
  pub file : p.cursor ≤ (readable p.stored).event_id
  pub reached : is_reached (readable p.stored).event_id p ≡ true
  pub fits : pending_fits p.pending_ack p.cursor ≡ true
  pub safe : is_safe p.cursor ≡ true
  pub covered : AllLe p.cursor p.acked
  pub forward : least ≤ p.cursor

-- The events are not behind the cursor.
pub record IsAhead (least : ℕ) (es : List Event) (p : Poller) : Type 0 where
  pub synced : IsSynced least p
  pub ahead : (i : ℕ) → has i es ≡ true → p.cursor ≤ i

-- And the one in hand is handled.
pub record IsInHand (least event_id : ℕ) (es : List Event) (p : Poller) : Type 0 where
  pub others : IsAhead least es p
  pub handled : is_handled p event_id ≡ true

-- A file with the id has been written.
pub record IsWritten (least i : ℕ) (pending : Option ℕ) (p : Poller) : Type 0 where
  pub synced : IsSynced least p
  pub behind : p.cursor ≤ i
  pub file : (readable p.stored).event_id ≡ i
  pub fits : pending_fits pending i ≡ true
  pub safe : is_safe i ≡ true

module _ (o : Outside) (least : ℕ) where
  stored-IsSynced :
      (i calls : ℕ) (pending : Option ℕ) (p : Poller)
      → is_safe i ≡ true
      → p.cursor ≤ i
      → is_reached i p ≡ true
      → IsSynced least p
      → IsSynced least
          (record p { calls = calls; stored = record { event_id = i; pending_ack = pending } })
  stored-IsSynced i calls pending p s le r h = ground arith

  pub called-IsSynced :
      (calls : ℕ) (p : Poller) → IsSynced least p → IsSynced least (record p { calls = calls })
  called-IsSynced calls p h = ground arith

  write_state-IsWritten :
      (i calls : ℕ) (pending : Option ℕ) (w : Written) (p : Poller)
      → is_safe i ≡ true
      → pending_fits pending i ≡ true
      → p.cursor ≤ i
      → is_reached i p ≡ true
      → IsSynced least p
      → Outcome
          (λ done. IsWritten least i pending)
          (IsSynced least)
          (write_state
            (record { event_id = i; pending_ack = pending })
            w
            (record p { calls = calls }))
  write_state-IsWritten i calls pending kept p s f le r h = called-IsSynced calls p h
  write_state-IsWritten i calls pending replaced_raising p s f le r h =
      stored-IsSynced i calls pending p s le r h
  write_state-IsWritten i calls pending replaced p s f le r h = record {
    synced = stored-IsSynced i calls pending p s le r h;
    behind = le;
    file = ground arith;
    fits = f;
    safe = s;
  }

  pub save-IsWritten :
      (i : ℕ) (pending : Option ℕ) (p : Poller)
      → p.cursor ≤ i
      → is_reached i p ≡ true
      → IsSynced least p
      → Outcome (λ done. IsWritten least i pending) (IsSynced least) (save o i pending p)
  unfolding save
  save-IsWritten i pending p le r h = elim (Bool-cases (is_safe i && pending_fits pending i)) [
    | inr t ↦ rw t h
    | inl t ↦
        let s : is_safe i ≡ true = ground arith in
        let f : pending_fits pending i ≡ true = ground arith in
        elim (Bool-cases (leb (read_state (o.read p.calls) p.stored).event_id i)) [
          | inl l ↦
              rw (t, l)
                (write_state-IsWritten i (p.calls + 2) pending (o.write (p.calls + 1)) p s f le r h)
          | inr l ↦ rw (t, l) (called-IsSynced (p.calls + 1) p h)
        ]
  ]

  set_fields :
      (i : ℕ) (pending : Option ℕ) (p : Poller)
      → IsWritten least i pending p
      → IsSynced least (record p { cursor = i; pending_ack = pending })
  set_fields i pending p h =
      ground (arith, h.synced, h.behind, h.file, AllLe-mono p.cursor i p.acked)

  pub advance-IsAhead :
      (e : Event) (es : List Event) (pending : Option ℕ)
      → AllFrom e.event_id es
      → Ensures
          (IsInHand least e.event_id (e ∷ es))
          (advance o e.event_id pending)
          (λ done. IsAhead least es)
          (IsSynced least)
  unfolding advance modify ◌>>=◌
  advance-IsAhead e es pending all = record {
    at = λ p h.
        continue-Outcome _ (save o e.event_id pending p)
          (λ done. record {
            at = λ q w. record {
              synced = set_fields e.event_id pending q w;
              ahead = λ i k. AllFrom-has e.event_id i es all k;
            };
          })
          (save-IsWritten e.event_id pending p (h.others.ahead e.event_id (ground arith))
            (ground (arith, h.handled)) h.others.synced);
  }
