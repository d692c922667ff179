-- ===== src/Events/Order.antt =====
-- The order in which a poll handles the events of a batch.
use hermes_channel_octo.Prelude.{
  ℕ, ◌+◌, ◌≤◌, ◌<◌, ◌≡◌, refl, Bool, true, false, ◌||◌, inl, inr, List, [], ◌∷◌, All, arith, leb,
  ◌==◌, Bool-cases, leb→le,
}
use mathlib.Core.List.{Memᴰ}
use hermes_channel_octo.Events.Poller.{RawEvent, unusable, raw_event, Event, is_safe}
use hermes_channel_octo.Events.Poll.{newer, insert_event, sort_events}

-- Whether an event of the list has the id.
abbrev pub has : ℕ → List Event → Bool
has i [] = false
has i (e ∷ es) = i == e.event_id || has i es

-- No event of the list has a smaller id.
abbrev pub AllFrom : ℕ → List Event → Type 0
AllFrom least es = All (λ e. least ≤ e.event_id) es

-- The ids do not decrease.
abbrev pub IsSorted : List Event → Type 0
IsSorted [] = Unit
IsSorted (e ∷ es) = AllFrom e.event_id es × IsSorted es

pub AllFrom-mono : (a b : ℕ) (es : List Event) → a ≤ b → AllFrom b es → AllFrom a es
AllFrom-mono a b [] le h = tt
AllFrom-mono a b (e ∷ es) le (h, hs) = (omega arith, AllFrom-mono a b es le hs)

pub AllFrom-has : (least i : ℕ) (es : List Event) → AllFrom least es → has i es ≡ true → least ≤ i
AllFrom-has least i [] h k = ground arith
AllFrom-has least i (e ∷ es) (h, hs) k = ground (arith, AllFrom-has least i es hs)

pub newer-AllFrom : (cursor : ℕ) (es : List RawEvent) → AllFrom (cursor + 1) (newer cursor es)
unfolding newer
newer-AllFrom cursor [] = tt
newer-AllFrom cursor (unusable ∷ es) = newer-AllFrom cursor es
newer-AllFrom cursor (raw_event i a ∷ es) = ground (arith, newer-AllFrom cursor es)

-- Every event of a batch with a safe id behind the cursor is among those to be handled.
pub newer_complete :
    (cursor i : ℕ) (action : Bool) (es : List RawEvent)
    → Memᴰ (raw_event i action) es
    → is_safe i ≡ true
    → cursor < i
    → has i (newer cursor es) ≡ true
unfolding newer
newer_complete cursor i action [] m s lt = elim m [ ]
newer_complete cursor i action (unusable ∷ es) (Memᴰ.head e) s lt = ground arith
newer_complete cursor i action (raw_event j a ∷ es) (Memᴰ.head e) s lt = ground arith
newer_complete cursor i action (unusable ∷ es) (Memᴰ.tail m) s lt =
    newer_complete cursor i action es m s lt
newer_complete cursor i action (raw_event j a ∷ es) (Memᴰ.tail m) s lt =
    ground (arith, newer_complete cursor i action es m s lt)

insert_event-AllFrom :
    (least : ℕ) (e : Event) (es : List Event)
    → least ≤ e.event_id
    → AllFrom least es
    → AllFrom least (insert_event e es)
unfolding insert_event
insert_event-AllFrom least e [] le h = ground arith
insert_event-AllFrom least e (x ∷ xs) le (h, hs) =
    ground (arith, insert_event-AllFrom least e xs le hs)

insert_event-IsSorted : (e : Event) (es : List Event) → IsSorted es → IsSorted (insert_event e es)
unfolding insert_event
insert_event-IsSorted e [] h = (tt, tt)
insert_event-IsSorted e (x ∷ xs) (all, h) = elim (Bool-cases (leb e.event_id x.event_id)) [
  | inl t ↦ rw t (
    (
      leb→le e.event_id x.event_id t,
      AllFrom-mono e.event_id x.event_id xs (leb→le e.event_id x.event_id t) all,
    ),
    (all, h),
  )
  | inr t ↦
      rw t (insert_event-AllFrom x.event_id e xs (ground arith) all, insert_event-IsSorted e xs h)
]

-- Sorting puts the events in the order of their ids: none is in front of a smaller one.
pub sort_events-IsSorted : (es : List Event) → IsSorted (sort_events es)
unfolding sort_events
sort_events-IsSorted [] = tt
sort_events-IsSorted (e ∷ es) = insert_event-IsSorted e (sort_events es) (sort_events-IsSorted es)

insert_event-has :
    (i : ℕ) (e : Event) (es : List Event)
    → has i (insert_event e es) ≡ (i == e.event_id || has i es)
unfolding insert_event
insert_event-has i e [] = refl
insert_event-has i e (x ∷ xs) = ground (arith, insert_event-has i e xs)

pub sort_events-has : (i : ℕ) (es : List Event) → has i (sort_events es) ≡ has i es
unfolding sort_events
sort_events-has i [] = refl
sort_events-has i (e ∷ es) =
    ground (arith, insert_event-has i e (sort_events es), sort_events-has i es)
