-- ===== src/Sessions/Registry.antt =====
-- The methods of `CardSessionRegistry`, those for claims apart. A call under the lock is one step.
-- It is given what the clocks show (`_persist` reads the monotonic one again) and whether its write
-- to the storage succeeds. What was changed before an exception stays changed, so the registry
-- comes back beside the error too.
use hermes_channel_octo.Prelude.{
  ℕ, zero, suc, ◌+◌, Bool, true, false, not, ◌&&◌, ◌||◌, Option, none, some, List, [], ◌∷◌, ◌++◌,
  length, max, ltb, leb, ◌==◌, if◌then◌else◌,
}
use hermes_channel_octo.Prelude.Result.{Result, ok, err}
use hermes_channel_octo.Prelude.Text.{Text, text_eq, texts_eq}
use hermes_channel_octo.Prelude.Dict
use hermes_channel_octo.Prelude.Dict.{Dict, modify, keep, put}
use hermes_channel_octo.Types.{channel_code}
use hermes_channel_octo.Sessions.Data.{
  CardSession, Entry, pending, Binding, bounded_message_id, is_pending, is_completed, is_reasoning,
  same_clarify, same_kind, entry_to_record, entry_from_record,
}

pub data RegistryError : Type 0 where
  invalid_message_id already_active capacity_exhausted save_failed invalid_session not_pending
        identity_mismatch :
      RegistryError

pub record Registry : Type 0 where
  pub max_sessions : ℕ
  pub ttl_seconds : ℕ
  pub max_dispatch_attempts : ℕ
  pub entries : Dict Entry
  pub attached : Bool
  pub stored : List Binding

-- What one call reads from outside.
pub record Env : Type 0 where
  pub now : ℕ
  pub now_saving : ℕ
  pub wall : ℕ
  pub saved : Bool

abbrev pub Exec : Type 0 → Type 0
Exec A = Registry → Result RegistryError A × Registry

-- The storage that is attached, if any, with the records of an earlier run.
unfoldable pub set_persistence : Option (List Binding) → Registry → Registry
set_persistence none r = record r { attached = false }
set_persistence (some records) r = record r { attached = true; stored = records }

unfoldable pub new_registry : ℕ → ℕ → ℕ → Option (List Binding) → Registry
unfolding set_persistence
new_registry max_sessions ttl_seconds max_dispatch_attempts persistence =
    set_persistence persistence (record {
      max_sessions = max 1 max_sessions;
      ttl_seconds = max 1 ttl_seconds;
      max_dispatch_attempts = max 1 max_dispatch_attempts;
      entries = [];
      attached = false;
      stored = [];
    })

unfoldable pub prune_locked : ℕ → Registry → Registry
prune_locked now r = record r { entries = keep (λ e. ltb now e.expires_at) r.entries }

abbrev pub records : Dict Entry → List Binding
records [] = []
records ((_, e) ∷ d) = elim (entry_to_record e) [ none ↦ records d | some b ↦ b ∷ records d ]

unfoldable pub persist : Env → Exec (Unit {0})
unfolding prune_locked
persist env r =
    if r.attached
    then (let r' = prune_locked env.now_saving r in
        if env.saved
        then (ok tt, record r' { stored = records r'.entries })
        else (err save_failed, r'))
    else (ok tt, r)

-- The value of a call whose write to the storage comes last.
abbrev pub returning :
    {A : Type 0}
    → A
    → Result RegistryError (Unit {0}) × Registry
    → Result RegistryError A × Registry
returning a (ok _, r) = (ok a, r)
returning a (err e, r) = (err e, r)

unfoldable pub entry_locked : ℕ → Text → Registry → Option Entry × Registry
entry_locked now message_id r = elim (Dict.get r.entries message_id) [
  | none ↦ (none, r)
  | some e ↦
      if leb e.expires_at now
      then (none, record r { entries = Dict.pop r.entries message_id })
      else (some e, r)
]

-- The oldest completed card.
unfoldable pub first_completed : Dict Entry → Option Text
first_completed [] = none
first_completed ((id, e) ∷ d) = if is_completed e.state then some id else first_completed d

-- `while len(entries) >= max_sessions`: false where there is nothing to give up. Each round takes
-- an entry out, so the length is fuel enough.
unfoldable pub make_room : ℕ → ℕ → Dict Entry → Bool × Dict Entry
unfolding first_completed
make_room zero max_sessions entries = (ltb (length entries) max_sessions, entries)
make_room (suc fuel) max_sessions entries =
    if ltb (length entries) max_sessions then (true, entries) else elim (first_completed entries) [
      | none ↦ (false, entries)
      | some id ↦ make_room fuel max_sessions (Dict.pop entries id)
    ]

-- Is another card with this id still in use?
abbrev pub is_active : Option Entry → Bool
is_active none = false
is_active (some e) = not (is_completed e.state)

abbrev pub fresh_entry : Env → ℕ → CardSession → Entry
fresh_entry env ttl session = record {
  session = session;
  expires_at = env.now + ttl;
  wall_expires_at = env.wall + ttl;
  state = pending;
  claimed_event_id = none;
  attempt_event_id = none;
  dispatch_attempts = 0;
  card_seq = 0;
}

-- `register` behind its check of the id and the pruning.
abbrev pub register_pruned : Env → CardSession → Exec (Unit {0})
register_pruned env session r =
    if is_active (Dict.get r.entries session.message_id)
    then (err already_active, r)
    else (let popped = Dict.pop r.entries session.message_id in
        let (room, left) = make_room (length popped) r.max_sessions popped in
        if room
        then persist env (record r {
          entries = put left session.message_id (fresh_entry env r.ttl_seconds session);
        })
        else (err capacity_exhausted, record r { entries = left }))

unfoldable pub register : Env → CardSession → Exec (Unit {0})
unfolding persist make_room
register env session r =
    if bounded_message_id session.message_id
    then register_pruned env session (prune_locked env.now r)
    else (err invalid_message_id, r)

unfoldable pub peek : Env → Text → Registry → Option CardSession × Registry
unfolding entry_locked
peek env message_id r =
    let (found, r') = entry_locked env.now message_id r in
    elim found [ none ↦ (none, r') | some e ↦ (some e.session, r') ]

unfoldable pub discard : Env → Text → Exec (Unit {0})
unfolding persist
discard env message_id r = persist env (record r { entries = Dict.pop r.entries message_id })

-- The fields in which a refreshed card must agree with the registered one.
abbrev pub same_identity : CardSession → CardSession → Bool
same_identity a b =
    text_eq a.binding_id b.binding_id
    && text_eq a.session_key b.session_key
    && text_eq a.chat_id b.chat_id
    && text_eq a.channel_id b.channel_id
    && channel_code a.channel_type == channel_code b.channel_type
    && text_eq a.requester_uid b.requester_uid
    && texts_eq a.action_channel_ids b.action_channel_ids
    && texts_eq a.input_ids b.input_ids
    && same_clarify a.clarify b.clarify
    && same_kind a.kind b.kind

-- `move_to_end` with the entry written anew.
abbrev pub refreshed : Env → CardSession → Entry → Registry → Registry
refreshed env session e r =
    let e' = record e {
      session = session;
      expires_at = env.now + r.ttl_seconds;
      wall_expires_at = env.wall + r.ttl_seconds;
    } in
    record r { entries = Dict.pop r.entries session.message_id ++ (session.message_id, e') ∷ [] }

abbrev pub refresh_entry : Env → CardSession → Option Entry → Exec (Unit {0})
refresh_entry env session none r = (err not_pending, r)
refresh_entry env session (some e) r =
    if not (is_pending e.state)
    then (err not_pending, r)
    else if same_identity e.session session
    then (ok tt, refreshed env session e r)
    else (err identity_mismatch, r)

unfoldable pub refresh_reasoning : Env → CardSession → Exec (Unit {0})
unfolding prune_locked
refresh_reasoning env session r =
    if not (bounded_message_id session.message_id) || not (is_reasoning session.kind)
    then (err invalid_session, r)
    else let r' = prune_locked env.now r in
      refresh_entry env session (Dict.get r'.entries session.message_id) r'

unfoldable pub clear : Env → Exec (Unit {0})
unfolding persist
clear env r = persist env (record r { entries = [] })

-- One round of `_restore_locked`, which stops where a binding finds the registry full.
abbrev pub restore_one : ℕ → Option Entry → (Dict Entry → Dict Entry) → Dict Entry → Dict Entry
restore_one max_sessions none rest entries = rest entries
restore_one max_sessions (some e) rest entries =
    if leb max_sessions (length entries) then entries else rest (put entries e.session.message_id e)

unfoldable pub restore_from : Env → ℕ → List Binding → Dict Entry → Dict Entry
restore_from env max_sessions [] entries = entries
restore_from env max_sessions (b ∷ bs) entries =
    restore_one max_sessions (entry_from_record env.wall env.now b)
      (restore_from env max_sessions bs) entries

abbrev pub restore_if : Bool → Env → Registry → Registry
restore_if false env r = r
restore_if true env r = record r { entries = restore_from env r.max_sessions r.stored r.entries }

-- `restore` where the storage can be read; otherwise nothing changes.
unfoldable pub restore : Env → Registry → Registry
unfolding restore_from
restore env r = restore_if r.attached env r

unfoldable pub attach_persistence : Env → List Binding → Registry → Registry
unfolding restore set_persistence
attach_persistence env records r = restore env (set_persistence (some records) r)
