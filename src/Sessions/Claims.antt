-- ===== src/Sessions/Claims.antt =====
-- The claims of `CardSessionRegistry`: who may dispatch or edit a card, and how it is given back.
use hermes_channel_octo.Prelude.{ℕ, ◌+◌, Bool, ◌&&◌, Option, none, some, ◌==◌, if◌then◌else◌}
use hermes_channel_octo.Prelude.Result.{Result, ok, err}
use hermes_channel_octo.Prelude.Text.{Text, text_eq}
use hermes_channel_octo.Prelude.Dict.{modify, put}
use hermes_channel_octo.Types.{ChannelType, channel_code}
use hermes_channel_octo.Sessions.Data.{
  CardSession, Entry, pending, processing, completed, Claimant, event, edit, CardClaim, missing,
  duplicate, claimed, is_interactive, is_none, is_pending, is_processing, claimed_by, same_event,
}
use hermes_channel_octo.Sessions.Registry.{
  Registry, RegistryError, Env, Exec, persist, returning, entry_locked,
}

-- What a method does with the entry that `_entry_locked` finds, and its value where there is none.
abbrev pub on_entry :
    {A : Type 0}
    → A
    → (Entry → Exec A)
    → Option Entry × Registry
    → Result RegistryError A × Registry
on_entry absent act (none, r) = (ok absent, r)
on_entry absent act (some e, r) = act e r

-- What `claim` writes to the entry.
abbrev pub claimed_entry : ℕ → Entry → Entry
claimed_entry event_id e = record e {
  state = processing;
  claimed_event_id = some (event event_id);
  attempt_event_id = some event_id;
  dispatch_attempts = if same_event event_id e.attempt_event_id then e.dispatch_attempts + 1 else 1;
}

-- The fields that a failed `claim` puts back.
abbrev pub unclaimed : Entry → Entry → Entry
unclaimed previous e = record e {
  state = previous.state;
  claimed_event_id = previous.claimed_event_id;
  attempt_event_id = previous.attempt_event_id;
  dispatch_attempts = previous.dispatch_attempts;
}

-- The end of a claim: its value where the write succeeded, and otherwise the exception, with the
-- entry as it was, if the registry still has it.
abbrev pub or_roll_back :
    {A : Type 0}
    → A
    → (Entry → Entry)
    → Text
    → Result RegistryError (Unit {0}) × Registry
    → Result RegistryError A × Registry
or_roll_back a back message_id (ok _, r) = (ok a, r)
or_roll_back a back message_id (err e, r) =
    (err e, record r { entries = modify back r.entries message_id })

abbrev pub claim_entry : Env → Text → ℕ → Entry → Exec CardClaim
claim_entry env message_id event_id e r =
    if is_pending e.state
    then (let e' = claimed_entry event_id e in
        or_roll_back (claimed e.session e'.dispatch_attempts) (unclaimed e) message_id
          (persist env (record r { entries = put r.entries message_id e' })))
    else returning (duplicate e.session) (persist env r)

unfoldable pub claim : Env → Text → ℕ → Exec CardClaim
unfolding persist entry_locked
claim env message_id event_id r =
    on_entry missing (claim_entry env message_id event_id) (entry_locked env.now message_id r)

-- The card belongs to the chat and the person that ask to edit it.
abbrev pub edit_matches : Text → Text → ChannelType → Text → CardSession → Bool
edit_matches session_key channel_id channel_type requester_uid s =
    is_interactive s.kind
    && is_none s.clarify
    && text_eq s.session_key session_key
    && text_eq s.channel_id channel_id
    && channel_code s.channel_type == channel_code channel_type
    && text_eq s.requester_uid requester_uid

abbrev pub edited_entry : Entry → Entry
edited_entry e = record e {
  card_seq = e.card_seq + 1;
  state = processing;
  claimed_event_id = some (edit (e.card_seq + 1));
}

abbrev pub unedited : Entry → Entry → Entry
unedited previous e = record e {
  card_seq = previous.card_seq;
  state = previous.state;
  claimed_event_id = previous.claimed_event_id;
}

abbrev pub claim_edit_entry : Env → Text → (CardSession → Bool) → Entry → Exec (Option ℕ)
claim_edit_entry env message_id allowed e r =
    if is_pending e.state && allowed e.session
    then or_roll_back (some (e.card_seq + 1)) (unedited e) message_id
        (persist env (record r { entries = put r.entries message_id (edited_entry e) }))
    else (ok none, r)

unfoldable pub claim_edit : Env → Text → Text → Text → ChannelType → Text → Exec (Option ℕ)
unfolding persist entry_locked
claim_edit env message_id session_key channel_id channel_type requester_uid r =
    on_entry none
      (claim_edit_entry env message_id
        (edit_matches session_key channel_id channel_type requester_uid))
      (entry_locked env.now message_id r)

abbrev pub next_seq_entry : Env → Text → Entry → Exec (Option ℕ)
next_seq_entry env message_id e r = returning (some (e.card_seq + 1)) (
    persist env
      (record r { entries = put r.entries message_id (record e { card_seq = e.card_seq + 1 }) }))

unfoldable pub next_card_seq : Env → Text → Exec (Option ℕ)
unfolding persist entry_locked
next_card_seq env message_id r =
    on_entry none (next_seq_entry env message_id) (entry_locked env.now message_id r)

-- The entry is in the hands of this claimant.
abbrev pub holds : Claimant → Entry → Bool
holds c e = is_processing e.state && claimed_by c e.claimed_event_id

abbrev pub settle : Claimant → (Entry → Entry) → Text → Option Entry × Registry → Registry
settle c change message_id (none, r) = r
settle c change message_id (some e, r) =
    if holds c e then record r { entries = put r.entries message_id (change e) } else r

unfoldable pub release : Env → Text → Claimant → Exec (Unit {0})
unfolding persist entry_locked
release env message_id c r = persist env (
    settle c (λ e. record e { state = pending; claimed_event_id = none }) message_id
      (entry_locked env.now message_id r))

unfoldable pub release_edit : Env → Text → ℕ → Exec (Unit {0})
unfolding release
release_edit env message_id card_seq = release env message_id (edit card_seq)

unfoldable pub complete : Env → Text → ℕ → Exec (Unit {0})
unfolding persist entry_locked
complete env message_id event_id r = persist env (
    settle (event event_id) (λ e. record e { state = completed }) message_id
      (entry_locked env.now message_id r))
