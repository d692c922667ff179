-- ===== src/Sessions/Data.antt =====
-- The records of card_sessions.py. Times are whole units of the two clocks. `card` is never looked
-- into: it stands as its JSON text. The Hermes entry of a clarify session is a foreign object,
-- compared by its identity. An edit claims a card under its negated sequence number and an event
-- under its id, so the two never meet: `Claimant` keeps them apart by constructors.
use native.Mathlib.Decide.{ℕ_discrete}
use hermes_channel_octo.Prelude.{
  ℕ, ◌-◌, ◌+◌, Bool, true, false, not, ◌&&◌, ◌||◌, Option, none, some, List, length, ltb, leb, ◌==◌,
  if◌then◌else◌,
}
use hermes_channel_octo.Prelude.Text.{Text, text_eq}
use hermes_channel_octo.Types.{ChannelType}

pub record ClarifySession : Type 0 where
  pub clarify_id : Text
  pub entry : ℕ
  pub multi_select : Bool
  pub question : Text
  pub choices : List Text
  pub action_choices : List (Text × Text)
  pub input_id : Option Text
  pub confirm_action_id : Option Text
  pub other_action_id : Text

pub data Kind : Type 0 where
  interactive reasoning : Kind
  other_kind : Text → Kind

pub record CardSession : Type 0 where
  pub message_id : Text
  pub binding_id : Text
  pub session_key : Text
  pub chat_id : Text
  pub channel_id : Text
  pub channel_type : ChannelType
  pub requester_uid : Text
  pub card : Text
  pub plain : Text
  pub action_labels : List (Text × Text)
  pub input_ids : List Text
  pub action_channel_ids : List Text
  pub max_input_text_bytes : Option ℕ
  pub max_inputs_bytes : Option ℕ
  pub clarify : Option ClarifySession
  pub kind : Kind

pub data State : Type 0 where
  pending processing completed : State

pub data Claimant : Type 0 where
  event : ℕ → Claimant
  edit : ℕ → Claimant

pub record Entry : Type 0 where
  pub session : CardSession
  pub expires_at : ℕ
  pub wall_expires_at : ℕ
  pub state : State
  pub claimed_event_id : Option Claimant
  pub attempt_event_id : Option ℕ
  pub dispatch_attempts : ℕ
  pub card_seq : ℕ

pub data CardClaim : Type 0 where
  missing : CardClaim
  duplicate : CardSession → CardClaim
  claimed : CardSession → ℕ → CardClaim

-- What `_entry_to_record` writes.
pub record Binding : Type 0 where
  pub message_id : Text
  pub binding_id : Text
  pub session_key : Text
  pub chat_id : Text
  pub channel_id : Text
  pub channel_type : ChannelType
  pub requester_uid : Text
  pub plain : Text
  pub kind : Kind
  pub card : Text
  pub action_labels : List (Text × Text)
  pub input_ids : List Text
  pub action_channel_ids : List Text
  pub max_input_text_bytes : Option ℕ
  pub max_inputs_bytes : Option ℕ
  pub expires_at : ℕ
  pub state : State
  pub claimed_event_id : Option Claimant
  pub attempt_event_id : Option ℕ
  pub dispatch_attempts : ℕ
  pub card_seq : ℕ

abbrev pub bounded_message_id : Text → Bool
bounded_message_id id = ltb 0 (length id) && leb (length id) 128

abbrev pub is_interactive : Kind → Bool
is_interactive interactive = true
is_interactive reasoning = false
is_interactive (other_kind _) = false

abbrev pub is_reasoning : Kind → Bool
is_reasoning reasoning = true
is_reasoning interactive = false
is_reasoning (other_kind _) = false

abbrev pub same_kind : Kind → Kind → Bool
same_kind interactive interactive = true
same_kind reasoning reasoning = true
same_kind (other_kind a) (other_kind b) = text_eq a b
same_kind _ _ = false

ClarifySession-discrete : Discrete (Option ClarifySession)
ClarifySession-discrete = hlevel ℕ_discrete

abbrev answer {ℓ} : {A : Type ℓ} → Dec A → Bool
answer (yes _) = true
answer (no _) = false

-- A frozen dataclass compares field by field.
pub same_clarify : Option ClarifySession → Option ClarifySession → Bool
same_clarify a b = answer (ClarifySession-discrete a b)

abbrev pub is_none {ℓ} : {A : Type ℓ} → Option A → Bool
is_none none = true
is_none (some _) = false

abbrev pub is_pending : State → Bool
is_pending pending = true
is_pending processing = false
is_pending completed = false

abbrev pub is_processing : State → Bool
is_processing processing = true
is_processing pending = false
is_processing completed = false

abbrev pub is_completed : State → Bool
is_completed completed = true
is_completed pending = false
is_completed processing = false

-- `entry.claimed_event_id == event_id`
abbrev pub claimed_by : Claimant → Option Claimant → Bool
claimed_by c none = false
claimed_by (event n) (some (event m)) = m == n
claimed_by (event n) (some (edit m)) = false
claimed_by (edit n) (some (edit m)) = m == n
claimed_by (edit n) (some (event m)) = false

-- `entry.attempt_event_id != event_id`
abbrev pub same_event : ℕ → Option ℕ → Bool
same_event n none = false
same_event n (some m) = m == n

-- The fields that are written; anything else is left out.
abbrev pub binding_of : Entry → Binding
binding_of e = record {
  message_id = e.session.message_id;
  binding_id = e.session.binding_id;
  session_key = e.session.session_key;
  chat_id = e.session.chat_id;
  channel_id = e.session.channel_id;
  channel_type = e.session.channel_type;
  requester_uid = e.session.requester_uid;
  plain = e.session.plain;
  kind = e.session.kind;
  card = e.session.card;
  action_labels = e.session.action_labels;
  input_ids = e.session.input_ids;
  action_channel_ids = e.session.action_channel_ids;
  max_input_text_bytes = e.session.max_input_text_bytes;
  max_inputs_bytes = e.session.max_inputs_bytes;
  expires_at = e.wall_expires_at;
  state = e.state;
  claimed_event_id = e.claimed_event_id;
  attempt_event_id = e.attempt_event_id;
  dispatch_attempts = e.dispatch_attempts;
  card_seq = e.card_seq;
}

unfoldable pub entry_to_record : Entry → Option Binding
entry_to_record e =
    if not (is_interactive e.session.kind) || not (is_none e.session.clarify)
    then none
    else if e.wall_expires_at == 0
    then none
    else some (binding_of e)

-- A binding whose claim was under way comes back as pending.
abbrev pub restored_state : State → State
restored_state processing = pending
restored_state pending = pending
restored_state completed = completed

-- The checks of `_entry_from_record` that do not concern the JSON types of a record's values.
unfoldable pub entry_from_record : ℕ → ℕ → Binding → Option Entry
entry_from_record wall_now mono_now r =
    if leb r.expires_at wall_now
    then none
    else if not (bounded_message_id r.message_id)
    then none
    else if not (is_interactive r.kind)
    then none
    else some (record {
      session = record {
        message_id = r.message_id;
        binding_id = r.binding_id;
        session_key = r.session_key;
        chat_id = r.chat_id;
        channel_id = r.channel_id;
        channel_type = r.channel_type;
        requester_uid = r.requester_uid;
        card = r.card;
        plain = r.plain;
        action_labels = r.action_labels;
        input_ids = r.input_ids;
        action_channel_ids = r.action_channel_ids;
        max_input_text_bytes = r.max_input_text_bytes;
        max_inputs_bytes = r.max_inputs_bytes;
        clarify = none;
        kind = r.kind;
      };
      expires_at = mono_now + (r.expires_at - wall_now);
      wall_expires_at = r.expires_at;
      state = restored_state r.state;
      claimed_event_id = none;
      attempt_event_id = r.attempt_event_id;
      dispatch_attempts = r.dispatch_attempts;
      card_seq = r.card_seq;
    })
