-- ===== src/Events/Parsed.antt =====
-- `parse_card_action` of card_events.py.
use hermes_channel_octo.Prelude.{
  ℕ, Bool, true, false, not, ◌&&◌, ◌||◌, Option, none, some, [], ◌∷◌, ◌++◌, length, any, ltb, leb,
  ◌==◌, if◌then◌else◌,
}
use hermes_channel_octo.Prelude.Text.{Text, lit, text_eq, nonempty}
use hermes_channel_octo.Prelude.Dict.{Dict}
use hermes_channel_octo.Types.{ChannelType, dm, group, community_topic, is_channel}
use hermes_channel_octo.Identity.Tokens.{strip}
use hermes_channel_octo.Protocol.Packets.{str_of}
use hermes_channel_octo.Events.Poller.{is_safe}
use hermes_channel_octo.Events.Json.{
  Json, null, flag, whole, minus, real, string, object, Members, no_members, member, get_member,
  count, dumps,
}
use hermes_channel_octo.Events.Actions.{
  DataValue, text_value, other_value, CardAction, is_card_id, byte_length, json_dumps,
}

abbrev pub max_event_input_fields : ℕ
max_event_input_fields = 128

abbrev pub max_event_data_fields : ℕ
max_event_data_fields = 128

abbrev pub max_event_input_value_bytes : ℕ
max_event_input_value_bytes = 16384

abbrev pub max_event_envelope_bytes : ℕ
max_event_envelope_bytes = 65536

abbrev pub safe_event_id : Json → Option ℕ
safe_event_id (whole n) = if is_safe n then some n else none
safe_event_id _ = none

abbrev pub is_forbidden : ℕ → Bool
is_forbidden c = c == 0 || c == 13 || c == 10

abbrev pub is_bounded : ℕ → Text → Bool
is_bounded max_chars s = nonempty s && leb (length s) max_chars && not (any is_forbidden s)

-- none where the source has the empty text.
abbrev pub bounded_string : ℕ → Json → Option Text
bounded_string max_chars (string s) =
    if is_bounded max_chars (strip s) then some (strip s) else none
bounded_string max_chars _ = none

abbrev pub channel_type_of : ℕ → Option ChannelType
channel_type_of n =
    if is_channel n dm
    then some dm
    else if is_channel n group
    then some group
    else if is_channel n community_topic
    then some community_topic
    else none

abbrev pub channel_type_named : Text → Option ChannelType
channel_type_named s =
    if text_eq s (lit "1")
    then some dm
    else if text_eq s (lit "2")
    then some group
    else if text_eq s (lit "5")
    then some community_topic
    else none

abbrev pub parse_channel_type : Json → Option ChannelType
parse_channel_type (whole n) = channel_type_of n
parse_channel_type (string s) = channel_type_named s
parse_channel_type _ = none

-- What becomes of the value of an input.
pub data Normalized : Type 0 where
  refused skipped : Normalized
  normal : Text → Normalized

abbrev pub normalize : Json → Normalized
normalize (string s) = normal s
normalize (flag true) = normal (lit "true")
normalize (flag false) = normal (lit "false")
normalize (whole n) = if is_safe n then normal (str_of n) else refused
normalize (minus n) = if is_safe n then normal (lit "-" ++ str_of n) else refused
normalize (real finite text) = if finite then normal text else refused
normalize _ = skipped

abbrev pub fits_bytes : ℕ → Text → Bool
fits_bytes limit s = elim (byte_length s) [ none ↦ false | some n ↦ leb n limit ]

abbrev pub with_input : Text → Normalized → Option (Dict Text) → Option (Dict Text)
with_input key refused rest = none
with_input key skipped rest = rest
with_input key (normal value) none = none
with_input key (normal value) (some inputs) =
    if fits_bytes max_event_input_value_bytes value then some ((key, value) ∷ inputs) else none

-- The loop over the inputs; a JSON object has each key once.
unfoldable pub inputs_of : Members → Option (Dict Text)
inputs_of no_members = some []
inputs_of (member key value ms) =
    let rest = inputs_of ms in
    if is_card_id key then with_input key (normalize value) rest else none

abbrev pub parse_inputs : Json → Option (Dict Text)
parse_inputs null = some []
parse_inputs (object ms) = if ltb max_event_input_fields (count ms) then none else inputs_of ms
parse_inputs _ = none

unfoldable pub keys_valid : Members → Bool
keys_valid no_members = true
keys_valid (member key value ms) = is_card_id key && keys_valid ms

abbrev pub parse_data : Json → Option Members
parse_data null = some no_members
parse_data (object ms) =
    if leb (count ms) max_event_data_fields && keys_valid ms then some ms else none
parse_data _ = none

abbrev pub envelope : Dict Text → Members → Text
envelope inputs fields =
    lit "{\"inputs\":" ++ json_dumps inputs ++ lit ",\"data\":" ++ dumps (object fields) ++ lit "}"

unfoldable pub data_values : Members → Dict DataValue
data_values no_members = []
data_values (member key (string s) ms) = (key, text_value s) ∷ data_values ms
data_values (member key _ ms) = (key, other_value) ∷ data_values ms

infixl 5 ◌>>=◌ ◌>>◌
abbrev pub ◌>>=◌ : {A B : Type 0} → Option A → (A → Option B) → Option B
◌>>=◌ none f = none
◌>>=◌ (some a) f = f a

abbrev pub ◌>>◌ : {A B : Type 0} → Option A → Option B → Option B
m >> n = m >>= λ _. n

abbrev pub members_of : Json → Option Members
members_of (object ms) = some ms
members_of _ = none

abbrev pub is_string : Json → Text → Bool
is_string (string s) t = text_eq s t
is_string _ t = false

abbrev pub when : Bool → Option (Unit {0})
when true = some tt
when false = none

unfoldable pub parse_card_action : Json → Option CardAction
unfolding get_member inputs_of keys_valid data_values
parse_card_action json = do
  ev ← members_of json
  event_id ← safe_event_id (get_member ev (lit "event_id"))
  when (is_string (get_member ev (lit "event_type")) (lit "card_action"))
  raw ← members_of (get_member ev (lit "event_data"))
  message_id ← bounded_string 256 (get_member raw (lit "message_id"))
  channel_id ← bounded_string 256 (get_member raw (lit "channel_id"))
  channel_type ← parse_channel_type (get_member raw (lit "channel_type"))
  action_id ← bounded_string 64 (get_member raw (lit "action_id"))
  operator_uid ← bounded_string 128 (get_member raw (lit "operator_uid"))
  inputs ← parse_inputs (get_member raw (lit "inputs"))
  fields ← parse_data (get_member raw (lit "data"))
  when (fits_bytes max_event_envelope_bytes (envelope inputs fields))
  some (record {
    event_id = event_id;
    message_id = message_id;
    channel_id = channel_id;
    channel_type = channel_type;
    action_id = action_id;
    inputs = inputs;
    operator_uid = operator_uid;
    fields = data_values fields;
  })
