-- ===== src/Events/Actions.antt =====
-- Card actions of card_events.py: whether one belongs to a session, and the handler of those on
-- reasoning cards. The registry's calls in a handler are steps of their own, each with its moment.
use hermes_channel_octo.Prelude.{
  ℕ, ◌+◌, ◌/◌, ◌%◌, Bool, true, false, not, ◌&&◌, ◌||◌, Option, none, some, List, [], ◌∷◌, ◌++◌,
  length, all, ltb, leb, ◌==◌, if◌then◌else◌,
}
use hermes_channel_octo.Prelude.Result.{Result, ok, err}
use hermes_channel_octo.Prelude.Text.{Text, lit, text_eq, text_in, nonempty}
use hermes_channel_octo.Prelude.Dict
use hermes_channel_octo.Prelude.Dict.{Dict}
use hermes_channel_octo.Types.{ChannelType, dm, channel_code}
use hermes_channel_octo.Protocol.Utf8.{encode}
use hermes_channel_octo.Sessions.Data.{CardSession, CardClaim, claimed, event, is_reasoning}
use hermes_channel_octo.Sessions.Registry.{Registry, RegistryError, Env, returning, peek}
use hermes_channel_octo.Sessions.Claims.{claim, release, complete}
use hermes_channel_octo.Events.Poller.{Status, ignored, unsupported}

-- A value of `data`, which only texts are compared with.
pub data DataValue : Type 0 where
  text_value : Text → DataValue
  other_value : DataValue

pub record CardAction : Type 0 where
  pub event_id : ℕ
  pub message_id : Text
  pub channel_id : Text
  pub channel_type : ChannelType
  pub action_id : Text
  pub inputs : Dict Text
  pub operator_uid : Text
  pub fields : Dict DataValue

-- [A-Za-z0-9_.:-]{1,64}
abbrev pub is_card_char : ℕ → Bool
is_card_char c =
    (leb 65 c && leb c 90)
    || (leb 97 c && leb c 122)
    || (leb 48 c && leb c 57)
    || c == 95
    || c == 46
    || c == 58
    || c == 45

abbrev pub is_card_id : Text → Bool
is_card_id s = nonempty s && leb (length s) 64 && all is_card_char s

abbrev pub names : Option DataValue → Text → Bool
names (some (text_value s)) t = text_eq s t
names (some other_value) t = false
names none t = false

-- `session.action_channel_ids or (session.channel_id,)`
abbrev pub action_channels : CardSession → List Text
action_channels s =
    if nonempty s.action_channel_ids then s.action_channel_ids else s.channel_id ∷ []

abbrev pub is_dm : ChannelType → Bool
is_dm t = channel_code t == channel_code dm

unfoldable pub channel_matches : CardAction → CardSession → Bool
channel_matches a s =
    if is_dm a.channel_type
    then text_in a.channel_id (action_channels s)
    else text_eq a.channel_id s.channel_id

abbrev pub has_label : Text → List (Text × Text) → Bool
has_label id [] = false
has_label id ((key, _) ∷ labels) = text_eq id key || has_label id labels

-- What both kinds of cards check.
unfoldable pub same_card : CardAction → CardSession → Bool
unfolding channel_matches
same_card a s =
    text_eq a.message_id s.message_id
    && channel_matches a s
    && channel_code a.channel_type == channel_code s.channel_type
    && text_eq a.operator_uid s.requester_uid
    && has_label a.action_id s.action_labels

abbrev pub hex : ℕ → ℕ
hex d = if ltb d 10 then 48 + d else 87 + d

-- A character inside a JSON string, other characters than these left as they are.
abbrev pub json_char : ℕ → Text
json_char c =
    if c == 34 || c == 92
    then 92 ∷ c ∷ []
    else if c == 10
    then lit "\\n"
    else if c == 13
    then lit "\\r"
    else if c == 9
    then lit "\\t"
    else if c == 8
    then lit "\\b"
    else if c == 12
    then lit "\\f"
    else if ltb c 32
    then lit "\\u00" ++ (hex (c / 16) ∷ hex (c % 16) ∷ [])
    else c ∷ []

abbrev pub json_chars : Text → Text
json_chars [] = []
json_chars (c ∷ s) = json_char c ++ json_chars s

abbrev pub json_string : Text → Text
json_string s = lit "\"" ++ json_chars s ++ lit "\""

abbrev pub json_items : Dict Text → Text
json_items [] = []
json_items ((k, v) ∷ []) = json_string k ++ lit ":" ++ json_string v
json_items ((k, v) ∷ item ∷ d) =
    json_string k ++ lit ":" ++ json_string v ++ lit "," ++ json_items (item ∷ d)

-- `json.dumps(inputs, ensure_ascii=False, separators=(",", ":"))`. Only its length is used, which
-- the order of the keys does not change.
abbrev pub json_dumps : Dict Text → Text
json_dumps d = lit "{" ++ json_items d ++ lit "}"

-- `len(text.encode("utf-8"))`, where the text has an encoding.
abbrev pub byte_length : Text → Option ℕ
byte_length s = elim (encode s) [ none ↦ none | some bytes ↦ some (length bytes) ]

abbrev pub or_default : Option ℕ → ℕ → ℕ
or_default none fallback = fallback
or_default (some n) fallback = if n == 0 then fallback else n

-- none is a UnicodeError.
abbrev pub fits_in : Option ℕ → ℕ → Option Bool
fits_in none limit = none
fits_in (some n) limit = some (leb n limit)

abbrev pub and_then : Option Bool → Option Bool → Option Bool
and_then none next = none
and_then (some false) next = some false
and_then (some true) next = next

unfoldable pub inputs_allowed : List Text → ℕ → Dict Text → Option Bool
inputs_allowed allowed max_text [] = some true
inputs_allowed allowed max_text ((key, value) ∷ inputs) =
    let rest = inputs_allowed allowed max_text inputs in
    if not (is_card_id key) || not (text_in key allowed)
    then some false
    else and_then (fits_in (byte_length value) max_text) rest

unfoldable pub action_matches_session : CardAction → CardSession → Option Bool
unfolding same_card inputs_allowed
action_matches_session a s =
    if same_card a s && names (Dict.get a.fields (lit "_octo_binding")) s.binding_id
    then and_then (inputs_allowed s.input_ids (or_default s.max_input_text_bytes 4096) a.inputs)
        (fits_in (byte_length (json_dumps a.inputs)) (or_default s.max_inputs_bytes 16384))
    else some false

unfoldable pub reasoning_action_matches_session : CardAction → CardSession → Bool
unfolding same_card
reasoning_action_matches_session a s =
    is_reasoning s.kind
    && same_card a s
    && not (nonempty a.inputs)
    && names (Dict.get a.fields (lit "reasoningId")) s.binding_id

abbrev pub answering :
    {A : Type 0}
    → A
    → Result RegistryError (Unit {0}) × Registry
    → Result RegistryError (Option A) × Registry
answering a x = returning (some a) x

-- What follows the claim.
abbrev pub settle_reasoning :
    Env
    → CardAction
    → Result RegistryError CardClaim × Registry
    → Result RegistryError (Option Status) × Registry
settle_reasoning env a (err raised, r) = (err raised, r)
settle_reasoning env a (ok CardClaim.missing, r) = (ok (some Status.missing), r)
settle_reasoning env a (ok (CardClaim.duplicate s), r) =
    (ok (some (if reasoning_action_matches_session a s then Status.duplicate else ignored)), r)
settle_reasoning env a (ok (claimed s n), r) =
    if reasoning_action_matches_session a s
    then answering unsupported (complete env a.message_id a.event_id r)
    else answering ignored (release env a.message_id (event a.event_id) r)

abbrev pub on_reasoning :
    Env
    → Env
    → CardAction
    → Option CardSession × Registry
    → Result RegistryError (Option Status) × Registry
on_reasoning claiming settling a (none, r) = (ok none, r)
on_reasoning claiming settling a (some s, r) =
    if is_reasoning s.kind
    then settle_reasoning settling a (claim claiming a.message_id a.event_id r)
    else (ok none, r)

-- none where the card is no reasoning card.
unfoldable pub handle_reasoning_card_action :
    Env → Env → Env → CardAction → Registry → Result RegistryError (Option Status) × Registry
handle_reasoning_card_action peeking claiming settling a r =
    on_reasoning claiming settling a (peek peeking a.message_id r)
