-- ===== src/Clarify.antt =====
-- src/hermes_octo_plugin/clarify.py: the answers that a clarify card's actions stand for, and how an
-- action is passed on to the clarify gateway of Hermes. The gateway is not part of the repository:
-- `Gateway` holds what it answers while its lock is held, and the calls that it gets are recorded.
pub mod Answers
use hermes_channel_octo.Prelude.{
  ℕ, Bool, true, false, not, ◌&&◌, ◌||◌, Option, none, some, List, [], ◌∷◌, ◌++◌, ◌==◌, all, any,
  if◌then◌else◌,
}
use hermes_channel_octo.Prelude.Text.{Text, lit, text_eq, text_in, texts_eq, nonempty}
use hermes_channel_octo.Prelude.Dict
use hermes_channel_octo.Identity.Tokens.{strip}
use hermes_channel_octo.Sessions.Data.{CardSession, ClarifySession}
use hermes_channel_octo.Events.Actions.{CardAction, json_string}
use hermes_channel_octo.Events.Poller.{Status, completed, awaiting_text, expired}

-- `bool | str`
pub data Reply : Type 0 where
  flag : Bool → Reply
  named : Status → Reply

-- A pending question of the gateway: the object itself, by a number, and the fields compared.
pub record GatewayEntry : Type 0 where
  pub identity : ℕ
  pub session_key : Text
  pub question : Text
  pub choices : List Text
  pub multi_select : Bool

pub data GatewayCall : Type 0 where
  marked : Text → GatewayCall
  resolved : Text → Text → GatewayCall

-- What the gateway answers.
pub record Gateway : Type 0 where
  pub find : Text → Option GatewayEntry
  pub mark_awaiting_text : Text → Bool
  pub resolve_gateway_clarify : Text → Text → Bool

abbrev pub is_text : Text → Option Text → Bool
is_text s none = false
is_text s (some t) = text_eq s t

abbrev onto_first : ℕ → List Text → List Text
onto_first c [] = (c ∷ []) ∷ []
onto_first c (s ∷ ss) = (c ∷ s) ∷ ss

-- raw_selection.split(",")
unfoldable pub split_commas : Text → List Text
split_commas [] = [] ∷ []
split_commas (c ∷ s) = let rest = split_commas s in if c == 44 then [] ∷ rest else onto_first c rest

-- `raw_selection.split(",") if raw_selection else []`, where a missing key counts as empty.
abbrev pub selected_ids : Option Text → List Text
selected_ids none = []
selected_ids (some raw) = if nonempty raw then split_commas raw else []

-- `len(set(ids)) == len(ids)`
unfoldable pub distinct : List Text → Bool
distinct [] = true
distinct (t ∷ ts) = not (text_in t ts) && distinct ts

-- `not (not value or value.strip() != value)`
abbrev pub is_stripped : Text → Bool
is_stripped value = nonempty value && text_eq (strip value) value

-- The choices whose ids are selected, in the order of the card.
unfoldable pub choices_in : List Text → List (Text × Text) → List Text
choices_in ids [] = []
choices_in ids ((id, choice) ∷ more) =
    let rest = choices_in ids more in if text_in id ids then choice ∷ rest else rest

unfoldable pub choices_of : Text → List (Text × Text) → List Text
choices_of action_id [] = []
choices_of action_id ((id, choice) ∷ more) =
    let rest = choices_of action_id more in if text_eq id action_id then choice ∷ rest else rest

unfoldable pub known : List (Text × Text) → Text → Bool
known [] id = false
known ((key, _) ∷ more) id = text_eq id key || known more id

-- A selection without gaps, blanks and repetitions, of ids that the card has.
unfoldable pub is_selection : List (Text × Text) → List Text → Bool
unfolding distinct known
is_selection choices ids =
    nonempty ids && all is_stripped ids && distinct ids && all (known choices) ids

abbrev pub chosen : List (Text × Text) → List Text → List Text
chosen choices ids = if is_selection choices ids then choices_in ids choices else []

abbrev pub raw_ids : Option Text → CardAction → List Text
raw_ids none a = []
raw_ids (some input) a = selected_ids (Dict.get a.inputs input)

unfoldable pub selected_choices : ClarifySession → CardAction → List Text
unfolding is_selection choices_in choices_of split_commas
selected_choices c a =
    if text_eq a.action_id c.other_action_id
    then []
    else if not c.multi_select
    then choices_of a.action_id c.action_choices
    else if not (is_text a.action_id c.confirm_action_id)
    then []
    else chosen c.action_choices (raw_ids c.input_id a)

abbrev same_bool : Bool → Bool → Bool
same_bool true b = b
same_bool false b = not b

unfoldable pub entry_matches_session : GatewayEntry → CardSession → ClarifySession → Bool
entry_matches_session e s c =
    e.identity == c.entry
    && text_eq e.session_key s.session_key
    && text_eq e.question c.question
    && texts_eq e.choices c.choices
    && same_bool e.multi_select c.multi_select

abbrev pub json_texts : List Text → Text
json_texts [] = []
json_texts (t ∷ []) = json_string t
json_texts (t ∷ u ∷ ts) = json_string t ++ lit "," ++ json_texts (u ∷ ts)

-- `json.dumps([...], ensure_ascii=False, separators=(",", ":"))`
abbrev pub json_array : List Text → Text
json_array ts = lit "[" ++ json_texts ts ++ lit "]"

-- One call of the gateway and what its answer is turned into.
abbrev pub asking : GatewayCall → Bool → Status → Reply × List GatewayCall
asking call answer status = (named (if answer then status else expired), call ∷ [])

module _ (g : Gateway) where
  abbrev pub resolving : ClarifySession → Text → Reply × List GatewayCall
  resolving c response =
      asking (resolved c.clarify_id response) (g.resolve_gateway_clarify c.clarify_id response)
        completed

  -- The loop over the choices of a card with one answer.
  unfoldable pub resolve_choice :
      ClarifySession → Text → List (Text × Text) → Reply × List GatewayCall
  resolve_choice c action_id [] = (flag false, [])
  resolve_choice c action_id ((id, response) ∷ more) =
      let rest = resolve_choice c action_id more in
      if text_eq action_id id then resolving c response else rest

  unfoldable pub resolve_selection : ClarifySession → List Text → Reply × List GatewayCall
  unfolding distinct known
  resolve_selection c ids =
      if not (nonempty ids)
      then (flag false, [])
      else if any (λ value. not (is_stripped value)) ids
      then (flag false, [])
      else if not (distinct ids)
      then (flag false, [])
      else if not (all (known c.action_choices) ids)
      then (flag false, [])
      else resolving c (json_array (choices_in ids c.action_choices))

  abbrev pub answer_clarify : ClarifySession → CardAction → Reply × List GatewayCall
  answer_clarify c a =
      if text_eq a.action_id c.other_action_id
      then asking (marked c.clarify_id) (g.mark_awaiting_text c.clarify_id) awaiting_text
      else if not c.multi_select
      then resolve_choice c a.action_id c.action_choices
      else if not (is_text a.action_id c.confirm_action_id)
      then (flag false, [])
      else elim c.input_id [
        | none ↦ (flag false, [])
        | some input ↦ resolve_selection c (selected_ids (Dict.get a.inputs input))
      ]

  abbrev pub with_entry :
      Option GatewayEntry → CardSession → ClarifySession → CardAction → Reply × List GatewayCall
  with_entry none s c a = (named expired, [])
  with_entry (some e) s c a =
      if entry_matches_session e s c then answer_clarify c a else (named expired, [])

  abbrev pub of_clarify :
      Option ClarifySession → CardSession → CardAction → Option (Reply × List GatewayCall)
  of_clarify none s a = none
  of_clarify (some c) s a = some (with_entry (g.find c.clarify_id) s c a)

  -- The answer and the calls that the gateway gets; none where the card asks no question.
  unfoldable pub dispatch_action : CardSession → CardAction → Option (Reply × List GatewayCall)
  unfolding entry_matches_session resolve_choice resolve_selection
  dispatch_action s a = of_clarify s.clarify s a
