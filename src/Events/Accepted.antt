-- ===== src/Events/Accepted.antt =====
-- What may be relied on of a card action that was parsed.
use hermes_channel_octo.Prelude.{
  ℕ, suc, ◌≤◌, ◌≡◌, ◌≢◌, refl, subst, true, false, Option, none, some, [], ◌∷◌, length, All, arith,
  ltb, if◌then◌else◌, Bool-cases, inl, inr,
}
use hermes_channel_octo.Prelude.Text.{Text, lit}
use hermes_channel_octo.Prelude.Dict.{Dict}
use hermes_channel_octo.Identity.Tokens.{strip}
use hermes_channel_octo.Events.Poller.{max_safe_event_id}
use hermes_channel_octo.Events.Json.{
  Json, null, flag, whole, minus, real, string, array, object, Members, no_members, member,
  get_member, count,
}
use hermes_channel_octo.Events.Actions.{CardAction, is_card_id}
use hermes_channel_octo.Events.Parsed.{
  max_event_input_fields, max_event_input_value_bytes, safe_event_id, is_bounded, bounded_string,
  Normalized, refused, skipped, normal, normalize, fits_bytes, with_input, inputs_of,
  max_event_envelope_bytes, envelope, is_string, parse_channel_type, parse_data, parse_inputs,
  members_of, when, parse_card_action, ◌>>=◌,
}

-- A text that is not empty, not too long, and has no control character that ends a line or a text.
abbrev pub IsBounded : ℕ → Text → Type 0
IsBounded limit s = is_bounded limit s ≡ true

-- The key is an id, and the value has an encoding within the bound.
abbrev pub IsInput : Text × Text → Type 0
IsInput (key, value) =
    (is_card_id key ≡ true) × (fits_bytes max_event_input_value_bytes value ≡ true)

pub record IsAccepted (a : CardAction) : Type 0 where
  pub event : a.event_id ≤ max_safe_event_id
  pub message : IsBounded 256 a.message_id
  pub channel : IsBounded 256 a.channel_id
  pub action : IsBounded 64 a.action_id
  pub operator : IsBounded 128 a.operator_uid
  pub few : length a.inputs ≤ max_event_input_fields
  pub inputs : All IsInput a.inputs

-- A statement that succeeded has a value, and the rest of the block succeeded with it.
bound :
    {A B C : Type 0} (o : Option A) {f : A → Option B} {b : B}
    → (o >>= f) ≡ some b
    → ((a : A) → o ≡ some a → f a ≡ some b → C)
    → C
bound none h k = absurd (cc)
bound (some a) h k = k a refl h

safe_event_id-bound : (j : Json) (n : ℕ) → safe_event_id j ≡ some n → n ≤ max_safe_event_id
safe_event_id-bound (whole m) n h = ground arith
safe_event_id-bound null n h = absurd (cc)
safe_event_id-bound (flag b) n h = absurd (cc)
safe_event_id-bound (minus m) n h = absurd (cc)
safe_event_id-bound (real b t) n h = absurd (cc)
safe_event_id-bound (string t) n h = absurd (cc)
safe_event_id-bound (array xs) n h = absurd (cc)
safe_event_id-bound (object ms) n h = absurd (cc)

checked :
    (limit : ℕ) (t s : Text)
    → (if is_bounded limit t then some t else none) ≡ some s
    → IsBounded limit s
checked limit t s h = elim (Bool-cases (is_bounded limit t)) [
  | inl b ↦ let e : some t ≡ some s = rw b at h in let same : t ≡ s = cc in rw (← same) b
  | inr b ↦ let e : none ≡ some s = rw b at h in absurd (cc)
]

bounded_string-IsBounded :
    (limit : ℕ) (j : Json) (s : Text) → bounded_string limit j ≡ some s → IsBounded limit s
bounded_string-IsBounded limit (string t) s h = checked limit (strip t) s h
bounded_string-IsBounded limit null s h = absurd (cc)
bounded_string-IsBounded limit (flag b) s h = absurd (cc)
bounded_string-IsBounded limit (whole m) s h = absurd (cc)
bounded_string-IsBounded limit (minus m) s h = absurd (cc)
bounded_string-IsBounded limit (real b t) s h = absurd (cc)
bounded_string-IsBounded limit (array xs) s h = absurd (cc)
bounded_string-IsBounded limit (object ms) s h = absurd (cc)

-- Inputs that keep to the bounds, no more than there were members.
Inputs : ℕ → Dict Text → Type 0
Inputs n d = (length d ≤ n) × All IsInput d

with_input-Inputs :
    (key : Text) (v : Normalized) (rest : Option (Dict Text)) (n : ℕ) (d : Dict Text)
    → is_card_id key ≡ true
    → ((d' : Dict Text) → rest ≡ some d' → Inputs n d')
    → with_input key v rest ≡ some d
    → Inputs (suc n) d
unfolding Inputs
with_input-Inputs key refused rest n d k r h = absurd (cc)
with_input-Inputs key skipped rest n d k r h = let (few, ins) = r d h in (omega (arith, few), ins)
with_input-Inputs key (normal v) none n d k r h = absurd (cc)
with_input-Inputs key (normal v) (some d') n d k r h =
    elim (Bool-cases (fits_bytes max_event_input_value_bytes v)) [
      | inl b ↦
          let e : some ((key, v) ∷ d') ≡ some d = rw b at h in
          let same : (key, v) ∷ d' ≡ d = cc in
          let (few, ins) = r d' refl in rw (← same) (omega (arith, few), ((k, b), ins))
      | inr b ↦ let e : none ≡ some d = rw b at h in absurd (cc)
    ]

inputs_of-step :
    (key : Text) (value : Json) (ms : Members) (d : Dict Text)
    → is_card_id key ≡ true
    → inputs_of (member key value ms) ≡ some d
    → with_input key (normalize value) (inputs_of ms) ≡ some d
inputs_of-step key value ms d b h = unfold inputs_of in rw b at h

inputs_of-none :
    (key : Text) (value : Json) (ms : Members) (d : Dict Text)
    → is_card_id key ≡ false
    → inputs_of (member key value ms) ≢ some d
inputs_of-none key value ms d b h =
    let e : none ≡ some d = unfold inputs_of in rw b at h in absurd (cc)

inputs_of-Inputs : (ms : Members) (d : Dict Text) → inputs_of ms ≡ some d → Inputs (count ms) d
inputs_of-Inputs no_members d h =
    let e : some [] ≡ some d = unfold inputs_of in h in
    let same : [] ≡ d = cc in unfold Inputs in rw (← same) (omega arith, tt)
inputs_of-Inputs (member key value ms) d h = elim (Bool-cases (is_card_id key)) [
  | inl b ↦
      with_input-Inputs key (normalize value) (inputs_of ms) (count ms) d b (inputs_of-Inputs ms)
        (inputs_of-step key value ms d b h)
  | inr b ↦ absurd (inputs_of-none key value ms d b h)
]

parse_inputs-Inputs :
    (j : Json) (d : Dict Text) → parse_inputs j ≡ some d → Inputs max_event_input_fields d
unfolding Inputs
parse_inputs-Inputs null d h = let same : [] ≡ d = cc in rw (← same) (omega arith, tt)
parse_inputs-Inputs (object ms) d h = elim (Bool-cases (ltb max_event_input_fields (count ms))) [
  | inl b ↦ let e : none ≡ some d = rw b at h in absurd (cc)
  | inr b ↦ let (few, ins) = inputs_of-Inputs ms d (rw b at h) in (ground (arith, few), ins)
]
parse_inputs-Inputs (flag b) d h = absurd (cc)
parse_inputs-Inputs (whole m) d h = absurd (cc)
parse_inputs-Inputs (minus m) d h = absurd (cc)
parse_inputs-Inputs (real b t) d h = absurd (cc)
parse_inputs-Inputs (string t) d h = absurd (cc)
parse_inputs-Inputs (array xs) d h = absurd (cc)

accepted :
    (a b : CardAction)
    → some a ≡ some b
    → a.event_id ≤ max_safe_event_id
    → IsBounded 256 a.message_id
    → IsBounded 256 a.channel_id
    → IsBounded 64 a.action_id
    → IsBounded 128 a.operator_uid
    → Inputs max_event_input_fields a.inputs
    → IsAccepted b
unfolding Inputs
accepted a b e n m c i u (few, ins) =
    let same : a ≡ b = cc in
    subst IsAccepted same (record {
      event = n;
      message = m;
      channel = c;
      action = i;
      operator = u;
      few = few;
      inputs = ins;
    })

-- A card action that the parser accepts keeps to its bounds, whatever JSON the server sends: its
-- event id is a safe integer, its ids are not empty, not too long and without line breaks, and it has
-- at most 128 inputs, each with a valid key and a value whose UTF-8 form is within 16 KiB.
pub parse_card_action-IsAccepted :
    (json : Json) (a : CardAction) → parse_card_action json ≡ some a → IsAccepted a
unfolding parse_card_action
parse_card_action-IsAccepted json a h0 = bound (members_of json) h0 λ ev _ h1.
    bound (safe_event_id (get_member ev (lit "event_id"))) h1 λ n event h2.
      bound (when (is_string (get_member ev (lit "event_type")) (lit "card_action"))) h2 λ _ _ h3.
        bound (members_of (get_member ev (lit "event_data"))) h3 λ raw _ h4.
          bound (bounded_string 256 (get_member raw (lit "message_id"))) h4 λ message_id message h5.
            bound (bounded_string 256 (get_member raw (lit "channel_id"))) h5
              λ channel_id channel h6.
                bound (parse_channel_type (get_member raw (lit "channel_type"))) h6 λ type _ h7.
                  bound (bounded_string 64 (get_member raw (lit "action_id"))) h7
                    λ action_id action h8.
                      bound (bounded_string 128 (get_member raw (lit "operator_uid"))) h8
                        λ uid operator h9.
                          bound (parse_inputs (get_member raw (lit "inputs"))) h9 λ inputs ins h10.
                            bound (parse_data (get_member raw (lit "data"))) h10 λ fields _ h11.
                              bound
                                (when
                                  (fits_bytes max_event_envelope_bytes (envelope inputs fields)))
                                h11
                                λ _ _ h12.
                                  accepted _ a h12
                                    (safe_event_id-bound (get_member ev (lit "event_id")) n event)
                                    (bounded_string-IsBounded 256
                                      (get_member raw (lit "message_id")) message_id message)
                                    (bounded_string-IsBounded 256
                                      (get_member raw (lit "channel_id")) channel_id channel)
                                    (bounded_string-IsBounded 64 (get_member raw (lit "action_id"))
                                      action_id action)
                                    (bounded_string-IsBounded 128
                                      (get_member raw (lit "operator_uid")) uid operator)
                                    (parse_inputs-Inputs (get_member raw (lit "inputs")) inputs ins)
