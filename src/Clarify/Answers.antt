-- ===== src/Clarify/Answers.antt =====
-- What the gateway is told of an action, against `selected_choices`.
use hermes_channel_octo.Prelude.{
  ◌≡◌, refl, ap, Bool, true, false, not, Option, none, some, List, [], ◌∷◌, all, any, if◌then◌else◌,
  arith, inl, inr, Bool-cases, Option-cases,
}
use hermes_channel_octo.Prelude.Text.{Text, text_eq, text_eq_iff, text_eq_refl, text_in, nonempty}
use hermes_channel_octo.Prelude.Dict
use hermes_channel_octo.Sessions.Data.{CardSession, ClarifySession}
use hermes_channel_octo.Events.Actions.{CardAction}
use hermes_channel_octo.Clarify.{
  Reply, flag, Gateway, GatewayEntry, GatewayCall, is_text, is_stripped, selected_ids, choices_in,
  choices_of, known, is_selection, chosen, selected_choices, entry_matches_session, json_array,
  resolving, resolve_choice, resolve_selection, dispatch_action,
}

any-not : {A : Type 0} (p : A → Bool) (xs : List A) → any (λ x. not (p x)) xs ≡ not (all p xs)
any-not p [] = refl
any-not p (x ∷ xs) = elim (Bool-cases (p x)) [
  | inl h ↦ rw (h, any-not p xs) refl
  | inr h ↦ rw h refl
]

choices_in-nonempty :
    (ids : List Text) (choices : List (Text × Text)) (id : Text)
    → text_in id ids ≡ true
    → known choices id ≡ true
    → nonempty (choices_in ids choices) ≡ true
unfolding choices_in known
choices_in-nonempty ids [] id h k = absurd (cc)
choices_in-nonempty ids ((key, choice) ∷ more) id h k = elim (Bool-cases (text_in key ids)) [
  | inl t ↦ rw t refl
  | inr t ↦ rw t (choices_in-nonempty ids more id h (ground (arith, text_eq_iff id key)))
]

chosen-nonempty :
    (choices : List (Text × Text)) (ids : List Text)
    → nonempty (chosen choices ids) ≡ is_selection choices ids
unfolding is_selection text_in
chosen-nonempty choices [] = refl
chosen-nonempty choices (id ∷ ids) = elim (Bool-cases (is_selection choices (id ∷ ids))) [
  | inl t ↦
      rw (t)
        (choices_in-nonempty (id ∷ ids) choices id (rw (text_in, text_eq_refl) refl) (ground arith))
  | inr t ↦ rw (t) refl
]

-- The response for some choices: the choice itself, or all of them as JSON.
abbrev pub response_of : ClarifySession → List Text → Option Text
response_of c [] = none
response_of c (t ∷ ts) = some (if c.multi_select then json_array (t ∷ ts) else t)

abbrev pub telling : Gateway → ClarifySession → Option Text → Reply × List GatewayCall
telling g c none = (flag false, [])
telling g c (some response) = resolving g c response

module _ (g : Gateway) (c : ClarifySession) where
  resolve_choice-first :
      c.multi_select ≡ false
      → (id : Text) (choices : List (Text × Text))
      → resolve_choice g c id choices ≡ telling g c (response_of c (choices_of id choices))
  unfolding resolve_choice choices_of
  resolve_choice-first m id [] = refl
  resolve_choice-first m id ((key, choice) ∷ more) = elim (Bool-cases (text_eq id key)) [
    | inl t ↦
        let k : text_eq key id ≡ true = ground (arith, text_eq_iff id key, text_eq_iff key id) in
        rw (t, k, m) refl
    | inr t ↦
        let k : text_eq key id ≡ false = ground (arith, text_eq_iff id key, text_eq_iff key id) in
        rw (t, k) (resolve_choice-first m id more)
  ]

  response_of-all :
      c.multi_select ≡ true
      → (ts : List Text) → nonempty ts ≡ true
      → response_of c ts ≡ some (json_array ts)
  response_of-all m [] h = absurd (cc)
  response_of-all m (t ∷ ts) h = rw m refl

  resolve_selection-chosen :
      c.multi_select ≡ true
      → (ids : List Text)
      → resolve_selection g c ids ≡ telling g c (response_of c (chosen c.action_choices ids))
  unfolding resolve_selection is_selection
  resolve_selection-chosen m ids = elim (Bool-cases (is_selection c.action_choices ids)) [
    | inl t ↦
        let full : nonempty (choices_in ids c.action_choices) ≡ true =
          rw t at (chosen-nonempty c.action_choices ids) in
        rw (t, response_of-all m (choices_in ids c.action_choices) full, any-not is_stripped ids)
          (ground arith)
    | inr t ↦ rw (t, any-not is_stripped ids) (ground arith)
  ]

-- For a question that the gateway still has, what it gets from an action is exactly what
-- `selected_choices` reads from the action: nothing where that is empty, and otherwise one answer,
-- the first of the choices, or all of them as JSON where several may be selected. The action for
-- another answer is excluded.
pub dispatch_action-selected_choices :
    (g : Gateway) (s : CardSession) (c : ClarifySession) (e : GatewayEntry) (a : CardAction)
    → s.clarify ≡ some c
    → g.find c.clarify_id ≡ some e
    → entry_matches_session e s c ≡ true
    → text_eq a.action_id c.other_action_id ≡ false
    → dispatch_action g s a ≡ some (telling g c (response_of c (selected_choices c a)))
unfolding dispatch_action selected_choices
dispatch_action-selected_choices g s c e a h k match other =
    rw (dispatch_action, h, k, match, other)
      (elim (Bool-cases c.multi_select) [
        | inr m ↦ simp m (ap some (resolve_choice-first g c m a.action_id c.action_choices))
        | inl m ↦ elim (Bool-cases (is_text a.action_id c.confirm_action_id)) [
          | inr t ↦ simp (m, t) refl
          | inl t ↦ elim (Option-cases c.input_id) [
            | inl i ↦ simp (m, t, i) refl
            | inr (input, i) ↦
                simp (m, t, i)
                  (ap some
                    (resolve_selection-chosen g c m (selected_ids (Dict.get a.inputs input))))
          ]
        ]
      ])
