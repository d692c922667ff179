-- ===== src/Mention/Pointed.antt =====
-- The entities of a converted reply.
use hermes_channel_octo.Prelude.{
  ℕ, ◌+◌, ◌≡◌, refl, sym, ap, ◌∙◌, true, false, Option, List, [], ◌∷◌, ◌++◌, append_assoc, arith,
  take, drop, length, Bool-cases, inl, inr,
}
use hermes_channel_octo.Prelude.Text.{Text}
use hermes_channel_octo.Mention.{MentionEntity, WireInt, natural, utf16_length, slice}
use hermes_channel_octo.Mention.Units.{utf16, utf16-slice, utf16_length-append}
use hermes_channel_octo.Mention.Outbound.{
  StructuredMention, Converted, sort_mentions, is_valid_uid, mention_entity, onto, convert_from,
  convert_structured_mentions,
}

-- The units of the text from the offset of an entity, as many as its length.
abbrev pub pointed : Text → WireInt → WireInt → List ℕ
pointed text (natural offset) (natural length) = take length (drop offset (utf16 text))
pointed text _ _ = []

-- An entity stands for one of the mentions: it names it and points at its @name.
pub record StandsFor (text : Text) (e : MentionEntity) (m : StructuredMention) : Type 0 where
  pub same_uid : e.uid ≡ m.uid
  pub points : pointed text e.offset e.length ≡ utf16 (64 ∷ m.name)

-- The entities stand for the mentions with a valid id, one for each and in their order.
pub data StandFor (text : Text) (valid : Option (List Text))
    : List MentionEntity → List StructuredMention → Type 0 where
  nobody : StandFor text valid [] []
  entity :
      {e : MentionEntity} {m : StructuredMention} {es : List MentionEntity}
      {ms : List StructuredMention}
      → is_valid_uid valid m.uid ≡ true
      → StandsFor text e m
      → StandFor text valid es ms
      → StandFor text valid (e ∷ es) (m ∷ ms)
  invalid :
      {m : StructuredMention} {es : List MentionEntity} {ms : List StructuredMention}
      → is_valid_uid valid m.uid ≡ false
      → StandFor text valid es ms
      → StandFor text valid es (m ∷ ms)

-- What is built when a mention has been reached points at it.
mention-StandsFor :
    (built between after : Text) (m : StructuredMention)
    → StandsFor
        (built ++ (between ++ 64 ∷ m.name) ++ after)
        (mention_entity m.uid (utf16_length built + utf16_length between) (64 ∷ m.name))
        m
mention-StandsFor built between after m =
    let shown = 64 ∷ m.name in
    let n = utf16_length shown in
    let whole : (built ++ (between ++ shown)) ++ after ≡ (built ++ between) ++ (shown ++ after) =
      rw (append_assoc, append_assoc, append_assoc) refl in
    record {
      same_uid = refl;
      points =
          ap (λ u. take n (drop (utf16_length built + utf16_length between) (utf16 u))) whole
          ∙ ap (λ k. take n (drop k (utf16 ((built ++ between) ++ (shown ++ after)))))
              (sym (utf16_length-append built between))
          ∙ utf16-slice (built ++ between) shown after;
    }

onto-StandFor :
    (built between : Text) (valid : Option (List Text)) (m : StructuredMention)
    (ms : List StructuredMention) (rest : Converted)
    → let shown = between ++ 64 ∷ m.name in
      let e = mention_entity m.uid (utf16_length built + utf16_length between) (64 ∷ m.name) in
      let c = onto shown (is_valid_uid valid m.uid) e rest in
      StandFor ((built ++ shown) ++ rest.content) valid rest.entities ms
      → StandFor (built ++ c.content) valid c.entities (m ∷ ms)
onto-StandFor built between valid m ms rest h =
    let shown = between ++ 64 ∷ m.name in
    elim (Bool-cases (is_valid_uid valid m.uid)) [
      | inl t ↦
          rw (t, sym (append_assoc built shown rest.content))
            (entity t (mention-StandsFor built between rest.content m) h)
      | inr t ↦ rw (t, sym (append_assoc built shown rest.content)) (invalid t h)
    ]

convert_from-StandFor :
    (text : Text) (valid : Option (List Text)) (cursor : ℕ) (built : Text)
    (ms : List StructuredMention)
    → let c = convert_from text valid cursor (utf16_length built) ms in
      StandFor (built ++ c.content) valid c.entities ms
unfolding convert_from
convert_from-StandFor text valid cursor built [] = nobody
convert_from-StandFor text valid cursor built (m ∷ ms) =
    let between = slice text cursor m.offset in
    let shown = 64 ∷ m.name in
    let at = utf16_length built + utf16_length between in
    let rest = convert_from text valid (m.offset + m.length) (at + utf16_length shown) ms in
    let next : utf16_length (built ++ (between ++ shown)) ≡ at + utf16_length shown =
      omega
        (arith, utf16_length-append built (between ++ shown), utf16_length-append between shown) in
    onto-StandFor built between valid m ms rest (
      rw next at
        (convert_from-StandFor text valid (m.offset + m.length) (built ++ (between ++ shown)) ms))

-- Of a converted reply, the entities stand for the mentions with a valid id, one for each and in the
-- order of the offsets, and point at them: the code units of the new text from an entity's offset,
-- as many as its length, are those of the mention's @name, whatever characters the text has.
pub convert_structured_mentions-StandFor :
    (text : Text) (mentions : List StructuredMention) (valid : Option (List Text))
    → let c = convert_structured_mentions text mentions valid in
      StandFor c.content valid c.entities (sort_mentions mentions)
unfolding convert_structured_mentions utf16_length
convert_structured_mentions-StandFor text mentions valid =
    convert_from-StandFor text valid 0 [] (sort_mentions mentions)
