-- ===== src/Mention/Returned.antt =====
-- A reply that comes back as an inbound message.
use hermes_channel_octo.Prelude.{
  ℕ, ◌+◌, ◌≡◌, refl, ◌∙◌, Bool, false, Option, some, List, [], ◌∷◌, ◌++◌, length, length-append,
  All, arith,
}
use hermes_channel_octo.Prelude.Text.{Text}
use hermes_channel_octo.Prelude.Dict.{Dict}
use hermes_channel_octo.Mention.{slice}
use hermes_channel_octo.Mention.Outbound.{convert_structured_mentions, parse_structured_mentions}
use hermes_channel_octo.Mention.Inbound.{render_from, replacements_of}
use hermes_channel_octo.Mention.Names.{convert_content_for_llm}
use hermes_channel_octo.Mention.Neutral.{IsNeutral, neutralize-same}
use hermes_channel_octo.Mention.Parsed.{Matched, parse_structured_mentions-written}
use hermes_channel_octo.Mention.Pieces.{
  Piece, written, sent, slice-part, drop-part, regroup, Allowed, convert-pieces,
}
use hermes_channel_octo.Mention.Places.{Named, ranges_at, overlaps-ranges_at, entity_ranges-pieces}

abbrev pub Plain : Piece → Type 0
Plain p = IsNeutral p.before

render_from-pieces :
    (text done tail : Text) (k : ℕ) (ps : List Piece)
    → text ≡ done ++ sent ps tail
    → k ≡ length done
    → All Plain ps
    → IsNeutral tail
    → render_from text k (replacements_of text (ranges_at k ps)) ≡ written ps tail
unfolding render_from replacements_of
render_from-pieces text done tail k [] e s h t =
    rw (render_from, drop-part done tail text k e s) (neutralize-same tail t)
render_from-pieces text done tail k (p ∷ ps) e s (n, h) t =
    let rest = sent ps tail in
    let at = k + length p.before in
    let end = at + (1 + length p.name) in
    let sign = (done ++ p.before) ++ 64 ∷ [] in
    let done' = (done ++ p.before) ++ 64 ∷ p.name in
    let whole : text ≡ done' ++ rest = e ∙ regroup done p.before (64 ∷ p.name) rest in
    let size : end ≡ length done' =
      omega
        (arith, s, length-append (done ++ p.before) (64 ∷ p.name), length-append done p.before) in
    let behind : text ≡ sign ++ (p.name ++ rest) =
      e ∙ regroup done p.before (64 ∷ []) (p.name ++ rest) in
    let one : at + 1 ≡ length sign =
      omega (arith, s, length-append (done ++ p.before) (64 ∷ []), length-append done p.before) in
    let before : slice text k at ≡ p.before =
      slice-part done p.before ((64 ∷ p.name) ++ rest) text k at e s (omega (arith, s)) in
    let name : slice text (at + 1) end ≡ p.name =
      slice-part sign p.name rest text (at + 1) end behind one (omega (arith, one)) in
    let next = render_from-pieces text done' tail end ps whole size h t in
    rw (render_from, replacements_of, before, neutralize-same p.before n, name, next) refl

All-Named :
    (is_word : ℕ → Bool) (no_colon : is_word 58 ≡ false) (ps : List Piece)
    → All (Matched is_word no_colon) ps
    → All Named ps × All Plain ps
All-Named is_word no_colon [] h = (tt, tt)
All-Named is_word no_colon (p ∷ ps) (m, h) =
    let (named, plain) = All-Named is_word no_colon ps h in ((m.has_uid, named), (m.plain, plain))

-- Mentions survive the way out and back in: when the structured mentions of a reply are parsed and
-- converted, and the message comes back with its entities, the reply itself is shown again, with
-- every mention at its place, whatever characters stand around them and whoever the members are. The
-- reply has at least one mention, and each of them is of a person who may be mentioned, if these are
-- restricted; ids and names have only the characters that the pattern takes, and
-- no other envelope begins in the text. A colon is no word character.
pub convert_content_for_llm-convert_structured_mentions :
    (is_word : ℕ → Bool)
    → (no_colon : is_word 58 ≡ false)
    → (members : Dict Text) (uids : Option (List (Option Text))) (valid : Option (List Text))
      (p : Piece) (ps : List Piece) (tail : Text)
    → All (Matched is_word no_colon) (p ∷ ps)
    → All (Allowed valid) (p ∷ ps)
    → IsNeutral tail
    → let text = written (p ∷ ps) tail in
      let c = convert_structured_mentions text (parse_structured_mentions is_word text) valid in
      convert_content_for_llm is_word c.content
        (some (record { uids = uids; entities = some c.entities }))
        members
      ≡ text
unfolding convert_content_for_llm
convert_content_for_llm-convert_structured_mentions is_word no_colon members uids valid p ps tail h
      a t =
    let (named, plain) = All-Named is_word no_colon (p ∷ ps) h in
    rw
      (
        parse_structured_mentions-written is_word no_colon (p ∷ ps) tail h t,
        convert-pieces valid (p ∷ ps) tail a,
        entity_ranges-pieces (p ∷ ps) tail named,
        overlaps-ranges_at 0 (p ∷ ps),
      )
      (render_from-pieces (sent (p ∷ ps) tail) [] tail 0 (p ∷ ps) refl refl plain t)
