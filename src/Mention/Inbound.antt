-- ===== src/Mention/Inbound.antt =====
-- The mentions of an inbound message: `convert_content_for_llm`, for content that is text, and a
-- payload as `_coerce_mention` leaves it.
use hermes_channel_octo.Prelude.{
  ℕ, ◌+◌, ◌*◌, Bool, false, not, ◌&&◌, ◌||◌, Option, none, some, List, [], ◌∷◌, ◌++◌, length, max,
  take, drop, get_elem?, all, ltb, leb, ◌==◌, if◌then◌else◌,
}
use hermes_channel_octo.Prelude.Text.{Text, nonempty}
use hermes_channel_octo.Mention.{
  MentionEntity, WireInt, natural, units, slice, neutralize_structured_mention_envelopes, envelope,
}

-- none in the list of ids is a value that is no text.
pub record MentionPayload : Type 0 where
  pub uids : Option (List (Option Text))
  pub entities : Option (List MentionEntity)

-- An entity that names someone and has a place.
pub record Place : Type 0 where
  pub uid : Text
  pub offset : ℕ
  pub length : ℕ

abbrev pub place_of : MentionEntity → WireInt → WireInt → Option Place
place_of e (natural o) (natural l) =
    if nonempty e.uid && ltb 0 l
    then some (record { uid = e.uid; offset = o; length = l })
    else none
place_of e _ _ = none

unfoldable pub valid_entities : List MentionEntity → List Place
valid_entities [] = []
valid_entities (e ∷ es) =
    let rest = valid_entities es in
    elim (place_of e e.offset e.length) [ none ↦ rest | some p ↦ p ∷ rest ]

abbrev pub within : ℕ → ℕ → List ℕ → List ℕ
within limit b bs = if leb b limit then b ∷ bs else bs

unfoldable pub boundary_targets : ℕ → List Place → List ℕ
boundary_targets limit [] = []
boundary_targets limit (p ∷ ps) =
    within limit p.offset (within limit (p.offset + p.length) (boundary_targets limit ps))

unfoldable pub maximum : List ℕ → ℕ
maximum [] = 0
maximum (n ∷ ns) = max n (maximum ns)

unfoldable pub member : ℕ → List ℕ → Bool
member n [] = false
member n (m ∷ ms) = n == m || member n ms

unfoldable pub boundaries_from : List ℕ → ℕ → ℕ → Text → List (ℕ × ℕ)
unfolding member maximum
boundaries_from targets at index [] = []
boundaries_from targets at index (c ∷ s) =
    let at' = at + units c in
    let more = boundaries_from targets at' (index + 1) s in
    let rest = if leb (maximum targets) at' then [] else more in
    if member at' targets then (at', index + 1) ∷ rest else rest

unfoldable pub utf16_boundaries : Text → List ℕ → List (ℕ × ℕ)
unfolding boundaries_from
utf16_boundaries text targets =
    let start = if member 0 targets then (0, 0) ∷ [] else [] in
    if nonempty targets then start ++ boundaries_from targets 0 0 text else start

unfoldable pub find : List (ℕ × ℕ) → ℕ → Option ℕ
find [] n = none
find ((k, v) ∷ d) n = if k == n then some v else find d n

-- The index in the text of a boundary: none where the text has none there. `boundaries` is none
-- where code units and characters agree.
unfoldable pub index_of : Option (List (ℕ × ℕ)) → Text → ℕ → Option ℕ
unfolding find
index_of none text n = if leb n (length text) then some n else none
index_of (some boundaries) text n = find boundaries n

pub record Range : Type 0 where
  pub uid : Text
  pub start : ℕ
  pub end : ℕ

abbrev pub is_at : Option ℕ → Bool
is_at none = false
is_at (some c) = c == 64

abbrev pub range_of : Text → Place → Option ℕ → Option ℕ → Option Range
range_of text p (some start) (some end) =
    if leb end start || not (is_at (get_elem? text start))
    then none
    else some (record { uid = p.uid; start = start; end = end })
range_of text p _ _ = none

unfoldable pub ranges : Option (List (ℕ × ℕ)) → Text → List Place → List Range
unfolding index_of
ranges boundaries text [] = []
ranges boundaries text (p ∷ ps) =
    let rest = ranges boundaries text ps in
    let found =
      range_of text p (index_of boundaries text p.offset)
        (index_of boundaries text (p.offset + p.length)) in
    elim found [ none ↦ rest | some r ↦ r ∷ rest ]

unfoldable pub insert_range : Range → List Range → List Range
insert_range r [] = r ∷ []
insert_range r (x ∷ xs) = if leb r.start x.start then r ∷ x ∷ xs else x ∷ insert_range r xs

-- sorted(entity_ranges, key=lambda item: item[1])
unfoldable pub sort_ranges : List Range → List Range
unfolding insert_range
sort_ranges [] = []
sort_ranges (r ∷ rs) = insert_range r (sort_ranges rs)

unfoldable pub overlaps : List Range → Bool
overlaps [] = false
overlaps (r ∷ []) = false
overlaps (r ∷ q ∷ rs) = ltb q.start r.end || overlaps (q ∷ rs)

pub record Replacement : Type 0 where
  pub start : ℕ
  pub end : ℕ
  pub text : Text

-- The loop of `_render_trusted_replacements`.
unfoldable pub render_from : Text → ℕ → List Replacement → Text
unfolding neutralize_structured_mention_envelopes
render_from content cursor [] = neutralize_structured_mention_envelopes (drop cursor content)
render_from content cursor (r ∷ rs) =
    neutralize_structured_mention_envelopes (slice content cursor r.start)
    ++ (r.text ++ render_from content r.end rs)

unfoldable pub replacements_of : Text → List Range → List Replacement
replacements_of content [] = []
replacements_of content (r ∷ rs) =
    record {
      start = r.start;
      end = r.end;
      text = envelope r.uid (slice content (r.start + 1) r.end);
    }
    ∷ replacements_of content rs

-- The boundaries of the entities of a text, or none where no character takes two units.
unfoldable pub boundaries_of : Text → List ℕ → Option (List (ℕ × ℕ))
unfolding maximum utf16_boundaries
boundaries_of content targets =
    if all (λ c. leb c 0xFFFF) (take (maximum targets) content)
    then none
    else some (utf16_boundaries content targets)

unfoldable pub entity_ranges : Text → List MentionEntity → List Range
unfolding valid_entities boundary_targets boundaries_of ranges sort_ranges
entity_ranges content entities =
    let places = valid_entities entities in
    let targets = boundary_targets (2 * length content) places in
    sort_ranges (ranges (boundaries_of content targets) content places)
