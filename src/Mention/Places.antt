-- ===== src/Mention/Places.antt =====
-- The entities of a reply in pieces, found again in its text.
use hermes_channel_octo.Prelude.{
  ℕ, ◌+◌, ◌*◌, ◌≤◌, ◌≡◌, refl, sym, ◌∙◌, true, false, some, List, [], ◌∷◌, ◌++◌, length,
  length-append, append_assoc, get_elem?, All, arith, ltb, leb,
}
use hermes_channel_octo.Prelude.Text.{Text, nonempty}
use hermes_channel_octo.Mention.{utf16_length}
use hermes_channel_octo.Mention.Units.{utf16_length-append}
use hermes_channel_octo.Mention.Inbound.{
  Place, Range, valid_entities, within, boundary_targets, member, index_of, boundaries_of, ranges,
  insert_range, sort_ranges, overlaps, entity_ranges,
}
use hermes_channel_octo.Mention.Boundaries.{index_of-boundary}
use hermes_channel_octo.Mention.Pieces.{Piece, sent, entities_at, regroup}

abbrev pub Named : Piece → Type 0
Named p = nonempty p.uid ≡ true

abbrev pub places_at : ℕ → List Piece → List Place
places_at u [] = []
places_at u (p ∷ ps) =
    let at = u + utf16_length p.before in
    let size = utf16_length (64 ∷ p.name) in
    record { uid = p.uid; offset = at; length = size } ∷ places_at (at + size) ps

abbrev pub ranges_at : ℕ → List Piece → List Range
ranges_at k [] = []
ranges_at k (p ∷ ps) =
    let at = k + length p.before in
    let end = at + (1 + length p.name) in
    record { uid = p.uid; start = at; end = end } ∷ ranges_at end ps

valid-entities_at :
    (u : ℕ) (ps : List Piece) → All Named ps → valid_entities (entities_at u ps) ≡ places_at u ps
unfolding valid_entities utf16_length
valid-entities_at u [] h = refl
valid-entities_at u (p ∷ ps) (n, h) =
    let at = u + utf16_length p.before in
    let long : ltb 0 (1 + utf16_length p.name) ≡ true = ground arith in
    rw (valid_entities, n, long, valid-entities_at (at + utf16_length (64 ∷ p.name)) ps h) refl

-- Both boundaries of the place are among the targets.
abbrev InTargets : List ℕ → Place → Type 0
InTargets ts p = (member p.offset ts ≡ true) × (member (p.offset + p.length) ts ≡ true)

abbrev Below : ℕ → Place → Type 0
Below limit p = p.offset + p.length ≤ limit

member-within :
    (limit b n : ℕ) (ts : List ℕ) → member n ts ≡ true → member n (within limit b ts) ≡ true
unfolding member
member-within limit b n ts h = ground arith

within-member : (limit b : ℕ) (ts : List ℕ) → b ≤ limit → member b (within limit b ts) ≡ true
unfolding member
within-member limit b ts h = ground arith

All-InTargets :
    (limit b : ℕ) (ts : List ℕ) (ps : List Place)
    → All (InTargets ts) ps
    → All (InTargets (within limit b ts)) ps
All-InTargets limit b ts [] h = tt
All-InTargets limit b ts (p ∷ ps) ((h, k), hs) = (
  (member-within limit b p.offset ts h, member-within limit b (p.offset + p.length) ts k),
  All-InTargets limit b ts ps hs,
)

targets_complete :
    (limit : ℕ) (ps : List Place)
    → All (Below limit) ps
    → All (InTargets (boundary_targets limit ps)) ps
unfolding boundary_targets
targets_complete limit [] h = tt
targets_complete limit (p ∷ ps) (h, hs) =
    let rest = boundary_targets limit ps in
    let ends = within limit (p.offset + p.length) rest in
    (
      (
        within-member limit p.offset ends (omega (arith, h)),
        member-within limit p.offset (p.offset + p.length) ends
            (within-member limit (p.offset + p.length) rest h),
      ),
      All-InTargets limit p.offset ends ps
          (All-InTargets limit (p.offset + p.length) rest ps (targets_complete limit ps hs)),
    )

utf16_length_bound : (s : Text) → utf16_length s ≤ 2 * length s
unfolding utf16_length
utf16_length_bound [] = omega arith
utf16_length_bound (c ∷ s) = ground (arith, utf16_length_bound s)

places_at-Below :
    (u limit : ℕ) (ps : List Piece) (tail : Text)
    → u + utf16_length (sent ps tail) ≤ limit
    → All (Below limit) (places_at u ps)
places_at-Below u limit [] tail h = tt
places_at-Below u limit (p ∷ ps) tail h =
    let at = u + utf16_length p.before in
    let size = utf16_length (64 ∷ p.name) in
    let parts = utf16_length-append p.before ((64 ∷ p.name) ++ sent ps tail) in
    let more = utf16_length-append (64 ∷ p.name) (sent ps tail) in
    (
      omega (arith, h, parts, more),
      places_at-Below (at + size) limit ps tail (omega (arith, h, parts, more)),
    )

char_at : (a b : Text) (c : ℕ) → get_elem? (a ++ c ∷ b) (length a) ≡ some c
char_at [] b c = refl
char_at (x ∷ a) b c = char_at a b c

boundary_at :
    (targets : List ℕ) (text a b : Text) (n k : ℕ)
    → text ≡ a ++ b
    → n ≡ utf16_length a
    → k ≡ length a
    → member n targets ≡ true
    → index_of (boundaries_of text targets) text n ≡ some k
boundary_at targets text a b n k e u s h = rw (e, u, s) (index_of-boundary targets a b (rw u at h))

ranges-places_at :
    (targets : List ℕ) (text done tail : Text) (u k : ℕ) (ps : List Piece)
    → text ≡ done ++ sent ps tail
    → u ≡ utf16_length done
    → k ≡ length done
    → All (InTargets targets) (places_at u ps)
    → ranges (boundaries_of text targets) text (places_at u ps) ≡ ranges_at k ps
unfolding ranges
ranges-places_at targets text done tail u k [] e s t h = refl
ranges-places_at targets text done tail u k (p ∷ ps) e s t ((h1, h2), h) =
    let name = 64 ∷ p.name in
    let before = done ++ p.before in
    let done' = before ++ name in
    let rest = sent ps tail in
    let whole : text ≡ done' ++ rest = e ∙ regroup done p.before name rest in
    let half : text ≡ before ++ (name ++ rest) =
      e ∙ sym (append_assoc done p.before (name ++ rest)) in
    let at : u + utf16_length p.before ≡ utf16_length before =
      omega (arith, s, utf16_length-append done p.before) in
    let at' : u + utf16_length p.before + utf16_length name ≡ utf16_length done' =
      omega (arith, at, utf16_length-append before name) in
    let ix : k + length p.before ≡ length before = omega (arith, t, length-append done p.before) in
    let ix' : k + length p.before + (1 + length p.name) ≡ length done' =
      omega (arith, ix, length-append before name) in
    let start = boundary_at targets text before (name ++ rest) _ _ half at ix h1 in
    let end = boundary_at targets text done' rest _ _ whole at' ix' h2 in
    let sign : get_elem? text (k + length p.before) ≡ some 64 =
      rw (half, ix) (char_at before (p.name ++ rest) 64) in
    let next = ranges-places_at targets text done' tail _ _ ps whole at' ix' h in
    let wide : leb (k + length p.before + (1 + length p.name)) (k + length p.before) ≡ false =
      ground arith in
    rw (ranges, start, end, wide, sign, next) refl

insert-first_range :
    (k : ℕ) (r : Range) (ps : List Piece)
    → r.start ≤ k
    → insert_range r (ranges_at k ps) ≡ r ∷ ranges_at k ps
unfolding insert_range
insert-first_range k r [] h = refl
insert-first_range k r (p ∷ ps) h =
    let first : leb r.start (k + length p.before) ≡ true = ground arith in rw first refl

sort-ranges_at : (k : ℕ) (ps : List Piece) → sort_ranges (ranges_at k ps) ≡ ranges_at k ps
unfolding sort_ranges
sort-ranges_at k [] = refl
sort-ranges_at k (p ∷ ps) =
    let end = k + length p.before + (1 + length p.name) in
    rw (sort-ranges_at end ps) (insert-first_range end _ ps (omega arith))

pub overlaps-ranges_at : (k : ℕ) (ps : List Piece) → overlaps (ranges_at k ps) ≡ false
unfolding overlaps
overlaps-ranges_at k [] = refl
overlaps-ranges_at k (p ∷ []) = refl
overlaps-ranges_at k (p ∷ q ∷ ps) =
    let end = k + length p.before + (1 + length p.name) in
    let apart : ltb (end + length q.before) end ≡ false = ground arith in
    rw apart (overlaps-ranges_at end (q ∷ ps))

-- The whole way from the entities of a reply to their ranges.
pub entity_ranges-pieces :
    (ps : List Piece) (tail : Text)
    → All Named ps
    → entity_ranges (sent ps tail) (entities_at 0 ps) ≡ ranges_at 0 ps
unfolding entity_ranges utf16_length
entity_ranges-pieces ps tail h =
    let text = sent ps tail in
    let limit = 2 * length text in
    let places = places_at 0 ps in
    let below = places_at-Below 0 limit ps tail (omega (arith, utf16_length_bound text)) in
    let targets = boundary_targets limit places in
    rw
      (
        valid-entities_at 0 ps h,
        ranges-places_at targets text [] tail 0 0 ps refl refl refl
            (targets_complete limit places below),
      )
      (sort-ranges_at 0 ps)
