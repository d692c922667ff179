-- ===== src/Mention/Boundaries.antt =====
-- Where the boundaries of the entities are found in a text.
use hermes_channel_octo.Prelude.{
  ℕ, zero, suc, ◌+◌, ◌≤◌, ◌<◌, ◌≡◌, refl, ap, true, false, some, List, [], ◌∷◌, ◌++◌, length,
  length-append, take, all, arith, leb, ◌==◌, Bool-cases, inl, inr,
}
use hermes_channel_octo.Prelude.Text.{Text, nonempty}
use hermes_channel_octo.Mention.{units, utf16_length}
use hermes_channel_octo.Mention.Inbound.{
  maximum, member, boundaries_from, utf16_boundaries, find, index_of, boundaries_of,
}

pub member-maximum : (n : ℕ) (ns : List ℕ) → member n ns ≡ true → n ≤ maximum ns
unfolding member maximum
member-maximum n [] h = absurd (cc)
member-maximum n (m ∷ ms) h = elim (Bool-cases (n == m)) [
  | inl t ↦ ground arith
  | inr t ↦ let k : n ≤ maximum ms = member-maximum n ms (ground arith) in omega (arith, k)
]

member-nonempty : (n : ℕ) (ns : List ℕ) → member n ns ≡ true → nonempty ns ≡ true
unfolding member
member-nonempty n [] h = absurd (cc)
member-nonempty n (m ∷ ms) h = refl

narrow_units :
    (limit : ℕ) (before after : Text)
    → all (λ c. leb c 0xFFFF) (take limit (before ++ after)) ≡ true
    → utf16_length before ≤ limit
    → utf16_length before ≡ length before
unfolding utf16_length
narrow_units limit [] after h k = refl
narrow_units zero (c ∷ s) after h k = absurd (ground arith)
narrow_units (suc limit) (c ∷ s) after h k =
    let narrow : leb c 0xFFFF ≡ true = ground arith in
    let rest = narrow_units limit s after (ground arith) (ground arith) in
    ground (arith, rest, narrow)

boundaries_from-find :
    (targets : List ℕ) (n at index c : ℕ) (before after : Text)
    → n ≡ at + utf16_length (c ∷ before)
    → member n targets ≡ true
    → find (boundaries_from targets at index (c ∷ before ++ after)) n
      ≡ some (index + length (c ∷ before))
unfolding boundaries_from find utf16_length
boundaries_from-find targets n at index c [] after e h =
    let here : at + units c ≡ n = omega arith in
    let there : member (at + units c) targets ≡ true = rw here h in rw there (ground arith)
boundaries_from-find targets n at index c (d ∷ before) after e h =
    let at' = at + units c in
    let later : at' < n = ground arith in
    let bound = member-maximum n targets h in
    let next = boundaries_from-find targets n at' (index + 1) d before after (omega arith) h in
    let more : leb (maximum targets) at' ≡ false = ground arith in
    let other : (at' == n) ≡ false = ground arith in
    elim (Bool-cases (member at' targets)) [
      | inl t ↦ rw (t, more, other) (ground (arith, next))
      | inr t ↦ rw (t, more) (ground (arith, next))
    ]

utf16_boundaries-find :
    (targets : List ℕ) (before after : Text)
    → member (utf16_length before) targets ≡ true
    → find (utf16_boundaries (before ++ after) targets) (utf16_length before) ≡ some (length before)
unfolding utf16_boundaries find utf16_length
utf16_boundaries-find targets [] after h = rw (h, member-nonempty 0 targets h) (ground arith)
utf16_boundaries-find targets (c ∷ before) after h =
    let found =
      boundaries_from-find targets (units c + utf16_length before) 0 0 c before after (ground arith)
        h in
    let full = member-nonempty (units c + utf16_length before) targets h in
    let other : (0 == units c + utf16_length before) ≡ false = ground arith in
    elim (Bool-cases (member 0 targets)) [
      | inl t ↦ rw (t, full, other) (ground (arith, found))
      | inr t ↦ rw (t, full) (ground (arith, found))
    ]

-- The boundary behind the first part of a text is found at the length of that part.
pub index_of-boundary :
    (targets : List ℕ) (before after : Text)
    → member (utf16_length before) targets ≡ true
    → index_of (boundaries_of (before ++ after) targets) (before ++ after) (utf16_length before)
      ≡ some (length before)
unfolding boundaries_of index_of
index_of-boundary targets before after h =
    elim (Bool-cases (all (λ c. leb c 0xFFFF) (take (maximum targets) (before ++ after)))) [
      | inl t ↦
          let same =
            narrow_units (maximum targets) before after t
              (member-maximum (utf16_length before) targets h) in
          let fits : leb (utf16_length before) (length (before ++ after)) ≡ true =
            ground (arith, same, length-append before after) in
          rw (t, fits) (ap some same)
      | inr t ↦ rw t (utf16_boundaries-find targets before after h)
    ]
