-- ===== src/Mention/Units.antt =====
-- UTF-16 code units of a text, as the clients see it.
use hermes_channel_octo.Prelude.{
  ℕ, ◌+◌, ◌-◌, ◌/◌, ◌%◌, ◌≤◌, ◌≡◌, refl, sym, ap, ◌∙◌, List, [], ◌∷◌, ◌++◌, length, length-append,
  take, drop, take-append, drop-append, append_assoc, arith, ltb, if◌then◌else◌,
}
use hermes_channel_octo.Prelude.Text.{Text}
use hermes_channel_octo.Mention.{units, utf16_length}

abbrev pub code_units : ℕ → List ℕ
code_units c =
    if ltb 0xFFFF c
    then (0xD800 + (c - 0x10000) / 1024) ∷ (0xDC00 + (c - 0x10000) % 1024) ∷ []
    else c ∷ []

unfoldable pub utf16 : Text → List ℕ
utf16 [] = []
utf16 (c ∷ s) = code_units c ++ utf16 s

pub utf16-append : (s t : Text) → utf16 (s ++ t) ≡ utf16 s ++ utf16 t
unfolding utf16
utf16-append [] t = refl
utf16-append (c ∷ s) t = rw (utf16-append s t, append_assoc (code_units c) (utf16 s) (utf16 t)) refl

length-code_units : (c : ℕ) → length (code_units c) ≡ units c
length-code_units c = ground arith

pub length-utf16 : (s : Text) → length (utf16 s) ≡ utf16_length s
unfolding utf16 utf16_length
length-utf16 [] = refl
length-utf16 (c ∷ s) =
    omega (arith, length-append (code_units c) (utf16 s), length-code_units c, length-utf16 s)

pub utf16_length-append : (s t : Text) → utf16_length (s ++ t) ≡ utf16_length s + utf16_length t
unfolding utf16_length
utf16_length-append [] t = omega arith
utf16_length-append (c ∷ s) t = omega (arith, utf16_length-append s t)

pub length-utf16_length : (s : Text) → length s ≤ utf16_length s
unfolding utf16_length
length-utf16_length [] = omega arith
length-utf16_length (c ∷ s) = ground (arith, length-utf16_length s)

-- A part of a text is found by its units.
pub utf16-slice :
    (before part after : Text)
    → take (utf16_length part) (drop (utf16_length before) (utf16 (before ++ (part ++ after))))
      ≡ utf16 part
utf16-slice before part after =
    let after_it = utf16 part ++ utf16 after in
    let all : utf16 (before ++ (part ++ after)) ≡ utf16 before ++ after_it =
      utf16-append before (part ++ after) ∙ ap (λ u. utf16 before ++ u) (utf16-append part after) in
    ap (λ u. take (utf16_length part) (drop (utf16_length before) u)) all
    ∙ ap (λ n. take (utf16_length part) (drop n (utf16 before ++ after_it)))
        (sym (length-utf16 before))
    ∙ ap (λ u. take (utf16_length part) u) (drop-append (utf16 before) after_it)
    ∙ ap (λ n. take n after_it) (sym (length-utf16 part))
    ∙ take-append (utf16 part) (utf16 after)
