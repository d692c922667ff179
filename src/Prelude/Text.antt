-- ===== src/Prelude/Text.antt =====
-- Python's `str`: a sequence of code points, kept as native numbers.
use Prim.Native.Nat.{ℕ, compare, Ordering}
use hermes_channel_octo.Prelude.Tests.{if◌then◌else◌}
use Prim.Native.Char.{code}
use Prim.Native.String.{String}
use mathlib.Core.Path.{◌≡◌, refl}
use mathlib.Core.Logic.{◌↔◌}
use mathlib.Core.Bool.{Bool, true, false, ◌||◌, ◌&&◌}
use mathlib.Core.List.{List, [], ◌∷◌, ◌++◌}
use native.Mathlib.Omega.{arith}

abbrev pub Text : Type 0
Text = List ℕ

-- A literal of the source.
abbrev pub lit : String → Text
lit String.[] = []
lit (String.◌∷◌ c s) = code c ∷ lit s

unfoldable pub text_eq : Text → Text → Bool
text_eq [] [] = true
text_eq [] (_ ∷ _) = false
text_eq (_ ∷ _) [] = false
text_eq (a ∷ s) (b ∷ t) = elim (compare a b) [ Ordering.eq ↦ text_eq s t | _ ↦ false ]

pub text_eq_refl : (s : Text) → text_eq s s ≡ true
unfolding text_eq
text_eq_refl [] = refl
text_eq_refl (a ∷ s) = ground (arith, text_eq_refl s)

pub text_eq→eq : (s t : Text) → text_eq s t ≡ true → s ≡ t
unfolding text_eq
text_eq→eq [] [] h = refl
text_eq→eq [] (_ ∷ _) h = cc
text_eq→eq (_ ∷ _) [] h = cc
text_eq→eq (a ∷ s) (b ∷ t) h = ground (arith, text_eq→eq s t)

pub text_eq_iff : (s t : Text) → (text_eq s t ≡ true) ↔ (s ≡ t)
text_eq_iff s t = (text_eq→eq s t, λ e. rw e (text_eq_refl t))

-- `bool(text)`.
abbrev pub nonempty {ℓ} : {A : Type ℓ} → List A → Bool
nonempty [] = false
nonempty (_ ∷ _) = true

-- `text.startswith(prefix)`.
unfoldable pub starts_with : Text → Text → Bool
starts_with s [] = true
starts_with [] (_ ∷ _) = false
starts_with (a ∷ s) (b ∷ t) = elim (compare a b) [ Ordering.eq ↦ starts_with s t | _ ↦ false ]

pub starts_with-append : (t s : Text) → starts_with (t ++ s) t ≡ true
unfolding starts_with
starts_with-append [] s = refl
starts_with-append (a ∷ t) s = ground (arith, starts_with-append t s)

-- `part in text`.
unfoldable pub contains : Text → Text → Bool
contains part [] = starts_with [] part
contains part (c ∷ s) = starts_with (c ∷ s) part || contains part s

-- `text.split(sep, 1)[0]`: what stands before the first occurrence, or the whole text.
unfoldable pub before_first : Text → Text → Text
before_first sep [] = []
before_first sep (c ∷ s) =
    let rest = c ∷ before_first sep s in if starts_with (c ∷ s) sep then [] else rest

-- `text[len(prefix):]`.
unfoldable pub strip_prefix : Text → Text → Text
strip_prefix [] s = s
strip_prefix (_ ∷ p) [] = []
strip_prefix (_ ∷ p) (_ ∷ s) = strip_prefix p s

pub strip_prefix-append : (p s : Text) → strip_prefix p (p ++ s) ≡ s
unfolding strip_prefix
strip_prefix-append [] s = refl
strip_prefix-append (c ∷ p) s = strip_prefix-append p s

-- Text without the separator is its own first part.
pub before_first-none : (sep s : Text) → contains sep s ≡ false → before_first sep s ≡ s
unfolding contains before_first
before_first-none sep [] h = refl
before_first-none sep (c ∷ s) h = ground (arith, before_first-none sep s)

unfoldable pub text_in : Text → List Text → Bool
text_in s [] = false
text_in s (t ∷ ts) = text_eq s t || text_in s ts

unfoldable pub texts_eq : List Text → List Text → Bool
texts_eq [] [] = true
texts_eq [] (_ ∷ _) = false
texts_eq (_ ∷ _) [] = false
texts_eq (s ∷ ss) (t ∷ ts) = text_eq s t && texts_eq ss ts
