-- ===== src/Prelude/Dict.antt =====
-- Python's OrderedDict with text keys: its items, oldest first. A key stands in it once, and the
-- laws do not need that.
pub mod Unique
use hermes_channel_octo.Prelude.Tests.{if◌then◌else◌}
use hermes_channel_octo.Prelude.Lists.{length}
use hermes_channel_octo.Prelude.Text.{Text, text_eq, text_eq_iff}
use Prim.Native.Nat.{◌+◌, ◌≤◌}
use mathlib.Core.Path.{◌≡◌, refl}
use mathlib.Core.Bool.{Bool, true}
use mathlib.Core.Option.{Option, none, some}
use mathlib.Core.List.{List, [], ◌∷◌}
use native.Mathlib.Omega.{arith}

abbrev pub Dict {ℓ} : Type ℓ → Type ℓ
Dict V = List (Text × V)

module _ {ℓ} {V : Type ℓ} where
  -- d.get(key)
  unfoldable pub get : Dict V → Text → Option V
  get [] key = none
  get ((k, v) ∷ d) key = if text_eq k key then some v else get d key

  -- d.pop(key, None)
  unfoldable pub pop : Dict V → Text → Dict V
  pop [] key = []
  pop ((k, v) ∷ d) key = let rest = pop d key in if text_eq k key then rest else (k, v) ∷ rest

  -- d[key] = value: in its place, or behind the others where the key is new.
  unfoldable pub put : Dict V → Text → V → Dict V
  put [] key v = (key, v) ∷ []
  put ((k, w) ∷ d) key v = if text_eq k key then (k, v) ∷ d else (k, w) ∷ put d key v

  -- Write to the object behind the key, where it is still in the dictionary.
  unfoldable pub modify : (V → V) → Dict V → Text → Dict V
  modify f [] key = []
  modify f ((k, w) ∷ d) key = if text_eq k key then (k, f w) ∷ d else (k, w) ∷ modify f d key

  -- The items that a loop over the dictionary leaves in it.
  unfoldable pub keep : (V → Bool) → Dict V → Dict V
  keep p [] = []
  keep p ((k, v) ∷ d) = let rest = keep p d in if p v then (k, v) ∷ rest else rest

  pub get-pop :
      (d : Dict V) (key j : Text) → get (pop d key) j ≡ (if text_eq key j then none else get d j)
  unfolding get pop
  get-pop [] key j = ground arith
  get-pop ((k, v) ∷ d) key j =
      ground (arith, get-pop d key j, text_eq_iff k key, text_eq_iff k j, text_eq_iff key j)

  pub get-put :
      (d : Dict V) (key j : Text) (v : V)
      → get (put d key v) j ≡ (if text_eq key j then some v else get d j)
  unfolding get put
  get-put [] key j v = refl
  get-put ((k, w) ∷ d) key j v =
      ground (arith, get-put d key j v, text_eq_iff k key, text_eq_iff k j, text_eq_iff key j)

  abbrev pub option_map : (V → V) → Option V → Option V
  option_map f none = none
  option_map f (some v) = some (f v)

  pub get-modify :
      (f : V → V) (d : Dict V) (key j : Text)
      → get (modify f d key) j ≡ (if text_eq key j then option_map f (get d j) else get d j)
  unfolding get modify
  get-modify f [] key j = ground arith
  get-modify f ((k, w) ∷ d) key j =
      ground (arith, get-modify f d key j, text_eq_iff k key, text_eq_iff k j, text_eq_iff key j)

  pub length-pop : (d : Dict V) (key : Text) → length (pop d key) ≤ length d
  unfolding pop
  length-pop [] key = omega arith
  length-pop ((k, v) ∷ d) key = ground (arith, length-pop d key)

  pub length-put : (d : Dict V) (key : Text) (v : V) → length (put d key v) ≤ length d + 1
  unfolding put
  length-put [] key v = omega arith
  length-put ((k, w) ∷ d) key v = ground (arith, length-put d key v)

  pub length-modify : (f : V → V) (d : Dict V) (key : Text) → length (modify f d key) ≡ length d
  unfolding modify
  length-modify f [] key = refl
  length-modify f ((k, w) ∷ d) key = ground (arith, length-modify f d key)

  pub length-keep : (p : V → Bool) (d : Dict V) → length (keep p d) ≤ length d
  unfolding keep
  length-keep p [] = omega arith
  length-keep p ((k, v) ∷ d) = ground (arith, length-keep p d)

  -- An item that the test keeps stays where it is found.
  pub get-keep :
      (p : V → Bool) (d : Dict V) (key : Text) (v : V)
      → get d key ≡ some v
      → p v ≡ true
      → get (keep p d) key ≡ some v
  unfolding get keep
  get-keep p [] key v h t = h
  get-keep p ((k, w) ∷ d) key v h t = ground (arith, get-keep p d key v)
