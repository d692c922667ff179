-- ===== src/Prelude/Dict/Unique.antt =====
-- Dictionaries that hold a key once.
use hermes_channel_octo.Prelude.Tests.{if◌then◌else◌}
use hermes_channel_octo.Prelude.Lists.{length}
use hermes_channel_octo.Prelude.Text.{Text, text_eq, text_eq_iff}
use hermes_channel_octo.Prelude.Dict.{
  Dict, get, pop, put, modify, keep, get-pop, get-put, get-modify, length-pop,
}
use Prim.Native.Nat.{◌<◌}
use mathlib.Core.Path.{◌≡◌, refl}
use mathlib.Core.Bool.{Bool}
use mathlib.Core.Option.{Option, none, some}
use mathlib.Core.List.{[], ◌∷◌, ◌++◌}
use native.Mathlib.Omega.{arith}

module _ {ℓ} {V : Type ℓ} where
  abbrev pub IsUnique : Dict V → Type ℓ
  IsUnique [] = Unit
  IsUnique ((k, v) ∷ d) = (get d k ≡ none) × IsUnique d

  abbrev pub only : (V → Bool) → Option V → Option V
  only p none = none
  only p (some v) = if p v then some v else none

  pub get-keep_unique :
      (p : V → Bool) (d : Dict V) (j : Text) → IsUnique d → get (keep p d) j ≡ only p (get d j)
  unfolding get keep
  get-keep_unique p [] j u = refl
  get-keep_unique p ((k, v) ∷ d) j (e, u) = ground (arith, get-keep_unique p d j u, text_eq_iff k j)

  pub pop-IsUnique : (d : Dict V) (key : Text) → IsUnique d → IsUnique (pop d key)
  unfolding pop
  pop-IsUnique [] key u = u
  pop-IsUnique ((k, v) ∷ d) key (e, u) = ground (arith, pop-IsUnique d key u, get-pop d key k)

  pub put-IsUnique : (d : Dict V) (key : Text) (w : V) → IsUnique d → IsUnique (put d key w)
  unfolding put get
  put-IsUnique [] key w u = (refl, tt)
  put-IsUnique ((k, v) ∷ d) key w (e, u) =
      ground
        (arith, put-IsUnique d key w u, get-put d key k w, text_eq_iff k key, text_eq_iff key k)

  pub modify-IsUnique :
      (f : V → V) (d : Dict V) (key : Text) → IsUnique d → IsUnique (modify f d key)
  unfolding modify
  modify-IsUnique f [] key u = u
  modify-IsUnique f ((k, v) ∷ d) key (e, u) =
      ground (arith, modify-IsUnique f d key u, get-modify f d key k)

  pub keep-IsUnique : (p : V → Bool) (d : Dict V) → IsUnique d → IsUnique (keep p d)
  unfolding keep
  keep-IsUnique p [] u = u
  keep-IsUnique p ((k, v) ∷ d) (e, u) = ground (arith, keep-IsUnique p d u, get-keep_unique p d k u)

  pub get-concat :
      (d : Dict V) (key j : Text) (v : V)
      → get d key ≡ none
      → get (d ++ (key, v) ∷ []) j ≡ (if text_eq key j then some v else get d j)
  unfolding get
  get-concat [] key j v e = refl
  get-concat ((k, w) ∷ d) key j v e =
      ground (arith, get-concat d key j v, text_eq_iff k key, text_eq_iff k j, text_eq_iff key j)

  pub concat-IsUnique :
      (d : Dict V) (key : Text) (v : V)
      → get d key ≡ none
      → IsUnique d
      → IsUnique (d ++ (key, v) ∷ [])
  unfolding get
  concat-IsUnique [] key v e u = (refl, tt)
  concat-IsUnique ((k, w) ∷ d) key v e (n, u) =
      ground
        (arith, concat-IsUnique d key v, get-concat d key k v, text_eq_iff k key, text_eq_iff key k)

  -- A key that is present is taken out, and the length falls.
  pub length-pop_present :
      (d : Dict V) (key : Text) (v : V) → get d key ≡ some v → length (pop d key) < length d
  unfolding get pop
  length-pop_present [] key v e = absurd (cc)
  length-pop_present ((k, w) ∷ d) key v e =
      ground (arith, length-pop_present d key v, length-pop d key)

  -- Writing to a key that is present adds no item.
  pub length-put_present :
      (d : Dict V) (key : Text) (w v : V) → get d key ≡ some v → length (put d key w) ≡ length d
  unfolding get put
  length-put_present [] key w v e = absurd (cc)
  length-put_present ((k, x) ∷ d) key w v e = ground (arith, length-put_present d key w v)
