-- ===== src/Identity/Tokens.antt =====
-- `parse_bot_tokens` of identity.py.
use hermes_channel_octo.Prelude.{
  ℕ, ◌≡◌, refl, Bool, true, false, not, ◌&&◌, ◌||◌, Option, none, some, List, [], ◌∷◌, All, leb,
  ◌==◌, if◌then◌else◌, arith, inl, inr, Bool-cases,
}
use hermes_channel_octo.Prelude.Result.{Result, ok, err, ◌>>=◌}
use hermes_channel_octo.Prelude.Text.{Text, text_eq_iff, text_in, nonempty}

pub data TokenError : Type 0 where
  empty_entry repeated_entry : TokenError

-- `str.isspace` of one character.
abbrev is_space : ℕ → Bool
is_space c =
    (leb 9 c && leb c 13)
    || (leb 28 c && leb c 32)
    || c == 133
    || c == 160
    || c == 5760
    || (leb 8192 c && leb c 8202)
    || c == 8232
    || c == 8233
    || c == 8239
    || c == 8287
    || c == 12288

abbrev strip_left : Text → Text
strip_left [] = []
strip_left (c ∷ s) = let rest = strip_left s in if is_space c then rest else c ∷ s

abbrev strip_right : Text → Text
strip_right [] = []
strip_right (c ∷ s) =
    let rest = strip_right s in if is_space c && not (nonempty rest) then [] else c ∷ rest

abbrev pub strip : Text → Text
strip s = strip_right (strip_left s)

abbrev onto_first : ℕ → List Text → List Text
onto_first c [] = (c ∷ []) ∷ []
onto_first c (s ∷ ss) = (c ∷ s) ∷ ss

-- raw.split(";")
unfoldable pub split_semicolons : Text → List Text
split_semicolons [] = [] ∷ []
split_semicolons (c ∷ s) =
    let rest = split_semicolons s in if c == 59 then [] ∷ rest else onto_first c rest

-- The loop, with the tokens that it has seen.
unfoldable pub tokens_from : List Text → List Text → Result TokenError (List Text)
tokens_from seen [] = ok []
tokens_from seen (item ∷ items) =
    let token = strip item in
    let rest = tokens_from (token ∷ seen) items in
    if not (nonempty token)
    then err empty_entry
    else if text_in token seen
    then err repeated_entry
    else (do tokens ← rest; ok (token ∷ tokens))

unfoldable pub parse_bot_tokens : Option Text → Result TokenError (List Text)
parse_bot_tokens none = ok []
parse_bot_tokens (some raw) =
    if not (nonempty (strip raw)) then ok [] else tokens_from [] (split_semicolons raw)

-- No text stands in the list twice.
abbrev pub IsDistinct : List Text → Type 0
IsDistinct [] = Unit
IsDistinct (t ∷ ts) = (text_in t ts ≡ false) × IsDistinct ts

abbrev pub IsNonempty : Text → Type 0
IsNonempty t = nonempty t ≡ true

Fresh : List Text → List Text → Type 0
Fresh seen ts = All (λ t. (nonempty t ≡ true) × (text_in t seen ≡ false)) ts

Fresh-absent :
    (token : Text) (seen ts : List Text) → Fresh (token ∷ seen) ts → text_in token ts ≡ false
unfolding Fresh text_in
Fresh-absent token seen [] h = refl
Fresh-absent token seen (t ∷ ts) (p, h) =
    ground (arith, Fresh-absent token seen ts h, text_eq_iff t token, text_eq_iff token t)

Fresh-weaken : (token : Text) (seen ts : List Text) → Fresh (token ∷ seen) ts → Fresh seen ts
unfolding Fresh text_in
Fresh-weaken token seen [] h = tt
Fresh-weaken token seen (t ∷ ts) ((p, q), h) = ((p, ground arith), Fresh-weaken token seen ts h)

bind-eq-ok :
    {A B : Type 0} (m : Result TokenError A) (f : A → Result TokenError B) {b : B}
    → (m >>= f) ≡ ok b
    → (a : A) × (m ≡ ok a) × (f a ≡ ok b)
bind-eq-ok (ok a) f h = (a, refl, h)
bind-eq-ok (err e) f h = absurd (cc)

tokens_from-Fresh :
    (seen items ts : List Text) → tokens_from seen items ≡ ok ts → IsDistinct ts × Fresh seen ts
unfolding tokens_from Fresh
tokens_from-Fresh seen [] ts h = let e : [] ≡ ts = cc in rw (← e) (tt, tt)
tokens_from-Fresh seen (item ∷ items) ts h = elim (Bool-cases (nonempty (strip item))) [
  | inr empty ↦ absurd (let e = rw empty at h in cc)
  | inl full ↦ elim (Bool-cases (text_in (strip item) seen)) [
    | inl again ↦ absurd (let e = rw (full, again) at h in cc)
    | inr new ↦
        let (rest, found, e) =
          bind-eq-ok (tokens_from (strip item ∷ seen) items) _ (rw (full, new) at h) in
        let (distinct, fresh) = tokens_from-Fresh (strip item ∷ seen) items rest found in
        let same : (strip item ∷ rest) ≡ ts = cc in
        rw (← same) (
          (Fresh-absent (strip item) seen rest fresh, distinct),
          ((full, new), Fresh-weaken (strip item) seen rest fresh),
        )
  ]
]

Fresh-IsNonempty : (seen ts : List Text) → Fresh seen ts → All IsNonempty ts
unfolding Fresh
Fresh-IsNonempty seen [] h = tt
Fresh-IsNonempty seen (t ∷ ts) ((p, q), h) = (p, Fresh-IsNonempty seen ts h)

-- The tokens of a configuration that is accepted are distinct, and none is empty.
pub parse_bot_tokens-IsDistinct :
    (raw : Option Text) (ts : List Text)
    → parse_bot_tokens raw ≡ ok ts
    → IsDistinct ts × All IsNonempty ts
unfolding parse_bot_tokens
parse_bot_tokens-IsDistinct none ts h = let e : [] ≡ ts = cc in rw (← e) (tt, tt)
parse_bot_tokens-IsDistinct (some raw) ts h = elim (Bool-cases (nonempty (strip raw))) [
  | inr blank ↦ let e : [] ≡ ts = (let k = rw blank at h in cc) in rw (← e) (tt, tt)
  | inl full ↦
      let (distinct, fresh) = tokens_from-Fresh [] (split_semicolons raw) ts (rw full at h) in
      (distinct, Fresh-IsNonempty [] ts fresh)
]
