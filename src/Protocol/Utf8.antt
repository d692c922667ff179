-- ===== src/Protocol/Utf8.antt =====
-- str.encode("utf-8") and bytes.decode("utf-8"), strict, as protocol.py uses them.
use hermes_channel_octo.Prelude.{
  ℕ, zero, suc, ◌+◌, ◌-◌, ◌*◌, ◌/◌, ◌%◌, ◌≤◌, ◌<◌, ◌≡◌, refl, ◌⊎◌, inl, inr, ◌&&◌, ◌||◌, Option,
  none, some, List, [], ◌∷◌, ◌++◌, arith, ltb, leb, if◌then◌else◌, All, All-append, append_assoc,
  append-nil, sym, ◌≢◌, Option-cases,
}
use hermes_channel_octo.Prelude.Text.{Text}

abbrev pub Bytes : Type 0
Bytes = List ℕ

abbrev pub IsByte : ℕ → Type 0
IsByte b = b < 256

-- Surrogates have no encoding, and no code point is above 0x10FFFF.
abbrev pub IsScalar : ℕ → Type 0
IsScalar c = (c < 0xD800) ⊎ ((0xE000 ≤ c) × (c < 0x110000))

encode_char : ℕ → Option Bytes
encode_char c =
    if ltb c 0x80
    then some (c ∷ [])
    else if ltb c 0x800
    then some ((0xC0 + c / 64) ∷ (0x80 + c % 64) ∷ [])
    else if ltb c 0xD800 || (leb 0xE000 c && ltb c 0x10000)
    then some ((0xE0 + c / 4096) ∷ (0x80 + c / 64 % 64) ∷ (0x80 + c % 64) ∷ [])
    else if leb 0x10000 c && ltb c 0x110000
    then some
        ((0xF0 + c / 262144) ∷ (0x80 + c / 4096 % 64) ∷ (0x80 + c / 64 % 64) ∷ (0x80 + c % 64) ∷ [])
    else none

abbrev pub join : Option Bytes → Option Bytes → Option Bytes
join (some a) (some b) = some (a ++ b)
join (some a) none = none
join none _ = none

unfoldable pub encode : Text → Option Bytes
unfolding encode_char
encode [] = some []
encode (c ∷ s) = join (encode_char c) (encode s)

-- Between two bytes of a character: how many bytes are to come, the bits so far, and the least
-- code point that is written at this length.
pub data Pending : Type 0 where
  start : Pending
  within : ℕ → ℕ → ℕ → Pending

abbrev pub first : ℕ → Option (Pending × Text)
first b =
    if ltb b 0x80
    then some (start, b ∷ [])
    else if ltb b 0xC2
    then none
    else if ltb b 0xE0
    then some (within 0 (b - 0xC0) 0x80, [])
    else if ltb b 0xF0
    then some (within 1 (b - 0xE0) 0x800, [])
    else if ltb b 0xF5
    then some (within 2 (b - 0xF0) 0x10000, [])
    else none

abbrev pub last : ℕ → ℕ → Option (Pending × Text)
last c least =
    if leb least c && (ltb c 0xD800 || (leb 0xE000 c && ltb c 0x110000))
    then some (start, c ∷ [])
    else none

feed : Pending → ℕ → Option (Pending × Text)
feed start b = first b
feed (within zero bits least) b =
    if leb 0x80 b && ltb b 0xC0 then last (bits * 64 + (b - 0x80)) least else none
feed (within (suc n) bits least) b =
    if leb 0x80 b && ltb b 0xC0 then some (within n (bits * 64 + (b - 0x80)) least, []) else none

abbrev pub prepend : Text → Option Text → Option Text
prepend out none = none
prepend out (some s) = some (out ++ s)

decode_from : Pending → Bytes → Option Text
decode_from start [] = some []
decode_from (within _ _ _) [] = none
decode_from p (b ∷ r) = elim (feed p b) [
  | none ↦ none
  | some (q, out) ↦ prepend out (decode_from q r)
]

unfoldable pub decode : Bytes → Option Text
unfolding decode_from feed
decode bs = decode_from start bs

feed_char :
    (c : ℕ) (bs r : Bytes)
    → encode_char c ≡ some bs
    → decode_from start (bs ++ r) ≡ prepend (c ∷ []) (decode_from start r)
unfolding decode_from feed encode_char
feed_char c bs r h = ground arith

prepend-prepend : (a b : Text) (r : Option Text) → prepend a (prepend b r) ≡ prepend (a ++ b) r
prepend-prepend a b none = refl
prepend-prepend a b (some s) = rw (append_assoc a b s)

prepend-nil : (r : Option Text) → prepend [] r ≡ r
prepend-nil none = refl
prepend-nil (some s) = refl

join-eq-some :
    (x y : Option Bytes) (bs : Bytes)
    → join x y ≡ some bs
    → (a : Bytes) × (b : Bytes) × (x ≡ some a) × (y ≡ some b) × (a ++ b ≡ bs)
join-eq-some (some a) (some b) bs h = (a, b, refl, refl, cc)
join-eq-some (some a) none bs h = cc
join-eq-some none y bs h = cc

decode_from-encode :
    (s : Text) (bs r : Bytes)
    → encode s ≡ some bs
    → decode_from start (bs ++ r) ≡ prepend s (decode_from start r)
unfolding encode
decode_from-encode [] bs r h =
    let e : [] ≡ bs = cc in rw (← e) (sym (prepend-nil (decode_from start r)))
decode_from-encode (c ∷ s) bs r h =
    let (a, b, ea, eb, e) = join-eq-some (encode_char c) (encode s) bs h in
    rw (← e, append_assoc a b r, feed_char c a (b ++ r) ea, decode_from-encode s b r eb)
      (prepend-prepend (c ∷ []) s (decode_from start r))

pub encode-nil : {bs : Bytes} → encode [] ≡ some bs → [] ≡ bs
unfolding encode
encode-nil h = cc

-- Strict decoding gives back every text that has an encoding.
pub decode-encode : (s : Text) (bs : Bytes) → encode s ≡ some bs → decode bs ≡ some s
unfolding decode
decode-encode s bs h = simp append-nil at (decode_from-encode s bs [] h)

encode_char-ne-none : (c : ℕ) → IsScalar c → encode_char c ≢ none
unfolding encode_char
encode_char-ne-none c h e = ground arith

-- A text has an encoding if all its code points are scalar values.
pub encode-total : (s : Text) → All IsScalar s → (bs : Bytes) × (encode s ≡ some bs)
unfolding encode
encode-total [] h = ([], refl)
encode-total (c ∷ s) (p, h) =
    let (b, eb) = encode-total s h in
    elim (Option-cases (encode_char c)) [
      | inl e ↦ absurd (encode_char-ne-none c p e)
      | inr (a, ea) ↦ (a ++ b, rw (ea, eb))
    ]

encode_char-IsByte : (c : ℕ) (bs : Bytes) → encode_char c ≡ some bs → All IsByte bs
unfolding encode_char
encode_char-IsByte c bs h = ground arith

-- An encoding consists of bytes.
pub encode-IsByte : (s : Text) (bs : Bytes) → encode s ≡ some bs → All IsByte bs
unfolding encode
encode-IsByte [] bs h = ground arith
encode-IsByte (c ∷ s) bs h =
    let (a, b, ea, eb, e) = join-eq-some (encode_char c) (encode s) bs h in
    rw (← e) (All-append IsByte a b (encode_char-IsByte c a ea) (encode-IsByte s b eb))
