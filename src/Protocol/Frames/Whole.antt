-- ===== src/Protocol/Frames/Whole.antt =====
-- `try_unpack_one` against the frames that protocol.py encodes, and against bytes still to come.
use hermes_channel_octo.Prelude.{
  ℕ, zero, suc, ◌+◌, ◌≤◌, ◌<◌, ◌≡◌, refl, ap, false, inl, inr, Option, none, some, [], ◌∷◌, ◌++◌,
  length, take, drop, length-append, length-drop, append_assoc, take-append, drop-append, arith,
  take_more, drop_more, ltb, Bool-cases, Option-cases,
}
use hermes_channel_octo.Protocol.Utf8.{Bytes}
use hermes_channel_octo.Protocol.VarLen.{encode_variable_length}
use hermes_channel_octo.Protocol.Frames.{
  is_single, scan_length, split_frame, unpack_at, try_unpack_one,
}
use hermes_channel_octo.Protocol.Frames.Laws.{scan-digits, scan_length-append, scan_length-pos}

scan-encode :
    (n : ℕ) (r : Bytes)
    → scan_length (encode_variable_length n ++ r) 1 0 1
      ≡ some (1 + length (encode_variable_length n), n)
unfolding encode_variable_length scan_length
scan-encode zero r = refl
scan-encode (suc n) r = ground (arith, scan-digits (suc n) (suc n) r 1 0 1)

split_frame-append :
    (n : ℕ) (frame rest : Bytes)
    → n ≡ length frame
    → split_frame n (frame ++ rest) ≡ (some frame, rest)
split_frame-append n frame rest e =
    rw (e, take-append frame rest, drop-append frame rest)
      (ground (arith, length-append frame rest))

-- A frame of protocol.py: a header, the length of the body, and the body.
abbrev pub frame_of : ℕ → Bytes → Bytes
frame_of header body = header ∷ (encode_variable_length (length body) ++ body)

-- A whole frame whose header is no PING's or PONG's, of whatever length, is cut off exactly, and
-- what follows it is left untouched.
pub try_unpack_one-frame_of :
    (header : ℕ) (body rest : Bytes)
    → is_single header ≡ false
    → try_unpack_one (frame_of header body ++ rest) ≡ (some (frame_of header body), rest)
unfolding try_unpack_one
try_unpack_one-frame_of header body rest h =
    let n = length body in
    let frame = frame_of header body in
    let scanned = scan-encode n (body ++ rest) in
    rw (h, append_assoc (encode_variable_length n) body rest, scanned)
      (rw (← append_assoc (encode_variable_length n) body rest) (
        split_frame-append (1 + length (encode_variable_length n) + n) frame rest
          (omega (arith, length-append (encode_variable_length n) body))))

split_frame-eq-some :
    (n : ℕ) (buf : Bytes) {frame rest : Bytes}
    → split_frame n buf ≡ (some frame, rest)
    → (n ≤ length buf) × (take n buf ≡ frame) × (drop n buf ≡ rest)
split_frame-eq-some n buf h = elim (Bool-cases (ltb (length buf) n)) [
  | inl e ↦ absurd (ground arith)
  | inr e ↦ (ground arith, ground arith, ground arith)
]

split_frame-more :
    (n : ℕ) (buf more : Bytes) {frame rest : Bytes}
    → split_frame n buf ≡ (some frame, rest)
    → split_frame n (buf ++ more) ≡ (some frame, rest ++ more)
split_frame-more n buf more h =
    let (le, ef, er) = split_frame-eq-some n buf h in
    rw (← ef, ← er)
      (ground (arith, take_more n buf more, drop_more n buf more, length-append buf more))

unpack_at-more :
    (o : Option (ℕ × ℕ)) (buf more : Bytes) {frame rest : Bytes}
    → unpack_at o buf ≡ (some frame, rest)
    → unpack_at o (buf ++ more) ≡ (some frame, rest ++ more)
unpack_at-more none buf more h = cc
unpack_at-more (some (pos, n)) buf more h = split_frame-more (pos + n) buf more h

scan-more :
    (header : ℕ) (r more : Bytes) {frame rest : Bytes}
    → unpack_at (scan_length r 1 0 1) (header ∷ r) ≡ (some frame, rest)
    → unpack_at (scan_length (r ++ more) 1 0 1) (header ∷ (r ++ more)) ≡ (some frame, rest ++ more)
scan-more header r more h = elim (Option-cases (scan_length r 1 0 1)) [
  | inl e ↦ absurd (ground arith)
  | inr (x, e) ↦
      rw (scan_length-append r more 1 0 1 x e)
        (unpack_at-more (some x) (header ∷ r) more (rw e at h))
]

take_later :
    (a r more : Bytes) {frame rest : Bytes}
    → ◌≡◌ {A = Option Bytes × Bytes} (some a, r) (some frame, rest)
    → ◌≡◌ {A = Option Bytes × Bytes} (some a, r ++ more) (some frame, rest ++ more)
take_later a r more h = ap (λ (p : Option Bytes × Bytes). (p.0, p.1 ++ more)) h

-- A frame that was complete is the same frame when more bytes have arrived behind it.
pub try_unpack_one-more :
    (buf more : Bytes) {frame rest : Bytes}
    → try_unpack_one buf ≡ (some frame, rest)
    → try_unpack_one (buf ++ more) ≡ (some frame, rest ++ more)
unfolding try_unpack_one
try_unpack_one-more [] more h = absurd (cc)
try_unpack_one-more (header ∷ r) more h = elim (Bool-cases (is_single header)) [
  | inl e ↦ rw e (take_later (header ∷ []) r more (rw e at h))
  | inr e ↦ rw e (scan-more header r more (rw e at h))
]

unpack_at-length :
    (o : Option (ℕ × ℕ)) (buf : Bytes) {frame rest : Bytes}
    → ((pos n : ℕ) → o ≡ some (pos, n) → 0 < pos)
    → unpack_at o buf ≡ (some frame, rest)
    → length rest < length buf
unpack_at-length none buf p h = absurd (cc)
unpack_at-length (some (pos, n)) buf p h =
    let (le, ef, er) = split_frame-eq-some (pos + n) buf h in
    rw (← er) (omega (arith, length-drop (pos + n) buf, p pos n refl))

-- A frame takes at least one byte from the buffer.
pub length-try_unpack_one :
    (buf : Bytes) {frame rest : Bytes}
    → try_unpack_one buf ≡ (some frame, rest)
    → length rest < length buf
unfolding try_unpack_one
length-try_unpack_one [] h = absurd (cc)
length-try_unpack_one (header ∷ r) h = elim (Bool-cases (is_single header)) [
  | inl e ↦ ground arith
  | inr e ↦
      unpack_at-length (scan_length r 1 0 1) (header ∷ r)
        (λ pos n p. omega (arith, scan_length-pos r 1 0 1 pos n p)) (rw e at h)
]
