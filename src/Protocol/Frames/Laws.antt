-- ===== src/Protocol/Frames/Laws.antt =====
-- What `try_unpack_one` takes and leaves.
use hermes_channel_octo.Prelude.{
  ℕ, zero, suc, ◌+◌, ◌*◌, ◌/◌, ◌%◌, ◌≤◌, ◌<◌, ◌≡◌, refl, ap, inl, inr, Option, none, some, [], ◌∷◌,
  ◌++◌, length, take-append-drop, arith, ltb, Bool-cases,
}
use hermes_channel_octo.Protocol.Utf8.{Bytes}
use hermes_channel_octo.Protocol.VarLen.{length_digits}
use hermes_channel_octo.Protocol.Frames.{
  is_single, scan_length, split_frame, unpack_at, try_unpack_one,
}

-- The bytes of a result, in order.
abbrev pub all_bytes : Option Bytes × Bytes → Bytes
all_bytes (none, rest) = rest
all_bytes (some frame, rest) = frame ++ rest

split_frame-bytes : (n : ℕ) (buf : Bytes) → all_bytes (split_frame n buf) ≡ buf
split_frame-bytes n buf = ground (arith, take-append-drop n buf)

unpack_at-bytes : (o : Option (ℕ × ℕ)) (buf : Bytes) → all_bytes (unpack_at o buf) ≡ buf
unpack_at-bytes none buf = refl
unpack_at-bytes (some (pos, n)) buf = split_frame-bytes (pos + n) buf

-- No byte is lost, added or moved: the frame, if there is one, and what remains make up the buffer.
pub try_unpack_one-bytes : (buf : Bytes) → all_bytes (try_unpack_one buf) ≡ buf
unfolding try_unpack_one
try_unpack_one-bytes [] = refl
try_unpack_one-bytes (h ∷ r) = elim (Bool-cases (is_single h)) [
  | inl e ↦ rw e
  | inr e ↦ rw e (unpack_at-bytes (scan_length r 1 0 1) (h ∷ r))
]

pub scan_length-append :
    (r more : Bytes) (pos v m : ℕ) (x : ℕ × ℕ)
    → scan_length r pos v m ≡ some x
    → scan_length (r ++ more) pos v m ≡ some x
unfolding scan_length
scan_length-append [] more pos v m x h = cc
scan_length-append (d ∷ r) more pos v m x h =
    ground (arith, scan_length-append r more (pos + 1) (v + d % 128 * m) (m * 128) x)

pub scan_length-pos : (r : Bytes) (pos v m q k : ℕ) → scan_length r pos v m ≡ some (q, k) → pos < q
unfolding scan_length
scan_length-pos [] pos v m q k h = cc
scan_length-pos (d ∷ r) pos v m q k h =
    ground (arith, scan_length-pos r (pos + 1) (v + d % 128 * m) (m * 128) q k)

digits_last : (f n : ℕ) → 0 < n → n < 128 → length_digits (suc f) n ≡ n ∷ []
unfolding length_digits
digits_last zero n p q = ground arith
digits_last (suc f) n p q = ground arith

digits_more :
    (f n : ℕ) → 128 ≤ n → length_digits (suc f) n ≡ (n % 128 + 128) ∷ length_digits f (n / 128)
unfolding length_digits
digits_more f n p = ground arith

digits_value : (n v m : ℕ) → v + n % 128 * m + n / 128 * (m * 128) ≡ v + n * m
digits_value n v m =
    let e : n / 128 * 128 + n % 128 ≡ n = omega arith in omega (arith, ap (λ (t : ℕ). t * m) e)

-- A digit run reads back, with the value of the digits times the multiplier.
pub scan-digits :
    (f n : ℕ) (r : Bytes) (pos v m : ℕ)
    → n ≤ f
    → 0 < n
    → scan_length (length_digits f n ++ r) pos v m
      ≡ some (pos + length (length_digits f n), v + n * m)
unfolding scan_length
scan-digits zero n r pos v m h p = absurd (omega arith)
scan-digits (suc f) n r pos v m h p = elim (Bool-cases (ltb n 128)) [
  | inl e ↦ rw (digits_last f n p (ground arith)) (ground arith)
  | inr e ↦ rw (digits_more f n (ground arith)) (
      ground (
        arith,
        scan-digits f (n / 128) r (pos + 1) (v + (n % 128 + 128) % 128 * m) (m * 128),
        digits_value n v m,
      ))
]
