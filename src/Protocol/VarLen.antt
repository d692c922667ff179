-- ===== src/Protocol/VarLen.antt =====
-- `encode_variable_length` of protocol.py, and its round trip through `read_variable_length`.
use hermes_channel_octo.Prelude.{
  ℕ, zero, suc, ◌+◌, ◌*◌, ◌/◌, ◌%◌, ◌^◌, ◌≤◌, ◌<◌, ◌≡◌, refl, [], ◌∷◌, ◌++◌, arith, ltb, ◌==◌,
  if◌then◌else◌,
}
use hermes_channel_octo.Prelude.Result.{ok}
use hermes_channel_octo.Protocol.Utf8.{Bytes}
use hermes_channel_octo.Protocol.Decoder.{read_digits, read_variable_length}

-- The loop: `digit |= 0x80` adds 128 to a digit below it. Every round shortens `length`, so the
-- length itself is fuel enough.
unfoldable pub length_digits : ℕ → ℕ → Bytes
length_digits zero len = []
length_digits (suc fuel) len =
    let more =
      (if ltb 0 (len / 128) then len % 128 + 128 else len % 128) ∷ length_digits fuel (len / 128) in
    if ltb 0 len then more else []

unfoldable pub encode_variable_length : ℕ → Bytes
unfolding length_digits
encode_variable_length len = if len == 0 then 0 ∷ [] else length_digits len len

module _ (r : Bytes) where
  read_one :
      (f n v : ℕ)
      → n ≤ f
      → 0 < n
      → n < 2 ^ 7
      → read_digits 2 21 v (length_digits f n ++ r) ≡ ok (v + n * 2 ^ 21, r)
  unfolding read_digits length_digits
  read_one zero n v h p q = absurd (omega arith)
  read_one (suc zero) n v h p q = ground arith
  read_one (suc (suc f)) n v h p q = ground arith

  read_two :
      (f n v : ℕ)
      → n ≤ f
      → 0 < n
      → n < 2 ^ 14
      → read_digits 3 14 v (length_digits f n ++ r) ≡ ok (v + n * 2 ^ 14, r)
  unfolding read_digits length_digits
  read_two zero n v h p q = absurd (omega arith)
  read_two (suc zero) n v h p q = ground arith
  read_two (suc (suc f)) n v h p q =
      ground (arith, read_one (suc f) (n / 128) (v + n % 128 * 2 ^ 14))

  read_three :
      (f n v : ℕ)
      → n ≤ f
      → 0 < n
      → n < 2 ^ 21
      → read_digits 4 7 v (length_digits f n ++ r) ≡ ok (v + n * 2 ^ 7, r)
  unfolding read_digits length_digits
  read_three zero n v h p q = absurd (omega arith)
  read_three (suc zero) n v h p q = ground arith
  read_three (suc (suc f)) n v h p q =
      ground (arith, read_two (suc f) (n / 128) (v + n % 128 * 2 ^ 7))

  read_four :
      (f n : ℕ)
      → n ≤ f
      → 0 < n
      → n < 2 ^ 28
      → read_digits 5 0 0 (length_digits f n ++ r) ≡ ok (n, r)
  unfolding read_digits length_digits
  read_four zero n h p q = absurd (omega arith)
  read_four (suc zero) n h p q = ground arith
  read_four (suc (suc f)) n h p q = ground (arith, read_three (suc f) (n / 128) (n % 128))

-- Whatever follows it, an encoded length below 2^28 reads back as itself, and no byte of what
-- follows is taken.
pub read-encode :
    (n : ℕ) (r : Bytes)
    → n < 2 ^ 28
    → read_variable_length (encode_variable_length n ++ r) ≡ ok (n, r)
unfolding read_variable_length encode_variable_length
read-encode zero r h = refl
read-encode (suc n) r h = ground (arith, read_four r (suc n) (suc n))
