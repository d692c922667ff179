-- ===== src/Protocol/Decoder.antt =====
-- `Decoder` of protocol.py. Its state is the bytes from `_offset` on. A slice that ends past the
-- data leaves none of them, and every later read of a byte or a number then raises.
use hermes_channel_octo.Prelude.{
  ℕ, zero, suc, ◌+◌, ◌*◌, ◌/◌, ◌%◌, ◌^◌, Option, none, some, [], ◌∷◌, take, drop, ltb, ◌==◌,
  if◌then◌else◌,
}
use hermes_channel_octo.Prelude.Result.{Result, ok, err, ◌>>=◌}
use hermes_channel_octo.Prelude.Text.{Text}
use hermes_channel_octo.Protocol.Utf8.{Bytes, decode}
use hermes_channel_octo.Protocol.Encoder.{ProtocolError, index_error, struct_error, unicode_error}

-- A read returns its value and the bytes that are left.
abbrev pub Read : Type 0 → Type 0
Read A = Result ProtocolError (A × Bytes)

unfoldable pub read_byte : Bytes → Read ℕ
read_byte [] = err index_error
read_byte (b ∷ r) = ok (b, r)

unfoldable pub read_int16 : Bytes → Read ℕ
read_int16 [] = err struct_error
read_int16 (a ∷ []) = err struct_error
read_int16 (a ∷ b ∷ r) = ok (a * 256 + b, r)

unfoldable pub read_int32 : Bytes → Read ℕ
unfolding read_int16
read_int32 bs = do (high, r) ← read_int16 bs; (low, r') ← read_int16 r; ok (high * 2 ^ 16 + low, r')

unfoldable pub read_int64 : Bytes → Read ℕ
unfolding read_int32
read_int64 bs = do (high, r) ← read_int32 bs; (low, r') ← read_int32 r; ok (high * 2 ^ 32 + low, r')

-- raw.decode("utf-8")
abbrev pub decoded : Option Text → Bytes → Read Text
decoded none r = err unicode_error
decoded (some s) r = ok (s, r)

abbrev pub read_text : ℕ → Bytes → Read Text
read_text zero r = ok ([], r)
read_text (suc n) r = decoded (decode (take (suc n) r)) (drop (suc n) r)

unfoldable pub read_string : Bytes → Read Text
unfolding read_int16
read_string bs = do (len, r) ← read_int16 bs; read_text len r

unfoldable pub read_remaining : Bytes → Bytes × Bytes
read_remaining bs = (bs, [])

-- The loop of `read_variable_length`: `value` has its bits below `multiplier`, so `|` is `+`.
unfoldable pub read_digits : ℕ → ℕ → ℕ → Bytes → Read ℕ
unfolding read_byte
read_digits zero multiplier value bs = ok (value, bs)
read_digits (suc fuel) multiplier value bs =
    let next = (do
      (b, r) ← read_byte bs
      let value' = value + b % 128 * 2 ^ multiplier
      if b / 128 % 2 == 0 then ok (value', r) else read_digits fuel (multiplier + 7) value' r) in
    if ltb multiplier 27 then next else ok (value, bs)

-- Five rounds end the loop: `multiplier` is 28 in the fifth.
unfoldable pub read_variable_length : Bytes → Read ℕ
unfolding read_digits
read_variable_length bs = read_digits 5 0 0 bs
