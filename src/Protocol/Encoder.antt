-- ===== src/Protocol/Encoder.antt =====
-- `Encoder` of protocol.py. Its state is `_buf`; the numbers that are written are not negative.
use hermes_channel_octo.Prelude.{ℕ, ◌/◌, ◌%◌, ◌^◌, none, some, [], ◌∷◌, ◌++◌, length}
use hermes_channel_octo.Prelude.Result.{Result, ok, err}
use hermes_channel_octo.Prelude.Text.{Text}
use hermes_channel_octo.Protocol.Utf8.{Bytes, encode}

-- What the calls of protocol.py raise: ValueError on an empty packet or a text that is no number,
-- IndexError, struct.error, UnicodeError.
pub data ProtocolError : Type 0 where
  empty_packet not_a_number index_error struct_error unicode_error : ProtocolError

-- struct.pack(">H", v), (">I", v) and (">Q", v), for a v that fits.
unfoldable pub pack16 : ℕ → Bytes
pack16 v = (v / 256) ∷ (v % 256) ∷ []

unfoldable pub pack32 : ℕ → Bytes
unfolding pack16
pack32 v = pack16 (v / 2 ^ 16) ++ pack16 (v % 2 ^ 16)

unfoldable pub pack64 : ℕ → Bytes
unfolding pack32
pack64 v = pack32 (v / 2 ^ 32) ++ pack32 (v % 2 ^ 32)

unfoldable pub write_byte : ℕ → Bytes → Bytes
write_byte b buf = buf ++ (b % 256) ∷ []

unfoldable pub write_bytes : Bytes → Bytes → Bytes
write_bytes added buf = buf ++ added

unfoldable pub write_int16 : ℕ → Bytes → Bytes
unfolding pack16
write_int16 v buf = buf ++ pack16 (v % 2 ^ 16)

unfoldable pub write_int32 : ℕ → Bytes → Bytes
unfolding pack32
write_int32 v buf = buf ++ pack32 (v % 2 ^ 32)

unfoldable pub write_int64 : ℕ → Bytes → Bytes
unfolding pack64
write_int64 v buf = buf ++ pack64 (v % 2 ^ 64)

-- The length is masked to 16 bits, and all the bytes are written.
unfoldable pub write_string : Text → Bytes → Result ProtocolError Bytes
unfolding write_int16
write_string [] buf = ok (write_int16 0 buf)
write_string (c ∷ s) buf = elim (encode (c ∷ s)) [
  | none ↦ err unicode_error
  | some encoded ↦ ok (write_int16 (length encoded) buf ++ encoded)
]
