-- ===== src/Protocol/Packets.antt =====
-- The packets that protocol.py encodes. `int(message_id)` reads the decimal digits of an id; the
-- signs, blanks and underscores that `int` takes too do not occur in one.
use hermes_channel_octo.Prelude.{
  ℕ, zero, suc, ◌+◌, ◌-◌, ◌*◌, ◌/◌, ◌%◌, ◌&&◌, [], ◌∷◌, length, leb, ltb, if◌then◌else◌,
}
use hermes_channel_octo.Prelude.Result.{Result, ok, err, ◌>>=◌}
use hermes_channel_octo.Prelude.Text.{Text}
use hermes_channel_octo.Protocol.Utf8.{Bytes}
use hermes_channel_octo.Protocol.Encoder.{
  ProtocolError, not_a_number, write_byte, write_bytes, write_int32, write_int64, write_string,
}
use hermes_channel_octo.Protocol.VarLen.{encode_variable_length}

pub data PacketType : Type 0 where
  connect connack send sendack recv recvack ping pong disconnect : PacketType

abbrev pub packet_code : PacketType → ℕ
packet_code connect = 1
packet_code connack = 2
packet_code send = 3
packet_code sendack = 4
packet_code recv = 5
packet_code recvack = 6
packet_code ping = 7
packet_code pong = 8
packet_code disconnect = 9

abbrev pub proto_version : ℕ
proto_version = 4

-- Header, length of the body, body.
unfoldable pub frame : PacketType → Bytes → Bytes
unfolding write_byte write_bytes
frame t body =
    write_bytes body
      (write_bytes (encode_variable_length (length body)) (write_byte (packet_code t * 16) []))

unfoldable pub encode_connect_packet :
    ℕ → ℕ → Text → Text → Text → ℕ → Text → Result ProtocolError Bytes
unfolding frame write_int64
encode_connect_packet version device_flag device_id uid token client_timestamp client_key = do
  let start = write_byte device_flag (write_byte version [])
  with_id ← write_string device_id start
  with_uid ← write_string uid with_id
  with_token ← write_string token with_uid
  body ← write_string client_key (write_int64 client_timestamp with_token)
  ok (frame connect body)

unfoldable pub encode_ping_packet : Bytes
encode_ping_packet = (packet_code ping * 16) ∷ []

unfoldable pub encode_pong_packet : Bytes
encode_pong_packet = (packet_code pong * 16) ∷ []

-- str(v): the digits from the last one up, and then turned round by the accumulator.
unfoldable pub digits_of : ℕ → ℕ → Text → Text
digits_of zero v acc = acc
digits_of (suc fuel) v acc =
    let digit = 48 + v % 10 in
    let more = digits_of fuel (v / 10) (digit ∷ acc) in if ltb v 10 then digit ∷ acc else more

-- A number has fewer digits than its successor says.
unfoldable pub str_of : ℕ → Text
unfolding digits_of
str_of v = digits_of (suc v) v []

unfoldable pub int_from : ℕ → Text → Result ProtocolError ℕ
int_from v [] = ok v
int_from v (c ∷ s) =
    let more = int_from (v * 10 + (c - 48)) s in
    if leb 48 c && leb c 57 then more else err not_a_number

unfoldable pub int_of : Text → Result ProtocolError ℕ
unfolding int_from
int_of [] = err not_a_number
int_of (c ∷ s) = int_from 0 (c ∷ s)

unfoldable pub encode_recvack_packet : Text → ℕ → Result ProtocolError Bytes
unfolding frame write_int64 write_int32
encode_recvack_packet message_id message_seq = do
  id ← int_of message_id
  ok (frame recvack (write_int32 message_seq (write_int64 id [])))
