-- ===== src/Tests/Wire.antt =====
-- protocol.py at concrete packets.
use hermes_channel_octo.Prelude.{ℕ, ◌^◌, ◌+◌, ◌≡◌, refl, some, [], ◌∷◌, ◌++◌, length, arith, ◌<◌}
use hermes_channel_octo.Prelude.Result.{ok}
use hermes_channel_octo.Protocol.Utf8.{encode}
use hermes_channel_octo.Protocol.Encoder.{pack16, pack32, pack64}
use hermes_channel_octo.Protocol.Decoder.{read_variable_length}
use hermes_channel_octo.Protocol.VarLen.{encode_variable_length, read-encode}
use hermes_channel_octo.Protocol.Frames.{try_unpack_one}
use hermes_channel_octo.Protocol.Frames.Whole.{
  frame_of, try_unpack_one-frame_of, try_unpack_one-more, length-try_unpack_one,
}
use hermes_channel_octo.Protocol.Frames.Stream.{drain, resume, drain-append}
use hermes_channel_octo.Protocol.Packets.{encode_recvack_packet, encode_connect_packet}
use hermes_channel_octo.Protocol.Parse.{decode_packet, recv_packet, parse_setting_byte}
use hermes_channel_octo.Protocol.RoundTrip.{
  Field, RecvFields, ConnectFields, recv_body, received, connect_body, decode_packet-recv,
  encode_recvack_packet-received, encode_connect_packet-body,
}

accent-encoded : encode (233 ∷ []) ≡ some (0xC3 ∷ 0xA9 ∷ [])
unfolding encode
accent-encoded = refl

-- "é" as a field.
abbrev plain_field : Field
plain_field = record {
  text = 233 ∷ [];
  bytes = 0xC3 ∷ 0xA9 ∷ [];
  encoded = accent-encoded;
  short = omega arith;
}

abbrev some_recv : RecvFields
some_recv = record {
  setting = 8;
  msg_key = plain_field;
  from_uid = plain_field;
  channel_id = plain_field;
  channel_type = 2;
  expire = 0;
  client_msg_no = plain_field;
  message_id = 2 ^ 60 + 1;
  message_seq = 7;
  timestamp = 1700000000;
  topic = plain_field;
  payload = 1 ∷ 2 ∷ [];
}

abbrev some_connect : ConnectFields
some_connect = record {
  version = 4;
  device_flag = 0;
  device_id = plain_field;
  uid = plain_field;
  token = plain_field;
  client_timestamp = 1700000000000;
  client_key = plain_field;
}

decode_packet-recv_example :
    decode_packet (frame_of 0x58 (recv_body some_recv)) ≡ ok (recv_packet (received some_recv))
unfolding pack16 pack32 pack64 parse_setting_byte
decode_packet-recv_example = decode_packet-recv 0x58 some_recv refl (omega arith)

encode_recvack_packet-received_example :
    encode_recvack_packet (received some_recv).message_id (received some_recv).message_seq
    ≡ ok (frame_of 0x60 (pack64 some_recv.message_id ++ pack32 some_recv.message_seq))
encode_recvack_packet-received_example =
    encode_recvack_packet-received some_recv (omega arith) (omega arith)

encode_connect_packet-body_example :
    encode_connect_packet 4 0 plain_field.text plain_field.text plain_field.text 1700000000000
      plain_field.text
    ≡ ok (frame_of 0x10 (connect_body some_connect))
encode_connect_packet-body_example =
    encode_connect_packet-body some_connect (omega arith) (omega arith) (omega arith)

read-encode_example :
    read_variable_length (encode_variable_length 20000 ++ (9 ∷ [])) ≡ ok (20000, 9 ∷ [])
read-encode_example = read-encode 20000 (9 ∷ []) (omega arith)

try_unpack_one-frame_of_example :
    try_unpack_one (frame_of 0x50 (1 ∷ 2 ∷ []) ++ (0x50 ∷ []))
    ≡ (some (frame_of 0x50 (1 ∷ 2 ∷ [])), 0x50 ∷ [])
try_unpack_one-frame_of_example = try_unpack_one-frame_of 0x50 (1 ∷ 2 ∷ []) (0x50 ∷ []) refl

try_unpack_one-more_example :
    try_unpack_one ((0x50 ∷ 1 ∷ 9 ∷ 0x50 ∷ []) ++ (0 ∷ []))
    ≡ (some (0x50 ∷ 1 ∷ 9 ∷ []), (0x50 ∷ []) ++ (0 ∷ []))
unfolding try_unpack_one
try_unpack_one-more_example =
    try_unpack_one-more (0x50 ∷ 1 ∷ 9 ∷ 0x50 ∷ []) (0 ∷ []) {frame = 0x50 ∷ 1 ∷ 9 ∷ []}
      {rest = 0x50 ∷ []} refl

length-try_unpack_one_example :
    length {A = ℕ} (0x50 ∷ []) < length {A = ℕ} (0x50 ∷ 1 ∷ 9 ∷ 0x50 ∷ [])
unfolding try_unpack_one
length-try_unpack_one_example =
    length-try_unpack_one (0x50 ∷ 1 ∷ 9 ∷ 0x50 ∷ []) {frame = 0x50 ∷ 1 ∷ 9 ∷ []} {rest = 0x50 ∷ []}
      refl

drain-append_example :
    drain ((0x80 ∷ 0x50 ∷ 1 ∷ []) ++ (9 ∷ 0x50 ∷ []))
    ≡ resume (drain (0x80 ∷ 0x50 ∷ 1 ∷ [])) (9 ∷ 0x50 ∷ [])
drain-append_example = drain-append (0x80 ∷ 0x50 ∷ 1 ∷ []) (9 ∷ 0x50 ∷ [])
