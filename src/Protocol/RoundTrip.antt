-- ===== src/Protocol/RoundTrip.antt =====
-- Whole packets: what a peer that reads the fields in the order of the wire format gets from a
-- CONNECT packet, and what decode_packet gets from a RECV packet written in that order.
use native.Mathlib.Nat.{mod-eq_of_lt}
use hermes_channel_octo.Prelude.{
  ℕ, ◌/◌, ◌^◌, ◌<◌, ◌≡◌, refl, some, Bool, true, false, [], ◌∷◌, ◌++◌, length, append_assoc,
  if◌then◌else◌,
}
use hermes_channel_octo.Prelude.Result.{ok}
use hermes_channel_octo.Prelude.Text.{Text}
use hermes_channel_octo.Protocol.Utf8.{Bytes, encode}
use hermes_channel_octo.Protocol.Encoder.{pack32, pack64}
use hermes_channel_octo.Protocol.Decoder.{read_byte, read_string, read_remaining}
use hermes_channel_octo.Protocol.VarLen.{read-encode}
use hermes_channel_octo.Protocol.Frames.Whole.{frame_of}
use hermes_channel_octo.Protocol.Packets.{encode_connect_packet, encode_recvack_packet, str_of}
use hermes_channel_octo.Protocol.Parse.{
  RecvResult, recv_packet, optional, parse_setting_byte, decode_recv, decode_packet,
}
use hermes_channel_octo.Protocol.Fields.{
  prefixed, read-pack32, read-pack64, read_string-prefixed, write_string-prefixed, int_of-str_of,
}

-- A text that a packet can hold, with its bytes.
pub record Field : Type 0 where
  pub text : Text
  pub bytes : Bytes
  pub encoded : encode text ≡ some bytes
  pub short : length bytes < 2 ^ 16

read-Field : (f : Field) (r : Bytes) → read_string (prefixed f.bytes ++ r) ≡ ok (f.text, r)
read-Field f r = read_string-prefixed f.text f.bytes r f.encoded

pub record RecvFields : Type 0 where
  pub setting : ℕ
  pub msg_key : Field
  pub from_uid : Field
  pub channel_id : Field
  pub channel_type : ℕ
  pub expire : ℕ
  pub client_msg_no : Field
  pub message_id : ℕ
  pub message_seq : ℕ
  pub timestamp : ℕ
  pub topic : Field
  pub payload : Bytes

-- The topic is on the wire only if the setting says so.
abbrev pub topic_bytes : Bool → Field → Bytes
topic_bytes present f = if present then prefixed f.bytes else []

-- The body of a RECV packet, in the order of the wire format.
abbrev pub recv_body : RecvFields → Bytes
recv_body f =
    f.setting
    ∷ (prefixed f.msg_key.bytes
        ++ (prefixed f.from_uid.bytes
            ++ (prefixed f.channel_id.bytes
                ++ (f.channel_type
                    ∷ (pack32 f.expire
                        ++ (prefixed f.client_msg_no.bytes
                            ++ (pack64 f.message_id
                                ++ (pack32 f.message_seq
                                    ++ (pack32 f.timestamp
                                        ++ (topic_bytes (parse_setting_byte f.setting).topic f.topic
                                            ++ f.payload))))))))))

abbrev pub received : RecvFields → RecvResult
received f = record {
  setting = parse_setting_byte f.setting;
  msg_key = f.msg_key.text;
  from_uid = f.from_uid.text;
  channel_id = f.channel_id.text;
  channel_type = f.channel_type;
  client_msg_no = f.client_msg_no.text;
  message_id = str_of f.message_id;
  message_seq = f.message_seq;
  timestamp = f.timestamp;
  encrypted_payload = f.payload;
}

read-topic :
    (present : Bool) (f : Field) (r : Bytes)
    → optional present (read_string (topic_bytes present f ++ r)) [] (topic_bytes present f ++ r)
      ≡ ok (if present then f.text else [], r)
read-topic true f r = read-Field f r
read-topic false f r = refl

decode_recv-body : (f : RecvFields) → decode_recv (recv_body f) ≡ ok (received f, [])
unfolding decode_recv read_byte read_remaining
decode_recv-body f = rw (
  read-Field f.msg_key _,
  read-Field f.from_uid _,
  read-Field f.channel_id _,
  read-pack32 f.expire _,
  read-Field f.client_msg_no _,
  read-pack64 f.message_id _,
  read-pack32 f.message_seq _,
  read-pack32 f.timestamp _,
  read-topic (parse_setting_byte f.setting).topic f.topic f.payload,
)

-- A RECV packet decodes to its fields, whatever the low four bits of its header are, if its body
-- is shorter than 2^28 bytes and each of its texts shorter than 2^16 bytes.
pub decode_packet-recv :
    (header : ℕ) (f : RecvFields)
    → header / 16 ≡ 5
    → length (recv_body f) < 2 ^ 28
    → decode_packet (frame_of header (recv_body f)) ≡ ok (recv_packet (received f))
unfolding decode_packet
decode_packet-recv header f h short =
    rw (h, read-encode (length (recv_body f)) (recv_body f) short, decode_recv-body f)

-- The acknowledgement of a received packet, whose id is below 2^64 and whose sequence number is
-- below 2^32, carries that id and that number.
pub encode_recvack_packet-received :
    (f : RecvFields)
    → f.message_id < 2 ^ 64
    → f.message_seq < 2 ^ 32
    → encode_recvack_packet (received f).message_id (received f).message_seq
      ≡ ok (frame_of 0x60 (pack64 f.message_id ++ pack32 f.message_seq))
unfolding encode_recvack_packet
encode_recvack_packet-received f h k =
    rw (int_of-str_of f.message_id, mod-eq_of_lt h, mod-eq_of_lt k)

pub record ConnectFields : Type 0 where
  pub version : ℕ
  pub device_flag : ℕ
  pub device_id : Field
  pub uid : Field
  pub token : Field
  pub client_timestamp : ℕ
  pub client_key : Field

abbrev pub connect_body : ConnectFields → Bytes
connect_body f =
    f.version
    ∷ f.device_flag
    ∷ (prefixed f.device_id.bytes
        ++ (prefixed f.uid.bytes
            ++ (prefixed f.token.bytes
                ++ (pack64 f.client_timestamp ++ prefixed f.client_key.bytes))))

-- If the version and the flag fit in a byte and the timestamp in 64 bits, the fields of a CONNECT
-- packet stand in the order of the wire format behind its header, for texts shorter than 2^16
-- bytes.
pub encode_connect_packet-body :
    (f : ConnectFields)
    → f.version < 256
    → f.device_flag < 256
    → f.client_timestamp < 2 ^ 64
    → encode_connect_packet f.version f.device_flag f.device_id.text f.uid.text f.token.text
        f.client_timestamp f.client_key.text
      ≡ ok (frame_of 0x10 (connect_body f))
unfolding encode_connect_packet
encode_connect_packet-body f v d t =
    rw
      (
        write_string-prefixed f.device_id.text f.device_id.bytes _ f.device_id.encoded
            f.device_id.short,
        write_string-prefixed f.uid.text f.uid.bytes _ f.uid.encoded f.uid.short,
        write_string-prefixed f.token.text f.token.bytes _ f.token.encoded f.token.short,
        write_string-prefixed f.client_key.text f.client_key.bytes _ f.client_key.encoded
            f.client_key.short,
        mod-eq_of_lt v,
        mod-eq_of_lt d,
        mod-eq_of_lt t,
      )
      (simp append_assoc)
