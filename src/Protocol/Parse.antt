-- ===== src/Protocol/Parse.antt =====
-- `decode_packet` of protocol.py and the decoders of the packet bodies.
use hermes_channel_octo.Prelude.{ℕ, ◌/◌, ◌%◌, Bool, [], ◌∷◌, ltb, leb, ◌==◌, if◌then◌else◌}
use hermes_channel_octo.Prelude.Result.{Result, ok, err, ◌>>=◌}
use hermes_channel_octo.Prelude.Text.{Text}
use hermes_channel_octo.Protocol.Utf8.{Bytes}
use hermes_channel_octo.Protocol.Encoder.{ProtocolError, empty_packet}
use hermes_channel_octo.Protocol.Decoder.{
  Read, read_byte, read_int32, read_int64, read_string, read_remaining, read_variable_length,
}
use hermes_channel_octo.Protocol.Packets.{
  PacketType, connack, sendack, recv, ping, pong, disconnect, packet_code, str_of,
}

pub record SettingFlags : Type 0 where
  pub receipt_enabled : Bool
  pub topic : Bool
  pub stream_on : Bool

abbrev pub bit_at : ℕ → ℕ → Bool
bit_at weight v = ltb 0 (v / weight % 2)

unfoldable pub parse_setting_byte : ℕ → SettingFlags
parse_setting_byte v = record {
  receipt_enabled = bit_at 128 v;
  topic = bit_at 8 v;
  stream_on = bit_at 2 v;
}

pub record ConnackResult : Type 0 where
  pub reason_code : ℕ
  pub server_key : Text
  pub salt : Text
  pub server_version : ℕ
  pub time_diff : ℕ
  pub node_id : ℕ

pub record RecvResult : Type 0 where
  pub setting : SettingFlags
  pub msg_key : Text
  pub from_uid : Text
  pub channel_id : Text
  pub channel_type : ℕ
  pub client_msg_no : Text
  pub message_id : Text
  pub message_seq : ℕ
  pub timestamp : ℕ
  pub encrypted_payload : Bytes

-- The second half of `decode_packet`'s result.
pub data Packet : Type 0 where
  pong_packet ping_packet sendack_packet : Packet
  connack_packet : ConnackResult → Packet
  recv_packet : RecvResult → Packet
  disconnect_packet : ℕ → Text → Packet
  other_packet : ℕ → Packet

-- A field that the packet has only if the test holds, and its value where it has not.
abbrev pub optional : {A : Type 0} → Bool → Read A → A → Bytes → Read A
optional present read missing bs = if present then read else ok (missing, bs)

unfoldable pub decode_connack : Bool → Bytes → Read ConnackResult
decode_connack has_server_version bs = do
  (server_version, r1) ← optional has_server_version (read_byte bs) 0 bs
  (time_diff, r2) ← read_int64 r1
  (reason_code, r3) ← read_byte r2
  (server_key, r4) ← read_string r3
  (salt, r5) ← read_string r4
  (node_id, r6) ← optional (leb 4 server_version) (read_int64 r5) 0 r5
  ok (
    record {
      reason_code = reason_code;
      server_key = server_key;
      salt = salt;
      server_version = server_version;
      time_diff = time_diff;
      node_id = node_id;
    },
    r6,
  )

unfoldable pub decode_recv : Bytes → Read RecvResult
unfolding parse_setting_byte
decode_recv bs = do
  (setting_byte, r1) ← read_byte bs
  let setting = parse_setting_byte setting_byte
  (msg_key, r2) ← read_string r1
  (from_uid, r3) ← read_string r2
  (channel_id, r4) ← read_string r3
  (channel_type, r5) ← read_byte r4
  (expire, r6) ← read_int32 r5
  (client_msg_no, r7) ← read_string r6
  (message_id, r8) ← read_int64 r7
  (message_seq, r9) ← read_int32 r8
  (timestamp, r10) ← read_int32 r9
  (topic, r11) ← optional setting.topic (read_string r10) [] r10
  let (encrypted_payload, r12) = read_remaining r11
  ok (
    record {
      setting = setting;
      msg_key = msg_key;
      from_uid = from_uid;
      channel_id = channel_id;
      channel_type = channel_type;
      client_msg_no = client_msg_no;
      message_id = str_of message_id;
      message_seq = message_seq;
      timestamp = timestamp;
      encrypted_payload = encrypted_payload;
    },
    r12,
  )

abbrev pub is_type : ℕ → PacketType → Bool
is_type packet_type t = packet_type == packet_code t

-- The body, once the header and the remaining length have been read.
abbrev pub decode_body : ℕ → Bytes → Result ProtocolError Packet
decode_body first_byte bs =
    let packet_type = first_byte / 16 in
    if is_type packet_type connack
    then (do (result, r) ← decode_connack (ltb 0 (first_byte % 2)) bs; ok (connack_packet result))
    else if is_type packet_type recv
    then (do (result, r) ← decode_recv bs; ok (recv_packet result))
    else if is_type packet_type disconnect
    then (do
      (reason_code, r) ← read_byte bs
      (reason, r') ← read_string r
      ok (disconnect_packet reason_code reason))
    else if is_type packet_type sendack
    then ok sendack_packet
    else ok (other_packet packet_type)

unfoldable pub decode_packet : Bytes → Result ProtocolError Packet
decode_packet [] = err empty_packet
decode_packet (first_byte ∷ r) =
    if is_type (first_byte / 16) pong
    then ok pong_packet
    else if is_type (first_byte / 16) ping
    then ok ping_packet
    else do (remaining, body) ← read_variable_length r; decode_body first_byte body
