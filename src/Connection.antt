-- ===== src/Connection.antt =====
-- The connection of a bot in adapter.py: the handshake, the receive loop, the heartbeat and the
-- reconnection, over the packets of Protocol. What is handed on is the message of a RECV packet
-- behind its acknowledgement; the key exchange is left out. Whether the n-th write to the socket
-- succeeds, `delivers`, is up to the network.
pub mod Numbered
pub mod Received
pub mod Gate
pub mod Addressed
pub mod Acknowledged
pub mod Chunks
pub mod Heartbeat
pub mod Reconnect
use hermes_channel_octo.Prelude.{
  ℕ, zero, suc, ◌+◌, ◌-◌, ◌*◌, ◌^◌, Bool, true, false, not, ◌&&◌, Option, none, some, List, [], ◌∷◌,
  ◌++◌, length, min, take, ltb, leb, ◌==◌, if◌then◌else◌,
}
use hermes_channel_octo.Prelude.Result.{Result, ok, err}
use hermes_channel_octo.Prelude.Text.{Text}
use hermes_channel_octo.Protocol.Utf8.{Bytes}
use hermes_channel_octo.Protocol.Encoder.{ProtocolError}
use hermes_channel_octo.Protocol.Packets.{
  encode_ping_packet, encode_pong_packet, encode_recvack_packet,
}
use hermes_channel_octo.Protocol.Parse.{
  Packet, pong_packet, ping_packet, sendack_packet, connack_packet, recv_packet, disconnect_packet,
  other_packet, ConnackResult, RecvResult, decode_packet,
}
use hermes_channel_octo.Protocol.Frames.{try_unpack_one}

pub record Connection : Type 0 where
  pub connected : Bool
  pub socket_open : Bool
  pub buffer : Bytes
  pub ping_retry_count : ℕ
  pub ping_max_retry : ℕ
  pub heartbeat_running : Bool
  pub need_reconnect : Bool
  pub reconnect_scheduled : Bool
  pub reconnect_attempts : ℕ
  pub aes_iv : Text
  pub server_version : ℕ
  pub writes : ℕ
  pub sent : List Bytes
  pub received : List RecvResult

module _ (delivers : ℕ → Bool) where
  abbrev pub can_send : Connection → Bool
  can_send c = c.socket_open && delivers c.writes

  -- `await self._ws.send(...)`, where an exception is only logged.
  unfoldable pub send : Bytes → Connection → Connection
  send packet c =
      if can_send c
      then record c { writes = c.writes + 1; sent = c.sent ++ packet ∷ [] }
      else record c { writes = c.writes + 1 }

  abbrev pub send_ack : Result ProtocolError Bytes → Connection → Connection
  send_ack (err raised) c = c
  send_ack (ok packet) c = send packet c

  -- The acknowledgement comes first, whatever becomes of the message.
  unfoldable pub handle_recv : RecvResult → Connection → Connection
  unfolding send
  handle_recv m c =
      let acked = send_ack (encode_recvack_packet m.message_id m.message_seq) c in
      record acked { received = acked.received ++ m ∷ [] }

  abbrev pub handle_packet : Packet → Connection → Connection
  handle_packet pong_packet c = record c { ping_retry_count = 0 }
  handle_packet ping_packet c = send encode_pong_packet c
  handle_packet (recv_packet m) c = handle_recv m c
  handle_packet (disconnect_packet reason text) c = record c {
    connected = false;
    socket_open = false;
  }
  handle_packet _ c = c

  abbrev pub handle_decoded : Result ProtocolError Packet → Connection → Connection
  handle_decoded (err raised) c = c
  handle_decoded (ok packet) c = handle_packet packet c

  -- A frame that cannot be decoded is skipped.
  unfoldable pub handle_frame : Bytes → Connection → Connection
  unfolding handle_recv
  handle_frame frame c = handle_decoded (decode_packet frame) c

  -- `while self._temp_buffer`. Every frame takes a byte, so the length of the buffer is fuel enough.
  unfoldable pub process_buffer : ℕ → Connection → Connection
  unfolding handle_frame
  process_buffer zero c = c
  process_buffer (suc fuel) c =
      let (found, rest) = try_unpack_one c.buffer in
      elim found [
        | none ↦ record c { buffer = rest }
        | some frame ↦ process_buffer fuel (handle_frame frame (record c { buffer = rest }))
      ]

  unfoldable pub receive : Bytes → Connection → Connection
  unfolding process_buffer
  receive bytes c =
      let more = record c { buffer = c.buffer ++ bytes } in process_buffer (length more.buffer) more

  -- What follows the loop.
  abbrev pub stop_receiving : Connection → Connection
  stop_receiving c = record c {
    connected = false;
    reconnect_scheduled = if c.need_reconnect then true else c.reconnect_scheduled;
  }

  -- The loop over what the socket yields; none is a closed socket or an error.
  unfoldable pub receive_loop : List (Option Bytes) → Connection → Connection
  unfolding receive
  receive_loop [] c = if c.connected then c else stop_receiving c
  receive_loop (none ∷ rest) c = stop_receiving c
  receive_loop (some bytes ∷ rest) c =
      let next = receive_loop rest (receive bytes c) in
      if c.connected then next else stop_receiving c

  -- A round of the heartbeat loop behind its sleep, and its test for the next one.
  unfoldable pub beat : Connection → Connection
  unfolding send
  beat c =
      let tried = record c { ping_retry_count = c.ping_retry_count + 1 } in
      if not c.heartbeat_running
      then c
      else if ltb c.ping_max_retry (c.ping_retry_count + 1)
      then record tried { connected = false; socket_open = false; heartbeat_running = false }
      else if can_send c
      then record (send encode_ping_packet tried) { heartbeat_running = c.connected }
      else record (send encode_ping_packet tried) { heartbeat_running = false }

  unfoldable pub beats : ℕ → Connection → Connection
  unfolding beat
  beats zero c = c
  beats (suc n) c = beats n (beat c)

pub data HandshakeError : Type 0 where
  connect_failed : ℕ → HandshakeError
  no_connack : HandshakeError
  undecodable : ProtocolError → HandshakeError

abbrev pub pad : ℕ → Text → Text
pad zero s = []
pad (suc n) [] = 0 ∷ pad n []
pad (suc n) (c ∷ s) = c ∷ pad n s

-- `salt[:16]`, or the salt filled up with NUL.
unfoldable pub iv_of : Text → Text
iv_of salt = if leb 16 (length salt) then take 16 salt else pad 16 salt

abbrev pub accept : ConnackResult → Connection → Connection
accept k c = record c {
  aes_iv = iv_of k.salt;
  server_version = k.server_version;
  connected = true;
  ping_retry_count = 0;
  reconnect_attempts = 0;
}

abbrev pub connack : Packet → Bool → Connection → Result HandshakeError (Bool × Connection)
connack (connack_packet k) done c =
    if k.reason_code == 1 then ok (true, accept k c) else err (connect_failed k.reason_code)
connack _ done c = ok (done, c)

abbrev pub after_packet :
    (Bool → Connection → Result HandshakeError (Bool × Connection))
    → Result HandshakeError (Bool × Connection)
    → Result HandshakeError (Bool × Connection)
after_packet rest (err raised) = err raised
after_packet rest (ok (done, c)) = rest done c

abbrev pub connack_frame :
    Result ProtocolError Packet → Bool → Connection → Result HandshakeError (Bool × Connection)
connack_frame (err raised) done c = err (undecodable raised)
connack_frame (ok packet) done c = connack packet done c

-- The frames that come with the first bytes of the server; only a CONNACK is looked at.
unfoldable pub await_connack : ℕ → Bool → Connection → Result HandshakeError (Bool × Connection)
unfolding iv_of
await_connack zero done c = ok (done, c)
await_connack (suc fuel) done c =
    let (found, rest) = try_unpack_one c.buffer in
    elim found [
      | none ↦ ok (done, record c { buffer = rest })
      | some frame ↦
          after_packet (await_connack fuel)
            (connack_frame (decode_packet frame) done (record c { buffer = rest }))
    ]

abbrev pub finish : Result HandshakeError (Bool × Connection) → Result HandshakeError Connection
finish (err raised) = err raised
finish (ok (false, c)) = err no_connack
finish (ok (true, c)) = ok (record c { heartbeat_running = true })

unfoldable pub handshake : Bytes → Connection → Result HandshakeError Connection
unfolding await_connack
handshake bytes c =
    let more = record c { buffer = c.buffer ++ bytes } in
    finish (await_connack (length more.buffer) false more)
