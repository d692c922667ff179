-- ===== src/Connection/Acknowledged.antt =====
-- The messages of a stream and their acknowledgements.
use hermes_channel_octo.Prelude.{
  ℕ, ◌≡◌, refl, sym, ap, subst, ◌∙◌, Bool, true, List, [], ◌∷◌, ◌++◌, append_assoc, append-nil, All,
}
use hermes_channel_octo.Prelude.Result.{Result, ok, err}
use hermes_channel_octo.Protocol.Utf8.{Bytes}
use hermes_channel_octo.Protocol.Encoder.{ProtocolError}
use hermes_channel_octo.Protocol.Packets.{encode_pong_packet, encode_recvack_packet}
use hermes_channel_octo.Protocol.Parse.{
  Packet, pong_packet, ping_packet, sendack_packet, connack_packet, recv_packet, disconnect_packet,
  other_packet, RecvResult, decode_packet,
}
use hermes_channel_octo.Protocol.Frames.Stream.{drain}
use hermes_channel_octo.Connection.{
  Connection, send, send_ack, handle_recv, handle_decoded, handle_frame, receive,
}
use hermes_channel_octo.Connection.Numbered.{
  ack_of, IsNumbered, IsNumbered-encode, IsNumberedResult, returns, decode_packet-IsNumbered,
}
use hermes_channel_octo.Connection.Received.{
  answer_to, message_in, answers, messages, IsQuietPacket, IsQuiet, handle_frames, receive-drain,
}

-- The connection went on, with this much more sent and received.
pub record Goes (c : Connection) (out : List Bytes) (msgs : List RecvResult) (x : Connection)
    : Type 0 where
  pub connected : x.connected ≡ true
  pub socket_open : x.socket_open ≡ true
  pub sent : x.sent ≡ c.sent ++ out
  pub received : x.received ≡ c.received ++ msgs

-- Some bytes that carry no DISCONNECT.
abbrev pub QuietBytes : Connection → Bytes → Type 0
QuietBytes c bytes = All IsQuiet (drain (c.buffer ++ bytes)).0

module _ (delivers : ℕ → Bool) (all_delivered : (n : ℕ) → delivers n ≡ true) where
  Goes-none :
      (c x : Connection)
      → c.connected ≡ true
      → c.socket_open ≡ true
      → x.connected ≡ c.connected
      → x.socket_open ≡ c.socket_open
      → x.sent ≡ c.sent
      → x.received ≡ c.received
      → Goes c [] [] x
  Goes-none c x h k a b s r = record {
    connected = a ∙ h;
    socket_open = b ∙ k;
    sent = s ∙ sym (append-nil c.sent);
    received = r ∙ sym (append-nil c.received);
  }

  Goes-send :
      (p : Bytes) (c : Connection)
      → c.connected ≡ true
      → c.socket_open ≡ true
      → Goes c (p ∷ []) [] (send delivers p c)
  unfolding send
  Goes-send p c h k =
      rw (k, all_delivered c.writes)
        (record {
          connected = h;
          socket_open = refl;
          sent = refl;
          received = sym (append-nil c.received);
        })

  Goes-ack :
      (m : RecvResult) (c : Connection)
      → IsNumbered m
      → c.connected ≡ true
      → c.socket_open ≡ true
      → Goes c
          (ack_of m ∷ [])
          []
          (send_ack delivers (encode_recvack_packet m.message_id m.message_seq) c)
  Goes-ack m c n h k = rw (IsNumbered-encode m n) (Goes-send (ack_of m) c h k)

  Goes-decoded :
      (x : Result ProtocolError Packet) (c : Connection)
      → IsNumberedResult x
      → IsQuietPacket x
      → c.connected ≡ true
      → c.socket_open ≡ true
      → Goes c (answer_to x) (message_in x) (handle_decoded delivers x c)
  unfolding handle_recv
  Goes-decoded (err raised) c n q h k = Goes-none c c h k refl refl refl refl
  Goes-decoded (ok pong_packet) c n q h k = Goes-none c _ h k refl refl refl refl
  Goes-decoded (ok ping_packet) c n q h k = Goes-send encode_pong_packet c h k
  Goes-decoded (ok sendack_packet) c n q h k = Goes-none c c h k refl refl refl refl
  Goes-decoded (ok (connack_packet x)) c n q h k = Goes-none c c h k refl refl refl refl
  Goes-decoded (ok (other_packet code)) c n q h k = Goes-none c c h k refl refl refl refl
  Goes-decoded (ok (disconnect_packet reason text)) c n q h k = absurd q
  Goes-decoded (ok (recv_packet m)) c (returns n) q h k =
      let acked = Goes-ack m c n h k in
      record {
        connected = acked.connected;
        socket_open = acked.socket_open;
        sent = acked.sent;
        received = ap (λ l. l ++ m ∷ []) (acked.received ∙ append-nil c.received);
      }

  Goes-frames :
      (fs : List Bytes) (c : Connection)
      → All IsQuiet fs
      → c.connected ≡ true
      → c.socket_open ≡ true
      → Goes c (answers fs) (messages fs) (handle_frames delivers fs c)
  unfolding handle_frame
  Goes-frames [] c q h k = Goes-none c c h k refl refl refl refl
  Goes-frames (f ∷ fs) c (q, qs) h k =
      let x = handle_decoded delivers (decode_packet f) c in
      let one = Goes-decoded (decode_packet f) c (decode_packet-IsNumbered f) q h k in
      let more = Goes-frames fs x qs one.connected one.socket_open in
      record {
        connected = more.connected;
        socket_open = more.socket_open;
        sent =
            more.sent
            ∙ ap (λ l. l ++ answers fs) one.sent
            ∙ append_assoc c.sent (answer_to (decode_packet f)) (answers fs);
        received =
            more.received
            ∙ ap (λ l. l ++ messages fs) one.received
            ∙ append_assoc c.received (message_in (decode_packet f)) (messages fs);
      }

  pub Goes-receive :
      (bytes : Bytes) (c : Connection)
      → QuietBytes c bytes
      → c.connected ≡ true
      → c.socket_open ≡ true
      → let frames = (drain (c.buffer ++ bytes)).0 in
        Goes c (answers frames) (messages frames) (receive delivers bytes c)
  Goes-receive bytes c q h k =
      let x = drain (c.buffer ++ bytes) in
      let go = Goes-frames x.0 c q h k in
      subst (Goes c (answers x.0) (messages x.0)) (sym (receive-drain delivers bytes c)) (record {
        connected = go.connected;
        socket_open = go.socket_open;
        sent = go.sent;
        received = go.received;
      })
