-- ===== src/Connection/Received.antt =====
-- What the receive loop makes of a stream.
use hermes_channel_octo.Prelude.{
  ℕ, zero, suc, ◌≡◌, refl, sym, ap, ◌∙◌, Bool, List, [], ◌∷◌, ◌++◌, length, append_assoc, arith,
  Option-cases, inl, inr,
}
use hermes_channel_octo.Prelude.Result.{Result, ok, err}
use hermes_channel_octo.Protocol.Utf8.{Bytes}
use hermes_channel_octo.Protocol.Encoder.{ProtocolError}
use hermes_channel_octo.Protocol.Packets.{encode_pong_packet, encode_recvack_packet}
use hermes_channel_octo.Protocol.Parse.{
  Packet, pong_packet, ping_packet, sendack_packet, connack_packet, recv_packet, disconnect_packet,
  other_packet, RecvResult, decode_packet,
}
use hermes_channel_octo.Protocol.Frames.{try_unpack_one}
use hermes_channel_octo.Protocol.Frames.Stream.{drain_from, drain, resume, after, drain-append}
use hermes_channel_octo.Connection.Numbered.{ack_of}
use hermes_channel_octo.Connection.{
  Connection, send, send_ack, handle_recv, handle_decoded, handle_frame, process_buffer, receive,
}

-- What is written for a frame, and the message that it carries.
abbrev pub answer_to : Result ProtocolError Packet → List Bytes
answer_to (ok ping_packet) = encode_pong_packet ∷ []
answer_to (ok (recv_packet m)) = ack_of m ∷ []
answer_to _ = []

abbrev pub message_in : Result ProtocolError Packet → List RecvResult
message_in (ok (recv_packet m)) = m ∷ []
message_in _ = []

abbrev pub answers : List Bytes → List Bytes
answers [] = []
answers (f ∷ fs) = answer_to (decode_packet f) ++ answers fs

abbrev pub messages : List Bytes → List RecvResult
messages [] = []
messages (f ∷ fs) = message_in (decode_packet f) ++ messages fs

abbrev pub IsQuietPacket : Result ProtocolError Packet → Type 0
IsQuietPacket (ok (disconnect_packet reason text)) = ⊥
IsQuietPacket _ = Unit

-- The frame does not end the connection.
abbrev pub IsQuiet : Bytes → Type 0
IsQuiet f = IsQuietPacket (decode_packet f)

module _ (delivers : ℕ → Bool) where
  abbrev pub handle_frames : List Bytes → Connection → Connection
  handle_frames [] c = c
  handle_frames (f ∷ fs) c = handle_frames fs (handle_frame delivers f c)

  send-buffer :
      (p b : Bytes) (c : Connection)
      → send delivers p (record c { buffer = b }) ≡ record (send delivers p c) { buffer = b }
  unfolding send
  send-buffer p b c = ground arith

  send_ack-buffer :
      (x : Result ProtocolError Bytes) (b : Bytes) (c : Connection)
      → send_ack delivers x (record c { buffer = b })
        ≡ record (send_ack delivers x c) { buffer = b }
  send_ack-buffer (err raised) b c = refl
  send_ack-buffer (ok p) b c = send-buffer p b c

  handle_decoded-buffer :
      (x : Result ProtocolError Packet) (b : Bytes) (c : Connection)
      → handle_decoded delivers x (record c { buffer = b })
        ≡ record (handle_decoded delivers x c) { buffer = b }
  unfolding handle_recv
  handle_decoded-buffer (err raised) b c = refl
  handle_decoded-buffer (ok pong_packet) b c = refl
  handle_decoded-buffer (ok ping_packet) b c = send-buffer encode_pong_packet b c
  handle_decoded-buffer (ok sendack_packet) b c = refl
  handle_decoded-buffer (ok (connack_packet k)) b c = refl
  handle_decoded-buffer (ok (recv_packet m)) b c =
      ap (λ (x : Connection). record x { received = x.received ++ m ∷ [] })
        (send_ack-buffer (encode_recvack_packet m.message_id m.message_seq) b c)
  handle_decoded-buffer (ok (disconnect_packet reason text)) b c = refl
  handle_decoded-buffer (ok (other_packet code)) b c = refl

  handle_frame-buffer :
      (f b : Bytes) (c : Connection)
      → handle_frame delivers f (record c { buffer = b })
        ≡ record (handle_frame delivers f c) { buffer = b }
  unfolding handle_frame
  handle_frame-buffer f b c = handle_decoded-buffer (decode_packet f) b c

  abbrev pub with_frames : List Bytes × Bytes → Connection → Connection
  with_frames (fs, rest) c = record (handle_frames fs c) { buffer = rest }

  handle_frames-buffer :
      (fs : List Bytes) (b : Bytes) (c : Connection)
      → handle_frames fs (record c { buffer = b }) ≡ record (handle_frames fs c) { buffer = b }
  handle_frames-buffer [] b c = refl
  handle_frames-buffer (f ∷ fs) b c =
      ap (handle_frames fs) (handle_frame-buffer f b c)
      ∙ handle_frames-buffer fs b (handle_frame delivers f c)

  with_frames-buffer :
      (x : List Bytes × Bytes) (b : Bytes) (c : Connection)
      → with_frames x (record c { buffer = b }) ≡ with_frames x c
  with_frames-buffer (fs, rest) b c =
      ap (λ (x : Connection). record x { buffer = rest }) (handle_frames-buffer fs b c)

  process_buffer-drain :
      (n : ℕ) (c : Connection) → process_buffer delivers n c ≡ with_frames (drain_from n c.buffer) c
  unfolding process_buffer drain_from
  process_buffer-drain zero c = refl
  process_buffer-drain (suc n) c = elim (Option-cases (try_unpack_one c.buffer).0) [
    | inl h ↦ rw (process_buffer, drain_from, h) refl
    | inr (f, h) ↦
        let r = (try_unpack_one c.buffer).1 in
        let d : Connection = record (handle_frame delivers f c) { buffer = r } in
        rw (process_buffer, drain_from, h)
          (ap (process_buffer delivers n) (handle_frame-buffer f r c)
            ∙ process_buffer-drain n d
            ∙ with_frames-buffer (drain_from n r) r (handle_frame delivers f c))
  ]

  pub receive-drain :
      (bytes : Bytes) (c : Connection)
      → receive delivers bytes c ≡ with_frames (drain (c.buffer ++ bytes)) c
  unfolding receive drain
  receive-drain bytes c =
      let more : Connection = record c { buffer = c.buffer ++ bytes } in
      process_buffer-drain (length more.buffer) more
      ∙ with_frames-buffer (drain_from (length more.buffer) more.buffer) more.buffer c

  pub handle_frames-append :
      (fs gs : List Bytes) (c : Connection)
      → handle_frames (fs ++ gs) c ≡ handle_frames gs (handle_frames fs c)
  handle_frames-append [] gs c = refl
  handle_frames-append (f ∷ fs) gs c = handle_frames-append fs gs (handle_frame delivers f c)

  with_frames-after :
      (fs : List Bytes) (rest : Bytes) (y : List Bytes × Bytes) (c : Connection)
      → with_frames (after fs y) c ≡ with_frames y (with_frames (fs, rest) c)
  with_frames-after fs rest (gs, r) c =
      ap (λ (x : Connection). record x { buffer = r }) (handle_frames-append fs gs c)
      ∙ sym (with_frames-buffer (gs, r) rest (handle_frames fs c))

  with_frames-resume :
      (x : List Bytes × Bytes) (more : Bytes) (c : Connection)
      → with_frames (resume x more) c
        ≡ with_frames (drain ((with_frames x c).buffer ++ more)) (with_frames x c)
  with_frames-resume (fs, rest) more c = with_frames-after fs rest (drain (rest ++ more)) c

  -- Bytes that come in two messages are received like those of one.
  pub receive-receive :
      (a b : Bytes) (c : Connection)
      → receive delivers b (receive delivers a c) ≡ receive delivers (a ++ b) c
  receive-receive a b c =
      let x = drain (c.buffer ++ a) in
      ap (receive delivers b) (receive-drain a c)
      ∙ receive-drain b (with_frames x c)
      ∙ sym (with_frames-resume x b c)
      ∙ ap (λ y. with_frames y c) (sym (drain-append (c.buffer ++ a) b))
      ∙ ap (λ y. with_frames (drain y) c) (append_assoc c.buffer a b)
      ∙ sym (receive-drain (a ++ b) c)
