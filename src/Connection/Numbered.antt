-- ===== src/Connection/Numbered.antt =====
-- The ids of the messages of RECV packets, and the acknowledgements that carry them.
use hermes_channel_octo.Prelude.{
  ℕ, ◌+◌, ◌-◌, ◌*◌, ◌%◌, ◌^◌, ◌≡◌, refl, Bool, true, false, inl, inr, [], ◌∷◌, ◌++◌, leb, ◌&&◌, ltb,
  ◌/◌, Bool-cases, if◌then◌else◌,
}
use hermes_channel_octo.Prelude.Result.{Result, ok, err, ◌>>=◌}
use hermes_channel_octo.Prelude.Text.{Text}
use hermes_channel_octo.Protocol.Utf8.{Bytes}
use hermes_channel_octo.Protocol.Encoder.{ProtocolError, pack32, pack64}
use hermes_channel_octo.Protocol.Decoder.{read_byte, read_string, read_int32, read_int64}
use hermes_channel_octo.Protocol.Frames.Whole.{frame_of}
use hermes_channel_octo.Protocol.Fields.{int_of-str_of}
use hermes_channel_octo.Protocol.Packets.{
  pong, ping, connack, recv, disconnect, sendack, str_of, int_from, int_of, encode_recvack_packet,
}
use hermes_channel_octo.Protocol.Parse.{
  Packet, pong_packet, ping_packet, sendack_packet, connack_packet, recv_packet, disconnect_packet,
  other_packet, RecvResult, ConnackResult, optional, parse_setting_byte, decode_connack,
  decode_recv, is_type, decode_body, decode_packet,
}

-- The number that decimal digits stand for, read behind another number.
abbrev value_from : ℕ → Text → ℕ
value_from v [] = v
value_from v (c ∷ s) = value_from (v * 10 + (c - 48)) s

-- The bytes of an acknowledgement: the header, the length, and then the id of the message in eight
-- bytes and its sequence number in four.
abbrev pub ack_of : RecvResult → Bytes
ack_of m =
    frame_of 0x60 (pack64 (value_from 0 m.message_id % 2 ^ 64) ++ pack32 (m.message_seq % 2 ^ 32))

int_from-value : (v w : ℕ) (s : Text) → int_from v s ≡ ok w → value_from v s ≡ w
unfolding int_from
int_from-value v w [] h = cc
int_from-value v w (c ∷ s) h = elim (Bool-cases (leb 48 c && leb c 57)) [
  | inl t ↦ int_from-value (v * 10 + (c - 48)) w s (rw t at h)
  | inr t ↦ let h' = rw t at h in absurd (cc)
]

int_of-value : (w : ℕ) (s : Text) → int_of s ≡ ok w → value_from 0 s ≡ w
unfolding int_of
int_of-value w [] h = absurd (cc)
int_of-value w (c ∷ s) h = int_from-value 0 w (c ∷ s) h

-- The id is a number in decimal digits.
abbrev pub IsNumbered : RecvResult → Type 0
IsNumbered m = (n : ℕ) × (str_of n ≡ m.message_id)

pub IsNumbered-encode :
    (m : RecvResult)
    → IsNumbered m
    → encode_recvack_packet m.message_id m.message_seq ≡ ok (ack_of m)
unfolding encode_recvack_packet
IsNumbered-encode m (n, e) =
    let read : int_of m.message_id ≡ ok n = rw⁻¹ e (int_of-str_of n) in
    rw (read, int_of-value n m.message_id read) refl

-- The result of reading has a property, if there is one.
pub data Holds {A : Type 0} (P : A → Type 0) : Result ProtocolError A → Type 0 where
  raises : {raised : ProtocolError} → Holds P (err raised)
  returns : {a : A} → P a → Holds P (ok a)

Holds-bind :
    {A B : Type 0} {P : B → Type 0} (x : Result ProtocolError A) (f : A → Result ProtocolError B)
    → ((a : A) → Holds P (f a))
    → Holds P (x >>= f)
Holds-bind (err raised) f h = raises
Holds-bind (ok a) f h = h a

Holds-if :
    {B : Type 0} {P : B → Type 0} (b : Bool) (x y : Result ProtocolError B)
    → Holds P x
    → Holds P y
    → Holds P (if b then x else y)
Holds-if true x y h k = h
Holds-if false x y h k = k

decode_recv-IsNumbered : (bs : Bytes) → Holds (λ x. IsNumbered x.0) (decode_recv bs)
unfolding decode_recv
decode_recv-IsNumbered bs = Holds-bind (read_byte bs) _ (λ a. Holds-bind (read_string a.1) _ (λ b.
    Holds-bind (read_string b.1) _ (λ c. Holds-bind (read_string c.1) _ (λ d.
      Holds-bind (read_byte d.1) _ (λ e. Holds-bind (read_int32 e.1) _ (λ f.
        Holds-bind (read_string f.1) _ (λ g. Holds-bind (read_int64 g.1) _ (λ h.
          Holds-bind (read_int32 h.1) _ (λ i. Holds-bind (read_int32 i.1) _ (λ j.
            Holds-bind (optional (parse_setting_byte a.0).topic (read_string j.1) [] j.1) _
              (λ k. returns (h.0, refl))))))))))))

abbrev pub IsNumberedPacket : Packet → Type 0
IsNumberedPacket (recv_packet m) = IsNumbered m
IsNumberedPacket _ = Unit

abbrev pub IsNumberedResult : Result ProtocolError Packet → Type 0
IsNumberedResult x = Holds IsNumberedPacket x

received-IsNumbered :
    (x : Result ProtocolError (RecvResult × Bytes))
    → Holds (λ y. IsNumbered y.0) x
    → IsNumberedResult (x >>= λ y. ok (recv_packet y.0))
received-IsNumbered (err raised) h = raises
received-IsNumbered (ok x) (returns h) = returns h

connack-IsNumbered :
    (x : Result ProtocolError (ConnackResult × Bytes))
    → IsNumberedResult (x >>= λ y. ok (connack_packet y.0))
connack-IsNumbered (err raised) = raises
connack-IsNumbered (ok x) = returns tt

reason-IsNumbered :
    (code : ℕ) (x : Result ProtocolError (Text × Bytes))
    → IsNumberedResult (x >>= λ y. ok (disconnect_packet code y.0))
reason-IsNumbered code (err raised) = raises
reason-IsNumbered code (ok x) = returns tt

disconnect-IsNumbered :
    (x : Result ProtocolError (ℕ × Bytes))
    → IsNumberedResult (x >>= λ y. (read_string y.1 >>= λ z. ok (disconnect_packet y.0 z.0)))
disconnect-IsNumbered (err raised) = raises
disconnect-IsNumbered (ok (code, r)) = reason-IsNumbered code (read_string r)

decode_body-IsNumbered : (first : ℕ) (bs : Bytes) → IsNumberedResult (decode_body first bs)
decode_body-IsNumbered first bs =
    Holds-if (is_type (first / 16) connack) _ _
      (connack-IsNumbered (decode_connack (ltb 0 (first % 2)) bs))
      (Holds-if (is_type (first / 16) recv) _ _
        (received-IsNumbered (decode_recv bs) (decode_recv-IsNumbered bs))
        (Holds-if (is_type (first / 16) disconnect) _ _ (disconnect-IsNumbered (read_byte bs)) (
          Holds-if (is_type (first / 16) sendack) _ _ (returns {a = sendack_packet} tt)
            (returns {a = other_packet (first / 16)} tt))))

-- Every RECV packet that is decoded has a number for its id.
pub decode_packet-IsNumbered : (bs : Bytes) → IsNumberedResult (decode_packet bs)
unfolding decode_packet
decode_packet-IsNumbered [] = raises
decode_packet-IsNumbered (first ∷ r) =
    Holds-if (is_type (first / 16) pong) _ _ (returns {a = pong_packet} tt) (
      Holds-if (is_type (first / 16) ping) _ _ (returns {a = ping_packet} tt)
        (Holds-bind _ _ (λ x. decode_body-IsNumbered first x.1)))
