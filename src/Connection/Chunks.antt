-- ===== src/Connection/Chunks.antt =====
-- The receive loop over a stream that comes in pieces.
use hermes_channel_octo.Prelude.{
  ℕ, ◌≡◌, refl, sym, ap, subst, ◌∙◌, Bool, true, Option, some, List, [], ◌∷◌, ◌++◌, map,
  append_assoc, append-nil, All, if◌then◌else◌,
}
use hermes_channel_octo.Protocol.Utf8.{Bytes}
use hermes_channel_octo.Protocol.Frames.Stream.{drain, after, drain-append}
use hermes_channel_octo.Connection.{Connection, receive, stop_receiving, receive_loop}
use hermes_channel_octo.Connection.Received.{
  answers, messages, IsQuiet, receive-drain, receive-receive,
}
use hermes_channel_octo.Connection.Acknowledged.{Goes, QuietBytes, Goes-receive}

if-true : (b : Bool) (x y : Connection) → b ≡ true → (if b then x else y) ≡ x
if-true b x y h = rw h refl

abbrev pub concat : List Bytes → Bytes
concat [] = []
concat (b ∷ bs) = b ++ concat bs

All-first : (xs ys : List Bytes) → All IsQuiet (xs ++ ys) → All IsQuiet xs
All-first [] ys h = tt
All-first (x ∷ xs) ys (h, hs) = (h, All-first xs ys hs)

All-second : (xs ys : List Bytes) → All IsQuiet (xs ++ ys) → All IsQuiet ys
All-second [] ys h = h
All-second (x ∷ xs) ys (h, hs) = All-second xs ys hs

after-split :
    (x y : List Bytes × Bytes) → All IsQuiet (after x.0 y).0 → All IsQuiet x.0 × All IsQuiet y.0
after-split (fs, r) (gs, r') h = (All-first fs gs h, All-second fs gs h)

module _ (delivers : ℕ → Bool) (all_delivered : (n : ℕ) → delivers n ≡ true) where
  quiet-split :
      (b more : Bytes) (c : Connection)
      → QuietBytes c (b ++ more)
      → QuietBytes c b × QuietBytes (receive delivers b c) more
  quiet-split b more c q =
      let x = drain (c.buffer ++ b) in
      let same : drain (c.buffer ++ (b ++ more)) ≡ after x.0 (drain (x.1 ++ more)) =
        ap drain (sym (append_assoc c.buffer b more)) ∙ drain-append (c.buffer ++ b) more in
      let (first, second) =
        after-split x (drain (x.1 ++ more)) (subst (λ y. All IsQuiet y.0) same q) in
      (
        first,
        subst (λ (y : Connection). All IsQuiet (drain (y.buffer ++ more)).0)
            (sym (receive-drain delivers b c)) second,
      )

  loop-step :
      (b : Bytes) (rest : List (Option Bytes)) (c : Connection)
      → c.connected ≡ true
      → receive_loop delivers (some b ∷ rest) c ≡ receive_loop delivers rest (receive delivers b c)
  unfolding receive_loop
  loop-step b rest c h =
      if-true c.connected (receive_loop delivers rest (receive delivers b c))
        (stop_receiving delivers c) h

  loop-end : (c : Connection) → c.connected ≡ true → receive_loop delivers [] c ≡ c
  unfolding receive_loop
  loop-end c h = if-true c.connected c (stop_receiving delivers c) h

  receive_loop-concat :
      (b : Bytes) (bs : List Bytes) (c : Connection)
      → c.connected ≡ true
      → c.socket_open ≡ true
      → QuietBytes c (b ++ concat bs)
      → receive_loop delivers (map some (b ∷ bs)) c ≡ receive delivers (b ++ concat bs) c
  receive_loop-concat b [] c h k q =
      let q' : QuietBytes c b = subst (QuietBytes c) (append-nil b) q in
      let go = Goes-receive delivers all_delivered b c q' h k in
      loop-step b [] c h
      ∙ loop-end (receive delivers b c) go.connected
      ∙ ap (λ x. receive delivers x c) (sym (append-nil b))
  receive_loop-concat b (b' ∷ bs) c h k q =
      let (q1, q2) = quiet-split b (b' ++ concat bs) c q in
      let go = Goes-receive delivers all_delivered b c q1 h k in
      loop-step b (map some (b' ∷ bs)) c h
      ∙ receive_loop-concat b' bs (receive delivers b c) go.connected go.socket_open q2
      ∙ receive-receive delivers b (b' ++ concat bs) c

  -- However the network cuts the stream into messages, the receive loop hands on every message of
  -- every RECV packet once, in order, and writes one acknowledgement for each, with the id and the
  -- sequence number of the message, and a PONG for every PING, in that same order; undecodable frames
  -- are skipped. The connection is up, all writes
  -- succeed, at least one message has come, and no packet of the stream is a DISCONNECT.
  pub receive_loop-Goes :
      (b : Bytes) (bs : List Bytes) (c : Connection)
      → c.connected ≡ true
      → c.socket_open ≡ true
      → QuietBytes c (b ++ concat bs)
      → let frames = (drain (c.buffer ++ (b ++ concat bs))).0 in
        Goes c (answers frames) (messages frames) (receive_loop delivers (map some (b ∷ bs)) c)
  receive_loop-Goes b bs c h k q =
      let frames = (drain (c.buffer ++ (b ++ concat bs))).0 in
      subst (Goes c (answers frames) (messages frames)) (sym (receive_loop-concat b bs c h k q))
        (Goes-receive delivers all_delivered (b ++ concat bs) c q h k)
