-- ===== src/Tests/Connecting.antt =====
-- The receive loop, the heartbeat and the gate of a concrete connection.
use hermes_channel_octo.Prelude.{
  ◌+◌, ◌≡◌, refl, true, false, ◌&&◌, none, some, [], ◌∷◌, ◌++◌, arith, map, leb,
}
use hermes_channel_octo.Protocol.Utf8.{Bytes, decode}
use hermes_channel_octo.Protocol.Decoder.{read_variable_length, read_string, read_int32, read_int64}
use hermes_channel_octo.Protocol.Frames.{try_unpack_one}
use hermes_channel_octo.Protocol.Frames.Stream.{drain}
use hermes_channel_octo.Protocol.Parse.{decode_packet, decode_recv}
use hermes_channel_octo.Connection.{Connection, receive_loop, beats}
use hermes_channel_octo.Connection.Received.{answers, messages}
use hermes_channel_octo.Connection.Acknowledged.{Goes, QuietBytes}
use hermes_channel_octo.Connection.Chunks.{concat, receive_loop-Goes}
use hermes_channel_octo.Connection.Gate.{Policy, Inbound, is_mentioned}
use hermes_channel_octo.Prelude.Text.{lit, starts_with}
use hermes_channel_octo.Mention.Names.{is_name_char}
use hermes_channel_octo.Connection.Heartbeat.{IsAlive, beats-connected}

abbrev policy : Policy
policy = record {
  robot_id = lit "bot";
  bot_name = lit "Octo";
  ignore_mention_all = false;
  require_mention = false;
}

-- A group message of another bot, which names this one.
abbrev called : Inbound
called = record {
  is_group = true;
  mention = none;
  is_text = true;
  content = lit "hey @Octo!";
  sender_is_robot = some true;
}

called-is_mentioned : is_mentioned (λ c. leb 97 c && leb c 122) policy called ≡ true
unfolding is_mentioned starts_with is_name_char
called-is_mentioned = refl

abbrev up : Connection
up = record {
  connected = true;
  socket_open = true;
  buffer = [];
  ping_retry_count = 0;
  ping_max_retry = 3;
  heartbeat_running = true;
  need_reconnect = true;
  reconnect_scheduled = false;
  reconnect_attempts = 0;
  aes_iv = [];
  server_version = 4;
  writes = 0;
  sent = [];
  received = [];
}

-- A PING, and the start of a RECV of the message 7 by "a" in "c".
abbrev first : Bytes
first = 112 ∷ 80 ∷ 32 ∷ 0 ∷ 0 ∷ 0 ∷ 0 ∷ 1 ∷ 97 ∷ 0 ∷ 1 ∷ 99 ∷ []

abbrev second : Bytes
second =
    1 ∷ 0 ∷ 0 ∷ 0 ∷ 0 ∷ 0 ∷ 0 ∷ 0 ∷ 0 ∷ 0 ∷ 0 ∷ 0 ∷ 0 ∷ 0 ∷ 7 ∷ 0 ∷ 0 ∷ 0 ∷ 1 ∷ 0 ∷ 0 ∷ 0 ∷ 5 ∷ []

quiet : QuietBytes up (first ++ concat (second ∷ []))
unfolding drain try_unpack_one decode_packet read_variable_length decode_recv read_string decode
    read_int32 read_int64
quiet = (tt, (tt, tt))

receive_loop-Goes_example :
    Goes up
      (answers (drain (up.buffer ++ (first ++ concat (second ∷ [])))).0)
      (messages (drain (up.buffer ++ (first ++ concat (second ∷ [])))).0)
      (receive_loop (λ n. true) (map some (first ∷ second ∷ [])) up)
receive_loop-Goes_example =
    receive_loop-Goes (λ n. true) (λ n. refl) first (second ∷ []) up refl refl quiet

up-IsAlive : IsAlive up
up-IsAlive = record { connected = refl; socket_open = refl; beating = refl }

beats-connected_example :
    (beats (λ n. true) 4 up).connected ≡ leb (up.ping_retry_count + 4) up.ping_max_retry
beats-connected_example = beats-connected (λ n. true) (λ n. refl) 4 up up-IsAlive (omega arith)
