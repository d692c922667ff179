-- ===== src/Lib.antt =====
-- hermes-channel-octo: the Octo channel of the Hermes gateway, src/hermes_octo_plugin.
--
-- The adapter speaks a binary protocol over a WebSocket. It cuts the bytes into frames, decodes
-- them, and acknowledges the messages. Requests for a channel's content are checked against its
-- members. Cards that a bot has sent are kept in a registry until someone answers them, and a
-- poller fetches those answers as events, hands each to its card, and acknowledges it. Where
-- several bots share a gateway, a registry of routes keeps which of them serves a chat.
--
-- Files:
-- - Prelude: texts as lists of code points, dictionaries in the order of insertion, results, tests.
-- - Types: the channel types of types.py.
-- - Protocol: protocol.py without its key exchange and cipher. Encoder and Decoder are its classes,
--   with the buffer passed along. VarLen has the lengths, Packets and Parse the packets that it
--   writes and reads, Frames its `try_unpack_one`. Frames/Stream has the loop of adapter.py that
--   drains the buffer. Fields and RoundTrip set what is read against what is written.
-- - Connection: the receive loop, the handling of frames, the heartbeat and the handshake's CONNACK of
--   adapter.py. Numbered has the ids that are acknowledged, Received, Acknowledged and Chunks have the
--   laws of the loop, Heartbeat those of pings. Gate is the gate of mentions of `_handle_recv`, without
--   what is refused before or behind it, and Addressed has its law. Reconnect has the tasks of a
--   reconnection and the steps by which they interleave; Weights, Exclusive and Retried have its laws.
-- - Permission: permission.py. The coroutine that fetches members is a parameter, and may fail.
-- - Sessions: `CardSessionRegistry` of card_sessions.py. Data has its records, Registry and Claims
--   its methods, Run sequences of calls, Valid, Run/Invariant, Run/Limits, Exclusive and Outcomes its
--   laws. Leases has an abstract view of one card, the moves that it allows, and their refinement.
-- - Events: `FileEventCursorStore` and `EventPoller` of card_events.py. Poller and Poll have the
--   methods, Keeps, Ensures and Frame rules for properties of a step, Saved, Synced, Order, Handled
--   and Restart the laws. Actions has the matching of an action with its card and the handler for
--   reasoning cards, over the registry of Sessions, and Consumed that handler's laws. Dispatch has
--   `handle_card_action`, with what other tasks do meanwhile as a sequence of calls; Settled and
--   Retries have its laws. Json and Parsed have `parse_card_action` over JSON values, Accepted what it
--   accepts.
-- - Identity: `parse_bot_tokens` of identity.py in Tokens, and its `IdentityRouteRegistry`: `bind`
--   in Routes, the queries in Lookup. Owners and Indexed have their laws.
-- - Clarify: `selected_choices` and `dispatch_action` of clarify.py; the gateway of Hermes is a
--   parameter. Answers sets the two against each other.
-- - Mention: mention.py. Outbound has the parsing and conversion of a reply's mentions, Inbound and
--   Names `convert_content_for_llm` and `build_entities_from_fallback`. Units, Boundaries, Pieces and
--   Places have lemmas, Pointed, Parsed, Returned and Neutral the laws.
-- - Tests: runs at concrete inputs.
--
-- Conventions: code that raises returns a result beside the state that it leaves. Every call of a
-- method of the registry is one step under its lock. Clocks, reads and writes of the disk and
-- answers of the server come from outside, as arguments (`Env`, `Outside`, `delivers`) of the
-- definitions. Bytes are numbers; where the source masks a number, the model takes it modulo a
-- power of two. The cursor file is replaced as a whole, also where the call then raises.
--
-- Bounds and fuel: a length is read in five rounds, as many as its loop can make. The digits of a
-- length or of a number, the frames of a buffer and the evictions of the registries run on fuel of
-- their size, and each round makes that smaller. An acknowledgement is tried three times.
--
-- Not modelled: encryption, HTTP, the rendering of cards, the other tools and the rest of the
-- adapter; in what is modelled, logging, sleeps, the status that a card shows, cancellation but for
-- that of a dispatch, and the JSON types of stored values.
pub mod Prelude
pub mod Types
pub mod Protocol
pub mod Permission
pub mod Sessions
pub mod Events
pub mod Identity
pub mod Clarify
pub mod Connection
pub mod Mention
mod Tests
