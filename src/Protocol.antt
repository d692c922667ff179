-- ===== src/Protocol.antt =====
-- src/hermes_octo_plugin/protocol.py: the WuKongIM wire format.
pub mod Utf8
pub mod Encoder
pub mod Decoder
pub mod VarLen
pub mod Frames
pub mod Packets
pub mod Parse
pub mod Fields
pub mod RoundTrip
