-- ===== src/Tests.antt =====
-- Runs at concrete inputs.
mod Wire
mod Access
mod Cards
mod Polling
mod Bots
mod Reasoning
mod Mentions
mod Dispatching
mod Connecting
mod Reconnecting
mod Parsing
