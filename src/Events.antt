-- ===== src/Events.antt =====
-- src/hermes_octo_plugin/card_events.py: the durable poller of card events, and card actions.
pub mod Poller
pub mod Poll
pub mod Keeps
pub mod Ensures
pub mod Saved
pub mod Synced
pub mod Order
pub mod Frame
pub mod Handled
pub mod Restart
pub mod Actions
pub mod Json
pub mod Parsed
pub mod Accepted
pub mod Consumed
pub mod Dispatch
pub mod Settled
pub mod Retries
