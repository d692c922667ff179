-- ===== src/Sessions.antt =====
-- src/hermes_octo_plugin/card_sessions.py: the bounded registry of card sessions.
pub mod Data
pub mod Registry
pub mod Claims
pub mod Valid
pub mod Run
pub mod Exclusive
pub mod Outcomes
pub mod Leases
