-- ===== src/Identity.antt =====
-- src/hermes_octo_plugin/identity.py: which bot identity serves which chat.
pub mod Routes
pub mod Owners
pub mod Tokens
pub mod Lookup
pub mod Indexed
