-- ===== src/State.antt =====
-- src/state.rs: what the relay keeps in memory, and the operations on it. `Tokens` has the delivery
-- tokens of a mailbox, `Bundle` the hosted bundles, `Runtime` the shared state.
pub mod Tokens
pub mod Bundle
pub mod Runtime
