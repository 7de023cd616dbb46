-- ===== src/Relay.antt =====
-- The running relay: the sockets of src/ws.rs and the background tasks of src/main.rs over one shared
-- state, one step after another.
pub mod Tasks
pub mod Steps
pub mod Invariant
