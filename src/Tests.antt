-- ===== src/Tests.antt =====
-- Concrete crates, stores and requests, and the theorems applied to them.
mod Crates
mod Queue
mod Util
mod State
mod Files
mod Sockets
mod Sending
mod Relay
mod Startup
mod Restart
