-- ===== src/Ws.antt =====
-- src/ws.rs: what one socket does with a frame that it received.
pub mod Session
pub mod Hello
pub mod Send
pub mod Hosting
pub mod Mailbox
pub mod Files
pub mod Connection
pub mod Transfers
pub mod Admission
pub mod Sending
pub mod Backlog
pub mod Invites
pub mod Redeem
pub mod Limits
pub mod Registry
pub mod Soundness
pub mod Certificates
