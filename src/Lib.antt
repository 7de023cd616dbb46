-- ===== src/Lib.antt =====
-- Axeno relay, a store-and-forward relay for end-to-end encrypted messages (Rust, under src/).
--
-- The relay keeps offline envelopes in per-mailbox queues on disk (src/queue_store.rs), file
-- transfers as chunks on disk (src/file_store.rs), and credentials, bundles and rate windows in
-- memory (src/state.rs); sockets (src/ws.rs) validate requests with the helpers of src/util.rs under
-- the limits of src/config.rs and call these stores.
--
-- - Prelude: names and lemmas that all parts share. Words has the 64-bit arithmetic of the source
--   (wrapping and saturating), Texts the byte strings, Results the fallible code and the database
--   calls that may fail, Splitting the colon-separated keys, Decimal the printing and parsing of
--   numbers.
-- - Table: the interface that stands for redb tables and DashMaps, with the laws that are relied on,
--   and a list that meets it.
-- - Config: the constants and the limits of src/config.rs; Env reads the operator's.
-- - Util: src/util.rs.
-- - Protocol: the stored envelope and the frames of src/protocol.rs.
-- - QueueStore: src/queue_store.rs; Removal has the operations that hand out and remove envelopes.
--   The other children are proofs.
-- - FileStore: src/file_store.rs; its Lifetime has the operations on whole transfers,
--   Failure, RoundTrip, Caps and Accounting are proofs.
-- - MetaStore: src/meta_store.rs.
-- - State: src/state.rs. Tokens has MailboxAuth, Bundle the hosted bundles, Runtime AppState.
-- - Ws: src/ws.rs. Session has what the handlers share; Hello, Send, Hosting, Mailbox and Files have
--   the handlers of the frames, and Connection the loop of handle_socket. The other children are proofs.
-- - Relay: the sockets and the background tasks of src/main.rs over one state. Tasks has the ticks of
--   the tasks, Steps the step relation, Invariant what holds in every state that is reached.
-- - Persistence: src/persistence.rs. Keys has the secret and the encryption, Disk the state file;
--   Cipher, Atomic and Restart are proofs. The files of the data directory are a table by name.
-- - Startup: the .env file and the migration of legacy state in src/main.rs.
-- - UpdateCheck: src/update_check.rs, less its request.
-- - Tests: concrete instances and examples.
--
-- An operation takes the database call that fails in it, if one does, the reading of the clock, its
-- arguments and its state, and returns its result and the state that it leaves. A write transaction
-- that does not commit changes nothing. An operation is one step: the interleaving of two operations
-- on relaxed atomics is not modelled. Loops run over lists; only
-- the printing of a number runs on fuel, of 20 digits, which no 64-bit number exceeds. The crates
-- (redb, dashmap, serde_json, uuid, sha2) are interfaces or arguments with their documented laws.
--
-- Each handler of src/ws.rs takes its readings of the clock and its other inputs in one record, Inputs,
-- and returns the frames that it sends, the state and whether the loop ends. Two sockets never handle a
-- frame at the same time in the model: their frames are steps in some order.
--
-- Not modelled: the sockets' and the web server's I/O, with the writer task and the idle timeout of a
-- socket, the JSON forms of the frames, Tor (src/tor.rs), the request of the update check, and of
-- src/main.rs the routes and the order of the start-up. A state file or a secret that exists and cannot
-- be read is not modelled either.
mod Prelude
pub mod Table
pub mod Config
pub mod Util
pub mod Protocol
pub mod QueueStore
pub mod FileStore
pub mod State
pub mod MetaStore
pub mod Ws
pub mod Relay
pub mod Persistence
pub mod UpdateCheck
pub mod Startup
pub mod Tests
