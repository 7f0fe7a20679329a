-- ===== src/Server.antt =====
-- daemon/src/server.rs and daemon/src/protocol.rs: jobs, and what is said about them.
pub mod Protocol
pub mod Tally
pub mod Job
pub mod Rename
pub mod Registry
pub mod Writer
pub mod Listener
pub mod Activation
pub mod Interleaved
pub mod Session
pub mod Dispatch
pub mod Connection
