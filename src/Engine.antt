-- ===== src/Engine.antt =====
-- daemon/src/engine.rs: the transfer engine, which commits a file by an atomic rename or not at all.
pub mod Types
pub mod FreeName
pub mod Stream
pub mod Verify
pub mod Copy
pub mod Move
pub mod Silent
