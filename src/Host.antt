-- ===== src/Host.antt =====
-- The machine that the daemon runs on. The standard library's calls are modelled over a world of
-- files; how each call turns out, and the crates sha2 and serde_json, are the parameter `Host`.
pub mod Machine
pub mod Calls
pub mod Keeps
pub mod Renamed
pub mod Dirs
pub mod Reads
pub mod Works
