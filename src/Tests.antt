-- ===== src/Tests.antt =====
-- Runs on a concrete machine, and the theorems at concrete data.
mod Interleaved
mod Jobs
mod Dates
mod Copies
pub mod Machine
mod Transfers
mod Moves
mod Serving
mod Starting
mod Sessions
mod Daemon
mod Records
