-- ===== src/Trash.antt =====
-- daemon/src/trash.rs.
pub mod Escape
pub mod Bin
pub mod Restore
pub mod Date
