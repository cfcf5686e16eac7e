-- ===== src/Lease/ReadWrite.antt =====
-- internal/lease/rw.go, with the scripts internal/lua/rw_*.lua, and those of the other leases that it
-- runs on its keys.
pub mod Scripts
pub mod Queue
pub mod Fifo
pub mod Writer
pub mod Reader
pub mod Calls
pub mod Lives
pub mod Exclusion
pub mod Guarded
pub mod Places
pub mod Untimed
mod Examples
