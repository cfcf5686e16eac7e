-- ===== src/Redis.antt =====
-- The server: its commands and what the Redis manual says of them, and a value of them in memory.
mod Commands
pub mod Waiting
pub mod Counting
pub mod Hashes
pub mod Windows
pub mod Memory
pub use Commands.{millisecond, is_some, Strings, StringLaws, above, SortedSets, SortedSetLaws}
