-- ===== src/Fat.antt =====
-- src/fat.rs: the file allocation table in memory.
pub mod Table
pub mod Invariant
pub mod SetEntry
pub mod Runs
pub mod Chain
pub mod Alloc
pub mod Writes
pub mod Allocate
pub mod Release
pub mod Sync
pub mod Load
