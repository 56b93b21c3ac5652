-- ===== src/Disk.antt =====
-- src/dedup_disk.rs: the index on disk of the operations that are committed, and their history.
pub mod Bloom
pub mod Tree
pub mod Dedup
pub mod Rows
pub mod Passes
pub mod Lookup
pub mod Warmup
pub mod Index
pub mod History
