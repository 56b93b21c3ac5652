-- ===== src/Wal.antt =====
-- src/wal.rs: the local write-ahead log.
pub mod Recover
pub mod Writer
pub mod Records
pub mod Recovery
pub mod Durable
pub mod Open
