-- ===== src/Binary.antt =====
-- src/binary.rs: the binary format of operations, batches and log records.
pub mod Reader
pub mod Reads
pub mod Format
pub mod RoundTrip
pub mod Log
