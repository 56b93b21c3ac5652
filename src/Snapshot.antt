-- ===== src/Snapshot.antt =====
-- src/snapshot.rs: the types of a snapshot, its format and its file.
pub mod Data
pub mod Format
pub mod RoundTrip
pub mod Saved
