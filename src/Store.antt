-- ===== src/Store.antt =====
-- src/state.rs: the store. Its parts are the balances of the shards, the published balances, the
-- index of committed and pending operations in memory, the disk index and the write-ahead log.
pub mod Types
pub mod Index
pub mod DiskIndex
pub mod Preflight
pub mod Passage
pub mod Rollback
pub mod Undo
pub mod Apply
pub mod Finish
pub mod Balances
pub mod Answers
pub mod Start
pub mod Recovered
pub mod Known
pub mod Sorted
pub mod Persist
pub mod Reserved
pub mod Marked
pub mod Finished
pub mod Unique
pub mod Committed
