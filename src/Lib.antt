-- ===== src/Lib.antt =====
-- Verification of virt_warehouse_pro: a warehouse ledger that applies signed changes of stock, each under
-- an id that is unique, at most once, and survives crashes through a write-ahead log, a snapshot and a
-- log that three servers replicate.
--
-- The parts and their modules:
--   Config (src/config.rs): from_env over a function from the variables to their texts.
--   Common, Bytes: lists, options, results, maps; byte strings, machine words, UTF-8.
--   Model (src/model.rs): Operation and validate.
--   Binary (src/binary.rs): the reader is a state-and-error function (Binary.Reader), the encoders and
--     decoders are in Binary.Format.
--   Wal (src/wal.rs): Wal.Open is open and reset, Wal.Recover is recover, Wal.Writer the writer task as
--     a step function over the commands that it receives, its deadline, and the outcome of its writes.
--   Snapshot (src/snapshot.rs): Snapshot.Format is encode, decode, load and save. Its reader has the
--     methods of that of src/binary.rs, which is used for it.
--   Checkpoint (src/checkpoint.rs): the value under the lock, and the file.
--   Store (src/state.rs): Store.Preflight is preflight_batch and rollback_reservation, Store.Apply the
--     functions that apply a batch, Store.Finish finish_batch and the tasks that it sends to,
--     Store.Start start. What they use of the index on disk is an interface with laws, Store.DiskIndex.
--   Disk (src/dedup_disk.rs): Disk.Bloom is the Bloom filter, Disk.Dedup get, get_many and insert_many,
--     Disk.Warmup the thread of rebuild_bloom_in_background beside insertions, as a step relation;
--     Disk.Index fills the interface of the store. Disk.History and Disk.History.Lookup are the history
--     of operations. The tables of fjall and redb are an interface with laws, Disk.Tree.
--   Cluster (src/cluster.rs, src/main.rs): the records of the shared log and read; Cluster.Replay is
--     catch_up and the loop of run_history_tail; Cluster.Lease the lease of the writer.
--   Service (src/main.rs): apply_batch and apply_one, from the lease to the answer; Service.Startup is
--     the start of main; Service.Queries is the handlers that read; Service.Restore is restore_chunk
--     and snapshot of src/state.rs.
--   Runs: concrete data and runs.
--
-- Conventions: a String is the list of its bytes; an i64 is its bit pattern, and sums wrap modulo 2 ^ 64;
-- a HashMap is an association list; a lock holds the state that a function takes and returns; an error
-- keeps the kind of the check that failed and not its text. What other crates compute is a parameter:
-- SHA-256 and the standard hasher (Hashes), CRC-32 and JSON (Codecs, SnapshotCodecs, JsonLog). What
-- the file system and the network answer is an argument of the step that asks. In Store and Service the
-- write-ahead log is the list of the operations whose records are in the file as a whole; its bytes, torn
-- records included, are in Wal.
--
-- Fuel: recover_loop is given the length of the file plus one; every record is longer than its header,
-- so that suffices. All other loops are by structural recursion: over lists, or over the 64 shards of
-- the index and the count of the shards of the balances.
--
-- Not modelled: the interleaving of requests inside one attempt of preflight_batch (the locks of the
-- shards are taken one after the other), the routes and metrics, the failpoint of apply_one that aborts
-- the process at an id that tests configure, the opening and the counts of the databases in
-- src/dedup_disk.rs, and the test programs under src/bin.
pub mod Common
pub mod Config
pub mod Bytes
pub mod Model
pub mod Binary
pub mod Wal
pub mod Snapshot
pub mod Checkpoint
pub mod Store
pub mod Disk
pub mod Cluster
pub mod Service
pub mod Runs
