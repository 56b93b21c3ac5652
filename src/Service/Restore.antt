-- ===== src/Service/Restore.antt =====
-- `restore_chunk` and `snapshot` of src/state.rs.
use virt_warehouse_pro.Common.{ℕ, zero, suc, List, [], ◌++◌, Bool, true, false, Error, ok, err, map}
use virt_warehouse_pro.Model.{Operation}
use virt_warehouse_pro.Snapshot.Data.{BalanceSnapshot, SnapshotData}
use virt_warehouse_pro.Store.Types.{Hashes, Notify, DedupShards}
use virt_warehouse_pro.Store.DiskIndex.{DiskIndex}
use virt_warehouse_pro.Store.Preflight.{ready, rejected, blocked, preflight_batch}
use virt_warehouse_pro.Store.Apply.{Balances, Shards, Appended, apply_reserved_batch}
use virt_warehouse_pro.Store.Finish.{finish_batch}
use virt_warehouse_pro.Service.{Node, after_finish, durable}

-- How `restore_chunk` ends, or whom it waits for.
pub data Restored : Type 0 where
  restored : Restored
  refused : Error → Restored
  suspended : Notify → Restored

module _ (h : Hashes) (count : ℕ) where
  -- `restore_chunk`, behind a preflight that succeeded.
  unfoldable pub restore_missing :
      Appended → Node → DedupShards → List Operation → List Bool → Restored × Node
  restore_missing appended node memory ops news =
      let (core, answer) = apply_reserved_batch h count appended node.core (durable ops news) in
      elim answer [
        | err e ↦ (
          refused e,
          after_finish node core (finish_batch h memory node.published ops news false),
        )
        | ok results ↦
            (restored, after_finish node core (finish_batch h memory node.published ops news true))
      ]

  unfoldable pub restore_chunk :
      (D : DiskIndex) → Notify → Appended → Node → D.State → List Operation → Restored × Node
  restore_chunk D reservation appended node disk ops =
      let (outcome, memory) = preflight_batch h D reservation node.memory disk ops in
      elim outcome [
        | ready news ↦ restore_missing appended node memory ops news
        | rejected e ↦ (refused e, record node { memory = memory })
        | blocked notify ↦ (suspended notify, record node { memory = memory })
      ]

-- `Command::Dump` in `run_shard`: the balances of a shard.
unfoldable pub dump : Balances → List BalanceSnapshot
dump balances = map (λ e. record { owner_id = e.0.0; sku = e.0.1; balance = e.1 }) balances

-- The shards from `shard` on, of which `left` are left.
unfoldable pub dump_from : ℕ → ℕ → Shards → List BalanceSnapshot
dump_from zero shard shards = []
dump_from (suc left) shard shards = dump (shards shard) ++ dump_from left (suc shard) shards

-- `snapshot`; there are `count` shards.
unfoldable pub take_snapshot : ℕ → Shards → ℕ → ℕ → SnapshotData
take_snapshot count shards sequence writer_epoch = record {
  version = 3;
  sequence = sequence;
  balances = dump_from count 0 shards;
  dedup = [];
  writer_epoch = writer_epoch;
}
