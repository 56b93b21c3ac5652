-- ===== src/Store/Start.antt =====
-- `Store::start` of src/state.rs: the state from a snapshot and the write-ahead log.
use virt_warehouse_pro.Common.{
  ℕ, List, [], ◌∷◌, ◌++◌, Option, none, some, true, false, leb, ◌==◌ as nat_beq, if◌then◌else◌,
  Result, ok, ◌>>=◌, length,
}
use virt_warehouse_pro.Common.Eq.{list_eq, nat_eq, pair_eq}
use virt_warehouse_pro.Common.Map.{insert}
use virt_warehouse_pro.Model.{Operation}
use virt_warehouse_pro.Snapshot.Data.{BalanceSnapshot, DedupSnapshot, SnapshotData}
use virt_warehouse_pro.Store.Types.{
  Hash, Fingerprint, Hashes, operation_id_hash, fingerprint, shard_for,
}
use virt_warehouse_pro.Store.DiskIndex.{DiskIndex}
use virt_warehouse_pro.Store.Apply.{Balances, add_delta, key_of, Shards, shard_of}
use virt_warehouse_pro.Store.Rollback.{contains}

-- The entries collected so far are written once there are 100,000.
abbrev pub chunk : ℕ
chunk = 100_000

-- `initial_balances[shard]`
unfoldable pub at : Shards → ℕ → Balances → Shards
at shards shard balances i = if nat_beq i shard then balances else shards i

abbrev pub entries_of : Option SnapshotData → List BalanceSnapshot
entries_of none = []
entries_of (some s) = s.balances

module _ (h : Hashes) (count : ℕ) where
  -- The loop over the balances of the snapshot.
  unfoldable pub load_balances : Shards → List BalanceSnapshot → Shards
  load_balances shards [] = shards
  load_balances shards (e ∷ entries) =
      let shard = shard_for h e.owner_id e.sku count in
      load_balances (at shards shard (insert (e.owner_id, e.sku) e.balance (shards shard))) entries

  -- The loop over the recovered operations: the balances, with `recovered_ids` as `seen`.
  unfoldable pub replay_balances : List Hash → Shards → List Operation → Shards
  replay_balances seen shards [] = shards
  replay_balances seen shards (op ∷ ops) =
      elim (contains seen (operation_id_hash h op.operation_id)) [
        | true ↦ replay_balances seen shards ops
        | false ↦
            replay_balances (operation_id_hash h op.operation_id ∷ seen)
              (at shards (shard_of h count op)
                (add_delta (shards (shard_of h count op)) (key_of op) op.delta))
              ops
      ]

  module _ (D : DiskIndex) where
    -- The loop over the ids of the snapshot: full chunks are written, the rest is returned.
    unfoldable pub load_dedup :
        D.State
        → List (Hash × Fingerprint)
        → List DedupSnapshot
        → Result (D.State × List (Hash × Fingerprint))
    load_dedup disk entries [] = ok (disk, entries)
    load_dedup disk entries (e ∷ rest) =
        let entries' = entries ++ (operation_id_hash h e.operation_id, e.fingerprint) ∷ [] in
        elim (leb chunk (length entries')) [
          | true ↦ do disk' ← D.insert_many disk entries'; load_dedup disk' [] rest
          | false ↦ load_dedup disk entries' rest
        ]

    -- The same loop over the recovered operations: their ids on disk.
    unfoldable pub replay_dedup :
        D.State
        → List Hash
        → List (Hash × Fingerprint)
        → List Operation
        → Result (D.State × List (Hash × Fingerprint))
    replay_dedup disk seen entries [] = ok (disk, entries)
    replay_dedup disk seen entries (op ∷ ops) =
        let id = operation_id_hash h op.operation_id in
        elim (contains seen id) [
          | true ↦ replay_dedup disk seen entries ops
          | false ↦
              let entries' = entries ++ (id, fingerprint h op) ∷ [] in
              elim (leb chunk (length entries')) [
                | true ↦ do
                  disk' ← D.insert_many disk entries'
                  replay_dedup disk' (id ∷ seen) [] ops
                | false ↦ replay_dedup disk (id ∷ seen) entries' ops
              ]
        ]

    -- The writes to disk of `start`.
    unfoldable pub start_disk : D.State → List Operation → Option SnapshotData → Result D.State
    start_disk disk recovered snapshot = do
      (disk, entries) ← load_dedup disk [] (elim snapshot [ none ↦ [] | some s ↦ s.dedup ])
      (disk, recovered_dedup) ← replay_dedup disk [] [] recovered
      disk ← D.insert_many disk recovered_dedup
      D.insert_many disk entries

    -- What `start` hands to the tasks that it spawns: the shards' balances, and the index on disk. The
    -- index in memory is empty, and the published balances are those of the shards.
    unfoldable pub start :
        D.State → List Operation → Option SnapshotData → Result (Shards × D.State)
    start disk recovered snapshot = do
      disk ← start_disk disk recovered snapshot
      ok (replay_balances [] (load_balances (λ i. []) (entries_of snapshot)) recovered, disk)
