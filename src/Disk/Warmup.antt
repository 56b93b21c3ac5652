-- ===== src/Disk/Warmup.antt =====
-- src/dedup_disk.rs: the thread that rebuilds the Bloom filter while entries are inserted, as steps.
use virt_warehouse_pro.Common.{
  ℕ, zero, suc, ◌≡◌, List, [], ◌∷◌, ◌++◌, Bool, true, false, ◌&&◌, ◌||◌, not, ◌==◌ as nat_beq,
  if◌then◌else◌, Result, Error, ok, err, ◌>>=◌, ◌>>◌, ensure, length, map,
}
use virt_warehouse_pro.Bytes.Words.{Bytes}
use virt_warehouse_pro.Store.Types.{Hash, Fingerprint}
use virt_warehouse_pro.Disk.Tree.{Tree}
use virt_warehouse_pro.Disk.Bloom.{bloom_add, merge}
use virt_warehouse_pro.Disk.Dedup.{
  dedup_lsm_shards, dedup_shards, DiskDedup, Layer, lsm_shard, lsm_whole, file_shard, file_whole,
  keyspace, commit, mark,
}
pub mod Filters
pub mod Cover
pub mod Lookups

-- `first`, `first + 1`, and so on
unfoldable pub numbered : (ℕ → Layer) → ℕ → ℕ → List Layer
numbered layer zero first = []
numbered layer (suc left) first = layer first ∷ numbered layer left (suc first)

-- The layers in the order in which the thread reads them.
unfoldable pub layers : List Layer
layers =
    lsm_whole
    ∷ (numbered lsm_shard dedup_lsm_shards 0 ++ (file_whole ∷ numbered file_shard dedup_shards 0))

-- The keys of a layer; a key of another length ends the thread.
unfoldable pub add_keys : Bytes → List (Bytes × Bytes) → Result Bytes
add_keys rebuilt [] = ok rebuilt
add_keys rebuilt ((key, value) ∷ entries) = do
  ensure (nat_beq (length key) 32) Error.bad_length
  add_keys (bloom_add rebuilt key) entries

-- The filter that the thread has when it is done.
unfoldable pub publish : {K : Type 0} → DiskDedup K → Bytes → DiskDedup K
publish d rebuilt = record d { bloom = merge d.bloom rebuilt; bloom_ready = true }

-- The index, the thread's filter and the layers that it has yet to read, whether it runs, and the batches
-- that are committed and not yet in the filter.
pub record Warmup (K : Type 0) : Type 0 where
  pub index : DiskDedup K
  pub rebuilt : Bytes
  pub left : List Layer
  pub running : Bool
  pub adding : List (List (Hash × Fingerprint))

-- A step of a call of `insert_many`, in its two parts, or of the thread.
pub data Step {K : Type 0} ⦃tree : Tree K⦄ : Warmup K → Warmup K → Type 0 where
  commit_batch :
      (w : Warmup K) (entries : List (Hash × Fingerprint))
      → Step w (record w { index = commit w.index entries; adding = entries ∷ w.adding })
  mark_batch :
      (w : Warmup K) (before after : List (List (Hash × Fingerprint)))
      (entries : List (Hash × Fingerprint))
      → w.adding ≡ before ++ (entries ∷ after)
      → Step w (record w { index = mark w.index entries; adding = before ++ after })
  scan :
      (w : Warmup K) (layer : Layer) (rest : List Layer) (rebuilt : Bytes)
      → w.running ≡ true
      → w.left ≡ layer ∷ rest
      → add_keys w.rebuilt (tree.entries (keyspace w.index layer)) ≡ ok rebuilt
      → Step w (record w { rebuilt = rebuilt; left = rest })
  -- The thread ends at an error: of a read of the layer, or of the length of a key in it.
  abandon :
      (w : Warmup K) (layer : Layer) (rest : List Layer)
      → w.running ≡ true
      → w.left ≡ layer ∷ rest
      → Step w (record w { running = false })
  finish :
      (w : Warmup K)
      → w.running ≡ true
      → w.left ≡ []
      → Step w (record w { index = publish w.index w.rebuilt; running = false })

pub data Reach {K : Type 0} ⦃tree : Tree K⦄ : Warmup K → Warmup K → Type 0 where
  start : (w : Warmup K) → Reach w w
  then_step : (u v w : Warmup K) → Reach u v → Step v w → Reach u w

-- What `open` starts from: a filter of zeros for the thread. The thread of a new index, whose filter is in
-- use at once, does not run in the program; here it may.
unfoldable pub opened : {K : Type 0} → DiskDedup K → Warmup K
opened d = record {
  index = d;
  rebuilt = map (λ b. 0) d.bloom;
  left = layers;
  running = true;
  adding = [];
}
