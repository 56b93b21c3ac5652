-- ===== src/Store/Finish.antt =====
-- `finish_batch`, `run_balance_publisher` and `run_disk_persist` of src/state.rs.
use virt_warehouse_pro.Common.{
  ℕ, zero, suc, List, [], ◌∷◌, ◌++◌, some, Bool, true, false, ltb, if◌then◌else◌, ok, err,
}
use virt_warehouse_pro.Common.Eq.{◌==◌, list_eq, nat_eq, pair_eq}
use virt_warehouse_pro.Model.{Operation}
use virt_warehouse_pro.Store.Types.{
  Key, Hash, Fingerprint, Hashes, Notify, committed, pending, DedupShards, dedup_shards,
  dedup_shard, entry_of, set_entry, drop_entry, operation_id_hash,
}
use virt_warehouse_pro.Store.DiskIndex.{DiskIndex}
use virt_warehouse_pro.Store.Preflight.{in_shard}
use virt_warehouse_pro.Store.Apply.{Balances, add_delta, key_of}

-- The variables of `finish_batch`: the index, `disk_entries` and `notifications`.
pub record Finish : Type 0 where
  pub memory : DedupShards
  pub entries : List (Hash × Fingerprint)
  pub notified : List Notify

-- The keys of the new operations, in the order of the request.
unfoldable pub new_keys : Hashes → List Operation → List Bool → List Hash
new_keys h (op ∷ ops) (true ∷ news) = operation_id_hash h op.operation_id ∷ new_keys h ops news
new_keys h (op ∷ ops) (false ∷ news) = new_keys h ops news
new_keys h ops news = []

-- A pending entry is committed. Its fingerprint is there: `preflight_batch` puts no other entry.
unfoldable pub commit_key : Finish → Hash → Finish
commit_key s key = elim (entry_of s.memory key) [
  | some (pending (some fingerprint) notify) ↦ record {
    memory = set_entry s.memory key (committed fingerprint);
    entries = s.entries ++ (key, fingerprint) ∷ [];
    notified = s.notified ++ notify ∷ [];
  }
  | other ↦ s
]

-- An entry is removed, and if it was pending its waiters are notified.
unfoldable pub cancel_key : Finish → Hash → Finish
cancel_key s key = elim (entry_of s.memory key) [
  | some (pending fingerprint notify) ↦ record s {
    memory = drop_entry s.memory key;
    notified = s.notified ++ notify ∷ [];
  }
  | other ↦ record s { memory = drop_entry s.memory key }
]

unfoldable pub finish_keys : Bool → Finish → List Hash → Finish
finish_keys done s [] = s
finish_keys done s (key ∷ keys) =
    finish_keys done (if done then commit_key s key else cancel_key s key) keys

-- The shards from `shard` on, of which `left` are left.
unfoldable pub finish_from : Bool → ℕ → ℕ → Finish → List Hash → Finish
finish_from done zero shard s keys = s
finish_from done (suc left) shard s keys =
    finish_from done left (suc shard) (finish_keys done s (in_shard dedup_shard shard keys)) keys

unfoldable pub updates_of : List Operation → List Bool → List (Key × ℕ)
updates_of (op ∷ ops) (true ∷ news) = (key_of op, op.delta) ∷ updates_of ops news
updates_of (op ∷ ops) (false ∷ news) = updates_of ops news
updates_of ops news = []

-- A command to `run_balance_publisher`.
unfoldable pub publish : Balances → List (Key × ℕ) → Balances
publish balances [] = balances
publish balances ((key, delta) ∷ updates) = publish (add_delta balances key delta) updates

-- What `finish_batch` leaves: the index, the published balances, what it queues for the disk, and
-- whom it notifies.
pub record Finished : Type 0 where
  pub memory : DedupShards
  pub published : Balances
  pub queued : List (Hash × Fingerprint)
  pub notified : List Notify

unfoldable pub finish_batch :
    Hashes → DedupShards → Balances → List Operation → List Bool → Bool → Finished
finish_batch h memory published ops news done =
    let s =
      finish_from done dedup_shards 0 (record { memory = memory; entries = []; notified = [] })
        (new_keys h ops news) in
    record {
      memory = s.memory;
      published = if done then publish published (updates_of ops news) else published;
      queued = s.entries;
      notified = s.notified;
    }

-- `key < other`, of two digests
unfoldable pub hash_lt : Hash → Hash → Bool
hash_lt [] [] = false
hash_lt [] (y ∷ ys) = true
hash_lt (x ∷ xs) [] = false
hash_lt (x ∷ xs) (y ∷ ys) =
    let rest = hash_lt xs ys in if ltb x y then true else if ltb y x then false else rest

-- `sort_unstable_by_key`; the order of entries with one key is not specified, and is kept here.
unfoldable pub insert_entry :
    Hash × Fingerprint → List (Hash × Fingerprint) → List (Hash × Fingerprint)
unfolding hash_lt
insert_entry e [] = e ∷ []
insert_entry e (d ∷ rest) =
    let more = insert_entry e rest in if hash_lt d.0 e.0 then d ∷ more else e ∷ d ∷ rest

unfoldable pub sort_entries : List (Hash × Fingerprint) → List (Hash × Fingerprint)
unfolding insert_entry
sort_entries [] = []
sort_entries (e ∷ rest) = insert_entry e (sort_entries rest)

-- A committed entry that is on disk now leaves the memory.
unfoldable pub forget : DedupShards → List (Hash × Fingerprint) → DedupShards
forget memory [] = memory
forget memory ((key, fingerprint) ∷ entries) = elim (entry_of memory key) [
  | some (committed existing) ↦
      forget (if existing == fingerprint then drop_entry memory key else memory) entries
  | other ↦ forget memory entries
]

module _ (D : DiskIndex) where
  -- A round of `run_disk_persist` on the entries that it has combined.
  unfoldable pub persist : DedupShards → D.State → List (Hash × Fingerprint) → DedupShards × D.State
  persist memory disk combined = elim (D.insert_many disk (sort_entries combined)) [
    | ok disk' ↦ (forget memory combined, disk')
    | err e ↦ (memory, disk)
  ]
