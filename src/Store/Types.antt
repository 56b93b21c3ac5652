-- ===== src/Store/Types.antt =====
-- The types of src/state.rs, and what it takes from other code.
use virt_warehouse_pro.Common.{
  ℕ, ◌+◌, ◌-◌, ◌*◌, ◌%◌, ◌^◌, [], ◌++◌, Option, none, some, ◌==◌, if◌then◌else◌, length, get_elem?,
  bit_and,
}
use virt_warehouse_pro.Common.Eq.{list_eq, nat_eq, pair_eq}
use virt_warehouse_pro.Common.Map.{Map, get, insert, remove}
use virt_warehouse_pro.Bytes.Words.{Bytes, to_le_bytes}
use virt_warehouse_pro.Model.{Operation}

-- `(owner_id, sku)`
abbrev pub Key : Type 0
Key = Bytes × Bytes

-- `[u8; 32]`: the digest of an id, and that of the rest of an operation.
abbrev pub Hash : Type 0
Hash = Bytes

abbrev pub Fingerprint : Type 0
Fingerprint = Bytes

-- The hash functions of `sha2` and of the standard library's `DefaultHasher`.
pub record Hashes : Type 0 where
  pub sha256 : Bytes → Hash
  pub default_hash : Bytes → Bytes → ℕ

-- The address of an `Arc<Notify>`: reservations are told apart by it.
abbrev pub Notify : Type 0
Notify = ℕ

pub data DedupEntry : Type 0 where
  committed : Fingerprint → DedupEntry
  pending : Option Fingerprint → Notify → DedupEntry

-- One map for each of the 64 shards of the index.
abbrev pub dedup_shards : ℕ
dedup_shards = 64

abbrev pub DedupShards : Type 0
DedupShards = ℕ → Map Hash DedupEntry

abbrev byte_at : Bytes → ℕ → ℕ
byte_at bytes i = elim (get_elem? bytes i) [ none ↦ 0 | some b ↦ b ]

-- `u16::from_le_bytes([key[0], key[1]]) as usize % DEDUP_SHARDS`
unfoldable pub dedup_shard : Hash → ℕ
dedup_shard key = (byte_at key 0 + 256 * byte_at key 1) % dedup_shards

-- `memory.get`, `memory.insert` and `memory.remove` in the shard of the key.
unfoldable pub entry_of : DedupShards → Hash → Option DedupEntry
entry_of memory key = get key (memory (dedup_shard key))

unfoldable pub at_shard : DedupShards → ℕ → Map Hash DedupEntry → DedupShards
at_shard memory shard m i = if i == shard then m else memory i

unfoldable pub set_entry : DedupShards → Hash → DedupEntry → DedupShards
unfolding at_shard
set_entry memory key entry =
    at_shard memory (dedup_shard key) (insert key entry (memory (dedup_shard key)))

unfoldable pub drop_entry : DedupShards → Hash → DedupShards
unfolding at_shard
drop_entry memory key = at_shard memory (dedup_shard key) (remove key (memory (dedup_shard key)))

module _ (h : Hashes) where
  -- `operation_id_hash`
  abbrev pub operation_id_hash : Bytes → Hash
  operation_id_hash id = h.sha256 id

  -- `hash_field`: the length in eight bytes, and the bytes.
  abbrev pub hash_field : Bytes → Bytes → Bytes
  hash_field hasher value = (hasher ++ to_le_bytes 8 (length value)) ++ value

  -- `Fingerprint::from`
  unfoldable pub fingerprint : Operation → Fingerprint
  fingerprint op = h.sha256 (
      hash_field
        (hash_field (hash_field (hash_field [] op.owner_id) op.sku) (to_le_bytes 8 op.delta))
        (to_le_bytes 8 op.event_version))

  -- `shard_for`
  unfoldable pub shard_for : Bytes → Bytes → ℕ → ℕ
  shard_for owner_id sku count = bit_and (h.default_hash owner_id sku % 2 ^ 64) (count - 1)
