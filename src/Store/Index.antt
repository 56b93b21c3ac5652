-- ===== src/Store/Index.antt =====
-- The index of src/state.rs in memory: lookups after a change, whatever the shards of the keys.
use virt_warehouse_pro.Common.{
  ℕ, ◌≡◌, sym, ap, ◌∙◌, Option, none, some, false, ◌==◌ as nat_beq, ==_iff, if◌then◌else◌,
  Bool-cases, inl, inr,
}
use virt_warehouse_pro.Common.Eq.{◌==◌, list_eq, nat_eq, list_beq_iff}
use virt_warehouse_pro.Common.Map.{Map, get, get-insert, get-remove}
use virt_warehouse_pro.Store.Types.{
  Hash, DedupEntry, DedupShards, dedup_shard, entry_of, at_shard, set_entry, drop_entry,
}

-- A key of another shard is another key.
other_shard : (k j : Hash) → nat_beq (dedup_shard j) (dedup_shard k) ≡ false → (k == j) ≡ false
other_shard k j d = elim (Bool-cases (k == j)) [
  | inl same ↦
      let e : dedup_shard k ≡ dedup_shard j = ap dedup_shard ((list_beq_iff k j).0 same) in
      cc ((==_iff (dedup_shard j) (dedup_shard k)).1 (sym e))
  | inr other ↦ other
]

-- A lookup in the shards, one of which was changed: `new` and `old` are what `get` finds there.
module _ (m : DedupShards) (k j : Hash) (map' : Map Hash DedupEntry) (new : Option DedupEntry) where
  pub entry_of-at_shard :
      get j map' ≡ (if k == j then new else get j (m (dedup_shard k)))
      → entry_of (at_shard m (dedup_shard k) map') j ≡ (if k == j then new else entry_of m j)
  unfolding entry_of at_shard
  entry_of-at_shard h = elim (Bool-cases (nat_beq (dedup_shard j) (dedup_shard k))) [
    | inl same ↦ rw same (
        h
        ∙ ap (λ (n : ℕ). if k == j then new else get j (m n))
            (sym ((==_iff (dedup_shard j) (dedup_shard k)).0 same)))
    | inr d ↦ rw (d, other_shard k j d)
  ]

pub entry_of-set_entry :
    (m : DedupShards) (k j : Hash) (e : DedupEntry)
    → entry_of (set_entry m k e) j ≡ (if k == j then some e else entry_of m j)
unfolding set_entry
entry_of-set_entry m k j e =
    entry_of-at_shard m k j _ (some e) (get-insert k j e (m (dedup_shard k)))

pub entry_of-drop_entry :
    (m : DedupShards) (k j : Hash)
    → entry_of (drop_entry m k) j ≡ (if k == j then none else entry_of m j)
unfolding drop_entry
entry_of-drop_entry m k j = entry_of-at_shard m k j _ none (get-remove k j (m (dedup_shard k)))
