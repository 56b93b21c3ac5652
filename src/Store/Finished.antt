-- ===== src/Store/Finished.antt =====
-- `finish_batch` of src/state.rs: the entries of the index after it.
use virt_warehouse_pro.Common.{
  ℕ, zero, suc, ◌+◌, ◌≡◌, refl, ap, arith, List, [], ◌∷◌, Option, none, some, Bool, true, false,
  ◌&&◌, ltb, leb, if◌then◌else◌, Option-cases, inl, inr,
}
use virt_warehouse_pro.Common.Eq.{◌==◌, list_eq, nat_eq, list_beq_iff}
use virt_warehouse_pro.Model.{Operation}
use virt_warehouse_pro.Store.Types.{
  Hash, Hashes, DedupEntry, committed, pending, DedupShards, dedup_shards, dedup_shard, entry_of,
}
use virt_warehouse_pro.Store.Index.{entry_of-set_entry, entry_of-drop_entry}
use virt_warehouse_pro.Store.Preflight.{in_shard}
use virt_warehouse_pro.Store.Rollback.{contains, contains-in_shard, dedup_shard-lt}
use virt_warehouse_pro.Store.Apply.{Balances}
use virt_warehouse_pro.Store.Finish.{
  Finish, new_keys, commit_key, cancel_key, finish_keys, finish_from, finish_batch,
}

-- What becomes of the entry of a new operation: committed, or removed.
abbrev pub ended : Bool → Option DedupEntry → Option DedupEntry
ended true (some (pending (some f) n)) = some (committed f)
ended true (some (pending none n)) = some (pending none n)
ended true (some (committed f)) = some (committed f)
ended true none = none
ended false e = none

ended_twice : (done : Bool) (e : Option DedupEntry) → ended done (ended done e) ≡ ended done e
ended_twice done e = ground arith

entry_of-commit_key :
    (s : Finish) (k j : Hash)
    → entry_of (commit_key s k).memory j
      ≡ (if k == j then ended true (entry_of s.memory j) else entry_of s.memory j)
unfolding commit_key
entry_of-commit_key s k j =
    let same : k == j ≡ true → entry_of s.memory k ≡ entry_of s.memory j =
      λ t. ap (entry_of s.memory) ((list_beq_iff k j).0 t) in
    elim (Option-cases (entry_of s.memory k)) [
      | inl e ↦ ground (arith, e, same)
      | inr (committed f, e) ↦ ground (arith, e, same)
      | inr (pending none n, e) ↦ ground (arith, e, same)
      | inr (pending (some f) n, e) ↦
          ground (arith, e, same, entry_of-set_entry s.memory k j (committed f))
    ]

entry_of-cancel_key :
    (s : Finish) (k j : Hash)
    → entry_of (cancel_key s k).memory j ≡ (if k == j then none else entry_of s.memory j)
unfolding cancel_key
entry_of-cancel_key s k j = ground (arith, entry_of-drop_entry s.memory k j)

entry_of-finish_keys :
    (done : Bool) (s : Finish) (ks : List Hash) (j : Hash)
    → entry_of (finish_keys done s ks).memory j
      ≡ (if contains ks j then ended done (entry_of s.memory j) else entry_of s.memory j)
unfolding finish_keys contains
entry_of-finish_keys done s [] j = refl
entry_of-finish_keys true s (k ∷ ks) j = ground (
  arith,
  entry_of-finish_keys true (commit_key s k) ks j,
  entry_of-commit_key s k j,
  ended_twice true (entry_of s.memory j),
)
entry_of-finish_keys false s (k ∷ ks) j =
    ground (arith, entry_of-finish_keys false (cancel_key s k) ks j, entry_of-cancel_key s k j)

-- After the shards from `shard` on, `left` of them, the keys of those shards are ended.
entry_of-finish_from :
    (done : Bool) (left shard : ℕ) (s : Finish) (ks : List Hash) (j : Hash)
    → entry_of (finish_from done left shard s ks).memory j ≡ (
        if contains ks j && (leb shard (dedup_shard j) && ltb (dedup_shard j) (shard + left))
        then ended done (entry_of s.memory j)
        else entry_of s.memory j)
unfolding finish_from
entry_of-finish_from done zero shard s ks j = ground arith
entry_of-finish_from done (suc left) shard s ks j = ground (
  arith,
  entry_of-finish_from done left (suc shard) (finish_keys done s (in_shard dedup_shard shard ks)) ks
      j,
  entry_of-finish_keys done s (in_shard dedup_shard shard ks) j,
  contains-in_shard shard ks j,
  ended_twice done (entry_of s.memory j),
)

module _ (h : Hashes) where
  pub entry_of-finish_batch :
      (m : DedupShards) (published : Balances) (ops : List Operation) (news : List Bool)
      (done : Bool) (j : Hash)
      → entry_of (finish_batch h m published ops news done).memory j
        ≡ (if contains (new_keys h ops news) j then ended done (entry_of m j) else entry_of m j)
  unfolding finish_batch
  entry_of-finish_batch m published ops news done j = ground (
    arith,
    entry_of-finish_from done dedup_shards 0 (record { memory = m; entries = []; notified = [] })
        (new_keys h ops news) j,
    dedup_shard-lt j,
  )
