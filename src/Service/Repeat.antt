-- ===== src/Service/Repeat.antt =====
-- `apply_batch` of src/main.rs on operations that are committed already.
use virt_warehouse_pro.Common.{
  ℕ, zero, suc, ◌≤◌, ◌≡◌, refl, sym, ap, fun_ext, arith, List, [], ◌∷◌, append-nil, none, some,
  Bool, true, false, Bool-cases, inl, inr, ok, ◌==◌ as nat_beq, ==_iff, ltb, length, map,
  if◌then◌else◌, All,
}
use virt_warehouse_pro.Model.{Operation, ApplyResult, duplicate}
use virt_warehouse_pro.Store.Types.{Hashes, DedupShards, dedup_shards}
use virt_warehouse_pro.Store.DiskIndex.{DiskIndex}
use virt_warehouse_pro.Store.Preflight.{in_shard}
use virt_warehouse_pro.Store.Apply.{
  Balances, balance_of, key_of, Shards, Core, Appended, apply_command, apply_from, fresh_of,
  known_results, set_results, collect, append_wal, apply_batched, apply_preflight_batch,
}
use virt_warehouse_pro.Store.Finish.{
  Finish, new_keys, finish_keys, finish_from, updates_of, publish, finish_batch,
}
use virt_warehouse_pro.Store.Known.{IsKnown, Answers, preflight_batch-IsKnown}
use virt_warehouse_pro.Service.{
  Node, Surroundings, answered, ensure_writer, validate_all, durable, commit, proceed, preflight,
  apply_batch,
}

-- No operation of the request is new.
abbrev none_new : List Operation → List Bool
none_new ops = map (λ op. false) ops

-- The answer to an operation that is not new.
abbrev pub repeated : Balances → Operation → ApplyResult
repeated published op = record {
  operation_id = op.operation_id;
  status = duplicate;
  balance = balance_of published (key_of op);
}

none_new-durable : (ops : List Operation) → durable ops (none_new ops) ≡ []
unfolding durable
none_new-durable [] = refl
none_new-durable (op ∷ ops) = none_new-durable ops

none_new-fresh_of : (index : ℕ) (ops : List Operation) → fresh_of index ops (none_new ops) ≡ []
unfolding fresh_of
none_new-fresh_of index [] = refl
none_new-fresh_of index (op ∷ ops) = none_new-fresh_of (suc index) ops

none_new-new_keys : (h : Hashes) (ops : List Operation) → new_keys h ops (none_new ops) ≡ []
unfolding new_keys
none_new-new_keys h [] = refl
none_new-new_keys h (op ∷ ops) = none_new-new_keys h ops

none_new-updates_of : (ops : List Operation) → updates_of ops (none_new ops) ≡ []
unfolding updates_of
none_new-updates_of [] = refl
none_new-updates_of (op ∷ ops) = none_new-updates_of ops

collect-known_results :
    (published : Balances) (ops : List Operation)
    → collect (known_results published ops (none_new ops)) ≡ ok (map (repeated published) ops)
unfolding collect known_results
collect-known_results published [] = refl
collect-known_results published (op ∷ ops) = rw (collect-known_results published ops) refl

finish_from-[] : (left shard : ℕ) (s : Finish) → finish_from true left shard s [] ≡ s
unfolding finish_from finish_keys in_shard
finish_from-[] zero shard s = refl
finish_from-[] (suc left) shard s = finish_from-[] left (suc shard) s

module _ (h : Hashes) (count : ℕ) where
  same_shards :
      (shards : Shards) (shard : ℕ)
      → (λ i. if nat_beq i shard then shards shard else shards i) ≡ shards
  same_shards shards shard = fun_ext λ i. elim (Bool-cases (nat_beq i shard)) [
    | inl here ↦ rw here (ap shards (sym ((==_iff i shard).0 here)))
    | inr there ↦ rw there refl
  ]

  apply_from-[] :
      (left shard : ℕ) (shards : Shards) → apply_from h count left shard shards [] ≡ (shards, [])
  unfolding apply_from apply_command in_shard
  apply_from-[] zero shard shards = refl
  apply_from-[] (suc left) shard shards =
      rw (same_shards shards shard, apply_from-[] left (suc shard) shards) refl

  apply_preflight_batch-none_new :
      (appended : Appended) (core : Core) (published : Balances) (ops : List Operation)
      → apply_preflight_batch h count appended core published ops (none_new ops)
        ≡ (core, ok (map (repeated published) ops))
  unfolding apply_preflight_batch apply_batched append_wal set_results
  apply_preflight_batch-none_new appended core published ops =
      rw
        (
          none_new-fresh_of 0 ops,
          apply_from-[] count 0 core.shards,
          collect-known_results published ops,
        )
        refl

  finish_batch-none_new :
      (memory : DedupShards) (published : Balances) (ops : List Operation)
      → finish_batch h memory published ops (none_new ops) true
        ≡ record { memory = memory; published = published; queued = []; notified = [] }
  unfolding finish_batch publish
  finish_batch-none_new memory published ops =
      rw
        (
          none_new-new_keys h ops,
          none_new-updates_of ops,
          finish_from-[] dedup_shards 0 (record { memory = memory; entries = []; notified = [] }),
        )
        refl

  module _ (D : DiskIndex) (s : Surroundings) (node : Node) (disk : D.State) where
    commit-none_new :
        (ops : List Operation)
        → commit h count s node node.memory ops (none_new ops)
          ≡ (answered (map (repeated node.published) ops), node)
    unfolding commit
    commit-none_new ops =
        rw
          (
            commit,
            apply_preflight_batch-none_new s.appended node.core node.published ops,
            finish_batch-none_new node.memory node.published ops,
            append-nil node.queued,
            apply_preflight_batch-none_new s.appended node.core node.published ops,
          )
          refl

    proceed-none_new :
        (epoch : ℕ) (ops : List Operation)
        → proceed h count s epoch node node.memory ops (none_new ops)
          ≡ (answered (map (repeated node.published) ops), node)
    unfolding proceed
    proceed-none_new epoch ops = rw (proceed, none_new-durable ops) (commit-none_new ops)

    preflight-IsKnown :
        (epoch : ℕ) (ops : List Operation)
        → Answers h D node.memory disk
        → All (IsKnown h D node.memory disk) ops
        → preflight h count D s epoch node disk ops
          ≡ (answered (map (repeated node.published) ops), node)
    unfolding preflight
    preflight-IsKnown epoch ops a k =
        let e = preflight_batch-IsKnown h D node.memory disk s.reservation ops a k in
        rw (preflight, e, e) (proceed-none_new epoch ops)

    -- When the node holds the lease, the index on disk answers, and each of the
    -- 1 to 10,000 operations of a batch is valid and committed with its own fingerprint, in memory or
    -- on disk, then the batch is answered with the published balances, each operation as a
    -- duplicate, and nothing at all is changed.
    pub apply_batch-IsKnown :
        (epoch : ℕ) (ops : List Operation)
        → ensure_writer s.lease ≡ some epoch
        → 1 ≤ length ops
        → length ops ≤ 10_000
        → validate_all ops ≡ none
        → Answers h D node.memory disk
        → All (IsKnown h D node.memory disk) ops
        → apply_batch h count D s node disk ops
          ≡ (answered (map (repeated node.published) ops), node)
    unfolding apply_batch
    apply_batch-IsKnown epoch ops leased some_ops few good a k =
        let not_none : nat_beq (length ops) 0 ≡ false = ground arith in
        let not_many : ltb 10_000 (length ops) ≡ false = ground arith in
        rw (apply_batch, leased, not_none, not_many, good) (preflight-IsKnown epoch ops a k)
