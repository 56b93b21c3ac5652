-- ===== src/Service/Retries.antt =====
-- `apply_batch` of src/main.rs: a request that was answered, sent again.
use virt_warehouse_pro.Common.{
  ℕ, ◌<◌, ◌≤◌, ◌≡◌, subst, arith, List, none, some, Bool-cases, Option-cases, inl, inr, map, length,
  ◌==◌ as nat_beq, ltb,
}
use virt_warehouse_pro.Model.{Operation, ApplyResult}
use virt_warehouse_pro.Store.Types.{Hashes}
use virt_warehouse_pro.Store.DiskIndex.{DiskIndex}
use virt_warehouse_pro.Store.Rollback.{IsFresh}
use virt_warehouse_pro.Store.Known.{Answers}
use virt_warehouse_pro.Service.{
  Node, Surroundings, answered, ensure_writer, validate_all, apply_batch,
}
use virt_warehouse_pro.Service.Outcomes.{AppliedOrSame, apply_batch-AppliedOrSame}
use virt_warehouse_pro.Service.Repeat.{repeated, apply_batch-IsKnown}

module _ (h : Hashes) (count : ℕ) (D : DiskIndex) (s t : Surroundings) (node after : Node)
    (disk : D.State) (ops : List Operation) (results : List ApplyResult) where
  -- What the checks of the handler have let through.
  answered-checked :
      apply_batch h count D s node disk ops ≡ (answered results, after)
      → (1 ≤ length ops) × (length ops ≤ 10_000) × (validate_all ops ≡ none)
  unfolding apply_batch
  answered-checked done = elim (Option-cases (ensure_writer s.lease)) [
    | inl e ↦ absurd (ground (arith, done, e))
    | inr (epoch, e) ↦ elim (Bool-cases (nat_beq (length ops) 0)) [
      | inl empty ↦ absurd (ground (arith, done, e, empty))
      | inr some_ops ↦ elim (Bool-cases (ltb 10_000 (length ops))) [
        | inl many ↦ absurd (ground (arith, done, e, some_ops, many))
        | inr few ↦ elim (Option-cases (validate_all ops)) [
          | inl good ↦ (ground (arith, some_ops), ground (arith, few), good)
          | inr (why, bad) ↦ absurd (ground (arith, done, e, some_ops, few, bad))
        ]
      ]
    ]
  ]

  -- With any number of shards but zero, when the index on disk answers and no entry is pending under the
  -- new reservation: if a batch is answered with results, then the same batch, sent again to the node as
  -- it is after that answer and with the index on disk as it was, is answered, while the node holds the
  -- lease, with each operation as a duplicate and with the published balances, and changes nothing.
  pub apply_batch-repeated :
      (epoch : ℕ)
      → 0 < count
      → IsFresh s.reservation node.memory
      → Answers h D node.memory disk
      → apply_batch h count D s node disk ops ≡ (answered results, after)
      → ensure_writer t.lease ≡ some epoch
      → apply_batch h count D t after disk ops
        ≡ (answered (map (repeated after.published) ops), after)
  apply_batch-repeated epoch some_shards fresh answers done leased =
      let (some_ops, few, good) = answered-checked done in
      let whole =
        subst (AppliedOrSame h count D s node disk ops) done
          (apply_batch-AppliedOrSame h count D s node disk ops some_shards fresh answers) in
      apply_batch-IsKnown h count D t after disk epoch ops leased some_ops few good answers whole.0
