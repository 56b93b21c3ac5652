-- ===== src/Service/Outcomes.antt =====
-- `apply_batch` of src/main.rs: a request is applied as a whole, or holds nothing.
use virt_warehouse_pro.Common.{
  ℕ, ◌<◌, ◌≡◌, ◌≢◌, ◌⊎◌, ◌∙◌, subst, refl, sym, ap, List, ◌++◌, Bool, Bool-cases, Option-cases, inl,
  inr, take, map, length, ◌==◌ as nat_beq, ltb, All,
}
use virt_warehouse_pro.Common.Eq.{list_eq, nat_eq}
use virt_warehouse_pro.Model.{Operation}
use virt_warehouse_pro.Store.Types.{Hash, Hashes, DedupShards, entry_of}
use virt_warehouse_pro.Store.DiskIndex.{DiskIndex}
use virt_warehouse_pro.Store.Preflight.{Outcome, ready, rejected, blocked, preflight_batch}
use virt_warehouse_pro.Store.Rollback.{IsFresh}
use virt_warehouse_pro.Store.Undo.{preflight_batch-unchanged}
use virt_warehouse_pro.Store.Known.{IsKnown, Answers}
use virt_warehouse_pro.Store.Finish.{finish_batch, publish, updates_of}
use virt_warehouse_pro.Store.Committed.{
  preflight_batch-Reserves, finish_batch-IsKnown, finish_batch-cancelled,
}
use virt_warehouse_pro.Service.{
  Node, Surroundings, Reply, answered, failed, waits, internal, ensure_writer, validate_all, cancel,
  proceed, preflight, apply_batch,
}
use virt_warehouse_pro.Service.Endings.{new_operations, applied_core, Ends, proceed-Ends}

module _ (h : Hashes) (count : ℕ) (D : DiskIndex) (s : Surroundings) (node : Node) (disk : D.State)
    (ops : List Operation) where
  -- `preflight_batch` finds these operations to be new.
  abbrev pub FindsNew : List Bool → Type 0
  FindsNew news = (preflight_batch h D s.reservation node.memory disk ops).0 ≡ ready news

  -- All operations are committed; the new ones, and only these, are in the log, in the balances of the
  -- shards and in the published balances.
  abbrev pub Applied : Node → Type 0
  Applied after =
      All (IsKnown h D after.memory disk) ops
      × ((news : List Bool) × FindsNew news
          × (after.core ≡ applied_core h count node.core ops news)
          × (after.published ≡ publish node.published (updates_of ops news)))

  -- The balances of the shards, the published balances and the index of the ids are as they were, and so
  -- is the log, but for the first ones of the new operations.
  abbrev pub HoldsNothing : Node → Type 0
  HoldsNothing after =
      (after.core.shards ≡ node.core.shards)
      × (after.published ≡ node.published)
      × ((j : Hash) → entry_of after.memory j ≡ entry_of node.memory j)
      × ((after.core.wal ≡ node.core.wal)
          ⊎ ((n : ℕ) × (news : List Bool) × FindsNew news
              × (after.core.wal ≡ node.core.wal ++ take n (new_operations ops news))))

  -- The request is answered and applied as a whole, or it holds nothing.
  abbrev pub AppliedOrSame : Reply × Node → Type 0
  AppliedOrSame (answered results, after) = Applied after
  AppliedOrSame (failed why, after) = HoldsNothing after
  AppliedOrSame (waits notify, after) = HoldsNothing after

  same_node : HoldsNothing node
  same_node = (refl, refl, λ j. refl, inl refl)

  Ends-AppliedOrSame :
      (memory : DedupShards) (news : List Bool) (x : Reply × Node)
      → IsFresh s.reservation node.memory
      → preflight_batch h D s.reservation node.memory disk ops ≡ (ready news, memory)
      → Ends h count s node memory ops news x
      → AppliedOrSame x
  unfolding cancel finish_batch
  Ends-AppliedOrSame memory news x fresh e (inl (n, why, same)) = subst AppliedOrSame (sym same) (
    refl,
    refl,
    finish_batch-cancelled h D s.reservation node.memory disk ops news memory node.published fresh
        e,
    inr (n, news, ap (λ p. p.0) e, refl),
  )
  Ends-AppliedOrSame memory news x fresh e (inr (results, same)) = subst AppliedOrSame (sym same) (
    finish_batch-IsKnown h D s.reservation node.memory disk ops news memory node.published fresh e,
    (news, ap (λ p. p.0) e, refl, refl),
  )

  preflight-AppliedOrSame :
      (epoch : ℕ)
      → 0 < count
      → IsFresh s.reservation node.memory
      → Answers h D node.memory disk
      → AppliedOrSame (preflight h count D s epoch node disk ops)
  unfolding preflight
  preflight-AppliedOrSame epoch some_shards fresh answers =
      outcome (preflight_batch h D s.reservation node.memory disk ops).0
        (preflight_batch h D s.reservation node.memory disk ops).1 refl
    where
      unchanged :
          (o : Outcome) (memory : DedupShards)
          → preflight_batch h D s.reservation node.memory disk ops ≡ (o, memory)
          → ((news : List Bool) → o ≢ ready news)
          → HoldsNothing (record node { memory = memory })
      unchanged o memory e refused =
          let left =
            preflight_batch-unchanged h s.reservation node.memory D disk ops fresh
              (λ keys. (map (D.stored disk) keys, answers keys))
              (λ news bad. refused news (sym (ap (λ p. p.0) e) ∙ bad)) in
          (
            refl,
            refl,
            λ j. ap (λ (m : DedupShards). entry_of m j) (sym (ap (λ p. p.1) e)) ∙ left j,
            inl refl,
          )

      outcome :
          (o : Outcome) (memory : DedupShards)
          → preflight_batch h D s.reservation node.memory disk ops ≡ (o, memory)
          → AppliedOrSame (elim o as (λ x. Reply × Node) [
            | ready news ↦ proceed h count s epoch node memory ops news
            | rejected e ↦ (failed (internal e), record node { memory = memory })
            | blocked notify ↦ (waits notify, record node { memory = memory })
          ])
      outcome (ready news) memory e = Ends-AppliedOrSame memory news _ fresh e (
          proceed-Ends h count s node some_shards memory ops news
            (preflight_batch-Reserves h D s.reservation node.memory disk ops news memory fresh
              e).sized
            epoch)
      outcome (rejected why) memory e = unchanged (rejected why) memory e (λ news bad. cc)
      outcome (blocked notify) memory e = unchanged (blocked notify) memory e (λ news bad. cc)

  -- With any number of shards but zero, when the index on disk answers and no entry is pending under the
  -- new reservation: a batch that is answered with results has each of its operations committed with its
  -- own fingerprint, and those that `preflight_batch` finds to be new, and only those, are added to the
  -- write-ahead log and applied to the balances of the shards and to the published balances. Any other
  -- batch, refused, failed at any of its steps or about to wait, leaves the balances of the shards, the
  -- published balances and the index of the ids in memory as they were, and the write-ahead log too, but
  -- for whole records of the first ones of its new operations.
  pub apply_batch-AppliedOrSame :
      0 < count
      → IsFresh s.reservation node.memory
      → Answers h D node.memory disk
      → AppliedOrSame (apply_batch h count D s node disk ops)
  unfolding apply_batch
  apply_batch-AppliedOrSame some_shards fresh answers =
      elim (Option-cases (ensure_writer s.lease)) [
        | inl e ↦ rw (apply_batch, e) same_node
        | inr (epoch, e) ↦ elim (Bool-cases (nat_beq (length ops) 0)) [
          | inl empty ↦ rw (apply_batch, e, empty) same_node
          | inr some_ops ↦ elim (Bool-cases (ltb 10_000 (length ops))) [
            | inl many ↦ rw (apply_batch, e, some_ops, many) same_node
            | inr few ↦ elim (Option-cases (validate_all ops)) [
              | inl good ↦
                  rw (apply_batch, e, some_ops, few, good)
                    (preflight-AppliedOrSame epoch some_shards fresh answers)
              | inr (why, bad) ↦ rw (apply_batch, e, some_ops, few, bad) same_node
            ]
          ]
        ]
      ]
