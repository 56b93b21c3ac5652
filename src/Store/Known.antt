-- ===== src/Store/Known.antt =====
-- `preflight_batch` of src/state.rs on operations that are committed already.
use virt_warehouse_pro.Common.{
  ℕ, zero, suc, ◌≡◌, refl, sym, ap, ◌∙◌, arith, List, [], ◌∷◌, Option, none, some, true, false, ok,
  Bool-cases, Option-cases, inl, inr, map, All,
}
use virt_warehouse_pro.Common.Eq.{◌==◌, list_eq, nat_eq, list_beq_iff, beq_refl}
use virt_warehouse_pro.Common.Map.{Map, get, insert, get-insert}
use virt_warehouse_pro.Bytes.Words.{Bytes}
use virt_warehouse_pro.Model.{Operation}
use virt_warehouse_pro.Store.Types.{
  Hash, Fingerprint, Hashes, Notify, DedupEntry, committed, pending, DedupShards, dedup_shards,
  dedup_shard, entry_of, fingerprint, operation_id_hash,
}
use virt_warehouse_pro.Store.DiskIndex.{DiskIndex}
use virt_warehouse_pro.Store.Preflight.{
  Indexed, Attempt, ready, in_shard, id_hash, visit, visit_all, visit_shard, visit_from, attempt,
  preflight_batch, unique_from, flags, has,
}
use virt_warehouse_pro.Store.Passage.{in_shard-All}

-- The fingerprint under which an id is committed, in memory or on disk.
unfoldable pub known : Option DedupEntry → Option Fingerprint → Option Fingerprint
known none stored = stored
known (some (committed f)) stored = some f
known (some (pending f n)) stored = none

module _ (h : Hashes) (D : DiskIndex) (m : DedupShards) (disk : D.State) where
  -- The operation is committed, with its own fingerprint.
  abbrev pub IsKnown : Operation → Type 0
  IsKnown op =
      known (entry_of m (operation_id_hash h op.operation_id))
        (D.stored disk (operation_id_hash h op.operation_id))
      ≡ some (fingerprint h op)

  abbrev Known : Indexed → Type 0
  Known x = IsKnown x.1

  -- What the ids of a request have been seen with so far.
  SeenIsKnown : Map Bytes Fingerprint → Type 0
  SeenIsKnown seen =
      (id : Bytes) (f : Fingerprint)
      → get id seen ≡ some f
      → known (entry_of m (operation_id_hash h id)) (D.stored disk (operation_id_hash h id))
        ≡ some f

  SeenIsKnown-[] : SeenIsKnown []
  unfolding SeenIsKnown get
  SeenIsKnown-[] id f e = ground arith

  SeenIsKnown-insert :
      (seen : Map Bytes Fingerprint) (op : Operation)
      → SeenIsKnown seen
      → IsKnown op
      → SeenIsKnown (insert op.operation_id (fingerprint h op) seen)
  unfolding SeenIsKnown
  SeenIsKnown-insert seen op s k id f e = elim (Bool-cases (op.operation_id == id)) [
    | inl same ↦
        let that = (list_beq_iff op.operation_id id).0 same in
        ap (λ i. known (entry_of m (operation_id_hash h i)) (D.stored disk (operation_id_hash h i)))
          (sym that)
        ∙ k
        ∙ sym (get-insert op.operation_id id (fingerprint h op) seen ∙ rw same)
        ∙ e
    | inr other ↦
        s id f (sym (get-insert op.operation_id id (fingerprint h op) seen ∙ rw other) ∙ e)
  ]

  -- An id seen before has been seen with the fingerprint of this operation.
  same_fingerprint :
      (seen : Map Bytes Fingerprint) (op : Operation) (f : Fingerprint)
      → SeenIsKnown seen
      → IsKnown op
      → get op.operation_id seen ≡ some f
      → (f == fingerprint h op) ≡ true
  unfolding SeenIsKnown
  same_fingerprint seen op f s k old =
      let both = s op.operation_id f old in
      let that : f ≡ fingerprint h op = cc in rw that (beq_refl (fingerprint h op))

  unique_from-IsKnown :
      (index : ℕ) (seen : Map Bytes Fingerprint) (ops : List Operation)
      → SeenIsKnown seen
      → All IsKnown ops
      → (unique : List Indexed) × (unique_from h index seen ops ≡ ok unique) × All Known unique
  unfolding unique_from
  unique_from-IsKnown index seen [] s k = ([], refl, tt)
  unique_from-IsKnown index seen (op ∷ ops) s k = elim (Option-cases (get op.operation_id seen)) [
    | inl new ↦
        let (unique, e, ks) =
          unique_from-IsKnown (suc index) (insert op.operation_id (fingerprint h op) seen) ops
            (SeenIsKnown-insert seen op s k.0) k.1 in
        ((index, op) ∷ unique, rw (new, unique_from, e), (k.0, ks))
    | inr (f, old) ↦
        let (unique, e, ks) = unique_from-IsKnown (suc index) seen ops s k.1 in
        let that = same_fingerprint seen op f s k.0 old in
        (unique, rw (old, that, unique_from) e, ks)
  ]

  -- A visit of a known operation does nothing.
  visit-IsKnown :
      (r : Notify) (a : Attempt) (x : Indexed)
      → a.memory ≡ m
      → Known x
      → visit h r a x (D.stored disk (id_hash h x)) ≡ a
  unfolding visit known
  visit-IsKnown r a x e k = ground (arith, beq_refl (fingerprint h x.1))

  -- The state in which an attempt starts.
  abbrev untouched : Attempt
  untouched = record { memory = m; news = []; reserved = []; stop = none }

  visit_all-IsKnown :
      (r : Notify) (xs : List Indexed)
      → All Known xs
      → visit_all h r untouched xs (map (D.stored disk) (map (id_hash h) xs)) ≡ untouched
  unfolding visit_all
  visit_all-IsKnown r [] k = refl
  visit_all-IsKnown r (x ∷ xs) k =
      let e = visit-IsKnown r untouched x refl k.0 in
      rw (e, visit_all, e) (visit_all-IsKnown r xs k.1)

  -- The disk answers what is asked of it.
  abbrev pub Answers : Type 0
  Answers = (keys : List Hash) → D.get_many disk keys ≡ ok (map (D.stored disk) keys)

  visit_shard-IsKnown :
      (r : Notify) (xs : List Indexed)
      → Answers
      → All Known xs
      → visit_shard h D r disk untouched xs ≡ untouched
  unfolding visit_shard
  visit_shard-IsKnown r [] w k = refl
  visit_shard-IsKnown r (x ∷ xs) w k =
      rw (w (map (id_hash h) (x ∷ xs)), visit_shard) (visit_all-IsKnown r (x ∷ xs) k)

  visit_from-IsKnown :
      (left shard : ℕ) (r : Notify) (xs : List Indexed)
      → Answers
      → All Known xs
      → visit_from h D left shard r disk untouched xs ≡ untouched
  unfolding visit_from
  visit_from-IsKnown zero shard r xs w k = refl
  visit_from-IsKnown (suc left) shard r xs w k =
      let those = in_shard-All Known (λ x. dedup_shard (id_hash h x)) shard xs k in
      let e = visit_shard-IsKnown r (in_shard (λ x. dedup_shard (id_hash h x)) shard xs) w those in
      rw (e, visit_from, e) (visit_from-IsKnown left (suc shard) r xs w k)

  flags-none : (i : ℕ) (ops : List Operation) → flags [] i ops ≡ map (λ op. false) ops
  unfolding flags has
  flags-none i [] = refl
  flags-none i (op ∷ ops) = ap (λ fs. false ∷ fs) (flags-none (suc i) ops)

  attempt-IsKnown :
      (r : Notify) (ops : List Operation) (unique : List Indexed)
      → Answers
      → All Known unique
      → attempt h D r m disk ops unique ≡ (ready (map (λ op. false) ops), m)
  unfolding attempt
  attempt-IsKnown r ops unique w k =
      let e = visit_from-IsKnown dedup_shards 0 r unique w k in
      rw (e, attempt, e) (ap (λ fs. (ready fs, m)) (flags-none 0 ops))

  -- When the disk answers and every operation of a request is committed with its own fingerprint,
  -- in memory or on disk, then `preflight_batch` finds no new operation, and leaves the index as it is.
  pub preflight_batch-IsKnown :
      (r : Notify) (ops : List Operation)
      → Answers
      → All IsKnown ops
      → preflight_batch h D r m disk ops ≡ (ready (map (λ op. false) ops), m)
  unfolding preflight_batch SeenIsKnown
  preflight_batch-IsKnown r ops w k =
      let (unique, e, ks) = unique_from-IsKnown 0 [] ops SeenIsKnown-[] k in
      rw (e, preflight_batch) (attempt-IsKnown r ops unique w ks)
