-- ===== src/Store/Marked.antt =====
-- `preflight_batch` of src/state.rs: what it reserves is what `new_operations` marks.
use virt_warehouse_pro.Common.{
  ℕ, suc, ◌≡◌, refl, sym, ap, ◌∙◌, inl, inr, arith, ◌<◌, List, [], ◌∷◌, Option, some, Bool, true,
  false, ok, ◌==◌ as nat_beq, ==_iff, ◌&&◌, ◌||◌, Bool-cases, Option-cases, All, IfOk, IfOk->>=,
  IfOk-weaken,
}
use virt_warehouse_pro.Common.Eq.{◌==◌, list_eq, nat_eq, list_beq_iff, beq_refl}
use virt_warehouse_pro.Common.Map.{Map, get, insert}
use virt_warehouse_pro.Bytes.Words.{Bytes}
use virt_warehouse_pro.Model.{Operation}
use virt_warehouse_pro.Store.Types.{
  Hash, Fingerprint, Hashes, Notify, pending, dedup_shards, entry_of, fingerprint,
  operation_id_hash,
}
use virt_warehouse_pro.Store.Index.{entry_of-set_entry}
use virt_warehouse_pro.Store.DiskIndex.{DiskIndex}
use virt_warehouse_pro.Store.Preflight.{
  Indexed, Attempt, id_hash, visit, visit_from, unique_from, flags, has,
}
use virt_warehouse_pro.Store.Finish.{new_keys}
use virt_warehouse_pro.Store.Passage.{visit_changes, reserved_entry, visit_from_rule}
use virt_warehouse_pro.Store.Rollback.{contains}

module _ (h : Hashes) where
  -- The operation with index `n` has this key; the first of the operations has index `i`.
  pub named : List Operation → ℕ → ℕ → Hash → Bool
  named [] i n j = false
  named (op ∷ ops) i n j =
      (nat_beq n i && operation_id_hash h op.operation_id == j) || named ops (suc i) n j

  -- One more mark is one more key.
  contains-new_keys :
      (n : ℕ) (ns : List ℕ) (i : ℕ) (ops : List Operation) (j : Hash)
      → contains (new_keys h ops (flags (n ∷ ns) i ops)) j
        ≡ (named ops i n j || contains (new_keys h ops (flags ns i ops)) j)
  unfolding contains new_keys flags named has
  contains-new_keys n ns i [] j = refl
  contains-new_keys n ns i (op ∷ ops) j = ground (arith, contains-new_keys n ns (suc i) ops j)

  pub contains-no_marks :
      (i : ℕ) (ops : List Operation) (j : Hash)
      → contains (new_keys h ops (flags [] i ops)) j ≡ false
  unfolding contains new_keys flags has
  contains-no_marks i [] j = refl
  contains-no_marks i (op ∷ ops) j = contains-no_marks (suc i) ops j

  named_before : (ops : List Operation) (i n : ℕ) (j : Hash) → n < i → named ops i n j ≡ false
  unfolding named
  named_before [] i n j lt = refl
  named_before (op ∷ ops) i n j lt = ground (arith, named_before ops (suc i) n j)

  -- An index belongs to one key.
  named_unique :
      (ops : List Operation) (i n : ℕ) (j k : Hash)
      → named ops i n j ≡ true
      → named ops i n k ≡ true
      → j ≡ k
  unfolding named
  named_unique [] i n j k p q = absurd (ground (arith, p))
  named_unique (op ∷ ops) i n j k p q = ground (
    arith,
    named_unique ops (suc i) n j k,
    named_before ops (suc i) n j,
    named_before ops (suc i) n k,
    list_beq_iff (operation_id_hash h op.operation_id) j,
    list_beq_iff (operation_id_hash h op.operation_id) k,
  )

  -- An operation of the list, with its index in it.
  abbrev pub Placed : List Operation → ℕ → Indexed → Type 0
  Placed ops i x = named ops i x.0 (id_hash h x) ≡ true

  All-Placed-cons :
      (op : Operation) (ops : List Operation) (i : ℕ) (xs : List Indexed)
      → All (Placed ops (suc i)) xs
      → All (Placed (op ∷ ops) i) xs
  unfolding named
  All-Placed-cons op ops i [] p = tt
  All-Placed-cons op ops i (x ∷ xs) p = (ground (arith, p.0), All-Placed-cons op ops i xs p.1)

  pub unique_from-Placed :
      (index : ℕ) (seen : Map Bytes Fingerprint) (ops : List Operation)
      → IfOk (All (Placed ops index)) (unique_from h index seen ops)
  unfolding unique_from named
  unique_from-Placed index seen [] = tt
  unique_from-Placed index seen (op ∷ ops) = elim (Option-cases (get op.operation_id seen)) [
    | inl new ↦
        rw (new, unique_from)
          (IfOk->>= (All (Placed ops (suc index))) (All (Placed (op ∷ ops) index))
            (unique_from h (suc index) (insert op.operation_id (fingerprint h op) seen) ops)
            (λ rest. ok ((index, op) ∷ rest))
            (unique_from-Placed (suc index) (insert op.operation_id (fingerprint h op) seen) ops)
            (λ rest p. (
              ground (arith, ==_iff index index, beq_refl (operation_id_hash h op.operation_id)),
              All-Placed-cons op ops index rest p,
            )))
    | inr (f, old) ↦ elim (Bool-cases (f == fingerprint h op)) [
      | inl same ↦
          rw (old, same, unique_from)
            (IfOk-weaken (All (Placed ops (suc index))) (All (Placed (op ∷ ops) index))
              (unique_from h (suc index) seen ops) (All-Placed-cons op ops index)
              (unique_from-Placed (suc index) seen ops))
      | inr other ↦ rw (old, other, unique_from) tt
    ]
  ]

  module _ (r : Notify) (ops : List Operation) where
    -- What is pending under `r` is the key of a marked operation.
    abbrev pub Marked : Attempt → Type 0
    Marked a =
        (j : Hash) (f : Option Fingerprint)
        → entry_of a.memory j ≡ some (pending f r)
        → contains (new_keys h ops (flags a.news 0 ops)) j ≡ true

    visit-Marked :
        (a : Attempt) (x : Indexed) (v : Option Fingerprint)
        → Placed ops 0 x
        → Marked a
        → Marked (visit h r a x v)
    unfolding visit
    visit-Marked a x v placed p j f = ground (
      arith,
      p j f,
      placed,
      contains-new_keys x.0 a.news 0 ops j,
      list_beq_iff (id_hash h x) j,
      entry_of-set_entry a.memory (id_hash h x) j (pending (some (fingerprint h x.1)) r),
    )

    pub visit_from-Marked :
        (D : DiskIndex) (disk : D.State) (a : Attempt) (unique : List Indexed)
        → All (Placed ops 0) unique
        → Marked a
        → Marked (visit_from h D dedup_shards 0 r disk a unique)
    visit_from-Marked D disk a unique placed p =
        visit_from_rule h r Marked (Placed ops 0) visit-Marked D disk (λ b keys why e q. q)
          dedup_shards 0 a unique placed p

    -- The key of a marked operation is pending under `r`.
    abbrev pub Owned : Attempt → Type 0
    Owned a =
        (j : Hash)
        → contains (new_keys h ops (flags a.news 0 ops)) j ≡ true
        → (f : Fingerprint) × (entry_of a.memory j ≡ some (pending (some f) r))

    visit-Owned :
        (a : Attempt) (x : Indexed) (v : Option Fingerprint)
        → Placed ops 0 x
        → Owned a
        → Owned (visit h r a x v)
    unfolding visit
    visit-Owned a x v placed p j e = elim (visit_changes h r a x v) [
      | inl (same_memory, same_marks) ↦
          let (f, was) =
            p j (ap (λ ns. contains (new_keys h ops (flags ns 0 ops)) j) (sym same_marks) ∙ e) in
          (f, ap (λ m. entry_of m j) same_memory ∙ was)
      | inr (empty, unknown, reserved, marked) ↦
          let e' =
            sym (contains-new_keys x.0 a.news 0 ops j)
            ∙ ap (λ ns. contains (new_keys h ops (flags ns 0 ops)) j) (sym marked)
            ∙ e in
          let set_to =
            ap (λ m. entry_of m j) reserved
            ∙ entry_of-set_entry a.memory (id_hash h x) j (reserved_entry h r x) in
          elim (Bool-cases (id_hash h x == j)) [
            | inl same ↦ (fingerprint h x.1, set_to ∙ rw same)
            | inr other ↦
                let (f, was) = p j (
                  ground (
                    arith,
                    e',
                    other,
                    placed,
                    named_unique ops 0 x.0 (id_hash h x) j,
                    list_beq_iff (id_hash h x) j,
                  )) in
                (f, set_to ∙ rw other was)
          ]
    ]

    pub visit_from-Owned :
        (D : DiskIndex) (disk : D.State) (a : Attempt) (unique : List Indexed)
        → All (Placed ops 0) unique
        → Owned a
        → Owned (visit_from h D dedup_shards 0 r disk a unique)
    visit_from-Owned D disk a unique placed p =
        visit_from_rule h r Owned (Placed ops 0) visit-Owned D disk (λ b keys why e q. q)
          dedup_shards 0 a unique placed p
