-- ===== src/Store/Unique.antt =====
-- The first loop of `preflight_batch` of src/state.rs: what holds of the first occurrences of the
-- ids holds of all operations.
use virt_warehouse_pro.Common.{
  ℕ, suc, ◌≡◌, sym, ◌∙◌, subst, inl, inr, List, [], ◌∷◌, some, ok, Bool-cases, Option-cases, All,
  IfOk, IfOk->>=, IfOk-ok, IfOk-weaken, arith,
}
use virt_warehouse_pro.Common.Eq.{◌==◌, list_eq, nat_eq, list_beq_iff}
use virt_warehouse_pro.Common.Map.{Map, get, insert, get-insert}
use virt_warehouse_pro.Bytes.Words.{Bytes}
use virt_warehouse_pro.Model.{Operation}
use virt_warehouse_pro.Store.Types.{Fingerprint, Hashes, fingerprint}
use virt_warehouse_pro.Store.Preflight.{Indexed, unique_from}

module _ (h : Hashes) (S : Bytes → Fingerprint → Type 0) where
  abbrev pub Holds : Operation → Type 0
  Holds op = S op.operation_id (fingerprint h op)

  abbrev Seen : Map Bytes Fingerprint → Type 0
  Seen seen = (id : Bytes) (f : Fingerprint) → get id seen ≡ some f → S id f

  Seen-insert :
      (seen : Map Bytes Fingerprint) (op : Operation)
      → Seen seen
      → Holds op
      → Seen (insert op.operation_id (fingerprint h op) seen)
  Seen-insert seen op s holds id f e = elim (Bool-cases (op.operation_id == id)) [
    | inl same ↦
        let that = (list_beq_iff op.operation_id id).0 same in
        let value : fingerprint h op ≡ f =
          ground (arith, same, e, get-insert op.operation_id id (fingerprint h op) seen) in
        subst (S id) value (subst (λ i. S i (fingerprint h op)) that holds)
    | inr other ↦
        s id f (sym (get-insert op.operation_id id (fingerprint h op) seen ∙ rw other) ∙ e)
  ]

  -- From the first occurrences to all operations.
  abbrev Covers : Map Bytes Fingerprint → List Operation → List Indexed → Type 0
  Covers seen ops unique = Seen seen → All (λ x. Holds x.1) unique → All Holds ops

  unique_from-Covers :
      (index : ℕ) (seen : Map Bytes Fingerprint) (ops : List Operation)
      → IfOk (Covers seen ops) (unique_from h index seen ops)
  unfolding unique_from
  unique_from-Covers index seen [] = λ s p. tt
  unique_from-Covers index seen (op ∷ ops) = elim (Option-cases (get op.operation_id seen)) [
    | inl new ↦
        let seen' = insert op.operation_id (fingerprint h op) seen in
        rw (new, unique_from)
          (IfOk->>= (Covers seen' ops) (Covers seen (op ∷ ops))
            (unique_from h (suc index) seen' ops) (λ rest. ok ((index, op) ∷ rest))
            (unique_from-Covers (suc index) seen' ops)
            (λ rest covers s p. (p.0, covers (Seen-insert seen op s p.0) p.1)))
    | inr (f, old) ↦ elim (Bool-cases (f == fingerprint h op)) [
      | inl same ↦
          rw (old, same, unique_from)
            (IfOk-weaken (Covers seen ops) (Covers seen (op ∷ ops))
              (unique_from h (suc index) seen ops)
              (λ rest covers seen_so s. (
                subst (S op.operation_id) ((list_beq_iff f (fingerprint h op)).0 same)
                    (seen_so op.operation_id f old),
                covers seen_so s,
              ))
              (unique_from-Covers (suc index) seen ops))
      | inr other ↦ rw (old, other, unique_from) tt
    ]
  ]

  pub unique_from-All :
      (ops : List Operation) (unique : List Indexed)
      → unique_from h 0 [] ops ≡ ok unique
      → All (λ x. Holds x.1) unique
      → All Holds ops
  unfolding get
  unique_from-All ops unique e p =
      IfOk-ok (Covers [] ops) (unique_from h 0 [] ops) unique (unique_from-Covers 0 [] ops) e
        (λ id f none_left. absurd (ground (arith, none_left))) p
