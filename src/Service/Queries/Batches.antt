-- ===== src/Service/Queries/Batches.antt =====
-- `get_operations_batch` of src/main.rs, beside single reads of the history in src/dedup_disk.rs.
use virt_warehouse_pro.Common.{
  ℕ, ◌<◌, ◌≤◌, ◌≡◌, ◌⊎◌, refl, sym, ◌∙◌, arith, List, [], ◌∷◌, Option, none, some, ◌==◌ as nat_beq,
  ==_iff, ltb, if◌then◌else◌, false, Bool-cases, Result-cases, inl, inr, Result, Error, ok, err,
  ◌>>=◌, >>=-eq-ok, length, subst,
}
use virt_warehouse_pro.Bytes.Words.{Bytes}
use virt_warehouse_pro.Model.{Operation}
use virt_warehouse_pro.Binary.Format.{decode_operation}
use virt_warehouse_pro.Store.Types.{Hashes}
use virt_warehouse_pro.Disk.Tree.{Tree}
use virt_warehouse_pro.Disk.History.{lsm_history, old_history, History, HistoryReads, point}
use virt_warehouse_pro.Disk.History.Lookup.{get_operation, old_operation, read_each, get_operations}
use virt_warehouse_pro.Service.Queries.{
  Answer, Answer.found, Answer.not_found, Answer.refused, and_answer, ensure_history_complete,
  get_operations_batch,
}

module _ {K : Type 0} ⦃tree : Tree K⦄ (h : Hashes) (io : HistoryReads) (tables : History K) where
  -- The operations are, in the order of the ids, those that single reads of the ids return.
  abbrev pub AreReads : List Bytes → List Operation → Type 0
  AreReads [] [] = Unit
  AreReads [] (op ∷ ops) = ⊥
  AreReads (id ∷ ids) [] = ⊥
  AreReads (id ∷ ids) (op ∷ ops) = (get_operation h io tables id ≡ ok (some op)) × AreReads ids ops

  -- A single read of one of the ids finds nothing.
  abbrev pub Misses : List Bytes → Type 0
  Misses [] = ⊥
  Misses (id ∷ ids) = (get_operation h io tables id ≡ ok none) ⊎ Misses ids

  -- The part of `read_each` for one id.
  abbrev read_id : Bytes → Result (Option Operation)
  read_id id = do
    value ← point io tables lsm_history id
    elim value [
      | some payload ↦ (do op ← decode_operation payload; ok (some op))
      | none ↦ old_operation h io tables id
    ]

  get_operation-read_id :
      (id : Bytes) → io.open_table old_history ≡ ok tt → get_operation h io tables id ≡ read_id id
  unfolding get_operation
  get_operation-read_id id opens = elim (Result-cases (point io tables lsm_history id)) [
    | inl (none, e) ↦ rw (e, opens) refl
    | inl (some payload, e) ↦ rw e refl
    | inr (why, e) ↦ rw e refl
  ]

  abbrev with_rest : Option Operation → List Operation → List Operation
  with_rest none rest = rest
  with_rest (some op) rest = op ∷ rest

  -- What a batch of reads comes to: all of the ids, or a miss and fewer operations.
  abbrev Comes : List Bytes → List Operation → Type 0
  Comes ids ops = AreReads ids ops ⊎ (Misses ids × (length ops < length ids))

  length-AreReads :
      (ids : List Bytes) (ops : List Operation) → AreReads ids ops → length ops ≡ length ids
  length-AreReads [] [] all = refl
  length-AreReads [] (op ∷ ops) all = absurd all
  length-AreReads (id ∷ ids) [] all = absurd all
  length-AreReads (id ∷ ids) (op ∷ ops) all = omega (arith, length-AreReads ids ops all.1)

  with_rest-Comes :
      (id : Bytes) (ids : List Bytes) (found : Option Operation) (rest : List Operation)
      → get_operation h io tables id ≡ ok found
      → Comes ids rest
      → Comes (id ∷ ids) (with_rest found rest)
  with_rest-Comes id ids none rest one (inl all) =
      inr (inl one, omega (arith, length-AreReads ids rest all))
  with_rest-Comes id ids none rest one (inr (miss, less)) = inr (inl one, omega (arith, less))
  with_rest-Comes id ids (some op) rest one (inl all) = inl (one, all)
  with_rest-Comes id ids (some op) rest one (inr (miss, less)) = inr (inr miss, omega (arith, less))

  read_each-cons :
      (id : Bytes) (ids : List Bytes)
      → read_each h io tables (id ∷ ids) ≡ (
          read_id id
          >>= (λ found. read_each h io tables ids >>= (λ rest. ok (with_rest found rest))))
  unfolding read_each
  read_each-cons id ids = ground arith

  read_each-Comes :
      (ids : List Bytes) (ops : List Operation)
      → io.open_table old_history ≡ ok tt
      → read_each h io tables ids ≡ ok ops
      → Comes ids ops
  unfolding read_each
  read_each-Comes [] ops opens e =
      let same : Path (List Operation) [] ops = cc in subst (Comes []) same (inl tt)
  read_each-Comes (id ∷ ids) ops opens e =
      let (one, read, after) = >>=-eq-ok (read_id id) _ (sym (read_each-cons id ids) ∙ e) in
      let (rest, more, done) = >>=-eq-ok (read_each h io tables ids) _ after in
      let same : with_rest one rest ≡ ops = cc in
      subst (Comes (id ∷ ids)) same (
        with_rest-Comes id ids one rest (get_operation-read_id id opens ∙ read)
          (read_each-Comes ids rest opens more))

  get_operations-Comes :
      (ids : List Bytes) (ops : List Operation)
      → get_operations h io tables ids ≡ ok ops
      → Comes ids ops
  unfolding get_operations
  get_operations-Comes ids ops e =
      let (u, opens, done) = >>=-eq-ok (io.open_table old_history) _ e in
      read_each-Comes ids ops opens done

  -- What the answer to a batch of ids says: the operations that single reads return; that one of the ids is
  -- missing though the history has reached the checkpoint; or a refusal for the number of the ids, for an
  -- error of the reads, or for a missing id while the history is behind the checkpoint.
  unfoldable pub IsBatchAnswer : List Bytes → ℕ → ℕ → Answer (List Operation) → Type 0
  IsBatchAnswer ids required current (found ops) = AreReads ids ops
  IsBatchAnswer ids required current not_found = (required ≤ current) × Misses ids
  IsBatchAnswer ids required current (refused why) =
      ((length ids ≡ 0) ⊎ (10_000 < length ids))
      ⊎ (((e : Error) × (get_operations h io tables ids ≡ err e))
          ⊎ ((current < required) × Misses ids))

  batch_answer :
      (ids : List Bytes) (required current : ℕ) (read : Result (List Operation))
      → get_operations h io tables ids ≡ read
      → IsBatchAnswer ids required current (
          and_answer read (λ operations.
            if nat_beq (length operations) (length ids)
            then found operations
            else elim (ensure_history_complete required current) [
              | some why ↦ refused why
              | none ↦ not_found
            ]))
  unfolding IsBatchAnswer ensure_history_complete
  batch_answer ids required current (err why) e = inr (inl (why, e))
  batch_answer ids required current (ok ops) e = answer (get_operations-Comes ids ops e)
    where
      answer :
          Comes ids ops
          → IsBatchAnswer ids required current (
              if nat_beq (length ops) (length ids)
              then found ops
              else elim (ensure_history_complete required current)
                  as (λ x. Answer (List Operation)) [ some why ↦ refused why | none ↦ not_found ])
      answer (inl all) = rw ((==_iff (length ops) (length ids)).1 (length-AreReads ids ops all)) all
      answer (inr (miss, less)) =
          let fewer : nat_beq (length ops) (length ids) ≡ false = ground (arith, less) in
          rw fewer (elim (Bool-cases (ltb current required)) [
            | inl u ↦ rw u (inr (inr (ground (arith, u), miss)))
            | inr u ↦ rw u (ground (arith, u), miss)
          ])

  -- A batch of ids is answered with the operations that single reads of the ids return, in the order of
  -- the ids. It is answered with "not found" only when a single read of one of the ids finds nothing and
  -- the history has reached the checkpoint. It is refused only when there are no ids or more than 10,000,
  -- when the reads fail, or when an id is not found and the history is behind the checkpoint.
  pub get_operations_batch-IsBatchAnswer :
      (required current : ℕ) (ids : List Bytes)
      → IsBatchAnswer ids required current (get_operations_batch h io tables required current ids)
  unfolding get_operations_batch IsBatchAnswer
  get_operations_batch-IsBatchAnswer required current ids =
      elim (Bool-cases (nat_beq (length ids) 0)) [
        | inl t ↦ rw t (inl (inl (ground (arith, t))))
        | inr t ↦ elim (Bool-cases (ltb 10_000 (length ids))) [
          | inl u ↦ rw (t, u) (inl (inr (ground (arith, u))))
          | inr u ↦
              rw (t, u) (batch_answer ids required current (get_operations h io tables ids) refl)
        ]
      ]
