-- ===== src/Store/Passage.antt =====
-- `preflight_batch` of src/state.rs: a rule for what every step of its passage over the shards keeps.
use virt_warehouse_pro.Common.{
  ℕ, zero, suc, ◌≡◌, ◌⊎◌, arith, sym, ap, subst, inl, inr, List, [], ◌∷◌, Option, none, some,
  Bool-cases, Error, Result, ok, err, Option-cases, Result-cases, map, All, ◌==◌ as nat_beq,
}
use virt_warehouse_pro.Store.Types.{
  Hash, Fingerprint, Hashes, Notify, DedupEntry, pending, dedup_shard, entry_of, set_entry,
  fingerprint,
}
use virt_warehouse_pro.Store.DiskIndex.{DiskIndex}
use virt_warehouse_pro.Store.Preflight.{
  Indexed, Stop, disk_failed, Attempt, in_shard, id_hash, visit, visit_all, visit_shard, visit_from,
}

pub in_shard-All {ℓ κ} :
    {A : Type ℓ} (P : A → Type κ) (of : A → ℕ) (shard : ℕ) (xs : List A)
    → All P xs
    → All P (in_shard of shard xs)
unfolding in_shard
in_shard-All P of shard [] p = tt
in_shard-All P of shard (x ∷ xs) p =
    let rest = in_shard-All P of shard xs p.1 in
    elim (Bool-cases (nat_beq (of x) shard)) [
      | inl here ↦ rw here (p.0, rest)
      | inr there ↦ rw there rest
    ]

module _ (h : Hashes) (r : Notify) where
  abbrev pub reserved_entry : Indexed → DedupEntry
  reserved_entry x = pending (some (fingerprint h x.1)) r

  -- A visit changes neither the index nor the marks, or it reserves an id that is neither in memory
  -- nor on disk, and marks the operation.
  pub visit_changes :
      (a : Attempt) (x : Indexed) (v : Option Fingerprint)
      → (((visit h r a x v).memory ≡ a.memory) × ((visit h r a x v).news ≡ a.news))
        ⊎ ((entry_of a.memory (id_hash h x) ≡ none)
            × (v ≡ none)
            × ((visit h r a x v).memory ≡ set_entry a.memory (id_hash h x) (reserved_entry x))
            × ((visit h r a x v).news ≡ x.0 ∷ a.news))
  unfolding visit
  visit_changes a x v = elim (Option-cases (entry_of a.memory (id_hash h x))) [
    | inl e ↦ elim (Option-cases v) [
      | inl s ↦ inr (e, s, ground (arith, e, s), ground (arith, e, s))
      | inr (f, s) ↦ inl (ground (arith, e, s), ground (arith, e, s))
    ]
    | inr (old, e) ↦ inl (ground (arith, e), ground (arith, e))
  ]

  -- An operation has been visited, and then the others are, unless something stops.
  abbrev pub onward : List Indexed → List (Option Fingerprint) → Attempt → Option Stop → Attempt
  onward xs vs a s = elim s [ none ↦ visit_all h r a xs vs | some why ↦ a ]

  module _ (D : DiskIndex) (disk : D.State) where
    abbrev pub looked_up : Attempt → List Indexed → Result (List (Option Fingerprint)) → Attempt
    looked_up a xs result = elim result [
      | err e ↦ record a { stop = some (disk_failed e) }
      | ok values ↦ visit_all h r a xs values
    ]

    abbrev pub onward_shards : ℕ → ℕ → List Indexed → Attempt → Option Stop → Attempt
    onward_shards left shard unique a s = elim s [
      | none ↦ visit_from h D left (suc shard) r disk a unique
      | some why ↦ a
    ]

  -- `P` is kept at the visit of an operation with `Q`.
  module _ {ℓ} (P : Attempt → Type ℓ) (Q : Indexed → Type 0)
      (step : (a : Attempt) (x : Indexed) (v : Option Fingerprint)
        → Q x
        → P a
        → P (visit h r a x v)) where
    visit_all_rule :
        (a : Attempt) (xs : List Indexed) (vs : List (Option Fingerprint))
        → All Q xs
        → P a
        → P (visit_all h r a xs vs)
    unfolding visit_all
    visit_all_rule a [] vs q p = p
    visit_all_rule a (x ∷ xs) [] q p = p
    visit_all_rule a (x ∷ xs) (v ∷ vs) q p =
        let p' = step a x v q.0 p in
        elim (Option-cases (visit h r a x v).stop) [
          | inl e ↦
              subst P (sym (ap (onward xs vs (visit h r a x v)) e))
                (visit_all_rule (visit h r a x v) xs vs q.1 p')
          | inr (s, e) ↦ subst P (sym (ap (onward xs vs (visit h r a x v)) e)) p'
        ]

    -- And it is kept where the disk fails.
    module _ (D : DiskIndex) (disk : D.State)
        (fail : (a : Attempt) (keys : List Hash) (e : Error)
          → D.get_many disk keys ≡ err e
          → P a
          → P (record a { stop = some (disk_failed e) })) where
      visit_shard_rule :
          (a : Attempt) (xs : List Indexed) → All Q xs → P a → P (visit_shard h D r disk a xs)
      unfolding visit_shard
      visit_shard_rule a [] q p = p
      visit_shard_rule a (x ∷ xs) q p =
          let keys = map (id_hash h) (x ∷ xs) in
          elim (Result-cases (D.get_many disk keys)) [
            | inl (values, e) ↦
                subst P (sym (ap (looked_up D disk a (x ∷ xs)) e))
                  (visit_all_rule a (x ∷ xs) values q p)
            | inr (why, e) ↦
                subst P (sym (ap (looked_up D disk a (x ∷ xs)) e)) (fail a keys why e p)
          ]

      -- Then the passage over the shards keeps it.
      pub visit_from_rule :
          (left shard : ℕ) (a : Attempt) (unique : List Indexed)
          → All Q unique
          → P a
          → P (visit_from h D left shard r disk a unique)
      unfolding visit_from
      visit_from_rule zero shard a unique q p = p
      visit_from_rule (suc left) shard a unique q p =
          let of : Indexed → ℕ = λ x. dedup_shard (id_hash h x) in
          let a' : Attempt = visit_shard h D r disk a (in_shard of shard unique) in
          let p' =
            visit_shard_rule a (in_shard of shard unique) (in_shard-All Q of shard unique q) p in
          elim (Option-cases a'.stop) [
            | inl e ↦
                subst P (sym (ap (onward_shards D disk left shard unique a') e))
                  (visit_from_rule left (suc shard) a' unique q p')
            | inr (s, e) ↦ subst P (sym (ap (onward_shards D disk left shard unique a') e)) p'
          ]
