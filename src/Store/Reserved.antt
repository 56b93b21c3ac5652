-- ===== src/Store/Reserved.antt =====
-- `preflight_batch` of src/state.rs: what an attempt that succeeds has reserved.
use virt_warehouse_pro.Common.{
  ℕ, zero, suc, ◌+◌, ◌≡◌, refl, sym, ap, subst, ◌∙◌, ◌⊎◌, inl, inr, arith, List, [], ◌∷◌, Option,
  none, some, Bool, true, ◌==◌ as nat_beq, ==_iff, ltb, leb, ◌&&◌, if◌then◌else◌, Bool-cases,
  Option-cases, Result-cases, map, All, All-both, All-always,
}
use virt_warehouse_pro.Common.Eq.{◌==◌, list_eq, nat_eq, list_beq_iff, beq_refl}
use virt_warehouse_pro.Store.Types.{
  Hash, Fingerprint, Hashes, Notify, DedupEntry, committed, pending, DedupShards, dedup_shard,
  entry_of, fingerprint,
}
use virt_warehouse_pro.Store.Index.{entry_of-set_entry}
use virt_warehouse_pro.Store.DiskIndex.{DiskIndex}
use virt_warehouse_pro.Store.Preflight.{
  Indexed, Attempt, in_shard, id_hash, visit, visit_all, visit_shard, visit_from,
}
use virt_warehouse_pro.Store.Passage.{
  visit_changes, reserved_entry, onward, looked_up, onward_shards,
}

-- The fingerprint under which an id is committed once the reservation `r` is.
abbrev pub settled : Notify → Option DedupEntry → Option Fingerprint → Option Fingerprint
settled r none stored = stored
settled r (some (committed f)) stored = some f
settled r (some (pending f n)) stored = if nat_beq n r then f else none

-- An entry is as it was, or its id was neither in memory nor on disk and is now reserved.
abbrev pub IsKept : Notify → Option Fingerprint → Option DedupEntry → Option DedupEntry → Type 0
IsKept r stored before after =
    (after ≡ before)
    ⊎ ((before ≡ none)
        × (stored ≡ none)
        × ((f : Fingerprint) × (after ≡ some (pending (some f) r))))

IsKept-trans :
    (r : Notify) (stored : Option Fingerprint) (a b c : Option DedupEntry)
    → IsKept r stored a b
    → IsKept r stored b c
    → IsKept r stored a c
IsKept-trans r stored a b c (inl p) (inl q) = inl (q ∙ p)
IsKept-trans r stored a b c (inl p) (inr (e, s, (f, q))) = inr (sym p ∙ e, s, (f, q))
IsKept-trans r stored a b c (inr (e, s, (f, p))) (inl q) = inr (e, s, (f, q ∙ p))
IsKept-trans r stored a b c (inr (e, s, (f, p))) (inr (gone, t, (g, q))) = cc

settled-IsKept :
    (r : Notify) (stored : Option Fingerprint) (a b : Option DedupEntry) (f : Fingerprint)
    → IsKept r stored a b
    → settled r a stored ≡ some f
    → settled r b stored ≡ some f
settled-IsKept r stored a b f (inl p) h = rw p h
settled-IsKept r stored a b f (inr (e, s, (g, p))) h = ground (arith, e, s)

module _ (h : Hashes) (r : Notify) (stored : Hash → Option Fingerprint) where
  abbrev pub Kept : DedupShards → DedupShards → Type 0
  Kept before after = (j : Hash) → IsKept r (stored j) (entry_of before j) (entry_of after j)

  Kept-trans : (a b c : DedupShards) → Kept a b → Kept b c → Kept a c
  Kept-trans a b c p q j =
      IsKept-trans r (stored j) (entry_of a j) (entry_of b j) (entry_of c j) (p j) (q j)

  -- The operation is committed with its own fingerprint once the reservation is.
  abbrev pub Settled : DedupShards → Indexed → Type 0
  Settled m x =
      settled r (entry_of m (id_hash h x)) (stored (id_hash h x)) ≡ some (fingerprint h x.1)

  Settled-Kept : (a b : DedupShards) (x : Indexed) → Kept a b → Settled a x → Settled b x
  Settled-Kept a b x k s =
      settled-IsKept r (stored (id_hash h x)) (entry_of a (id_hash h x)) (entry_of b (id_hash h x))
        (fingerprint h x.1) (k (id_hash h x)) s

  visit-Kept :
      (a : Attempt) (x : Indexed) → Kept a.memory (visit h r a x (stored (id_hash h x))).memory
  visit-Kept a x j = elim (visit_changes h r a x (stored (id_hash h x))) [
    | inl (e, same_marks) ↦ inl (ap (λ m. entry_of m j) e)
    | inr (e, s, p, marked) ↦ elim (Bool-cases (id_hash h x == j)) [
      | inl same ↦
          let that = (list_beq_iff (id_hash h x) j).0 same in
          inr (
            ap (entry_of a.memory) (sym that) ∙ e,
            ap stored (sym that) ∙ s,
            (
              fingerprint h x.1,
              ap (λ m. entry_of m j) p
                  ∙ ground (
                    arith,
                    same,
                    entry_of-set_entry a.memory (id_hash h x) j (reserved_entry h r x),
                  ),
            ),
          )
      | inr other ↦ inl (
          ap (λ m. entry_of m j) p
          ∙ ground
              (arith, other, entry_of-set_entry a.memory (id_hash h x) j (reserved_entry h r x)))
    ]
  ]

  visit-Settled :
      (a : Attempt) (x : Indexed)
      → (visit h r a x (stored (id_hash h x))).stop ≡ none
      → Settled (visit h r a x (stored (id_hash h x))).memory x
  unfolding visit
  visit-Settled a x go = elim (Option-cases (entry_of a.memory (id_hash h x))) [
    | inl e ↦ elim (Option-cases (stored (id_hash h x))) [
      | inl s ↦ ground (
        arith,
        e,
        s,
        ==_iff r r,
        beq_refl (id_hash h x),
        entry_of-set_entry a.memory (id_hash h x) (id_hash h x) (reserved_entry h r x),
      )
      | inr (f, s) ↦ ground (arith, e, s, go, list_beq_iff f (fingerprint h x.1))
    ]
    | inr (committed f, e) ↦ ground (arith, e, go, list_beq_iff f (fingerprint h x.1))
    | inr (pending f n, e) ↦ absurd (ground (arith, e, go))
  ]

  -- What a passage over operations leaves: the entries are kept, and if nothing has stopped it the
  -- operations are settled.
  abbrev Passed : DedupShards → List Indexed → Attempt → Type 0
  Passed before xs a = Kept before a.memory × (a.stop ≡ none → All (Settled a.memory) xs)

  abbrev values_of : List Indexed → List (Option Fingerprint)
  values_of xs = map stored (map (id_hash h) xs)

  visit_all-Passed :
      (a : Attempt) (xs : List Indexed) → Passed a.memory xs (visit_all h r a xs (values_of xs))
  unfolding visit_all
  visit_all-Passed a [] = (λ j. inl refl, λ go. tt)
  visit_all-Passed a (x ∷ xs) =
      let v = stored (id_hash h x) in
      let a' : Attempt = visit h r a x v in
      let here = visit-Kept a x in
      elim (Option-cases (visit h r a x v).stop) [
        | inl e ↦
            let (kept, rest) = visit_all-Passed a' xs in
            subst (Passed a.memory (x ∷ xs)) (sym (ap (onward h r xs (values_of xs) a') e)) (
              Kept-trans a.memory a'.memory (visit_all h r a' xs (values_of xs)).memory here kept,
              λ go. (
                Settled-Kept a'.memory (visit_all h r a' xs (values_of xs)).memory x kept
                    (visit-Settled a x e),
                rest go,
              ),
            )
        | inr (s, e) ↦
            subst (Passed a.memory (x ∷ xs)) (sym (ap (onward h r xs (values_of xs) a') e))
              (here, λ go. cc)
      ]

-- What holds of the elements of a shard holds of each element if it is in the shard.
All-in_shard {ℓ κ} :
    {A : Type ℓ} (P : A → Type κ) (of : A → ℕ) (shard : ℕ) (xs : List A)
    → All P (in_shard of shard xs)
    → All (λ x. nat_beq (of x) shard ≡ true → P x) xs
unfolding in_shard
All-in_shard P of shard [] p = tt
All-in_shard P of shard (x ∷ xs) p = elim (Bool-cases (nat_beq (of x) shard)) [
  | inl here ↦
      let (q, qs) : P x × All P (in_shard of shard xs) = rw here at p in
      (λ t. q, All-in_shard P of shard xs qs)
  | inr there ↦
      let qs : All P (in_shard of shard xs) = rw there at p in
      (λ t. cc, All-in_shard P of shard xs qs)
]

module _ (h : Hashes) (D : DiskIndex) (r : Notify) (disk : D.State) where
  visit_shard-Passed :
      (a : Attempt) (xs : List Indexed)
      → Passed h r (D.stored disk) a.memory xs (visit_shard h D r disk a xs)
  unfolding visit_shard
  visit_shard-Passed a [] = (λ j. inl refl, λ go. tt)
  visit_shard-Passed a (x ∷ xs) = elim (Result-cases (D.get_many disk (map (id_hash h) (x ∷ xs)))) [
    | inl (values, e) ↦
        subst (Passed h r (D.stored disk) a.memory (x ∷ xs))
          (sym (
            ap (looked_up h r D disk a (x ∷ xs)) e
            ∙ ap (visit_all h r a (x ∷ xs))
                (D.get_many_lem disk (map (id_hash h) (x ∷ xs)) values e)))
          (visit_all-Passed h r (D.stored disk) a (x ∷ xs))
    | inr (why, e) ↦
        subst (Passed h r (D.stored disk) a.memory (x ∷ xs))
          (sym (ap (looked_up h r D disk a (x ∷ xs)) e)) (λ j. inl refl, λ go. cc)
  ]

  abbrev pub shard_of : Indexed → ℕ
  shard_of x = dedup_shard (id_hash h x)

  -- The shard is one of the `left` shards from `shard` on.
  abbrev pub ranged : ℕ → ℕ → ℕ → Bool
  ranged left shard k = leb shard k && ltb k (shard + left)

  abbrev pub PassedFrom : ℕ → ℕ → DedupShards → List Indexed → Attempt → Type 0
  PassedFrom left shard before unique a =
      Kept h r (D.stored disk) before a.memory
      × (a.stop ≡ none
          → All
              (λ x. ranged left shard (shard_of x) ≡ true → Settled h r (D.stored disk) a.memory x)
              unique)

  pub visit_from-Passed :
      (left shard : ℕ) (a : Attempt) (unique : List Indexed)
      → PassedFrom left shard a.memory unique (visit_from h D left shard r disk a unique)
  unfolding visit_from
  visit_from-Passed zero shard a unique =
      (λ j. inl refl, λ go. All-always (λ x in_range. absurd (ground (arith, in_range))) unique)
  visit_from-Passed (suc left) shard a unique =
      let xs : List Indexed = in_shard (λ x. dedup_shard (id_hash h x)) shard unique in
      let a' : Attempt = visit_shard h D r disk a xs in
      let (here, settled_here) = visit_shard-Passed a xs in
      elim (Option-cases (visit_shard h D r disk a xs).stop) [
        | inl e ↦
            let (kept, rest) = visit_from-Passed left (suc shard) a' unique in
            let last : Attempt = visit_from h D left (suc shard) r disk a' unique in
            subst (PassedFrom (suc left) shard a.memory unique)
              (sym (ap (onward_shards h r D disk left shard unique a') e))
              (
                Kept-trans h r (D.stored disk) a.memory a'.memory last.memory here kept,
                λ go.
                    All-both
                      (λ x now later in_range. elim (Bool-cases (nat_beq (shard_of x) shard)) [
                        | inl t ↦
                            Settled-Kept h r (D.stored disk) a'.memory last.memory x kept (now t)
                        | inr f ↦ later (ground (arith, in_range, f))
                      ])
                      unique
                      (All-in_shard (Settled h r (D.stored disk) a'.memory) shard_of shard unique
                        (settled_here e))
                      (rest go),
              )
        | inr (s, e) ↦
            subst (PassedFrom (suc left) shard a.memory unique)
              (sym (ap (onward_shards h r D disk left shard unique a') e)) (here, λ go. cc)
      ]
