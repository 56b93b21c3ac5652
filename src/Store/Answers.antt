-- ===== src/Store/Answers.antt =====
-- `apply_preflight_batch` of src/state.rs: every operation of a batch gets its result.
use virt_warehouse_pro.Common.{
  ℕ, zero, suc, ◌+◌, ◌<◌, ◌≤◌, ◌≡◌, refl, ap, arith, List, [], ◌∷◌, ◌++◌, Option, none, some, Bool,
  true, false, ◌&&◌, ◌||◌, leb, ltb, ◌==◌ as nat_beq, if◌then◌else◌, Bool-cases, inl, inr, ok,
  length,
}
use virt_warehouse_pro.Model.{Operation, ApplyResult}
use virt_warehouse_pro.Store.Types.{Hashes}
use virt_warehouse_pro.Store.Preflight.{Indexed, in_shard}
use virt_warehouse_pro.Store.Apply.{
  Balances, add_delta, key_of, apply_command, Shards, IndexedResult, shard_of, apply_from,
  set_result, set_results, collect, fresh_of, known_results,
}
use virt_warehouse_pro.Store.Balances.{shard_for-lt}

-- The place has a result, or is behind the end.
abbrev is_set : List (Option ApplyResult) → ℕ → Bool
is_set [] i = true
is_set (none ∷ xs) zero = false
is_set (some x ∷ xs) zero = true
is_set (x ∷ xs) (suc i) = is_set xs i

abbrev has_result : List IndexedResult → ℕ → Bool
has_result [] i = false
has_result ((k, r) ∷ rs) i = nat_beq k i || has_result rs i

abbrev has_operation : List Indexed → ℕ → Bool
has_operation [] i = false
has_operation ((k, op) ∷ ops) i = nat_beq k i || has_operation ops i

is_set-set_result :
    (xs : List (Option ApplyResult)) (k : ℕ) (r : ApplyResult) (i : ℕ)
    → is_set xs i || nat_beq k i ≡ true
    → is_set (set_result xs k r) i ≡ true
unfolding set_result
is_set-set_result [] k r i h = refl
is_set-set_result (none ∷ xs) zero r zero h = refl
is_set-set_result (none ∷ xs) zero r (suc i) h = ground (arith, h)
is_set-set_result (none ∷ xs) (suc k) r zero h = ground (arith, h)
is_set-set_result (none ∷ xs) (suc k) r (suc i) h = is_set-set_result xs k r i (ground (arith, h))
is_set-set_result (some x ∷ xs) zero r zero h = refl
is_set-set_result (some x ∷ xs) zero r (suc i) h = ground (arith, h)
is_set-set_result (some x ∷ xs) (suc k) r zero h = refl
is_set-set_result (some x ∷ xs) (suc k) r (suc i) h = is_set-set_result xs k r i (ground (arith, h))

is_set-set_results :
    (xs : List (Option ApplyResult)) (rs : List IndexedResult) (i : ℕ)
    → is_set xs i || has_result rs i ≡ true
    → is_set (set_results xs rs) i ≡ true
unfolding set_results
is_set-set_results xs [] i h = ground (arith, h)
is_set-set_results xs ((k, r) ∷ rs) i h =
    is_set-set_results (set_result xs k r) rs i (elim (Bool-cases (is_set xs i || nat_beq k i)) [
      | inl t ↦ rw (is_set-set_result xs k r i t) refl
      | inr t ↦ ground (arith, t, h)
    ])

collect_total :
    (xs : List (Option ApplyResult))
    → ((i : ℕ) → is_set xs i ≡ true)
    → (results : List ApplyResult) × (collect xs ≡ ok results)
unfolding collect
collect_total [] h = ([], refl)
collect_total (none ∷ xs) h = absurd (ground (arith, h 0))
collect_total (some x ∷ xs) h =
    let (rest, e) = collect_total xs (λ i. h (suc i)) in (x ∷ rest, rw e refl)

-- An operation is known, or new.
known_or_fresh :
    (published : Balances) (ops : List Operation) (news : List Bool) (base i : ℕ)
    → length news ≡ length ops
    → is_set (known_results published ops news) i
        || has_operation (fresh_of base ops news) (base + i)
      ≡ true
unfolding known_results fresh_of
known_or_fresh published [] news base i h = refl
known_or_fresh published (op ∷ ops) [] base i h = absurd (omega (arith, h))
known_or_fresh published (op ∷ ops) (true ∷ news) base zero h = ground arith
known_or_fresh published (op ∷ ops) (true ∷ news) base (suc i) h =
    ground (arith, known_or_fresh published ops news (suc base) i (omega (arith, h)))
known_or_fresh published (op ∷ ops) (false ∷ news) base zero h = refl
known_or_fresh published (op ∷ ops) (false ∷ news) base (suc i) h =
    ground (arith, known_or_fresh published ops news (suc base) i (omega (arith, h)))

has_result-apply_command :
    (m : Balances) (ops : List Indexed) (i : ℕ)
    → has_result (apply_command m ops).1 i ≡ has_operation ops i
unfolding apply_command
has_result-apply_command m [] i = refl
has_result-apply_command m ((k, op) ∷ ops) i =
    ap (λ b. nat_beq k i || b) (has_result-apply_command (add_delta m (key_of op) op.delta) ops i)

has_result-append :
    (xs ys : List IndexedResult) (i : ℕ)
    → has_result (xs ++ ys) i ≡ (has_result xs i || has_result ys i)
has_result-append [] ys i = refl
has_result-append ((k, r) ∷ xs) ys i = ground (arith, has_result-append xs ys i)

module _ (h : Hashes) (count : ℕ) where
  -- An operation with this index goes to one of the shards from `low` to below `high`.
  abbrev placed : ℕ → ℕ → List Indexed → ℕ → Bool
  placed low high [] i = false
  placed low high ((k, op) ∷ ops) i =
      (nat_beq k i && (leb low (shard_of h count op) && ltb (shard_of h count op) high))
      || placed low high ops i

  placed-split :
      (shard high : ℕ) (ops : List Indexed) (i : ℕ)
      → placed shard high ops i ≡ true
      → has_operation (in_shard (λ x. shard_of h count x.1) shard ops) i
          || placed (suc shard) high ops i
        ≡ true
  unfolding in_shard
  placed-split shard high [] i p = ground (arith, p)
  placed-split shard high ((k, op) ∷ ops) i p = elim (Bool-cases (placed shard high ops i)) [
    | inl t ↦ ground (arith, placed-split shard high ops i t)
    | inr t ↦ ground (arith, t, p)
  ]

  placed_empty :
      (low high : ℕ) (ops : List Indexed) (i : ℕ) → high ≤ low → placed low high ops i ≡ false
  placed_empty low high [] i none_between = refl
  placed_empty low high ((k, op) ∷ ops) i none_between =
      ground (arith, placed_empty low high ops i none_between)

  has_result-apply_from :
      (left shard high : ℕ) (S : Shards) (ops : List Indexed) (i : ℕ)
      → high ≡ shard + left
      → placed shard high ops i ≡ true
      → has_result (apply_from h count left shard S ops).1 i ≡ true
  unfolding apply_from
  has_result-apply_from zero shard high S ops i e p =
      let empty = placed_empty shard high ops i (omega (arith, e)) in
      absurd (ground (arith, empty, p))
  has_result-apply_from (suc left) shard high S ops i e p =
      let mine = in_shard (λ x. shard_of h count x.1) shard ops in
      let S' : Shards = λ k. if nat_beq k shard then (apply_command (S shard) mine).0 else S k in
      rw
        (has_result-append (apply_command (S shard) mine).1
          (apply_from h count left (suc shard) S' ops).1 i)
        (rw (has_result-apply_command (S shard) mine i)
          (elim (Bool-cases (placed (suc shard) high ops i)) [
            | inl t ↦
                ground
                  (arith, has_result-apply_from left (suc shard) high S' ops i (omega (arith, e)) t)
            | inr t ↦ ground (arith, t, placed-split shard high ops i p)
          ]))

  placed_somewhere :
      (ops : List Indexed) (i : ℕ)
      → 0 < count
      → has_operation ops i ≡ true
      → placed 0 count ops i ≡ true
  placed_somewhere [] i pos e = ground (arith, e)
  placed_somewhere ((k, op) ∷ ops) i pos e =
      ground (arith, e, shard_for-lt h op.owner_id op.sku count pos, placed_somewhere ops i pos)

  -- With any number of shards but zero, and a flag for each operation, no result is missing.
  pub collect-apply_from :
      (S : Shards) (published : Balances) (ops : List Operation) (news : List Bool)
      → 0 < count
      → length news ≡ length ops
      → (results : List ApplyResult) × (collect (
            set_results
              (known_results published ops news)
              (apply_from h count count 0 S (fresh_of 0 ops news)).1)
          ≡ ok results)
  collect-apply_from S published ops news pos sizes =
      let fresh = fresh_of 0 ops news in
      let results = (apply_from h count count 0 S fresh).1 in
      collect_total (set_results (known_results published ops news) results) (λ i.
        is_set-set_results (known_results published ops news) results i
          (elim (Bool-cases (has_operation fresh i)) [
            | inl t ↦ ground (
              arith,
              has_result-apply_from count 0 count S fresh i (omega arith)
                  (placed_somewhere fresh i pos t),
            )
            | inr t ↦ ground (arith, t, known_or_fresh published ops news 0 i sizes)
          ]))
