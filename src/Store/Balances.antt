-- ===== src/Store/Balances.antt =====
-- The balances of the keys after the operations of a batch: `run_shard` and `apply_batched` of
-- src/state.rs.
use virt_warehouse_pro.Common.{
  ℕ, zero, suc, ◌+◌, ◌-◌, ◌%◌, ◌^◌, ◌<◌, ◌≡◌, refl, ap, ◌∙◌, arith, List, [], ◌∷◌, true, ◌&&◌, leb,
  ltb, ◌==◌ as nat_beq, if◌then◌else◌, Bool-cases, inl, inr, ==_iff,
}
use virt_warehouse_pro.Common.Eq.{◌==◌, list_eq, nat_eq, pair_eq, pair_beq_iff}
use virt_warehouse_pro.Common.Map.{get-insert}
use virt_warehouse_pro.Bytes.Bits.{bit_and-le}
use virt_warehouse_pro.Bytes.Words.{wrapping_add}
use virt_warehouse_pro.Store.Types.{Key, Hashes, shard_for}
use virt_warehouse_pro.Store.Preflight.{Indexed, in_shard}
use virt_warehouse_pro.Store.Apply.{
  Balances, or_zero, balance_of, add_delta, key_of, apply_command, Shards, shard_of, apply_from,
}

pub shard_for-lt :
    (h : Hashes) (owner_id sku : List ℕ) (count : ℕ)
    → 0 < count
    → shard_for h owner_id sku count < count
unfolding shard_for
shard_for-lt h owner_id sku count pos =
    omega (arith, bit_and-le (h.default_hash owner_id sku % 2 ^ 64) (count - 1))

-- The balance of a key after some operations, from its balance before: the specification.
abbrev pub after : Key → ℕ → List Indexed → ℕ
after key b [] = b
after key b ((i, op) ∷ ops) =
    after key (if key_of op == key then wrapping_add b op.delta else b) ops

pub balance_of-add_delta :
    (m : Balances) (k j : Key) (d : ℕ)
    → balance_of (add_delta m k d) j
      ≡ (if k == j then wrapping_add (balance_of m j) d else balance_of m j)
unfolding balance_of add_delta
balance_of-add_delta m k j d =
    let step = ap or_zero (get-insert k j (wrapping_add (balance_of m k) d) m) in
    elim (Bool-cases (k == j)) [
      | inl same ↦
          step
          ∙ rw same (ap (λ (i : Key). wrapping_add (balance_of m i) d) ((pair_beq_iff k j).0 same))
      | inr other ↦ step ∙ rw other
    ]

pub balance_of-apply_command :
    (m : Balances) (ops : List Indexed) (j : Key)
    → balance_of (apply_command m ops).0 j ≡ after j (balance_of m j) ops
unfolding apply_command
balance_of-apply_command m [] j = refl
balance_of-apply_command m ((i, op) ∷ ops) j =
    balance_of-apply_command (add_delta m (key_of op) op.delta) ops j
    ∙ ap (λ (b : ℕ). after j b ops) (balance_of-add_delta m (key_of op) j op.delta)

in_range : (i count : ℕ) → i < count → (leb 0 i && ltb i (0 + count)) ≡ true
in_range i count h = ground arith

-- The operations of a key are all in the shard of the key.
after-in_shard :
    (h : Hashes) (count shard : ℕ) (ops : List Indexed) (j : Key) (b : ℕ)
    → shard_for h j.0 j.1 count ≡ shard
    → after j b (in_shard (λ x. shard_of h count x.1) shard ops) ≡ after j b ops
unfolding in_shard
after-in_shard h count shard [] j b e = refl
after-in_shard h count shard ((i, op) ∷ ops) j b e = elim (Bool-cases (key_of op == j)) [
  | inl same ↦
      let here : shard_of h count op ≡ shard =
        ap (λ (k : Key). shard_for h k.0 k.1 count) ((pair_beq_iff (key_of op) j).0 same) ∙ e in
      rw ((==_iff (shard_of h count op) shard).1 here) (after-in_shard h count shard ops j _ e)
  | inr other ↦ elim (Bool-cases (nat_beq (shard_of h count op) shard)) [
    | inl here ↦ rw here (after-in_shard h count shard ops j _ e)
    | inr there ↦ rw (there, other) (after-in_shard h count shard ops j b e)
  ]
]

-- The commands to the shards from `shard` on, `left` of them, change the balances of those shards.
balance_of-apply_from :
    (h : Hashes) (count left shard : ℕ) (S : Shards) (ops : List Indexed) (i : ℕ) (j : Key)
    → balance_of ((apply_from h count left shard S ops).0 i) j ≡ (
        if leb shard i && ltb i (shard + left)
        then after j (balance_of (S i) j) (in_shard (λ x. shard_of h count x.1) i ops)
        else balance_of (S i) j)
unfolding apply_from
balance_of-apply_from h count zero shard S ops i j = ground arith
balance_of-apply_from h count (suc left) shard S ops i j =
    let xs : List Indexed = in_shard (λ x. shard_of h count x.1) shard ops in
    ground (
      arith,
      balance_of-apply_from h count left (suc shard)
          (λ k. if nat_beq k shard then (apply_command (S shard) xs).0 else S k) ops i j,
      balance_of-apply_command (S shard) xs j,
    )

-- The balance of a key: that of the shard which owns the key.
unfoldable pub store_balance : Hashes → ℕ → Shards → Key → ℕ
store_balance h count S j = balance_of (S (shard_for h j.0 j.1 count)) j

-- With any number of shards but zero, after a batch every key has its balance from before, changed by
-- the deltas of its own operations in their order, and by nothing else.
pub store_balance-apply_from :
    (h : Hashes) (count : ℕ) (S : Shards) (ops : List Indexed) (j : Key)
    → 0 < count
    → store_balance h count (apply_from h count count 0 S ops).0 j
      ≡ after j (store_balance h count S j) ops
unfolding store_balance
store_balance-apply_from h count S ops j pos =
    balance_of-apply_from h count count 0 S ops (shard_for h j.0 j.1 count) j
    ∙ rw (in_range (shard_for h j.0 j.1 count) count (shard_for-lt h j.0 j.1 count pos))
        (after-in_shard h count _ ops j _ refl)
