-- ===== src/Store/Recovered.antt =====
-- src/state.rs: the balances that `Store::start` rebuilds.
use virt_warehouse_pro.Common.{
  ℕ, ◌≡◌, refl, sym, ap, ◌∙◌, List, [], ◌∷◌, Option, none, some, true, false, ◌==◌ as nat_beq,
  ==_iff, if◌then◌else◌, Result, ok, err, >>=-eq-ok, Bool-cases, inl, inr,
}
use virt_warehouse_pro.Common.Eq.{◌==◌, list_eq, nat_eq, pair_eq, pair_beq_iff}
use virt_warehouse_pro.Common.Map.{get, insert, get-insert}
use virt_warehouse_pro.Bytes.Words.{wrapping_add}
use virt_warehouse_pro.Model.{Operation}
use virt_warehouse_pro.Snapshot.Data.{BalanceSnapshot, SnapshotData}
use virt_warehouse_pro.Store.Types.{Key, Hash, Hashes, operation_id_hash, shard_for}
use virt_warehouse_pro.Store.DiskIndex.{DiskIndex}
use virt_warehouse_pro.Store.Apply.{
  Balances, balance_of, or_zero, add_delta, key_of, Shards, shard_of,
}
use virt_warehouse_pro.Store.Rollback.{contains}
use virt_warehouse_pro.Store.Balances.{balance_of-add_delta, store_balance}
use virt_warehouse_pro.Store.Start.{
  at, load_balances, replay_balances, start_disk, start, entries_of,
}

-- The specification: the first operation of each id counts, an id being known by its digest.
unfoldable pub distinct : Hashes → List Hash → List Operation → List Operation
distinct h seen [] = []
distinct h seen (op ∷ ops) = elim (contains seen (operation_id_hash h op.operation_id)) [
  | true ↦ distinct h seen ops
  | false ↦ op ∷ distinct h (operation_id_hash h op.operation_id ∷ seen) ops
]

-- The balance of a key after some operations.
abbrev pub after_all : Key → ℕ → List Operation → ℕ
after_all j b [] = b
after_all j b (op ∷ ops) = after_all j (if key_of op == j then wrapping_add b op.delta else b) ops

-- The balance of a key in the entries of a snapshot: that of its last entry.
abbrev pub recorded : Key → ℕ → List BalanceSnapshot → ℕ
recorded j b [] = b
recorded j b (e ∷ entries) = recorded j (if (e.owner_id, e.sku) == j then e.balance else b) entries

module _ (h : Hashes) (count : ℕ) where
  -- A change of one key in the shard that owns it.
  store_balance-at :
      (S : Shards) (k j : Key) (m : Balances) (f : ℕ → ℕ)
      → balance_of m j ≡ (
          if k == j
          then f (balance_of (S (shard_for h k.0 k.1 count)) j)
          else balance_of (S (shard_for h k.0 k.1 count)) j)
      → store_balance h count (at S (shard_for h k.0 k.1 count) m) j
        ≡ (if k == j then f (store_balance h count S j) else store_balance h count S j)
  unfolding store_balance at
  store_balance-at S k j m f e =
      elim (Bool-cases (nat_beq (shard_for h j.0 j.1 count) (shard_for h k.0 k.1 count))) [
        | inl same ↦ rw same (
            e
            ∙ ap (λ (i : ℕ). if k == j then f (balance_of (S i) j) else balance_of (S i) j)
                (sym ((==_iff (shard_for h j.0 j.1 count) (shard_for h k.0 k.1 count)).0 same)))
        | inr d ↦ rw (d, other_key k j d)
      ]
    where
      other_key :
          (k j : Key)
          → nat_beq (shard_for h j.0 j.1 count) (shard_for h k.0 k.1 count) ≡ false
          → (k == j) ≡ false
      other_key k j d = elim (Bool-cases (k == j)) [
        | inl same ↦
            let p : shard_for h k.0 k.1 count ≡ shard_for h j.0 j.1 count =
              ap (λ (i : Key). shard_for h i.0 i.1 count) ((pair_beq_iff k j).0 same) in
            cc (d, (==_iff (shard_for h j.0 j.1 count) (shard_for h k.0 k.1 count)).1 (sym p))
        | inr other ↦ other
      ]

  store_balance-replay_balances :
      (seen : List Hash) (S : Shards) (ops : List Operation) (j : Key)
      → store_balance h count (replay_balances h count seen S ops) j
        ≡ after_all j (store_balance h count S j) (distinct h seen ops)
  unfolding replay_balances distinct
  store_balance-replay_balances seen S [] j = refl
  store_balance-replay_balances seen S (op ∷ ops) j =
      elim (Bool-cases (contains seen (operation_id_hash h op.operation_id))) [
        | inl old ↦ rw (old, replay_balances, distinct) (store_balance-replay_balances seen S ops j)
        | inr new ↦
            let k = key_of op in
            let m = add_delta (S (shard_of h count op)) k op.delta in
            rw (new, replay_balances, distinct)
              (store_balance-replay_balances (operation_id_hash h op.operation_id ∷ seen)
                  (at S (shard_of h count op) m) ops j
                ∙ ap
                    (λ (b : ℕ).
                      after_all j b (distinct h (operation_id_hash h op.operation_id ∷ seen) ops))
                    (store_balance-at S k j m (λ b. wrapping_add b op.delta)
                      (balance_of-add_delta (S (shard_of h count op)) k j op.delta)))
      ]

  balance_of-insert :
      (m : Balances) (k j : Key) (b : ℕ)
      → balance_of (insert k b m) j ≡ (if k == j then b else balance_of m j)
  unfolding balance_of
  balance_of-insert m k j b =
      ap or_zero (get-insert k j b m)
      ∙ elim (Bool-cases (k == j)) [ inl same ↦ rw same | inr other ↦ rw other ]

  store_balance-load_balances :
      (S : Shards) (entries : List BalanceSnapshot) (j : Key)
      → store_balance h count (load_balances h count S entries) j
        ≡ recorded j (store_balance h count S j) entries
  unfolding load_balances
  store_balance-load_balances S [] j = refl
  store_balance-load_balances S (e ∷ entries) j =
      let k : Key = (e.owner_id, e.sku) in
      let m = insert k e.balance (S (shard_for h e.owner_id e.sku count)) in
      store_balance-load_balances (at S (shard_for h e.owner_id e.sku count) m) entries j
      ∙ ap (λ (b : ℕ). recorded j b entries)
          (store_balance-at S k j m (λ b. e.balance)
            (balance_of-insert (S (shard_for h e.owner_id e.sku count)) k j e.balance))

  module _ (D : DiskIndex) where
    balance_in : Key → Result (Shards × D.State) → ℕ
    balance_in j r = elim r [ ok p ↦ store_balance h count p.0 j | err e ↦ 0 ]

    -- A start that succeeds gives each key its balance in the snapshot, changed by the deltas of the
    -- recovered operations of that key: of those with one id, known by its digest, only the first.
    pub store_balance-start :
        (disk disk' : D.State) (recovered : List Operation) (snapshot : Option SnapshotData)
        (S : Shards) (j : Key)
        → start h count D disk recovered snapshot ≡ ok (S, disk')
        → store_balance h count S j
          ≡ after_all j (recorded j 0 (entries_of snapshot)) (distinct h [] recovered)
    unfolding start balance_in
    store_balance-start disk disk' recovered snapshot S j e =
        let (d, _, q) = >>=-eq-ok (start_disk h count D disk recovered snapshot) _ e in
        sym (ap (balance_in j) q)
        ∙ store_balance-replay_balances [] (load_balances h count (λ i. []) (entries_of snapshot))
            recovered j
        ∙ ap (λ (b : ℕ). after_all j b (distinct h [] recovered))
            (store_balance-load_balances (λ i. []) (entries_of snapshot) j
              ∙ ap (λ (b : ℕ). recorded j b (entries_of snapshot))
                  (unfold store_balance balance_of get in refl))

    -- A restart on the write-ahead log of a first start without a snapshot, and on a snapshot that
    -- records the balance of a key after that start: the deltas of the log are in the balance of the
    -- key twice.
    pub store_balance-start_again :
        (disk disk' disk'' disk''' : D.State) (recovered : List Operation) (snapshot : SnapshotData)
        (S S' : Shards) (j : Key)
        → start h count D disk recovered none ≡ ok (S, disk')
        → recorded j 0 snapshot.balances ≡ store_balance h count S j
        → start h count D disk'' recovered (some snapshot) ≡ ok (S', disk''')
        → store_balance h count S' j
          ≡ after_all j (after_all j 0 (distinct h [] recovered)) (distinct h [] recovered)
    store_balance-start_again disk disk' disk'' disk''' recovered snapshot S S' j first saved
          second =
        store_balance-start disk'' disk''' recovered (some snapshot) S' j second
        ∙ ap (λ (b : ℕ). after_all j b (distinct h [] recovered))
            (saved ∙ store_balance-start disk disk' recovered none S j first)
