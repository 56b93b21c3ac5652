-- ===== src/Service/Queries/Positions.antt =====
-- src/main.rs, src/state.rs: the positions of an owner.
use virt_warehouse_pro.Common.{
  ℕ, ◌≡◌, refl, ap, ◌∙◌, arith, List, [], ◌∷◌, some, true, false, ==_iff, if◌then◌else◌, Bool-cases,
  inl, inr,
}
use virt_warehouse_pro.Common.Eq.{◌==◌, list_eq, nat_eq, pair_eq, list_beq_iff}
use virt_warehouse_pro.Common.Map.{get}
use virt_warehouse_pro.Bytes.Words.{Bytes}
use virt_warehouse_pro.Bytes.Order.{bytes_lt}
use virt_warehouse_pro.Store.Apply.{Balances, balance_of, or_zero}
use virt_warehouse_pro.Service.Queries.{
  owner_entries, insert_by_sku, sort_by_sku, balances_by_owner, get_owner_balances, get_balance,
}

bytes_lt_irrefl : (a b : Bytes) → bytes_lt a b ≡ true → (a == b) ≡ false
unfolding bytes_lt
bytes_lt_irrefl [] [] h = cc
bytes_lt_irrefl [] (y ∷ ys) h = refl
bytes_lt_irrefl (x ∷ xs) [] h = cc
bytes_lt_irrefl (x ∷ xs) (y ∷ ys) h = ground (arith, h, bytes_lt_irrefl xs ys, ==_iff x y)

get-insert_by_sku :
    (sku : Bytes) (entry : Bytes × ℕ) (values : List (Bytes × ℕ))
    → get sku (insert_by_sku entry values)
      ≡ (if entry.0 == sku then some entry.1 else get sku values)
unfolding insert_by_sku get
get-insert_by_sku sku entry [] = refl
get-insert_by_sku sku entry (other ∷ values) = elim (Bool-cases (bytes_lt other.0 entry.0)) [
  | inl t ↦ ground (
    arith,
    t,
    get-insert_by_sku sku entry values,
    bytes_lt_irrefl other.0 entry.0 t,
    list_beq_iff other.0 sku,
    list_beq_iff entry.0 sku,
    list_beq_iff other.0 entry.0,
  )
  | inr t ↦ rw t refl
]

get-sort_by_sku :
    (sku : Bytes) (values : List (Bytes × ℕ)) → get sku (sort_by_sku values) ≡ get sku values
unfolding sort_by_sku get
get-sort_by_sku sku [] = refl
get-sort_by_sku sku (entry ∷ values) =
    rw (get-insert_by_sku sku entry (sort_by_sku values), get-sort_by_sku sku values) refl

get-owner_entries :
    (owner sku : Bytes) (published : Balances)
    → get sku (owner_entries owner published) ≡ get (owner, sku) published
unfolding owner_entries get
get-owner_entries owner sku [] = refl
get-owner_entries owner sku (((o, s), balance) ∷ published) =
    ground (arith, get-owner_entries owner sku published)

-- The positions of an owner have, under each SKU, the balance that a query for the owner and the SKU
-- returns, or nothing where that is the balance 0 of a key that is not known.
pub get_balance-get_owner_balances :
    (published : Balances) (generation : ℕ) (owner sku : Bytes)
    → or_zero (get sku (get_owner_balances published generation owner).positions)
      ≡ (get_balance published generation owner sku).balance
unfolding get_owner_balances get_balance balances_by_owner balance_of
get_balance-get_owner_balances published generation owner sku =
    ap or_zero
      (get-sort_by_sku sku (owner_entries owner published) ∙ get-owner_entries owner sku published)
