-- ===== src/Disk/History/Ranges.antt =====
-- src/dedup_disk.rs: the ranges of keys that the queries for an owner or a SKU read.
use virt_warehouse_pro.Common.{◌<◌, ◌^◌, ◌≡◌, List, [], ◌∷◌, ◌++◌, some, All}
use virt_warehouse_pro.Common.Eq.{list_eq, nat_eq, list_beq}
use virt_warehouse_pro.Bytes.Words.{Bytes}
use virt_warehouse_pro.Bytes.Order.{within, within-text}
use virt_warehouse_pro.Model.{Operation, validate, valid}
use virt_warehouse_pro.Model.Identifiers.{IsIdentifier, validate-IsIdentifier}
use virt_warehouse_pro.Disk.History.{index_prefix, index_key}

All-left {ℓ κ μ} :
    {A : Type ℓ} (P : A → Type κ) (Q : A → Type μ) (xs : List A)
    → All (λ x. P x × Q x) xs
    → All P xs
All-left P Q [] h = tt
All-left P Q (x ∷ xs) h = (h.0.0, All-left P Q xs h.1)

All-right {ℓ κ μ} :
    {A : Type ℓ} (P : A → Type κ) (Q : A → Type μ) (xs : List A)
    → All (λ x. P x × Q x) xs
    → All Q xs
All-right P Q [] h = tt
All-right P Q (x ∷ xs) h = (h.0.1, All-right P Q xs h.1)

index_range :
    (value other id : Bytes)
    → IsIdentifier value
    → IsIdentifier other
    → IsIdentifier id
    → within (index_prefix value) (some (index_prefix value ++ (255 ∷ []))) (index_key other id)
      ≡ list_beq other value
unfolding IsIdentifier index_prefix index_key
index_range value other id p q r =
    within-text value other id (All-left (λ b. 0 < b) (λ b. b < 255) value p.2)
      (All-left (λ b. 0 < b) (λ b. b < 255) other q.2)
      (All-right (λ b. 0 < b) (λ b. b < 255) id r.2)

-- The range that a query for an owner, or for a SKU, reads has, of the entries of operations that
-- were validated, those of this owner, or of this SKU, and no other.
pub index_key-within :
    (asked op : Operation)
    → asked.delta < 2 ^ 64
    → op.delta < 2 ^ 64
    → validate asked ≡ valid
    → validate op ≡ valid
    → (within
          (index_prefix asked.owner_id)
          (some (index_prefix asked.owner_id ++ (255 ∷ [])))
          (index_key op.owner_id op.operation_id)
        ≡ list_beq op.owner_id asked.owner_id)
      × (within
            (index_prefix asked.sku)
            (some (index_prefix asked.sku ++ (255 ∷ [])))
            (index_key op.sku op.operation_id)
          ≡ list_beq op.sku asked.sku)
index_key-within asked op p q a b =
    let one = validate-IsIdentifier asked p a in
    let two = validate-IsIdentifier op q b in
    (
      index_range asked.owner_id op.owner_id op.operation_id one.1 two.1 two.0,
      index_range asked.sku op.sku op.operation_id one.2 two.2 two.0,
    )
