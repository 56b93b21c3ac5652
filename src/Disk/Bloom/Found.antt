-- ===== src/Disk/Bloom/Found.antt =====
-- src/dedup_disk.rs: what the Bloom filter finds.
use virt_warehouse_pro.Common.{◌<◌, ◌≡◌, arith, true, ◌||◌, Bool-cases, inl, inr, length, subst}
use virt_warehouse_pro.Common.Eq.{◌==◌, list_eq, nat_eq, list_beq_iff}
use virt_warehouse_pro.Bytes.Words.{Bytes}
use virt_warehouse_pro.Disk.Bloom.{bloom_maybe, bloom_add, merge}
use virt_warehouse_pro.Disk.Bloom.Members.{bloom_maybe-bloom_add, bloom_maybe-merge}

-- In a filter that is not empty, the key that was added is found, and so is each key that was found
-- before.
pub found-bloom_add :
    (bloom key other : Bytes)
    → 0 < length bloom
    → (key == other || bloom_maybe bloom other) ≡ true
    → bloom_maybe (bloom_add bloom key) other ≡ true
found-bloom_add bloom key other some_bits h = elim (Bool-cases (key == other)) [
  | inl t ↦
      subst (λ (k : Bytes). bloom_maybe (bloom_add bloom key) k ≡ true)
        ((list_beq_iff key other).0 t) (bloom_maybe-bloom_add bloom key key some_bits).0
  | inr t ↦ ground (arith, t, h, bloom_maybe-bloom_add bloom key other some_bits)
]

-- The merge of two filters of one size finds each key that one of them finds.
pub found-merge :
    (target source key : Bytes)
    → length target ≡ length source
    → (bloom_maybe target key || bloom_maybe source key) ≡ true
    → bloom_maybe (merge target source) key ≡ true
found-merge target source key same h = ground (arith, h, bloom_maybe-merge target source key same)
