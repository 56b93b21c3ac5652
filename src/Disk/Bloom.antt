-- ===== src/Disk/Bloom.antt =====
-- The Bloom filter of src/dedup_disk.rs: a bit set in a vector of bytes.
use virt_warehouse_pro.Common.{
  ℕ, zero, suc, ◌+◌, ◌*◌, ◌/◌, ◌%◌, ◌^◌, ◌≤◌, ◌<◌, ◌≡◌, refl, sym, ap, ◌∙◌, arith, List, [], ◌∷◌,
  Option, none, some, Bool, true, false, not, ◌&&◌, ◌==◌, ==_iff, bit_and, bit_or, length,
  get_elem?, take, drop, map, if◌then◌else◌,
}
use virt_warehouse_pro.Bytes.Words.{Bytes, from_le_bytes}
use virt_warehouse_pro.Bytes.Bits.{digit, digit-lt, digit-pow, digit-bit_or, mask-eq-zero}
pub mod Members
pub mod Found

-- `bloom_positions`
unfoldable pub bloom_positions : Bytes → ℕ → List ℕ
bloom_positions key bits =
    map (λ offset. from_le_bytes (take 8 (drop offset key)) % bits) (0 ∷ 8 ∷ 16 ∷ 24 ∷ [])

-- `bloom[bit / 8] & (1 << (bit % 8)) != 0`; every position that is asked for is in the vector.
unfoldable pub has_bit : Bytes → ℕ → Bool
has_bit bloom bit = elim (get_elem? bloom (bit / 8)) [
  | none ↦ false
  | some byte ↦ not (bit_and byte (2 ^ (bit % 8)) == 0)
]

-- `values[index] = f(values[index])`
unfoldable pub update : List ℕ → ℕ → (ℕ → ℕ) → List ℕ
update [] index f = []
update (x ∷ xs) zero f = f x ∷ xs
update (x ∷ xs) (suc index) f = x ∷ update xs index f

-- `bloom[bit / 8] |= 1 << (bit % 8)`
unfoldable pub set_bit : Bytes → ℕ → Bytes
set_bit bloom bit = update bloom (bit / 8) (λ byte. bit_or byte (2 ^ (bit % 8)))

unfoldable pub has_all : Bytes → List ℕ → Bool
has_all bloom [] = true
has_all bloom (bit ∷ bits) = has_bit bloom bit && has_all bloom bits

unfoldable pub set_all : Bytes → List ℕ → Bytes
set_all bloom [] = bloom
set_all bloom (bit ∷ bits) = set_all (set_bit bloom bit) bits

-- `bloom_maybe`
unfoldable pub bloom_maybe : Bytes → Bytes → Bool
bloom_maybe bloom key = has_all bloom (bloom_positions key (length bloom * 8))

-- `bloom_add`
unfoldable pub bloom_add : Bytes → Bytes → Bytes
bloom_add bloom key = set_all bloom (bloom_positions key (length bloom * 8))

-- `*target |= source`, over the bytes that both vectors have
unfoldable pub merge : Bytes → Bytes → Bytes
merge [] source = []
merge (t ∷ target) [] = t ∷ target
merge (t ∷ target) (s ∷ source) = bit_or t s ∷ merge target source
