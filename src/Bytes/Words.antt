-- ===== src/Bytes/Words.antt =====
-- `to_le_bytes`, `from_le_bytes`, and 64-bit arithmetic. An `i64` is its bit pattern, a number
-- below 2 ^ 64; `abs64` and `is_min64` read it as a signed number.
use virt_warehouse_pro.Common.{
  ℕ, zero, suc, ◌+◌, ◌-◌, ◌*◌, ◌/◌, ◌%◌, ◌^◌, ◌<◌, ◌≡◌, refl, ap₂, arith, List, [], ◌∷◌, Bool, ltb,
  ◌==◌, if◌then◌else◌, length, All,
}
use native.Mathlib.Nat.{pow-suc}

abbrev pub Bytes : Type 0
Bytes = List ℕ

abbrev pub IsByte : ℕ → Type 0
IsByte b = b < 256

abbrev pub IsU16 : ℕ → Type 0
IsU16 v = v < 2 ^ 16

abbrev pub IsU32 : ℕ → Type 0
IsU32 v = v < 2 ^ 32

abbrev pub IsU64 : ℕ → Type 0
IsU64 v = v < 2 ^ 64

unfoldable pub to_le_bytes : ℕ → ℕ → Bytes
to_le_bytes zero v = []
to_le_bytes (suc width) v = (v % 256) ∷ to_le_bytes width (v / 256)

unfoldable pub from_le_bytes : Bytes → ℕ
from_le_bytes [] = 0
from_le_bytes (b ∷ bs) = b + 256 * from_le_bytes bs

-- `+` of `i64` and `u64` as the release build computes it.
unfoldable pub wrapping_add : ℕ → ℕ → ℕ
wrapping_add a b = (a + b) % 2 ^ 64

-- `value == i64::MIN`
unfoldable pub is_min64 : ℕ → Bool
is_min64 v = v == 2 ^ 63

-- `value.abs()`, where the value is not `i64::MIN`
unfoldable pub abs64 : ℕ → ℕ
abs64 v = if ltb v (2 ^ 63) then v else 2 ^ 64 - v

pub length-to_le_bytes : (w v : ℕ) → length (to_le_bytes w v) ≡ w
unfolding to_le_bytes
length-to_le_bytes zero v = refl
length-to_le_bytes (suc w) v = omega (arith, length-to_le_bytes w (v / 256))

pub to_le_bytes-IsByte : (w v : ℕ) → All IsByte (to_le_bytes w v)
unfolding to_le_bytes
to_le_bytes-IsByte zero v = tt
to_le_bytes-IsByte (suc w) v = (omega arith, to_le_bytes-IsByte w (v / 256))

pub from_le_bytes-to_le_bytes : (w v : ℕ) → v < 256 ^ w → from_le_bytes (to_le_bytes w v) ≡ v
unfolding to_le_bytes from_le_bytes
from_le_bytes-to_le_bytes zero v h = omega arith
from_le_bytes-to_le_bytes (suc w) v h =
    omega (arith, from_le_bytes-to_le_bytes w (v / 256) (omega (arith, pow-suc 256 w)))

quotient : (b x : ℕ) → b < 256 → (b + 256 * x) / 256 ≡ x
quotient b x h = omega arith

pub to_le_bytes-from_le_bytes :
    (bs : Bytes) → All IsByte bs → to_le_bytes (length bs) (from_le_bytes bs) ≡ bs
unfolding to_le_bytes from_le_bytes
to_le_bytes-from_le_bytes [] p = refl
to_le_bytes-from_le_bytes (b ∷ bs) p =
    ap₂ (λ x xs. x ∷ xs) {x = (b + 256 * from_le_bytes bs) % 256} (omega arith)
      (rw (quotient b (from_le_bytes bs) p.0) (to_le_bytes-from_le_bytes bs p.1))

pub from_le_bytes-lt : (bs : Bytes) → All IsByte bs → from_le_bytes bs < 256 ^ length bs
unfolding from_le_bytes
from_le_bytes-lt [] p = omega arith
from_le_bytes-lt (b ∷ bs) p = omega (arith, pow-suc 256 (length bs), from_le_bytes-lt bs p.1)

pub wrapping_add-lt : (a b : ℕ) → wrapping_add a b < 2 ^ 64
unfolding wrapping_add
wrapping_add-lt a b = omega arith

pub wrapping_add_comm : (a b : ℕ) → wrapping_add a b ≡ wrapping_add b a
unfolding wrapping_add
wrapping_add_comm a b = omega arith

pub wrapping_add_assoc :
    (a b c : ℕ) → wrapping_add (wrapping_add a b) c ≡ wrapping_add a (wrapping_add b c)
unfolding wrapping_add
wrapping_add_assoc a b c = omega arith
