-- ===== src/Bytes/Bits.antt =====
-- The binary digits of a number, under `&`, `|` and `1 << k`.
use virt_warehouse_pro.Common.{
  ℕ, zero, suc, ◌+◌, ◌*◌, ◌/◌, ◌%◌, ◌^◌, ◌≤◌, ◌<◌, ◌≡◌, ◌↔◌, refl, ap, ◌∙◌, arith, bit_and, bit_or,
}
use Prim.Native.Nat.pow
use Prim.Native.Nat.{min, max, digits, bit_and-bitwise, bit_or-bitwise}

-- The digit at a position, the lowest one first.
unfoldable pub digit : ℕ → ℕ → ℕ
digit zero a = a % 2
digit (suc k) a = digit k (a / 2)

digit-zero : (k : ℕ) → digit k 0 ≡ 0
unfolding digit
digit-zero zero = refl
digit-zero (suc k) = digit-zero k

pub digit-lt : (k a : ℕ) → digit k a < 2
unfolding digit
digit-lt zero a = omega arith
digit-lt (suc k) a = digit-lt k (a / 2)

double : (k : ℕ) → 2 ^ suc k ≡ 2 * 2 ^ k
double k = omega (arith, pow.suc 2 k)

pub digit-pow : (k : ℕ) → digit k (2 ^ k) ≡ 1
unfolding digit
digit-pow zero = refl
digit-pow (suc k) =
    let half : 2 ^ suc k / 2 ≡ 2 ^ k = omega (arith, double k) in rw half (digit-pow k)

-- A digit of the number whose lowest digit is `d` and whose other digits are those of `x`.
digit-join : (k x d : ℕ) → d < 2 → digit (suc k) (x * 2 + d) ≡ digit k x
unfolding digit
digit-join k x d h = ap (digit k) (omega arith)

or_digits :
    (n k a b : ℕ) → a ≤ n → digit k (digits (λ y. y) max n a b) ≡ max (digit k a) (digit k b)
or_digits zero k zero b h = omega (arith, digit-zero k)
or_digits zero k (suc a) b h = absurd (omega arith)
or_digits (suc n) k zero b h = omega (arith, digit-zero k)
or_digits (suc n) zero (suc a) b h = unfold digit in omega arith
or_digits (suc n) (suc k) (suc a) b h =
    digit-join k (digits (λ y. y) max n (suc a / 2) (b / 2)) (max (suc a % 2) (b % 2)) (omega arith)
    ∙ or_digits n k (suc a / 2) (b / 2) (omega arith)
    ∙ (unfold digit in refl)

pub digit-bit_or : (k a b : ℕ) → digit k (bit_or a b) ≡ max (digit k a) (digit k b)
digit-bit_or k a b = ap (digit k) (bit_or-bitwise a b) ∙ or_digits a k a b (omega arith)

no_mask : (n a : ℕ) → digits (λ y. 0) min n a 0 ≡ 0
no_mask zero a = refl
no_mask (suc n) zero = refl
no_mask (suc n) (suc a) = omega (arith, no_mask n (suc a / 2))

-- The mask `2 ^ k` takes out the digit `k`.
mask_digits : (n k a : ℕ) → a ≤ n → (digits (λ y. 0) min n a (2 ^ k) ≡ 0) ↔ (digit k a ≡ 0)
unfolding digit
mask_digits zero k zero h = ground (arith, digit-zero k)
mask_digits zero k (suc a) h = absurd (omega arith)
mask_digits (suc n) k zero h = ground (arith, digit-zero k)
mask_digits (suc n) zero (suc a) h = ground (arith, no_mask n (suc a / 2))
mask_digits (suc n) (suc k) (suc a) h =
    let half : 2 ^ suc k / 2 ≡ 2 ^ k = omega (arith, double k) in
    let low : 2 ^ suc k % 2 ≡ 0 = omega (arith, double k) in
    let rest = mask_digits n k (suc a / 2) (omega arith) in rw (half, low) (ground (arith, rest))

-- `b & (1 << k) != 0`
pub mask-eq-zero : (k a : ℕ) → (bit_and a (2 ^ k) ≡ 0) ↔ (digit k a ≡ 0)
mask-eq-zero k a = rw (bit_and-bitwise a (2 ^ k)) (mask_digits a k a (omega arith))

and_digits-le : (n a b : ℕ) → digits (λ x. zero) min n a b ≤ b
and_digits-le zero zero b = omega arith
and_digits-le zero (suc a) b = omega arith
and_digits-le (suc n) zero b = omega arith
and_digits-le (suc n) (suc a) b = omega (arith, and_digits-le n (suc a / 2) (b / 2))

pub bit_and-le : (a b : ℕ) → bit_and a b ≤ b
bit_and-le a b = rw (bit_and-bitwise a b) (and_digits-le a a b)
