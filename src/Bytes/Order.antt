-- ===== src/Bytes/Order.antt =====
-- The order of byte slices and of `str`, and the ranges of keys of the databases.
use virt_warehouse_pro.Common.{
  ◌<◌, ◌≡◌, refl, arith, List, [], ◌∷◌, ◌++◌, Option, none, some, Bool, true, false, ◌&&◌, not, ltb,
  ◌==◌, ==_iff, if◌then◌else◌, All,
}
use virt_warehouse_pro.Common.Eq.{list_beq, nat_eq}
use virt_warehouse_pro.Bytes.Words.{Bytes}

unfoldable pub bytes_lt : Bytes → Bytes → Bool
bytes_lt [] [] = false
bytes_lt [] (y ∷ ys) = true
bytes_lt (x ∷ xs) [] = false
bytes_lt (x ∷ xs) (y ∷ ys) = if x == y then bytes_lt xs ys else ltb x y

-- `lo..hi`, or `lo..` without an end
unfoldable pub within : Bytes → Option Bytes → Bytes → Bool
within lo none key = not (bytes_lt key lo)
within lo (some hi) key = not (bytes_lt key lo) && bytes_lt key hi

unfoldable pub select {ℓ} : {A : Type ℓ} → (A → Bool) → List A → List A
select keeps [] = []
select keeps (x ∷ xs) = if keeps x then x ∷ select keeps xs else select keeps xs

-- Of the keys that are a text without a zero byte, a zero byte, and a text, the range of a text
-- and a zero byte has those that begin with this text.
pub within-text :
    (value other id : Bytes)
    → All (λ b. 0 < b) value
    → All (λ b. 0 < b) other
    → All (λ b. b < 255) id
    → within
        (value ++ (0 ∷ []))
        (some ((value ++ (0 ∷ [])) ++ (255 ∷ [])))
        ((other ++ (0 ∷ [])) ++ id)
      ≡ list_beq other value
unfolding within bytes_lt
within-text [] [] [] p q r = refl
within-text [] [] (b ∷ id) p q r = ground (arith, r.0)
within-text [] (b ∷ other) id p q r = ground (arith, q.0)
within-text (a ∷ value) [] id p q r = ground (arith, p.0)
within-text (a ∷ value) (b ∷ other) id p q r =
    ground (arith, within-text value other id p.1 q.1 r, ==_iff a b)
