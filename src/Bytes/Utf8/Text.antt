-- ===== src/Bytes/Utf8/Text.antt =====
-- The bytes of a text without control characters.
use virt_warehouse_pro.Common.{
  ℕ, zero, suc, ◌+◌, ◌*◌, ◌%◌, ◌<◌, ◌≡◌, refl, arith, List, [], ◌∷◌, Option, none, some, false, All,
  Option-cases, Bool-cases, inl, inr,
}
use virt_warehouse_pro.Bytes.Words.{Bytes}
use virt_warehouse_pro.Bytes.Utf8.{between, lead, chars_from, chars, is_control, any_control}
use mathlib.Core.Option

lead-byte :
    (b n bits l h : ℕ)
    → lead b ≡ some (n, bits, l, h)
    → (b < 255) × (0 < l) × (h < 255) × (b ≡ 0 → (n ≡ 0) × (bits ≡ 0))
unfolding lead between
lead-byte b n bits l h e = ground (arith, e)

map-eq_some :
    (c : ℕ) (o : Option (List ℕ)) (cs : List ℕ)
    → Option.map (λ cs. c ∷ cs) o ≡ some cs
    → (ds : List ℕ) × (o ≡ some ds) × (cs ≡ c ∷ ds)
map-eq_some c none cs e = cc
map-eq_some c (some ds) cs e = (ds, refl, ground (arith, e))

chars_from-bytes :
    (bs : Bytes) (need acc lo hi : ℕ) (cs : List ℕ)
    → (0 < need → (0 < lo) × (hi < 255))
    → chars_from bs need acc lo hi ≡ some cs
    → any_control cs ≡ false
    → All (λ b. (0 < b) × (b < 255)) bs
unfolding chars_from any_control is_control between
chars_from-bytes [] need acc lo hi cs inside e quiet = tt
chars_from-bytes (b ∷ bs) zero acc lo hi cs inside e quiet = elim (Option-cases (lead b)) [
  | inl t ↦ absurd (ground (arith, t, e))
  | inr ((zero, bits, l, h), t) ↦
      let rest : Option.map (λ cs. bits ∷ cs) (chars_from bs 0 0 0 0) ≡ some cs =
        ground (arith, t, e) in
      let (ds, then_rest, whole) = map-eq_some bits (chars_from bs 0 0 0 0) cs rest in
      let byte = lead-byte b 0 bits l h t in
      let tail =
        chars_from-bytes bs 0 0 0 0 ds (λ p. absurd (omega (arith, p))) then_rest
          (ground (arith, quiet, whole)) in
      (ground (arith, byte, quiet, whole), tail)
  | inr ((suc k, bits, l, h), t) ↦
      let rest : chars_from bs (suc k) bits l h ≡ some cs = ground (arith, t, e) in
      let byte = lead-byte b (suc k) bits l h t in
      (
        ground (arith, byte),
        chars_from-bytes bs (suc k) bits l h cs (λ p. (byte.1, byte.2)) rest quiet,
      )
]
chars_from-bytes (b ∷ bs) (suc zero) acc lo hi cs inside e quiet =
    elim (Bool-cases (between lo hi b)) [
      | inl t ↦
          let rest : Option.map (λ cs. (acc * 64 + b % 64) ∷ cs) (chars_from bs 0 0 0 0) ≡ some cs =
            ground (arith, t, e) in
          let (ds, then_rest, whole) =
            map-eq_some (acc * 64 + b % 64) (chars_from bs 0 0 0 0) cs rest in
          (
            ground (arith, inside, t),
            chars_from-bytes bs 0 0 0 0 ds (λ p. absurd (omega (arith, p))) then_rest
                (ground (arith, quiet, whole)),
          )
      | inr t ↦ absurd (ground (arith, t, e))
    ]
chars_from-bytes (b ∷ bs) (suc (suc need)) acc lo hi cs inside e quiet =
    elim (Bool-cases (between lo hi b)) [
      | inl t ↦
          let rest : chars_from bs (suc need) (acc * 64 + b % 64) 0x80 0xbf ≡ some cs =
            ground (arith, t, e) in
          (
            ground (arith, inside, t),
            chars_from-bytes bs (suc need) (acc * 64 + b % 64) 0x80 0xbf cs
                (λ p. (omega arith, omega arith)) rest quiet,
          )
      | inr t ↦ absurd (ground (arith, t, e))
    ]

-- The bytes of a text without control characters are neither zero nor 255.
pub chars-bytes :
    (bs : Bytes) (cs : List ℕ)
    → chars bs ≡ some cs
    → any_control cs ≡ false
    → All (λ b. (0 < b) × (b < 255)) bs
unfolding chars
chars-bytes bs cs e quiet = chars_from-bytes bs 0 0 0 0 cs (λ p. absurd (omega (arith, p))) e quiet
