-- ===== src/Disk/Bloom/Members.antt =====
-- src/dedup_disk.rs: the keys that the Bloom filter knows.
use virt_warehouse_pro.Common.{
  ℕ, zero, suc, ◌*◌, ◌/◌, ◌%◌, ◌^◌, ◌<◌, ◌≡◌, refl, sym, ◌∙◌, subst, ◌⊎◌, arith, List, [], ◌∷◌,
  none, some, true, false, ◌==◌, Option-cases, inl, inr, and-eq-true, bit_and, bit_or, length,
  get_elem?, if◌then◌else◌, All,
}
use virt_warehouse_pro.Bytes.Words.{Bytes}
use virt_warehouse_pro.Bytes.Bits.{digit-lt, digit-pow, digit-bit_or, mask-eq-zero}
use virt_warehouse_pro.Disk.Bloom.{
  bloom_positions, has_bit, update, set_bit, has_all, set_all, bloom_maybe, bloom_add, merge,
}

length-update : (xs : List ℕ) (i : ℕ) (f : ℕ → ℕ) → length (update xs i f) ≡ length xs
unfolding update
length-update [] i f = refl
length-update (x ∷ xs) zero f = refl
length-update (x ∷ xs) (suc i) f = omega (arith, length-update xs i f)

get_elem-update :
    (xs : List ℕ) (i j : ℕ) (f : ℕ → ℕ)
    → get_elem? (update xs i f) j ≡ (
        if i == j
        then elim (get_elem? xs j) [ none ↦ none | some x ↦ some (f x) ]
        else get_elem? xs j)
unfolding update
get_elem-update [] i j f = ground arith
get_elem-update (x ∷ xs) zero zero f = ground arith
get_elem-update (x ∷ xs) zero (suc j) f = ground arith
get_elem-update (x ∷ xs) (suc i) zero f = ground arith
get_elem-update (x ∷ xs) (suc i) (suc j) f = ground (arith, get_elem-update xs i j f)

get_elem-inside : (xs : List ℕ) (i : ℕ) → i < length xs → (x : ℕ) × (get_elem? xs i ≡ some x)
get_elem-inside [] i h = absurd (omega arith)
get_elem-inside (x ∷ xs) zero h = (x, refl)
get_elem-inside (x ∷ xs) (suc i) h = get_elem-inside xs i (omega arith)

-- A byte after a bit was set in it has this bit, and the bits that it had.
byte-set :
    (byte i j : ℕ)
    → (bit_and byte (2 ^ j) == 0) ≡ false
    → (bit_and (bit_or byte (2 ^ i)) (2 ^ j) == 0) ≡ false
byte-set byte i j h =
    ground (
      arith,
      mask-eq-zero j byte,
      mask-eq-zero j (bit_or byte (2 ^ i)),
      digit-bit_or j byte (2 ^ i),
    )

byte_self : (byte i : ℕ) → (bit_and (bit_or byte (2 ^ i)) (2 ^ i) == 0) ≡ false
byte_self byte i =
    ground (arith, mask-eq-zero i (bit_or byte (2 ^ i)), digit-bit_or i byte (2 ^ i), digit-pow i)

has_bit-set_bit :
    (bloom : Bytes) (i j : ℕ) → has_bit bloom j ≡ true → has_bit (set_bit bloom i) j ≡ true
unfolding has_bit set_bit
has_bit-set_bit bloom i j h = elim (Option-cases (get_elem? bloom (j / 8))) [
  | inl e ↦ ground (arith, e, h)
  | inr (byte, e) ↦ ground (
    arith,
    e,
    get_elem-update bloom (i / 8) (j / 8) (λ b. bit_or b (2 ^ (i % 8))),
    byte-set byte (i % 8) (j % 8),
  )
]

has_bit-set_bit_self :
    (bloom : Bytes) (i : ℕ) → i < length bloom * 8 → has_bit (set_bit bloom i) i ≡ true
unfolding has_bit set_bit
has_bit-set_bit_self bloom i h =
    let (byte, e) = get_elem-inside bloom (i / 8) (omega arith) in
    ground (
      arith,
      e,
      get_elem-update bloom (i / 8) (i / 8) (λ b. bit_or b (2 ^ (i % 8))),
      byte_self byte (i % 8),
    )

length-set_bit : (bloom : Bytes) (i : ℕ) → length (set_bit bloom i) ≡ length bloom
unfolding set_bit
length-set_bit bloom i = length-update bloom (i / 8) (λ b. bit_or b (2 ^ (i % 8)))

length-set_all : (bloom : Bytes) (bits : List ℕ) → length (set_all bloom bits) ≡ length bloom
unfolding set_all
length-set_all bloom [] = refl
length-set_all bloom (i ∷ bits) = length-set_all (set_bit bloom i) bits ∙ length-set_bit bloom i

has_bit-set_all :
    (bloom : Bytes) (bits : List ℕ) (j : ℕ)
    → has_bit bloom j ≡ true
    → has_bit (set_all bloom bits) j ≡ true
unfolding set_all
has_bit-set_all bloom [] j h = h
has_bit-set_all bloom (i ∷ bits) j h =
    has_bit-set_all (set_bit bloom i) bits j (has_bit-set_bit bloom i j h)

has_all-set_all :
    (bloom : Bytes) (bits js : List ℕ)
    → has_all bloom js ≡ true
    → has_all (set_all bloom bits) js ≡ true
unfolding has_all
has_all-set_all bloom bits [] h = refl
has_all-set_all bloom bits (j ∷ js) h =
    let (first, rest) = and-eq-true (has_bit bloom j) (has_all bloom js) h in
    rw (has_bit-set_all bloom bits j first) (has_all-set_all bloom bits js rest)

has_all-set_all_self :
    (bloom : Bytes) (bits : List ℕ)
    → All (λ i. i < length bloom * 8) bits
    → has_all (set_all bloom bits) bits ≡ true
unfolding has_all set_all
has_all-set_all_self bloom [] h = refl
has_all-set_all_self bloom (i ∷ bits) h =
    let here = has_bit-set_all (set_bit bloom i) bits i (has_bit-set_bit_self bloom i h.0) in
    rw here (has_all-set_all_self (set_bit bloom i) bits (rw (length-set_bit bloom i) h.1))

pub length-bloom_add : (bloom key : Bytes) → length (bloom_add bloom key) ≡ length bloom
unfolding bloom_add
length-bloom_add bloom key = length-set_all bloom (bloom_positions key (length bloom * 8))

mod_below : (a b : ℕ) → 0 < b → a % b < b
mod_below a b h = grind arith

positions_inside :
    (key : Bytes) (bits : ℕ) → 0 < bits → All (λ i. i < bits) (bloom_positions key bits)
unfolding bloom_positions
positions_inside key bits h =
    (mod_below _ bits h, (mod_below _ bits h, (mod_below _ bits h, (mod_below _ bits h, tt))))

-- A key that was added is found, and so are the keys that were found before.
pub bloom_maybe-bloom_add :
    (bloom key other : Bytes)
    → 0 < length bloom
    → (bloom_maybe (bloom_add bloom key) key ≡ true)
      × (bloom_maybe bloom other ≡ true → bloom_maybe (bloom_add bloom key) other ≡ true)
unfolding bloom_maybe bloom_add set_all
bloom_maybe-bloom_add bloom key other h = rw (length-bloom_add bloom key) (
  has_all-set_all_self bloom (bloom_positions key (length bloom * 8))
      (positions_inside key (length bloom * 8) (omega arith)),
  has_all-set_all bloom (bloom_positions key (length bloom * 8))
      (bloom_positions other (length bloom * 8)),
)

byte-merge :
    (a b j : ℕ)
    → ((bit_and a (2 ^ j) == 0) ≡ false → (bit_and (bit_or a b) (2 ^ j) == 0) ≡ false)
      × ((bit_and b (2 ^ j) == 0) ≡ false → (bit_and (bit_or a b) (2 ^ j) == 0) ≡ false)
byte-merge a b j = ground (
  arith,
  mask-eq-zero j a,
  mask-eq-zero j b,
  mask-eq-zero j (bit_or a b),
  digit-bit_or j a b,
  digit-lt j a,
  digit-lt j b,
)

-- A bit of either vector, of vectors of one length, is in the merged one; `test` looks at a byte.
get_elem-merge :
    (target source : Bytes) (i : ℕ)
    → length target ≡ length source
    → get_elem? (merge target source) i ≡ (elim (get_elem? target i) [
      | none ↦ none
      | some t ↦ elim (get_elem? source i) [ none ↦ none | some s ↦ some (bit_or t s) ]
    ])
unfolding merge
get_elem-merge [] source i h = refl
get_elem-merge (t ∷ target) [] i h = absurd (omega arith)
get_elem-merge (t ∷ target) (s ∷ source) zero h = refl
get_elem-merge (t ∷ target) (s ∷ source) (suc i) h = get_elem-merge target source i (omega arith)

both_inside :
    (target source : Bytes) (i : ℕ)
    → length target ≡ length source
    → ((get_elem? target i ≡ none) × (get_elem? source i ≡ none))
      ⊎ ((t s : ℕ) × (get_elem? target i ≡ some t) × (get_elem? source i ≡ some s))
both_inside [] [] i h = inl (refl, refl)
both_inside [] (s ∷ source) i h = absurd (omega arith)
both_inside (t ∷ target) [] i h = absurd (omega arith)
both_inside (t ∷ target) (s ∷ source) zero h = inr (t, s, refl, refl)
both_inside (t ∷ target) (s ∷ source) (suc i) h = both_inside target source i (omega arith)

has_bit-merge :
    (target source : Bytes) (j : ℕ)
    → length target ≡ length source
    → (has_bit target j ≡ true → has_bit (merge target source) j ≡ true)
      × (has_bit source j ≡ true → has_bit (merge target source) j ≡ true)
unfolding has_bit
has_bit-merge target source j h = elim (both_inside target source (j / 8) h) [
  | inl (e, d) ↦ ground (arith, e, d)
  | inr (t, s, e, d) ↦
      ground (arith, e, d, get_elem-merge target source (j / 8), byte-merge t s (j % 8))
]

has_all-merge :
    (target source : Bytes) (js : List ℕ)
    → length target ≡ length source
    → (has_all target js ≡ true → has_all (merge target source) js ≡ true)
      × (has_all source js ≡ true → has_all (merge target source) js ≡ true)
unfolding has_all
has_all-merge target source [] h = (λ p. refl, λ p. refl)
has_all-merge target source (j ∷ js) h =
    ground (arith, has_bit-merge target source j h, has_all-merge target source js h)

pub length-merge : (target source : Bytes) → length (merge target source) ≡ length target
unfolding merge
length-merge [] source = refl
length-merge (t ∷ target) [] = refl
length-merge (t ∷ target) (s ∷ source) = omega (arith, length-merge target source)

-- The merge of two filters of one size finds what one of them finds.
pub bloom_maybe-merge :
    (target source key : Bytes)
    → length target ≡ length source
    → (bloom_maybe target key ≡ true → bloom_maybe (merge target source) key ≡ true)
      × (bloom_maybe source key ≡ true → bloom_maybe (merge target source) key ≡ true)
unfolding bloom_maybe
bloom_maybe-merge target source key h =
    let both = has_all-merge target source (bloom_positions key (length target * 8)) h in
    rw (length-merge target source) (
      both.0,
      λ found.
          both.1
            (subst (λ (n : ℕ). has_all source (bloom_positions key (n * 8)) ≡ true) (sym h) found),
    )
