-- ===== src/Common/Results.antt =====
-- `anyhow::Result`: a value or an error. The message texts are not modelled; the error names the
-- check that failed, and keeps the id that a conflict reports.
use Prim.Native.Nat.{ℕ}
use mathlib.Core.Path.{◌≡◌, refl, subst}
use mathlib.Core.Bool.{Bool, true, false}
use mathlib.Core.List.{List}
use mathlib.Core.Logic.{◌⊎◌, inl, inr}

pub data Error : Type 0 where
  bad_magic offset_overflow truncated trailing_bytes : Error
  string_too_long count_too_large bad_utf8 unknown_kind bad_version : Error
  too_large length_mismatch checksum_mismatch bad_length legacy : Error
  io stopped missing_result : Error
  bad_number bad_address not_power_of_two not_positive : Error
  conflict : List ℕ → Error

pub data Result {ℓ} (A : Type ℓ) : Type ℓ where
  err : Error → Result A
  ok : A → Result A

infixl 5 ◌>>=◌
abbrev pub ◌>>=◌ {ℓ κ} :
    {A : Type ℓ} {B : Type κ} (result : Result A) (then_do : A → Result B) → Result B
err e >>= then_do = err e
ok value >>= then_do = then_do value

-- `anyhow::ensure!`
abbrev pub ensure : Bool → Error → Result (Unit {0})
ensure true e = ok tt
ensure false e = err e

infixl 5 ◌>>◌
abbrev pub ◌>>◌ {ℓ} : {B : Type ℓ} (check : Result (Unit {0})) (rest : Result B) → Result B
check >> rest = check >>= (λ passed. rest)

-- A block that succeeds has passed through its first step.
pub >>=-eq-ok {ℓ κ} :
    {A : Type ℓ} {B : Type κ} (first : Result A) (next : A → Result B) {last : B}
    → (first >>= next) ≡ ok last
    → (mid : A) × (first ≡ ok mid) × (next mid ≡ ok last)
>>=-eq-ok (err why) next done = cc
>>=-eq-ok (ok mid) next done = (mid, refl, done)

pub Result-cases {ℓ} :
    {A : Type ℓ} (result : Result A)
    → ((value : A) × (result ≡ ok value)) ⊎ ((why : Error) × (result ≡ err why))
Result-cases (err why) = inr (why, refl)
Result-cases (ok value) = inl (value, refl)

-- What holds of a result's value, if it has one.
abbrev pub IfOk {ℓ κ} : {A : Type ℓ} → (A → Type κ) → Result A → Type κ
IfOk P (err why) = Unit {κ}
IfOk P (ok value) = P value

pub IfOk->>= {ℓ κ μ ν} :
    {A : Type ℓ} {B : Type κ} (P : A → Type μ) (Q : B → Type ν) (first : Result A)
    (next : A → Result B)
    → IfOk P first
    → ((value : A) → P value → IfOk Q (next value))
    → IfOk Q (first >>= next)
IfOk->>= P Q (err why) next p f = tt
IfOk->>= P Q (ok value) next p f = f value p

pub IfOk-ok {ℓ κ} :
    {A : Type ℓ} (P : A → Type κ) (result : Result A) (value : A)
    → IfOk P result
    → result ≡ ok value
    → P value
IfOk-ok P result value p e = subst (IfOk P) e p

pub IfOk-weaken {ℓ κ μ} :
    {A : Type ℓ} (P : A → Type κ) (Q : A → Type μ) (result : Result A)
    → ((value : A) → P value → Q value)
    → IfOk P result
    → IfOk Q result
IfOk-weaken P Q (err why) f p = tt
IfOk-weaken P Q (ok value) f p = f value p
