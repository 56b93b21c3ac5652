-- ===== src/Model/Identifiers.antt =====
-- src/model.rs: what an operation that passed its validation is made of.
use virt_warehouse_pro.Common.{
  ◌^◌, ◌<◌, ◌≤◌, ◌≡◌, refl, arith, Option-cases, Bool-cases, inl, inr, All, length,
}
use virt_warehouse_pro.Common.Eq.{nat_eq}
use virt_warehouse_pro.Bytes.Words.{Bytes, is_min64, abs64}
use virt_warehouse_pro.Bytes.Utf8.{chars, any_control}
use virt_warehouse_pro.Bytes.Utf8.Text.{chars-bytes}
use virt_warehouse_pro.Model.{
  Operation, Checked, valid, invalid, and_then, bad_content, validate_identifier, validate,
}

-- An identifier has 1 to 128 bytes, none of them zero or 255.
unfoldable pub IsIdentifier : Bytes → Type 0
IsIdentifier value =
    (0 < length value) × (length value ≤ 128) × All (λ b. (0 < b) × (b < 255)) value

validate_identifier-IsIdentifier :
    (value : Bytes) → validate_identifier value ≡ valid → IsIdentifier value
unfolding validate_identifier bad_content IsIdentifier
validate_identifier-IsIdentifier value h = elim (Option-cases (chars value)) [
  | inl e ↦ absurd (ground (arith, h, e))
  | inr (cs, e) ↦ elim (Bool-cases (any_control cs)) [
    | inl t ↦ absurd (ground (arith, h, e, t))
    | inr t ↦ (ground (arith, h), ground (arith, h), chars-bytes value cs e t)
  ]
]

and_then-valid :
    (first rest : Checked) → and_then first rest ≡ valid → (first ≡ valid) × (rest ≡ valid)
and_then-valid valid rest h = (refl, h)
and_then-valid (invalid why) rest h = cc

-- What `validate` refuses has no part in an operation that it accepts: the identifiers have 1 to 128
-- bytes, none of them zero or 255, the delta is not zero and at most 1,000,000,000 either way, and
-- the version is 1.
pub validate-IsIdentifier :
    (op : Operation)
    → op.delta < 2 ^ 64
    → validate op ≡ valid
    → IsIdentifier op.operation_id
      × IsIdentifier op.owner_id
      × IsIdentifier op.sku
      × (0 < abs64 op.delta)
      × (abs64 op.delta ≤ 1_000_000_000)
      × (op.event_version ≡ 1)
unfolding validate abs64 is_min64
validate-IsIdentifier op small h =
    let (one, h) = and_then-valid (validate_identifier op.operation_id) _ h in
    let (two, h) = and_then-valid (validate_identifier op.owner_id) _ h in
    let (three, h) = and_then-valid (validate_identifier op.sku) _ h in
    (
      validate_identifier-IsIdentifier op.operation_id one,
      validate_identifier-IsIdentifier op.owner_id two,
      validate_identifier-IsIdentifier op.sku three,
      ground (arith, h, small),
      ground (arith, h, small),
      ground (arith, h, small),
    )
