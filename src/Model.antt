-- ===== src/Model.antt =====
-- src/model.rs: an operation, its validation, and the result of applying it.
use virt_warehouse_pro.Common.{ℕ, Bool, true, ◌||◌, not, none, some, ltb, if◌then◌else◌, length}
use virt_warehouse_pro.Common.{◌==◌ as nat_beq}
use virt_warehouse_pro.Common.Eq.{list_beq, nat_eq}
use virt_warehouse_pro.Bytes.Words.{Bytes, is_min64, abs64}
use virt_warehouse_pro.Bytes.Utf8.{chars, trim, any_control}
pub mod Identifiers

-- `delta` is the bit pattern of an `i64`.
pub record Operation : Type 0 where
  pub operation_id : Bytes
  pub owner_id : Bytes
  pub sku : Bytes
  pub delta : ℕ
  pub event_version : ℕ

pub data Invalid : Type 0 where
  identifier_length identifier_content delta_zero delta_range version : Invalid

pub data Checked : Type 0 where
  valid : Checked
  invalid : Invalid → Checked

-- The rest of the checks, if this one passed: `?`.
abbrev pub and_then : Checked → Checked → Checked
and_then valid rest = rest
and_then (invalid e) rest = invalid e

-- `value.trim() != value || value.chars().any(char::is_control)`; a `String` is UTF-8 by its type,
-- and bytes that are not are refused here.
bad_content : Bytes → Bool
bad_content value = elim (chars value) [
  | none ↦ true
  | some cs ↦ not (list_beq (trim cs) cs) || any_control cs
]

unfoldable pub validate_identifier : Bytes → Checked
unfolding bad_content
validate_identifier value =
    if nat_beq (length value) 0 || ltb 128 (length value)
    then invalid identifier_length
    else if bad_content value
    then invalid identifier_content
    else valid

unfoldable pub validate : Operation → Checked
validate op = and_then (validate_identifier op.operation_id) (
    and_then (validate_identifier op.owner_id) (
      and_then (validate_identifier op.sku) (
        if nat_beq op.delta 0
        then invalid delta_zero
        else if is_min64 op.delta || ltb 1_000_000_000 (abs64 op.delta)
        then invalid delta_range
        else if nat_beq op.event_version 1
        then valid
        else invalid version)))

abbrev pub default_event_version : ℕ
default_event_version = 1

pub data ApplyStatus : Type 0 where
  applied duplicate : ApplyStatus

pub record ApplyResult : Type 0 where
  pub operation_id : Bytes
  pub status : ApplyStatus
  pub balance : ℕ
