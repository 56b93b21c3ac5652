-- ===== src/Binary/Log.antt =====
-- src/binary.rs: the records of the shared log, written and read.
use virt_warehouse_pro.Common.{
  ℕ, ◌^◌, ◌≤◌, ◌≡◌, refl, arith, List, ◌++◌, ok, ◌>>=◌, lt→ltb, length, All,
}
use virt_warehouse_pro.Bytes.Words.{Bytes, IsU64, to_le_bytes}
use virt_warehouse_pro.Model.{Operation}
use virt_warehouse_pro.Binary.Reads.{
  Reads, Reads-bind, Reads-bind_last, Reads-pure, Reads-number, Reads-string, string_bytes,
  IsString, all_bytes,
}
use virt_warehouse_pro.Binary.Format.{
  put_u32, encode_log_operations, encode_log_fence, log_record, decode_log, fence, operations,
  log_magic,
}
use virt_warehouse_pro.Binary.RoundTrip.{
  IsOperation, operation_bytes, put_string_lem, put_operations_lem, Reads-batch, decode_after_lem,
  length-all_bytes,
}

Reads-operations :
    (epoch : ℕ) (ops : List Operation)
    → IsU64 epoch
    → length ops ≤ 100_000
    → All IsOperation ops
    → Reads log_record (operations epoch ops) (
        to_le_bytes 1 2
        ++ (to_le_bytes 8 epoch ++ (to_le_bytes 4 (length ops) ++ all_bytes operation_bytes ops)))
unfolding log_record
Reads-operations epoch ops e n h = Reads-bind _ _ 2 _ _ _ (Reads-number 1 2 (omega arith)) (
    Reads-bind _ _ epoch _ _ _ (Reads-number 8 epoch e)
      (Reads-bind_last _ _ ops _ _ (Reads-batch ops n h) (Reads-pure _)))

Reads-fence :
    (epoch : ℕ) (owner : Bytes)
    → IsU64 epoch
    → IsString owner
    → Reads log_record
        (fence epoch owner)
        (to_le_bytes 1 1 ++ (to_le_bytes 8 epoch ++ string_bytes owner))
unfolding log_record
Reads-fence epoch owner e h = Reads-bind _ _ 1 _ _ _ (Reads-number 1 1 (omega arith)) (
    Reads-bind _ _ epoch _ _ _ (Reads-number 8 epoch e)
      (Reads-bind_last _ _ owner _ _ (Reads-string owner h) (Reads-pure _)))

-- The record of a batch of at most 100,000 encodable operations decodes to the epoch and the
-- operations that were given, in their order.
pub decode-encode_log_operations :
    (epoch : ℕ) (ops : List Operation)
    → IsU64 epoch
    → length ops ≤ 100_000
    → All IsOperation ops
    → (encode_log_operations epoch ops >>= decode_log) ≡ ok (operations epoch ops)
unfolding encode_log_operations decode_log put_u32 to_le_bytes
decode-encode_log_operations epoch ops e n h =
    rw (lt→ltb (length ops) (2 ^ 32) (omega arith), put_operations_lem _ ops h)
      (decode_after_lem log_magic log_record (operations epoch ops) _ refl
        (Reads-operations epoch ops e n h) (omega (arith, length-all_bytes ops h)))

-- The record of a writer fence decodes to its epoch and its owner.
pub decode-encode_log_fence :
    (epoch : ℕ) (owner : Bytes)
    → IsU64 epoch
    → IsString owner
    → (encode_log_fence epoch owner >>= decode_log) ≡ ok (fence epoch owner)
unfolding encode_log_fence decode_log to_le_bytes
decode-encode_log_fence epoch owner e h = rw (put_string_lem _ owner h.0) (
    decode_after_lem log_magic log_record (fence epoch owner) _ refl (Reads-fence epoch owner e h)
      (omega arith))
