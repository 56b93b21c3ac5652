-- ===== src/Binary/Format.antt =====
-- The encoders and decoders of src/binary.rs.
use virt_warehouse_pro.Common.{
  ℕ, ◌^◌, List, [], ◌∷◌, ◌++◌, Bool, true, false, ◌&&◌, ltb, ◌==◌, if◌then◌else◌, Result, Error, ok,
  err, length, drop, ◌>>=◌,
}
use virt_warehouse_pro.Bytes.Words.{Bytes, to_le_bytes}
use virt_warehouse_pro.Model.{Operation}
use virt_warehouse_pro.Binary.Reader.{
  Parse, pure, fail, u8, u64, i64, count, string, repeat, new, whole, value_of,
}
use virt_warehouse_pro.Binary.Reader.{◌>>=◌ as bind}

-- `starts_with`
unfoldable pub starts_with : Bytes → Bytes → Bool
starts_with [] d = true
starts_with (m ∷ ms) [] = false
starts_with (m ∷ ms) (b ∷ bs) = m == b && starts_with ms bs

-- "WOP1", "WBT1" and "WLG1"
abbrev pub op_magic : Bytes
op_magic = b'W' ∷ b'O' ∷ b'P' ∷ b'1' ∷ []

abbrev pub batch_magic : Bytes
batch_magic = b'W' ∷ b'B' ∷ b'T' ∷ b'1' ∷ []

abbrev pub log_magic : Bytes
log_magic = b'W' ∷ b'L' ∷ b'G' ∷ b'1' ∷ []

pub data BinaryLogRecord : Type 0 where
  fence : ℕ → Bytes → BinaryLogRecord
  operations : ℕ → List Operation → BinaryLogRecord

unfoldable pub put_u32 : Bytes → ℕ → Result Bytes
put_u32 out value =
    if ltb value (2 ^ 32) then ok (out ++ to_le_bytes 4 value) else err Error.count_too_large

unfoldable pub put_string : Bytes → Bytes → Result Bytes
put_string out value =
    if ltb (length value) (2 ^ 16)
    then ok ((out ++ to_le_bytes 2 (length value)) ++ value)
    else err Error.string_too_long

unfoldable pub put_operation : Bytes → Operation → Result Bytes
put_operation out op = do
  out ← put_string out op.operation_id
  out ← put_string out op.owner_id
  out ← put_string out op.sku
  ok ((out ++ to_le_bytes 8 op.delta) ++ to_le_bytes 8 op.event_version)

-- `for op in operations { put_operation(&mut out, op)?; }`
unfoldable pub put_operations : Bytes → List Operation → Result Bytes
put_operations out [] = ok out
put_operations out (op ∷ ops) = do out ← put_operation out op; put_operations out ops

unfoldable pub encode_operation : Operation → Result Bytes
encode_operation op = put_operation op_magic op

unfoldable pub encode_batch : List Operation → Result Bytes
encode_batch ops = do out ← put_u32 batch_magic (length ops); put_operations out ops

unfoldable pub encode_log_operations : ℕ → List Operation → Result Bytes
encode_log_operations epoch ops = do
  out ← put_u32 ((log_magic ++ 2 ∷ []) ++ to_le_bytes 8 epoch) (length ops)
  put_operations out ops

unfoldable pub encode_log_fence : ℕ → Bytes → Result Bytes
encode_log_fence epoch owner = put_string ((log_magic ++ 1 ∷ []) ++ to_le_bytes 8 epoch) owner

-- `Reader::operation`
unfoldable pub operation : Parse Operation
operation = bind string λ operation_id. bind string λ owner_id. bind string λ sku. bind i64 λ delta.
    bind u64 λ event_version. pure (record {
      operation_id = operation_id;
      owner_id = owner_id;
      sku = sku;
      delta = delta;
      event_version = event_version;
    })

-- `for _ in 0..count { result.push(r.operation()?); }`
unfoldable pub batch : Parse (List Operation)
batch = bind count λ n. repeat n operation

unfoldable pub log_record : Parse BinaryLogRecord
log_record = bind u8 λ kind. bind u64 λ epoch.
    if kind == 1
    then bind string (λ owner. pure (fence epoch owner))
    else if kind == 2
    then bind batch (λ ops. pure (operations epoch ops))
    else fail Error.unknown_kind

-- `ensure!(data.starts_with(MAGIC))`, and the reader over what follows.
unfoldable pub decode_after : {A : Type 0} → Bytes → Parse A → Bytes → Result A
decode_after magic p d =
    if starts_with magic d then value_of (whole p (new (drop 4 d))) else err Error.bad_magic

unfoldable pub decode_operation : Bytes → Result Operation
decode_operation = decode_after op_magic operation

unfoldable pub decode_batch : Bytes → Result (List Operation)
decode_batch = decode_after batch_magic batch

unfoldable pub decode_log : Bytes → Result BinaryLogRecord
decode_log = decode_after log_magic log_record
