-- ===== src/Cluster.antt =====
-- src/cluster.rs: the records of the shared log, and how they are read. `catch_up` and
-- `run_history_tail` of src/main.rs, which follow the log, are child modules.
use virt_warehouse_pro.Common.{ℕ, ◌^◌, ◌-◌, List, [], ◌∷◌, Result, ok, err, Error, ◌>>=◌, ◌>>◌}
use virt_warehouse_pro.Bytes.Words.{Bytes}
use virt_warehouse_pro.Model.{Operation, Checked, valid, invalid, validate}
use virt_warehouse_pro.Binary.Format.{BinaryLogRecord, decode_log}
pub mod Replay
pub mod Follow
pub mod History
pub mod Reading
pub mod Lease
pub mod Holding

pub data LogRecord : Type 0 where
  fence : ℕ → Bytes → LogRecord
  operations : ℕ → List Operation → LogRecord

-- `u64::MAX`, the epoch of the record that stands for a poison message
abbrev pub poison_epoch : ℕ
poison_epoch = 2 ^ 64 - 1

-- The JSON readers for messages of older versions.
pub record JsonLog : Type 0 where
  pub record_from_json : Bytes → Result LogRecord
  pub operations_from_json : Bytes → Result (List Operation)

abbrev pub log_record_of : BinaryLogRecord → LogRecord
log_record_of (BinaryLogRecord.fence epoch owner) = fence epoch owner
log_record_of (BinaryLogRecord.operations epoch ops) = operations epoch ops

-- `for operation in operations { operation.validate()...?; }`
unfoldable pub validate_all : List Operation → Result (Unit {0})
validate_all [] = ok tt
validate_all (op ∷ ops) = elim (validate op) [
  | valid ↦ validate_all ops
  | invalid why ↦ err Error.legacy
]

unfoldable pub check_record : LogRecord → Result LogRecord
check_record (fence epoch owner) = ok (fence epoch owner)
check_record (operations epoch ops) = do validate_all ops; ok (operations epoch ops)

module _ (json : JsonLog) where
  -- The three formats of a payload, tried in this order.
  unfoldable pub parse_record : Bytes → Result LogRecord
  parse_record payload = elim (decode_log payload) [
    | ok r ↦ ok (log_record_of r)
    | err e ↦ elim (json.record_from_json payload) [
      | ok r ↦ ok r
      | err e ↦ do ops ← json.operations_from_json payload; ok (operations 0 ops)
    ]
  ]

  -- `read`, on the message that the stream returns; `dlq` is what publishing to the dead letter
  -- stream comes to.
  unfoldable pub read : Result Bytes → Result (Unit {0}) → Result LogRecord
  read (err e) dlq = err e
  read (ok payload) dlq = elim (parse_record payload >>= check_record) [
    | ok r ↦ ok r
    | err e ↦ elim dlq [ ok u ↦ ok (operations poison_epoch []) | err e ↦ err e ]
  ]
