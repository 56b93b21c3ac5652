-- ===== src/Disk/History.antt =====
-- The history of operations in src/dedup_disk.rs: the tables of the LSM tree, and the file of older
-- installations.
use virt_warehouse_pro.Common.{
  ℕ, zero, suc, ◌≡◌, List, [], ◌∷◌, ◌++◌, Option, none, some, Bool, true, false, not, ◌&&◌, ◌||◌,
  ◌==◌ as nat_beq, ltb, if◌then◌else◌, Result, Error, ok, err, ◌>>=◌, ◌>>◌, ensure, length, drop,
}
use virt_warehouse_pro.Common.Eq.{◌==◌, list_eq, nat_eq}
use virt_warehouse_pro.Bytes.Words.{Bytes, to_le_bytes, from_le_bytes}
use virt_warehouse_pro.Bytes.Utf8.{from_utf8}
use virt_warehouse_pro.Bytes.Order.{bytes_lt}
use virt_warehouse_pro.Model.{Operation}
use virt_warehouse_pro.Binary.Format.{encode_operation, decode_operation}
use virt_warehouse_pro.Store.Types.{Hashes, operation_id_hash}
use virt_warehouse_pro.Cluster.Replay.{HistoryRecord}
use virt_warehouse_pro.Disk.Tree.{Tree, get, insert}
pub mod Lookup
pub mod Bounds
pub mod Ranges
pub mod Index

-- `index_prefix`
unfoldable pub index_prefix : Bytes → Bytes
index_prefix value = value ++ (0 ∷ [])

-- `index_key`
unfoldable pub index_key : Bytes → Bytes → Bytes
index_key value operation_id = index_prefix value ++ operation_id

-- The tables of the history; those of the file have the prefix `old`.
pub data Table : Type 0 where
  lsm_history lsm_by_owner lsm_by_sku lsm_history_meta old_history old_by_owner old_by_sku : Table

-- The tables by their names; the file is only read.
abbrev pub History : Type 0 → Type 0
History K = Table → K

abbrev table_beq : Table → Table → Bool
table_beq lsm_history lsm_history = true
table_beq lsm_by_owner lsm_by_owner = true
table_beq lsm_by_sku lsm_by_sku = true
table_beq lsm_history_meta lsm_history_meta = true
table_beq a b = false

-- What the databases answer: to the transaction that opens a table of the file, and to a read of a
-- key or of an entry.
pub record HistoryReads : Type 0 where
  pub open_table : Table → Result (Unit {0})
  pub read : Table → Bytes → Result (Unit {0})
  -- `serde_json::from_slice`
  pub from_json : Bytes → Result Operation

abbrev pub history_sequence : Bytes
history_sequence = 1 ∷ []

abbrev pub history_epoch : Bytes
history_epoch = 2 ∷ []

abbrev pub history_binary_migration : Bytes
history_binary_migration = 3 ∷ []

abbrev pub history_lsm_id_format : Bytes
history_lsm_id_format = 4 ∷ []

-- `binary::decode_operation`, or the JSON of older versions
unfoldable pub decode_old : HistoryReads → Bytes → Result Operation
decode_old io payload = elim (decode_operation payload) [
  | ok op ↦ ok op
  | err why ↦ io.from_json payload
]

-- `batch.insert`
unfoldable pub put : {K : Type 0} ⦃tree : Tree K⦄ → Table → Bytes → Bytes → History K → History K
put name key value tables =
    λ other. if table_beq name other then insert key value (tables other) else tables other

module _ {K : Type 0} ⦃tree : Tree K⦄ (io : HistoryReads) where
  -- `get` of a table
  unfoldable pub point : History K → Table → Bytes → Result (Option Bytes)
  point tables name key = do io.read name key; ok (get key (tables name))

  -- `lsm_u64`
  unfoldable pub lsm_u64 : History K → Bytes → Result ℕ
  lsm_u64 tables key = do
    value ← point tables lsm_history_meta key
    elim value [
      | none ↦ ok 0
      | some bytes ↦ do ensure (nat_beq (length bytes) 8) Error.bad_length; ok (from_le_bytes bytes)
    ]

  -- `history_progress`
  unfoldable pub history_progress : History K → Result (ℕ × ℕ)
  history_progress tables = do
    sequence ← lsm_u64 tables history_sequence
    epoch ← lsm_u64 tables history_epoch
    ok (sequence, epoch)

  -- `prepare_binary_history_migration`; `committed` is the answer to the commit and the sync.
  unfoldable pub prepare_binary_history_migration :
      Result (Unit {0}) → History K → Result (History K × (ℕ × ℕ))
  prepare_binary_history_migration committed tables = do
    state ← lsm_u64 tables history_lsm_id_format
    elim (nat_beq state 0) [
      | true ↦ do
        committed
        ok (
          put lsm_history_meta history_lsm_id_format (to_le_bytes 8 1) (
              put lsm_history_meta history_binary_migration (to_le_bytes 8 1) (
                put lsm_history_meta history_epoch (to_le_bytes 8 0)
                  (put lsm_history_meta history_sequence (to_le_bytes 8 0) tables))),
          (0, 0),
        )
      | false ↦ do progress ← history_progress tables; ok (tables, progress)
    ]

-- `complete_binary_history_migration`; `written` is the answer to the writes and the sync.
unfoldable pub complete_binary_history_migration :
    {K : Type 0} ⦃tree : Tree K⦄ → Result (Unit {0}) → History K → Result (History K)
complete_binary_history_migration written tables = do
  written
  ok (
      put lsm_history_meta history_lsm_id_format (to_le_bytes 8 2)
        (put lsm_history_meta history_binary_migration (to_le_bytes 8 2) tables))

-- `records.last()`
abbrev pub last_record : HistoryRecord → List HistoryRecord → HistoryRecord
last_record r [] = r
last_record r (s ∷ records) = last_record s records

module _ {K : Type 0} ⦃tree : Tree K⦄ where
  unfoldable pub put_operations : List Operation → History K → Result (History K)
  put_operations [] tables = ok tables
  put_operations (op ∷ ops) tables = do
    payload ← encode_operation op
    put_operations ops (
        put lsm_by_sku (index_key op.sku op.operation_id) op.operation_id (
          put lsm_by_owner (index_key op.owner_id op.operation_id) op.operation_id
            (put lsm_history op.operation_id payload tables)))

  unfoldable pub write_records : List HistoryRecord → History K → Result (History K)
  write_records [] tables = ok tables
  write_records (r ∷ records) tables = do
    tables ← put_operations r.2 tables
    write_records records tables

  -- `materialize_history_batch`
  unfoldable pub materialize_history_batch :
      Result (Unit {0}) → History K → List HistoryRecord → Result (History K)
  materialize_history_batch committed tables [] = ok tables
  materialize_history_batch committed tables (r ∷ records) = do
    written ← write_records (r ∷ records) tables
    committed
    ok (
        put lsm_history_meta history_epoch (to_le_bytes 8 (last_record r records).1)
          (put lsm_history_meta history_sequence (to_le_bytes 8 (last_record r records).0) written))
