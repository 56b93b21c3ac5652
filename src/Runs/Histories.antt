-- ===== src/Runs/Histories.antt =====
-- Runs of the validation and of the history of operations.
use virt_warehouse_pro.Common.{
  ◌<◌, ◌≤◌, ◌≡◌, refl, arith, [], ◌∷◌, ◌++◌, some, Result, Error, ok, err,
}
use virt_warehouse_pro.Common.Eq.{list_beq, list_eq, nat_eq}
use virt_warehouse_pro.Common.Map as Map
use virt_warehouse_pro.Bytes.Words.{Bytes, abs64, is_min64, to_le_bytes}
use virt_warehouse_pro.Bytes.Order.{within}
use virt_warehouse_pro.Model.{validate, validate_identifier, valid}
use virt_warehouse_pro.Bytes.Utf8.{chars, trim, any_control}
use virt_warehouse_pro.Model.Identifiers.{IsIdentifier, validate-IsIdentifier}
use virt_warehouse_pro.Binary.Format.{encode_operation, put_operation, put_string, put_u32}
use virt_warehouse_pro.Cluster.Replay.{HistoryRecord}
use virt_warehouse_pro.Disk.History.{
  write_records, put_operations, index_prefix, index_key, History, HistoryReads, history_progress,
  materialize_history_batch,
}
use virt_warehouse_pro.Disk.History.Lookup.{get_operation}
use virt_warehouse_pro.Disk.History.Ranges.{index_key-within}
use virt_warehouse_pro.Disk.History.Index.{get_operation-materialize, history_progress-materialize}
use virt_warehouse_pro.Runs.Formats.{intake-IsOperation}
use virt_warehouse_pro.Runs.{intake, dispatch, test_hashes, map_tree}

intake_valid : validate intake ≡ valid
unfolding validate validate_identifier chars trim any_control is_min64 abs64
intake_valid = refl

validate-IsIdentifier_example :
    IsIdentifier intake.operation_id
    × IsIdentifier intake.owner_id
    × IsIdentifier intake.sku
    × (0 < abs64 intake.delta)
    × (abs64 intake.delta ≤ 1_000_000_000)
    × (intake.event_version ≡ 1)
validate-IsIdentifier_example = validate-IsIdentifier intake (omega arith) intake_valid

dispatch_valid : validate dispatch ≡ valid
unfolding validate validate_identifier chars trim any_control is_min64 abs64
dispatch_valid = refl

index_key-within_example :
    (within
        (index_prefix intake.owner_id)
        (some (index_prefix intake.owner_id ++ (255 ∷ [])))
        (index_key dispatch.owner_id dispatch.operation_id)
      ≡ list_beq dispatch.owner_id intake.owner_id)
    × (within
          (index_prefix intake.sku)
          (some (index_prefix intake.sku ++ (255 ∷ [])))
          (index_key dispatch.sku dispatch.operation_id)
        ≡ list_beq dispatch.sku intake.sku)
index_key-within_example =
    index_key-within intake dispatch (omega arith) (omega arith) intake_valid dispatch_valid

abbrev pub reads : HistoryReads
reads = record {
  open_table = λ table. ok tt;
  read = λ table key. ok tt;
  from_json = λ payload. err Error.legacy;
}

abbrev no_history : History (Map.Map Bytes Bytes)
no_history table = []

abbrev written_record : HistoryRecord
written_record = (12, 3, intake ∷ dispatch ∷ [])

abbrev tables_of : Result (History (Map.Map Bytes Bytes)) → History (Map.Map Bytes Bytes)
tables_of (ok tables) = tables
tables_of (err why) = no_history

abbrev pub history_after : History (Map.Map Bytes Bytes)
history_after = tables_of (materialize_history_batch (ok tt) no_history (written_record ∷ []))

materialized : materialize_history_batch (ok tt) no_history (written_record ∷ []) ≡ ok history_after
unfolding materialize_history_batch write_records put_operations encode_operation put_operation
    put_string put_u32 to_le_bytes
materialized = refl

get_operation-materialize_example :
    get_operation test_hashes reads history_after intake.operation_id ≡ ok (some intake)
get_operation-materialize_example =
    get_operation-materialize test_hashes reads (ok tt) no_history history_after written_record []
      intake.operation_id intake materialized refl intake-IsOperation refl

history_progress-materialize_example : history_progress reads history_after ≡ ok (12, 3)
history_progress-materialize_example =
    history_progress-materialize reads (ok tt) no_history history_after written_record []
      materialized (omega arith) (omega arith) refl refl
