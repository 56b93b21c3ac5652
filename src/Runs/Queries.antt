-- ===== src/Runs/Queries.antt =====
-- Runs of the queries and of the configuration.
use virt_warehouse_pro.Common.{◌<◌, ◌≡◌, refl, [], ◌∷◌, none, some, false, ok}
use virt_warehouse_pro.Common.Eq.{list_eq, nat_eq}
use virt_warehouse_pro.Common.Map.{get, insert}
use virt_warehouse_pro.Common.Map as Map
use virt_warehouse_pro.Bytes.Words.{Bytes, from_le_bytes, to_le_bytes}
use virt_warehouse_pro.Bytes.Order.{bytes_lt, within, select}
use virt_warehouse_pro.Bytes.Utf8.{from_utf8, chars}
use virt_warehouse_pro.Store.Types.{shard_for}
use virt_warehouse_pro.Store.Apply.{Balances, or_zero}
use virt_warehouse_pro.Binary.Reader.{done, lift, number, pure, string, take_bytes, whole}
use virt_warehouse_pro.Binary.Format.{
  encode_operation, put_operation, put_string, put_u32, decode_operation, decode_after, operation,
  starts_with,
}
use virt_warehouse_pro.Disk.History.{
  materialize_history_batch, write_records, put_operations, put, index_key, index_prefix, point,
}
use virt_warehouse_pro.Disk.History.Lookup.{
  scan_operations, scan_loop, by_owner, by_index, index_loop, is_before,
}
use virt_warehouse_pro.Service.Queries.{
  Answer.found, get_owner_balances, get_balance, HistoryPage, scan_page, get_operations_by_owner,
  get_operations_batch, answer_page, ensure_history_complete, history_page,
}
use virt_warehouse_pro.Service.Queries.Positions.{get_balance-get_owner_balances}
use virt_warehouse_pro.Service.Queries.Pages.{
  IsPageOf, scan_page-IsPageOf, get_operations_by_owner-IsPageOf,
}
use virt_warehouse_pro.Service.Queries.Batches.{IsBatchAnswer, get_operations_batch-IsBatchAnswer}
use virt_warehouse_pro.Config.{
  Environment, Config, from_env, env_value, parse_usize, parse_number, parse_digits,
  is_power_of_two, unless_blank,
}
use virt_warehouse_pro.Config.Shards.{from_env-shard_for}
use virt_warehouse_pro.Runs.{intake, test_hashes, map_tree}
use virt_warehouse_pro.Runs.Histories.{reads, history_after}

abbrev stock : Balances
stock = ((b'a' ∷ [], b'y' ∷ []), 3) ∷ ((b'b' ∷ [], b'x' ∷ []), 4) ∷ ((b'a' ∷ [], b'x' ∷ []), 5) ∷ []

get_balance-get_owner_balances_example :
    or_zero (Map.get (b'x' ∷ []) (get_owner_balances stock 7 (b'a' ∷ [])).positions)
    ≡ (get_balance stock 7 (b'a' ∷ []) (b'x' ∷ [])).balance
get_balance-get_owner_balances_example =
    get_balance-get_owner_balances stock 7 (b'a' ∷ []) (b'x' ∷ [])

abbrev first_page : HistoryPage
first_page = record { operations = intake ∷ []; next_cursor = some intake.operation_id }

scanned : scan_page reads history_after 12 12 none (some 1) ≡ found first_page
unfolding scan_page answer_page ensure_history_complete scan_operations scan_loop select
    materialize_history_batch write_records put_operations encode_operation put_operation put_string
    put_u32 put insert within bytes_lt decode_operation decode_after operation starts_with done lift
    number pure string take_bytes whole virt_warehouse_pro.Binary.Reader.◌>>=◌ chars from_utf8
    from_le_bytes to_le_bytes index_key index_prefix history_page point
scanned = refl

scan_page-IsPageOf_example : IsPageOf 12 12 10_000 1 first_page
scan_page-IsPageOf_example =
    scan_page-IsPageOf reads history_after 12 12 none (some 1) first_page scanned

owned_page :
    get_operations_by_owner reads history_after 12 12 (b'a' ∷ []) none (some 1) ≡ found first_page
unfolding get_operations_by_owner answer_page ensure_history_complete by_owner by_index index_loop
    is_before get select materialize_history_batch write_records put_operations encode_operation
    put_operation put_string put_u32 put insert within bytes_lt decode_operation decode_after
    operation starts_with done lift number pure string take_bytes whole
    virt_warehouse_pro.Binary.Reader.◌>>=◌ chars from_utf8 from_le_bytes to_le_bytes index_key
    index_prefix history_page point
owned_page = refl

get_operations_by_owner-IsPageOf_example : IsPageOf 12 12 1000 1 first_page
get_operations_by_owner-IsPageOf_example =
    get_operations_by_owner-IsPageOf reads history_after 12 12 (b'a' ∷ []) none (some 1) first_page
      owned_page

get_operations_batch-IsBatchAnswer_example :
    IsBatchAnswer test_hashes reads history_after
      (intake.operation_id ∷ [])
      12
      12
      (get_operations_batch test_hashes reads history_after 12 12 (intake.operation_id ∷ []))
get_operations_batch-IsBatchAnswer_example =
    get_operations_batch-IsBatchAnswer test_hashes reads history_after 12 12
      (intake.operation_id ∷ [])

abbrev no_variables : Environment
no_variables name = none

abbrev defaults : Config Bytes
defaults = record {
  bind = b'h' ∷ [];
  data_dir = b'd' ∷ b'a' ∷ b't' ∷ b'a' ∷ [];
  shards = 16;
  wal_batch = 1024;
  wal_flush_interval = 2;
  nats_url = none;
  live_tail = false;
  fail_after_replicate_id = none;
  instance_id =
      b'w' ∷ b'a' ∷ b'r' ∷ b'e' ∷ b'h' ∷ b'o' ∷ b'u' ∷ b's' ∷ b'e' ∷ b'-' ∷ b'l' ∷ b'o' ∷ b'c'
      ∷ b'a' ∷ b'l' ∷ [];
  writer_priority_delay = 0;
}

read_defaults : from_env (λ text. ok (b'h' ∷ [])) no_variables ≡ ok defaults
unfolding from_env env_value parse_usize parse_number parse_digits is_power_of_two unless_blank
read_defaults = refl

from_env-shard_for_example : (0 < 1024) × (shard_for test_hashes (b'a' ∷ []) (b'x' ∷ []) 16 < 16)
from_env-shard_for_example =
    from_env-shard_for (λ text. ok (b'h' ∷ [])) no_variables defaults test_hashes (b'a' ∷ [])
      (b'x' ∷ []) read_defaults
