-- ===== src/Runs/Requests.antt =====
-- Runs of the theorems on whole requests.
use virt_warehouse_pro.Common.{◌≡◌, refl, ap, arith, [], ◌∷◌, some, true, false, Error, map}
use virt_warehouse_pro.Common.Eq.{list_eq, nat_eq}
use virt_warehouse_pro.Common.Map.{get, insert}
use virt_warehouse_pro.Bytes.Words.{is_min64, abs64, wrapping_add, to_le_bytes}
use virt_warehouse_pro.Bytes.Utf8.{chars, trim, any_control}
use virt_warehouse_pro.Model.{ApplyResult, applied, validate, validate_identifier}
use virt_warehouse_pro.Store.Types.{
  DedupShards, entry_of, set_entry, fingerprint, dedup_shard, shard_for,
}
use virt_warehouse_pro.Store.Preflight.{
  ready, preflight_batch, unique_from, attempt, visit_from, visit_shard, visit_all, visit, in_shard,
  flags, has,
}
use virt_warehouse_pro.Store.Apply.{
  Balances, synced, broken, apply_from, apply_command, apply_batched, apply_preflight_batch,
  append_wal, fresh_of, known_results, set_results, set_result, collect, balance_of, add_delta,
}
use virt_warehouse_pro.Store.Finish.{finish_batch}
use virt_warehouse_pro.Store.Committed.{finish_batch-cancelled}
use virt_warehouse_pro.Service.{
  Node, Surroundings, apply_batch, answered, ensure_writer, validate_all, replicate, durable,
  commit, fenced, proceed, preflight,
}
use virt_warehouse_pro.Service.Outcomes.{AppliedOrSame, apply_batch-AppliedOrSame}
use virt_warehouse_pro.Service.Retries.{apply_batch-repeated}
use virt_warehouse_pro.Service.Repeat.{repeated}
use virt_warehouse_pro.Runs.{intake, dispatch, test_hashes, test_disk}
use virt_warehouse_pro.Runs.Stores.{
  key, applied_memory, applied_memory-IsFresh, node, leased, lease_lem,
}

-- What a request of a known and of a new operation reserves.
abbrev reserved_memory : DedupShards
reserved_memory =
    (preflight_batch test_hashes test_disk 3 applied_memory [] (intake ∷ dispatch ∷ [])).1

is_ready :
    (preflight_batch test_hashes test_disk 3 applied_memory [] (intake ∷ dispatch ∷ [])).0
    ≡ ready (false ∷ true ∷ [])
unfolding preflight_batch unique_from get insert attempt visit_from visit_shard in_shard dedup_shard
    visit_all visit entry_of set_entry fingerprint to_le_bytes flags
is_ready = refl

reserves :
    preflight_batch test_hashes test_disk 3 applied_memory [] (intake ∷ dispatch ∷ [])
    ≡ (ready (false ∷ true ∷ []), reserved_memory)
reserves = ap (λ o. (o, reserved_memory)) is_ready

abbrev one_balance : Balances
one_balance = (key, 7) ∷ []

finish_batch-cancelled_example :
    entry_of
      (finish_batch test_hashes reserved_memory one_balance
        (intake ∷ dispatch ∷ [])
        (false ∷ true ∷ [])
        false).memory
      dispatch.operation_id
    ≡ entry_of applied_memory dispatch.operation_id
finish_batch-cancelled_example =
    finish_batch-cancelled test_hashes test_disk 3 applied_memory [] (intake ∷ dispatch ∷ [])
      (false ∷ true ∷ []) reserved_memory one_balance applied_memory-IsFresh reserves
      dispatch.operation_id

-- The append to the log fails, and its record is in the file all the same.
abbrev failing : Surroundings
failing = record leased { lease_after = some (some 4); appended = broken Error.io 1 }

apply_batch-AppliedOrSame_example :
    AppliedOrSame test_hashes 2 test_disk failing node []
      (dispatch ∷ [])
      (apply_batch test_hashes 2 test_disk failing node [] (dispatch ∷ []))
apply_batch-AppliedOrSame_example =
    apply_batch-AppliedOrSame test_hashes 2 test_disk failing node [] (dispatch ∷ []) (omega arith)
      applied_memory-IsFresh (λ keys. refl)

abbrev working : Surroundings
working = record failing { appended = synced }

abbrev after_dispatch : Node
after_dispatch = (apply_batch test_hashes 2 test_disk working node [] (dispatch ∷ [])).1

abbrev dispatched : ApplyResult
dispatched = record { operation_id = dispatch.operation_id; status = applied; balance = 5 }

is_answered :
    (apply_batch test_hashes 2 test_disk working node [] (dispatch ∷ [])).0
    ≡ answered (dispatched ∷ [])
unfolding apply_batch ensure_writer validate_all validate validate_identifier chars trim any_control
    is_min64 abs64 preflight preflight_batch unique_from get attempt visit_from visit_shard
    visit_all visit in_shard flags has dedup_shard entry_of set_entry fingerprint to_le_bytes insert
    proceed durable replicate fenced commit apply_preflight_batch apply_batched append_wal fresh_of
    known_results set_results set_result collect apply_from apply_command add_delta balance_of
    wrapping_add shard_for
is_answered = refl

apply_batch-repeated_example :
    apply_batch test_hashes 2 test_disk leased after_dispatch [] (dispatch ∷ [])
    ≡ (answered (map (repeated after_dispatch.published) (dispatch ∷ [])), after_dispatch)
apply_batch-repeated_example =
    apply_batch-repeated test_hashes 2 test_disk working leased node after_dispatch []
      (dispatch ∷ []) (dispatched ∷ []) 4 (omega arith) applied_memory-IsFresh (λ keys. refl)
      (ap (λ r. (r, after_dispatch)) is_answered) lease_lem
