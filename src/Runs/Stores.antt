-- ===== src/Runs/Stores.antt =====
-- Runs of the theorems on the store and on the handlers.
use virt_warehouse_pro.Common.{
  ◌≡◌, ◌≢◌, refl, sym, ◌∙◌, arith, List, [], ◌∷◌, Option, none, some, Bool, false, ok, Error, map,
  Bool-cases, inl, inr,
}
use virt_warehouse_pro.Common.Eq.{◌==◌, list_eq, nat_eq}
use virt_warehouse_pro.Common.Map.{get, insert}
use virt_warehouse_pro.Bytes.Words.{is_min64, abs64, wrapping_add, to_le_bytes}
use virt_warehouse_pro.Bytes.Utf8.{chars, trim, any_control}
use virt_warehouse_pro.Model.{Operation, validate, validate_identifier}
use virt_warehouse_pro.Snapshot.Data.{SnapshotData}
use virt_warehouse_pro.Store.Types.{
  Key, Hash, Fingerprint, DedupEntry, committed, pending, DedupShards, entry_of, set_entry,
  fingerprint, dedup_shard, shard_for,
}
use virt_warehouse_pro.Store.Index.{entry_of-set_entry}
use virt_warehouse_pro.Store.Preflight.{
  ready, rejected, preflight_batch, unique_from, attempt, visit_from, visit_shard, visit_all, visit,
  in_shard,
}
use virt_warehouse_pro.Store.Rollback.{IsFresh, contains}
use virt_warehouse_pro.Store.Undo.{preflight_batch-unchanged}
use virt_warehouse_pro.Store.Known.{known, IsKnown, preflight_batch-IsKnown}
use virt_warehouse_pro.Store.Apply.{Shards, synced, apply_from, balance_of, add_delta}
use virt_warehouse_pro.Store.Balances.{after, store_balance, store_balance-apply_from}
use virt_warehouse_pro.Store.Start.{
  start, start_disk, load_dedup, replay_dedup, at, load_balances, replay_balances, entries_of,
}
use virt_warehouse_pro.Store.Recovered.{
  after_all, distinct, store_balance-start, store_balance-start_again,
}
use virt_warehouse_pro.Service.{
  Node, Surroundings, apply_batch, answered, ensure_writer, validate_all,
}
use virt_warehouse_pro.Service.Repeat.{repeated, apply_batch-IsKnown}
use virt_warehouse_pro.Runs.{intake, dispatch, test_hashes, test_disk, insert_all}

abbrev pub key : Key
key = (b'a' ∷ [], b'x' ∷ [])

abbrev no_balances : Shards
no_balances i = []

store_balance-apply_from_example :
    store_balance test_hashes 2
      (apply_from test_hashes 2 2 0 no_balances ((0, intake) ∷ (1, dispatch) ∷ [])).0
      key
    ≡ after key (store_balance test_hashes 2 no_balances key) ((0, intake) ∷ (1, dispatch) ∷ [])
store_balance-apply_from_example =
    store_balance-apply_from test_hashes 2 no_balances ((0, intake) ∷ (1, dispatch) ∷ []) key
      (omega arith)

-- A log in which one record stands twice.
abbrev logged : List Operation
logged = intake ∷ dispatch ∷ intake ∷ []

abbrev on_disk : List (Hash × Fingerprint)
on_disk = insert_all [] (
    (intake.operation_id, fingerprint test_hashes intake)
    ∷ (dispatch.operation_id, fingerprint test_hashes dispatch)
    ∷ [])

abbrev rebuilt : Option SnapshotData → Shards
rebuilt snapshot =
    replay_balances test_hashes 2 [] (load_balances test_hashes 2 (λ i. []) (entries_of snapshot))
      logged

abbrev taken : SnapshotData
taken = record {
  version = 3;
  sequence = 3;
  balances = record { owner_id = b'a' ∷ []; sku = b'x' ∷ []; balance = 5 } ∷ [];
  dedup = [];
  writer_epoch = 0;
}

first_start : start test_hashes 2 test_disk [] logged none ≡ ok (rebuilt none, on_disk)
unfolding start start_disk load_dedup replay_dedup contains
first_start = refl

second_start :
    start test_hashes 2 test_disk on_disk logged (some taken) ≡ ok (rebuilt (some taken), on_disk)
unfolding start start_disk load_dedup replay_dedup contains insert
second_start = refl

store_balance-start_example :
    store_balance test_hashes 2 (rebuilt none) key
    ≡ after_all key 0 (distinct test_hashes [] logged)
store_balance-start_example =
    store_balance-start test_hashes 2 test_disk [] on_disk logged none (rebuilt none) key
      first_start

taken_lem : 5 ≡ store_balance test_hashes 2 (rebuilt none) key
unfolding store_balance balance_of get replay_balances contains at shard_for add_delta insert
    load_balances wrapping_add
taken_lem = refl

store_balance-start_again_example :
    store_balance test_hashes 2 (rebuilt (some taken)) key
    ≡ after_all key
        (after_all key 0 (distinct test_hashes [] logged))
        (distinct test_hashes [] logged)
store_balance-start_again_example =
    store_balance-start_again test_hashes 2 test_disk [] on_disk on_disk on_disk logged taken
      (rebuilt none) (rebuilt (some taken)) key first_start taken_lem second_start

-- The index in memory of a node that has applied `intake`.
abbrev pub applied_memory : DedupShards
applied_memory =
    set_entry (λ i. []) intake.operation_id (committed (fingerprint test_hashes intake))

-- The id of `intake`, with another delta.
abbrev clash : Operation
clash = record intake { delta = 8 }

no_entry : (j : Hash) → entry_of (λ i. []) j ≡ none
unfolding entry_of get
no_entry j = refl

pub applied_memory-IsFresh : IsFresh 3 applied_memory
applied_memory-IsFresh j f e =
    let found =
      entry_of-set_entry (λ i. []) intake.operation_id j
        (committed (fingerprint test_hashes intake)) in
    elim (Bool-cases (intake.operation_id == j)) [
      | inl same ↦
          let that : Path (Option DedupEntry) (some (committed (fingerprint test_hashes intake)))
              (some (pending f 3)) =
            sym (found ∙ rw same refl) ∙ e in
          cc
      | inr other ↦
          let that : Path (Option DedupEntry) none (some (pending f 3)) =
            sym (found ∙ rw other (no_entry j)) ∙ e in
          cc
    ]

not_ready : (news : List Bool) → rejected (Error.conflict intake.operation_id) ≢ ready news
not_ready news e = cc

clash-refused :
    (preflight_batch test_hashes test_disk 3 applied_memory [] (dispatch ∷ clash ∷ [])).0
    ≡ rejected (Error.conflict intake.operation_id)
unfolding preflight_batch unique_from get insert attempt visit_from visit_shard in_shard dedup_shard
    visit_all visit entry_of set_entry fingerprint to_le_bytes
clash-refused = refl

preflight_batch-unchanged_example :
    entry_of
      (preflight_batch test_hashes test_disk 3 applied_memory [] (dispatch ∷ clash ∷ [])).1
      dispatch.operation_id
    ≡ entry_of applied_memory dispatch.operation_id
preflight_batch-unchanged_example =
    preflight_batch-unchanged test_hashes 3 applied_memory test_disk [] (dispatch ∷ clash ∷ [])
      applied_memory-IsFresh (λ keys. (map (test_disk.stored []) keys, refl))
      (λ news e. not_ready news (sym clash-refused ∙ e)) dispatch.operation_id

intake-IsKnown : IsKnown test_hashes test_disk applied_memory [] intake
unfolding known entry_of get set_entry dedup_shard insert
intake-IsKnown = refl

preflight_batch-IsKnown_example :
    preflight_batch test_hashes test_disk 3 applied_memory [] (intake ∷ [])
    ≡ (ready (false ∷ []), applied_memory)
preflight_batch-IsKnown_example =
    preflight_batch-IsKnown test_hashes test_disk applied_memory [] 3 (intake ∷ []) (λ keys. refl)
      (intake-IsKnown, tt)

abbrev pub node : Node
node = record {
  memory = applied_memory;
  published = (key, 7) ∷ [];
  core = record { shards = λ i. (key, 7) ∷ []; wal = intake ∷ [] };
  queued = [];
}

abbrev pub leased : Surroundings
leased = record {
  lease = some (some 4);
  lease_after = some none;
  log = some (ok 9);
  appended = synced;
  reservation = 3;
}

intake-valid : validate_all (intake ∷ []) ≡ none
unfolding validate_all validate validate_identifier chars trim any_control is_min64 abs64
intake-valid = refl

pub lease_lem : ensure_writer leased.lease ≡ some 4
unfolding ensure_writer
lease_lem = refl

apply_batch-IsKnown_example :
    apply_batch test_hashes 2 test_disk leased node [] (intake ∷ [])
    ≡ (answered (map (repeated node.published) (intake ∷ [])), node)
apply_batch-IsKnown_example =
    apply_batch-IsKnown test_hashes 2 test_disk leased node [] 4 (intake ∷ []) lease_lem
      (omega arith) (omega arith) intake-valid (λ keys. refl) (intake-IsKnown, tt)
