-- ===== src/Service/Queries.antt =====
-- The handlers of src/main.rs that read, and the reads of src/state.rs behind them.
use virt_warehouse_pro.Common.{
  ℕ, List, [], ◌∷◌, Option, none, some, Bool, true, false, ◌||◌, ◌==◌ as nat_beq, ltb,
  if◌then◌else◌, Result, ok, err, length, map,
}
use virt_warehouse_pro.Common.Eq.{◌==◌, list_eq, nat_eq, pair_eq}
use virt_warehouse_pro.Bytes.Words.{Bytes, wrapping_add}
use virt_warehouse_pro.Bytes.Order.{bytes_lt}
use virt_warehouse_pro.Model.{Operation}
use virt_warehouse_pro.Store.Types.{Key, Hashes}
use virt_warehouse_pro.Store.Apply.{Balances, balance_of}
use virt_warehouse_pro.Service.{Failure, bad_request, unavailable, internal}
use virt_warehouse_pro.Disk.Tree.{Tree}
use virt_warehouse_pro.Disk.History.{History, HistoryReads}
use virt_warehouse_pro.Disk.History.Lookup.{
  by_owner, by_sku, scan_operations, get_operation, get_operations,
}
pub mod Positions
pub mod Pages
pub mod Batches

-- How a query ends.
pub data Answer {ℓ} (A : Type ℓ) : Type ℓ where
  found : A → Answer A
  not_found : Answer A
  refused : Failure → Answer A

-- `map_err(internal)?`, and what follows.
abbrev pub and_answer {ℓ κ} : {A : Type ℓ} {B : Type κ} → Result A → (A → Answer B) → Answer B
and_answer (err e) rest = refused (internal e)
and_answer (ok value) rest = rest value

-- `Store::balances`
unfoldable pub balances_for : Balances → List Key → List ℕ
balances_for published keys = map (balance_of published) keys

-- The entries of an owner, with their SKUs.
unfoldable pub owner_entries : Bytes → Balances → List (Bytes × ℕ)
owner_entries owner_id [] = []
owner_entries owner_id (((owner, sku), balance) ∷ published) =
    if owner == owner_id
    then (sku, balance) ∷ owner_entries owner_id published
    else owner_entries owner_id published

unfoldable pub insert_by_sku : Bytes × ℕ → List (Bytes × ℕ) → List (Bytes × ℕ)
insert_by_sku entry [] = entry ∷ []
insert_by_sku entry (other ∷ values) =
    if bytes_lt other.0 entry.0 then other ∷ insert_by_sku entry values else entry ∷ other ∷ values

-- `values.sort_by(|left, right| left.0.cmp(&right.0))`
unfoldable pub sort_by_sku : List (Bytes × ℕ) → List (Bytes × ℕ)
sort_by_sku [] = []
sort_by_sku (entry ∷ values) = insert_by_sku entry (sort_by_sku values)

-- `Store::balances_by_owner`
unfoldable pub balances_by_owner : Bytes → Balances → List (Bytes × ℕ)
balances_by_owner owner_id published = sort_by_sku (owner_entries owner_id published)

-- `sum`, of `i64`
unfoldable pub sum_of : List (Bytes × ℕ) → ℕ
sum_of [] = 0
sum_of ((sku, balance) ∷ positions) = wrapping_add balance (sum_of positions)

pub record OwnerSummary : Type 0 where
  pub owner_id : Bytes
  pub generation : ℕ
  pub total_balance : ℕ
  pub positions : List (Bytes × ℕ)

-- `get_owner_balances`; `generation` is the sequence of the checkpoint.
unfoldable pub get_owner_balances : Balances → ℕ → Bytes → OwnerSummary
get_owner_balances published generation owner_id = record {
  owner_id = owner_id;
  generation = generation;
  total_balance = sum_of (balances_by_owner owner_id published);
  positions = balances_by_owner owner_id published;
}

pub record BalanceBody : Type 0 where
  pub owner_id : Bytes
  pub sku : Bytes
  pub balance : ℕ
  pub generation : ℕ

-- `get_balance`
unfoldable pub get_balance : Balances → ℕ → Bytes → Bytes → BalanceBody
get_balance published generation owner_id sku = record {
  owner_id = owner_id;
  sku = sku;
  balance = balance_of published (owner_id, sku);
  generation = generation;
}

-- `get_balances_batch`
unfoldable pub get_balances_batch : Balances → List Key → Answer (List ℕ)
get_balances_batch published keys =
    if nat_beq (length keys) 0 || ltb 10_000 (length keys)
    then refused bad_request
    else found (balances_for published keys)

-- `ensure_history_complete`: the checkpoint, and that of the history.
unfoldable pub ensure_history_complete : ℕ → ℕ → Option Failure
ensure_history_complete required current = if ltb current required then some unavailable else none

abbrev pub last_id : Operation → List Operation → Bytes
last_id op [] = op.operation_id
last_id op (next ∷ ops) = last_id next ops

-- `operations.last().unwrap().operation_id`; the limit is positive, so that a full page is not empty.
abbrev pub last_of : List Operation → Option Bytes
last_of [] = none
last_of (op ∷ ops) = some (last_id op ops)

pub record HistoryPage : Type 0 where
  pub operations : List Operation
  pub next_cursor : Option Bytes

-- `history_page`
unfoldable pub history_page : List Operation → ℕ → HistoryPage
history_page operations limit = record {
  operations = operations;
  next_cursor = (if nat_beq (length operations) limit then last_of operations else none);
}

-- `query.limit.unwrap_or(default)`
abbrev pub limit_or : ℕ → Option ℕ → ℕ
limit_or default none = default
limit_or default (some limit) = limit

-- A page of a query that reads the history, after its checks.
unfoldable pub answer_page : ℕ → ℕ → ℕ → ℕ → (ℕ → Result (List Operation)) → Answer HistoryPage
answer_page required current most limit read = elim (ensure_history_complete required current) [
  | some why ↦ refused why
  | none ↦
      if nat_beq limit 0 || ltb most limit
      then refused bad_request
      else and_answer (read limit) (λ operations. found (history_page operations limit))
]

module _ {K : Type 0} ⦃tree : Tree K⦄ (io : HistoryReads) (tables : History K)
    (required current : ℕ) where
  -- `scan_operations` of src/main.rs
  unfoldable pub scan_page : Option Bytes → Option ℕ → Answer HistoryPage
  scan_page cursor limit =
      answer_page required current 10_000 (limit_or 10_000 limit) (scan_operations io tables cursor)

  -- `get_operations_by_owner`
  unfoldable pub get_operations_by_owner : Bytes → Option Bytes → Option ℕ → Answer HistoryPage
  get_operations_by_owner owner cursor limit =
      answer_page required current 1000 (limit_or 100 limit) (by_owner io tables owner cursor)

  -- `get_operations_by_sku`
  unfoldable pub get_operations_by_sku : Bytes → Option Bytes → Option ℕ → Answer HistoryPage
  get_operations_by_sku sku cursor limit =
      answer_page required current 1000 (limit_or 100 limit) (by_sku io tables sku cursor)

module _ {K : Type 0} ⦃tree : Tree K⦄ (h : Hashes) (io : HistoryReads) (tables : History K)
    (required current : ℕ) where
  -- `get_operation` of src/main.rs
  unfoldable pub answer_operation : Bytes → Answer Operation
  answer_operation operation_id = elim (ensure_history_complete required current) [
    | some why ↦ refused why
    | none ↦
        and_answer (get_operation h io tables operation_id)
          (λ value. elim value [ some op ↦ found op | none ↦ not_found ])
  ]

  -- `get_operations_batch`, on the ids that the body was decoded to
  unfoldable pub get_operations_batch : List Bytes → Answer (List Operation)
  get_operations_batch ids =
      if nat_beq (length ids) 0 || ltb 10_000 (length ids)
      then refused bad_request
      else and_answer (get_operations h io tables ids) (λ operations.
        if nat_beq (length operations) (length ids)
        then found operations
        else elim (ensure_history_complete required current) [
          | some why ↦ refused why
          | none ↦ not_found
        ])

-- `ready`: what the log answers within its time, and whether the lease is held, if there are these.
unfoldable pub is_ready : Option (Result ℕ) → Option Bool → Bool
is_ready (some (err e)) lease = false
is_ready log (some false) = false
is_ready log lease = true
