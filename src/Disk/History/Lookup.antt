-- ===== src/Disk/History/Lookup.antt =====
-- The reads of the history in src/dedup_disk.rs.
use virt_warehouse_pro.Common.{
  ℕ, List, [], ◌∷◌, ◌++◌, Option, none, some, Bool, true, false, not, ◌||◌, ◌==◌ as nat_beq, Result,
  ok, ◌>>=◌, ◌>>◌, length, drop,
}
use virt_warehouse_pro.Common.Eq.{◌==◌, list_eq, nat_eq}
use virt_warehouse_pro.Bytes.Words.{Bytes}
use virt_warehouse_pro.Bytes.Utf8.{from_utf8}
use virt_warehouse_pro.Bytes.Order.{bytes_lt}
use virt_warehouse_pro.Model.{Operation}
use virt_warehouse_pro.Binary.Format.{decode_operation}
use virt_warehouse_pro.Store.Types.{Hashes, operation_id_hash}
use virt_warehouse_pro.Disk.Tree.{Tree}
use virt_warehouse_pro.Disk.History.{
  index_prefix, Table, lsm_history, lsm_by_owner, lsm_by_sku, old_history, old_by_owner, old_by_sku,
  History, HistoryReads, point, decode_old,
}

-- `cursor.is_some_and(|cursor| id <= cursor)`
unfoldable pub is_before : Option Bytes → Bytes → Bool
is_before none id = false
is_before (some cursor) id = not (bytes_lt cursor id)

-- What a loop has collected, and whether it ended at the limit.
pub record Page : Type 0 where
  pub operations : List Operation
  pub full : Bool

abbrev pub is_empty : List Operation → Bool
is_empty [] = true
is_empty (op ∷ ops) = false

abbrev pub is_nil : List (Bytes × Bytes) → Bool
is_nil [] = true
is_nil (e ∷ entries) = false

-- `cursor.unwrap_or("")`
abbrev pub or_start : Option Bytes → Bytes
or_start none = []
or_start (some cursor) = cursor

-- `cursor.is_some_and(|cursor| key.as_ref() == cursor.as_bytes())`
abbrev pub is_cursor : Option Bytes → Bytes → Bool
is_cursor none key = false
is_cursor (some cursor) key = key == cursor

module _ {K : Type 0} ⦃tree : Tree K⦄ (io : HistoryReads) (tables : History K) where
  -- The loop over the entries of an index, in `by_index`: of the index `index`, with the operations in
  -- `records`, which `decode` reads.
  unfoldable pub index_loop :
      Table
      → Table
      → (Bytes → Result Operation)
      → ℕ
      → Option Bytes
      → ℕ
      → List (Bytes × Bytes)
      → List Operation
      → Result Page
  index_loop index records decode skipped cursor limit [] result =
      ok (record { operations = result; full = false })
  index_loop index records decode skipped cursor limit ((index_key, operation_key) ∷ entries)
        result =
      do
        io.read index index_key
        id ← from_utf8 (drop skipped index_key)
        let next = index_loop index records decode skipped cursor limit entries
        elim (is_before cursor id) [
          | true ↦ next result
          | false ↦ do
            found ← point io tables records operation_key
            elim found [
              | none ↦ next result
              | some payload ↦ do
                op ← decode payload
                elim (nat_beq (length (result ++ (op ∷ []))) limit) [
                  | true ↦ ok (record { operations = result ++ (op ∷ []); full = true })
                  | false ↦ next (result ++ (op ∷ []))
                ]
            ]
        ]

  -- `by_index`, for the index `lsm` and the index `old` of the file
  unfoldable pub by_index : Table → Table → Bytes → Option Bytes → ℕ → Result (List Operation)
  by_index lsm old value cursor limit = do
    let prefix = index_prefix value
    let end = prefix ++ (255 ∷ [])
    page ←
        index_loop lsm lsm_history decode_operation (length prefix) cursor limit
          (tree.range prefix (some end) (tables lsm)) []
    elim (page.full
        || (not (is_empty page.operations) || not (is_nil (tree.entries (tables lsm_history))))) [
          | true ↦ ok page.operations
          | false ↦ do
            io.open_table old
            io.open_table old_history
            page ←
                index_loop old old_history (decode_old io) (length prefix) cursor limit
                  (tree.range prefix (some end) (tables old)) []
            ok page.operations
        ]

  unfoldable pub by_owner : Bytes → Option Bytes → ℕ → Result (List Operation)
  by_owner = by_index lsm_by_owner old_by_owner

  unfoldable pub by_sku : Bytes → Option Bytes → ℕ → Result (List Operation)
  by_sku = by_index lsm_by_sku old_by_sku

  -- The loop of `scan_operations`.
  unfoldable pub scan_loop :
      Option Bytes → ℕ → List (Bytes × Bytes) → List Operation → Result (List Operation)
  scan_loop cursor limit [] result = ok result
  scan_loop cursor limit ((key, value) ∷ entries) result = do
    io.read lsm_history key
    let next = scan_loop cursor limit entries
    elim (is_cursor cursor key) [
      | true ↦ next result
      | false ↦ do
        op ← decode_operation value
        elim (nat_beq (length (result ++ (op ∷ []))) limit) [
          | true ↦ ok (result ++ (op ∷ []))
          | false ↦ next (result ++ (op ∷ []))
        ]
    ]

  -- `scan_operations`
  unfoldable pub scan_operations : Option Bytes → ℕ → Result (List Operation)
  scan_operations cursor limit =
      scan_loop cursor limit (tree.range (or_start cursor) none (tables lsm_history)) []

module _ {K : Type 0} ⦃tree : Tree K⦄ (h : Hashes) (io : HistoryReads) (tables : History K) where
  -- A record of the file, by the hash of its id.
  unfoldable pub old_operation : Bytes → Result (Option Operation)
  old_operation operation_id = do
    value ← point io tables old_history (operation_id_hash h operation_id)
    elim value [ none ↦ ok none | some payload ↦ do op ← decode_old io payload; ok (some op) ]

  -- `get_operation`
  unfoldable pub get_operation : Bytes → Result (Option Operation)
  get_operation operation_id = do
    value ← point io tables lsm_history operation_id
    elim value [
      | some payload ↦ do op ← decode_operation payload; ok (some op)
      | none ↦ do io.open_table old_history; old_operation operation_id
    ]

  unfoldable pub read_each : List Bytes → Result (List Operation)
  read_each [] = ok []
  read_each (operation_id ∷ ids) = do
    value ← point io tables lsm_history operation_id
    found ← elim value [
      | some payload ↦ (do op ← decode_operation payload; ok (some op))
      | none ↦ old_operation operation_id
    ]
    rest ← read_each ids
    ok (elim found [ none ↦ rest | some op ↦ op ∷ rest ])

  -- `get_operations`
  unfoldable pub get_operations : List Bytes → Result (List Operation)
  get_operations operation_ids = do io.open_table old_history; read_each operation_ids
