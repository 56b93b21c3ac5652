-- ===== src/Store/Apply.antt =====
-- `run_shard`, `apply_batched`, `apply_reserved_batch` and `apply_preflight_batch` of src/state.rs.
use virt_warehouse_pro.Common.{
  ℕ, zero, suc, List, [], ◌∷◌, ◌++◌, Option, none, some, Bool, true, false, ltb, ◌==◌ as nat_beq,
  if◌then◌else◌, Result, Error, ok, err, ◌>>=◌, map, take,
}
use virt_warehouse_pro.Common.Eq.{list_eq, nat_eq, pair_eq}
use virt_warehouse_pro.Common.Map.{Map, get, insert}
use virt_warehouse_pro.Bytes.Words.{wrapping_add}
use virt_warehouse_pro.Model.{Operation, ApplyResult, applied, duplicate}
use virt_warehouse_pro.Store.Types.{Key, Hashes, shard_for}
use virt_warehouse_pro.Store.Preflight.{Indexed, in_shard}

abbrev pub Balances : Type 0
Balances = Map Key ℕ

-- `balances.get(key).unwrap_or(&0)`
abbrev pub or_zero : Option ℕ → ℕ
or_zero none = 0
or_zero (some b) = b

unfoldable pub balance_of : Balances → Key → ℕ
balance_of balances key = or_zero (get key balances)

-- `*balances.entry(key).or_default() += delta`
unfoldable pub add_delta : Balances → Key → ℕ → Balances
add_delta balances key delta = insert key (wrapping_add (balance_of balances key) delta) balances

abbrev pub key_of : Operation → Key
key_of op = (op.owner_id, op.sku)

-- A result with the index of its operation.
abbrev pub IndexedResult : Type 0
IndexedResult = ℕ × ApplyResult

-- `Command::ApplyBatch` in `run_shard`: the balances of a shard, and the results.
unfoldable pub apply_command : Balances → List Indexed → Balances × List IndexedResult
apply_command balances [] = (balances, [])
apply_command balances ((index, op) ∷ ops) =
    let balances' = add_delta balances (key_of op) op.delta in
    let result : ApplyResult = record {
      operation_id = op.operation_id;
      status = applied;
      balance = balance_of balances' (key_of op);
    } in
    let (balances'', results) = apply_command balances' ops in
    (balances'', (index, result) ∷ results)

-- The shards' balances; there are `count` shards.
abbrev pub Shards : Type 0
Shards = ℕ → Balances

module _ (h : Hashes) (count : ℕ) where
  abbrev pub shard_of : Operation → ℕ
  shard_of op = shard_for h op.owner_id op.sku count

  -- The commands to the shards from `shard` on, of which `left` are left, and the replies in the
  -- order of the shards.
  unfoldable pub apply_from : ℕ → ℕ → Shards → List Indexed → Shards × List IndexedResult
  apply_from zero shard shards ops = (shards, [])
  apply_from (suc left) shard shards ops =
      let (balances, results) =
        apply_command (shards shard) (in_shard (λ x. shard_of x.1) shard ops) in
      let (shards', more) =
        apply_from left (suc shard) (λ i. if nat_beq i shard then balances else shards i) ops in
      (shards', results ++ more)

-- What the task keeps: the shards' balances, and the operations whose records are in the write-ahead log
-- as a whole.
pub record Core : Type 0 where
  pub shards : Shards
  pub wal : List Operation

-- `results[index] = Some(result)`
unfoldable pub set_result : List (Option ApplyResult) → ℕ → ApplyResult → List (Option ApplyResult)
set_result [] index result = []
set_result (x ∷ xs) zero result = some result ∷ xs
set_result (x ∷ xs) (suc index) result = x ∷ set_result xs index result

unfoldable pub set_results :
    List (Option ApplyResult) → List IndexedResult → List (Option ApplyResult)
set_results results [] = results
set_results results ((index, result) ∷ more) = set_results (set_result results index result) more

-- `result.ok_or_else(...)` for each, collected
unfoldable pub collect : List (Option ApplyResult) → Result (List ApplyResult)
collect [] = ok []
collect (none ∷ rest) = err Error.missing_result
collect (some result ∷ rest) = do results ← collect rest; ok (result ∷ results)

-- `operations.into_iter().enumerate()`
unfoldable pub enumerate : ℕ → List Operation → List Indexed
enumerate index [] = []
enumerate index (op ∷ ops) = (index, op) ∷ enumerate (suc index) ops

-- `results.sort_by_key(|(index, _)| *index)`
unfoldable pub insert_sorted : IndexedResult → List IndexedResult → List IndexedResult
insert_sorted r [] = r ∷ []
insert_sorted r (s ∷ rest) =
    let more = insert_sorted r rest in if ltb s.0 r.0 then s ∷ more else r ∷ s ∷ rest

unfoldable pub sort_results : List IndexedResult → List IndexedResult
unfolding insert_sorted
sort_results [] = []
sort_results (r ∷ rest) = insert_sorted r (sort_results rest)

-- The operations that are new, with their indices.
unfoldable pub fresh_of : ℕ → List Operation → List Bool → List Indexed
fresh_of index (op ∷ ops) (true ∷ news) = (index, op) ∷ fresh_of (suc index) ops news
fresh_of index (op ∷ ops) (false ∷ news) = fresh_of (suc index) ops news
fresh_of index ops news = []

-- The answers to the operations that are not, from the published balances.
unfoldable pub known_results : Balances → List Operation → List Bool → List (Option ApplyResult)
known_results published [] news = []
known_results published (op ∷ ops) [] = none ∷ known_results published ops []
known_results published (op ∷ ops) (true ∷ news) = none ∷ known_results published ops news
known_results published (op ∷ ops) (false ∷ news) =
    some (record {
      operation_id = op.operation_id;
      status = duplicate;
      balance = balance_of published (key_of op);
    })
    ∷ known_results published ops news

-- How the append of some operations to the write-ahead log ends: they are on the disk, or it fails, and
-- of the records the first `n` are in the file as a whole.
pub data Appended : Type 0 where
  synced : Appended
  broken : Error → ℕ → Appended

-- `append_many`, on the operations whose records are in the log as a whole: it sends nothing for no
-- operations.
unfoldable pub append_wal :
    Appended → List Operation → List Operation → List Operation × Result (Unit {0})
append_wal appended wal [] = (wal, ok tt)
append_wal synced wal (op ∷ ops) = (wal ++ op ∷ ops, ok tt)
append_wal (broken e n) wal (op ∷ ops) = (wal ++ take n (op ∷ ops), err e)

module _ (h : Hashes) (count : ℕ) where
  -- `apply_batched` with `persist`. An error leaves what was done before it.
  unfoldable pub apply_batched : Appended → Core → List Indexed → Core × Result (List IndexedResult)
  apply_batched appended core ops =
      let (wal, logged) = append_wal appended core.wal (map (λ x. x.1) ops) in
      elim logged [
        | err e ↦ (record core { wal = wal }, err e)
        | ok u ↦
            let (shards, results) = apply_from h count count 0 core.shards ops in
            (record { shards = shards; wal = wal }, ok results)
      ]

  unfoldable pub apply_reserved_batch :
      Appended → Core → List Operation → Core × Result (List ApplyResult)
  apply_reserved_batch appended core ops =
      let (core', answer) = apply_batched appended core (enumerate 0 ops) in
      (core', do results ← answer; ok (map (λ r. r.1) (sort_results results)))

  unfoldable pub apply_preflight_batch :
      Appended → Core → Balances → List Operation → List Bool → Core × Result (List ApplyResult)
  apply_preflight_batch appended core published ops news =
      let (core', answer) = apply_batched appended core (fresh_of 0 ops news) in
      (core', do results ← answer; collect (set_results (known_results published ops news) results))
