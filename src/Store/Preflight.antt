-- ===== src/Store/Preflight.antt =====
-- `preflight_batch` and `rollback_reservation` of src/state.rs.
use virt_warehouse_pro.Common.{
  ℕ, zero, suc, List, [], ◌∷◌, ◌++◌, Option, none, some, Bool, true, false, ◌||◌, ◌==◌ as nat_beq,
  if◌then◌else◌, Result, Error, ok, err, ◌>>=◌, map,
}
use virt_warehouse_pro.Common.Eq.{◌==◌, list_eq, nat_eq}
use virt_warehouse_pro.Common.Map.{Map, get, insert}
use virt_warehouse_pro.Bytes.Words.{Bytes}
use virt_warehouse_pro.Model.{Operation}
use virt_warehouse_pro.Store.Types.{
  Hash, Fingerprint, Hashes, Notify, committed, pending, DedupShards, dedup_shards, dedup_shard,
  entry_of, set_entry, drop_entry, operation_id_hash, fingerprint,
}
use virt_warehouse_pro.Store.DiskIndex.{DiskIndex}

-- `existing.as_ref() == Some(&fingerprint)`
abbrev pub is_some_of : Option Fingerprint → Fingerprint → Bool
is_some_of none f = false
is_some_of (some g) f = g == f

-- An operation with its index in the request.
abbrev pub Indexed : Type 0
Indexed = ℕ × Operation

-- Why the passage over the shards stops early.
pub data Stop : Type 0 where
  conflict_on : Bytes → Stop
  wait_for : Notify → Stop
  disk_failed : Error → Stop

-- The variables of one attempt: the index, `new_operations` as the indices that are true,
-- `reserved`, and `conflict` or `wait_for`.
pub record Attempt : Type 0 where
  pub memory : DedupShards
  pub news : List ℕ
  pub reserved : List Hash
  pub stop : Option Stop

-- What an attempt comes to: `new_operations`, an error, or a pending operation to wait for.
pub data Outcome : Type 0 where
  ready : List Bool → Outcome
  rejected : Error → Outcome
  blocked : Notify → Outcome

unfoldable pub has : List ℕ → ℕ → Bool
has [] i = false
has (j ∷ js) i = nat_beq j i || has js i

-- `new_operations`, as a vector of the length of the request
unfoldable pub flags : List ℕ → ℕ → List Operation → List Bool
unfolding has
flags news index [] = []
flags news index (op ∷ ops) = has news index ∷ flags news (suc index) ops

-- The elements of a list that belong to a shard.
unfoldable pub in_shard {ℓ} : {A : Type ℓ} → (A → ℕ) → ℕ → List A → List A
in_shard of shard [] = []
in_shard of shard (x ∷ xs) =
    let rest = in_shard of shard xs in if nat_beq (of x) shard then x ∷ rest else rest

-- `memory.remove(&key)`, if the key is pending under this reservation.
unfoldable pub release : Notify → DedupShards → Hash → DedupShards
release reservation memory key = elim (entry_of memory key) [
  | none ↦ memory
  | some (committed f) ↦ memory
  | some (pending f notify) ↦ if nat_beq notify reservation then drop_entry memory key else memory
]

unfoldable pub release_all : Notify → DedupShards → List Hash → DedupShards
release_all reservation memory [] = memory
release_all reservation memory (key ∷ keys) =
    release_all reservation (release reservation memory key) keys

-- The shards from `shard` on, of which `left` are left.
unfoldable pub rollback_from : ℕ → ℕ → Notify → DedupShards → List Hash → DedupShards
rollback_from zero shard reservation memory keys = memory
rollback_from (suc left) shard reservation memory keys =
    rollback_from left (suc shard) reservation
      (release_all reservation memory (in_shard dedup_shard shard keys)) keys

-- `rollback_reservation`
unfoldable pub rollback_reservation : DedupShards → List Hash → Notify → DedupShards
rollback_reservation memory keys reservation = rollback_from dedup_shards 0 reservation memory keys

module _ (h : Hashes) where
  abbrev pub id_hash : Indexed → Hash
  id_hash x = operation_id_hash h (x.1).operation_id

  -- The first loop: an id that comes again must have the same fingerprint; the indices of the ids'
  -- first occurrences are kept.
  unfoldable pub unique_from : ℕ → Map Bytes Fingerprint → List Operation → Result (List Indexed)
  unique_from index seen [] = ok []
  unique_from index seen (op ∷ ops) = elim (get op.operation_id seen) [
    | some f ↦ elim (f == fingerprint h op) [
      | true ↦ unique_from (suc index) seen ops
      | false ↦ err (Error.conflict op.operation_id)
    ]
    | none ↦ do
      rest ← unique_from (suc index) (insert op.operation_id (fingerprint h op) seen) ops
      ok ((index, op) ∷ rest)
  ]

  -- The body of the loop over the operations of a shard.
  unfoldable pub visit : Notify → Attempt → Indexed → Option Fingerprint → Attempt
  visit reservation a x disk_value = elim (entry_of a.memory (id_hash x)) [
    | some (committed existing) ↦
        if existing == fingerprint h x.1
        then a
        else record a { stop = some (conflict_on (x.1).operation_id) }
    | some (pending existing notify) ↦
        if is_some_of existing (fingerprint h x.1)
        then record a { stop = some (wait_for notify) }
        else record a { stop = some (conflict_on (x.1).operation_id) }
    | none ↦ elim disk_value [
      | some existing ↦
          if existing == fingerprint h x.1
          then a
          else record a { stop = some (conflict_on (x.1).operation_id) }
      | none ↦ record a {
        memory = set_entry a.memory (id_hash x) (pending (some (fingerprint h x.1)) reservation);
        news = x.0 ∷ a.news;
        reserved = a.reserved ++ id_hash x ∷ [];
      }
    ]
  ]

  -- That loop, left by `break` once something stops it.
  unfoldable pub visit_all : Notify → Attempt → List Indexed → List (Option Fingerprint) → Attempt
  visit_all reservation a [] values = a
  visit_all reservation a (x ∷ xs) [] = a
  visit_all reservation a (x ∷ xs) (v ∷ vs) =
      let a' = visit reservation a x v in
      elim a'.stop [ none ↦ visit_all reservation a' xs vs | some s ↦ a' ]

  module _ (D : DiskIndex) where
    -- One shard: its operations, and their values on disk.
    unfoldable pub visit_shard : Notify → D.State → Attempt → List Indexed → Attempt
    visit_shard reservation disk a [] = a
    visit_shard reservation disk a (x ∷ xs) = elim (D.get_many disk (map id_hash (x ∷ xs))) [
      | err e ↦ record a { stop = some (disk_failed e) }
      | ok values ↦ visit_all reservation a (x ∷ xs) values
    ]

    -- The shards from `shard` on, of which `left` are left.
    unfoldable pub visit_from : ℕ → ℕ → Notify → D.State → Attempt → List Indexed → Attempt
    visit_from zero shard reservation disk a unique = a
    visit_from (suc left) shard reservation disk a unique =
        let a' =
          visit_shard reservation disk a (in_shard (λ x. dedup_shard (id_hash x)) shard unique) in
        elim a'.stop [ none ↦ visit_from left (suc shard) reservation disk a' unique | some s ↦ a' ]

    -- One round of the loop. On a disk error `?` returns without the rollback.
    unfoldable pub attempt :
        Notify → DedupShards → D.State → List Operation → List Indexed → Outcome × DedupShards
    attempt reservation memory disk ops unique =
        let a =
          visit_from dedup_shards 0 reservation disk
            (record { memory = memory; news = []; reserved = []; stop = none }) unique in
        elim a.stop [
          | none ↦ (ready (flags a.news 0 ops), a.memory)
          | some (wait_for notify) ↦
              (blocked notify, rollback_reservation a.memory a.reserved reservation)
          | some (conflict_on id) ↦
              (rejected (Error.conflict id), rollback_reservation a.memory a.reserved reservation)
          | some (disk_failed e) ↦ (rejected e, a.memory)
        ]

    -- `preflight_batch`, up to the first wait: a caller that is blocked waits for the notification
    -- and makes the attempt again, with a new reservation, on the index of that time.
    unfoldable pub preflight_batch :
        Notify → DedupShards → D.State → List Operation → Outcome × DedupShards
    preflight_batch reservation memory disk ops = elim (unique_from 0 [] ops) [
      | err e ↦ (rejected e, memory)
      | ok unique ↦ attempt reservation memory disk ops unique
    ]
