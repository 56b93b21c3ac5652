-- ===== src/Service.antt =====
-- src/main.rs: the handlers that apply operations, from the lease to the answer.
use virt_warehouse_pro.Common.{
  ℕ, List, [], ◌∷◌, ◌++◌, Option, none, some, Bool, true, false, ltb, ◌==◌ as nat_beq,
  if◌then◌else◌, not, Result, Error, ok, err, length,
}
use virt_warehouse_pro.Bytes.Words.{Bytes}
use virt_warehouse_pro.Model.{Operation, Invalid, Checked, valid, invalid, validate, ApplyResult}
use virt_warehouse_pro.Store.Types.{Hash, Fingerprint, Hashes, Notify, DedupShards}
use virt_warehouse_pro.Store.DiskIndex.{DiskIndex}
use virt_warehouse_pro.Store.Preflight.{Outcome, ready, rejected, blocked, preflight_batch}
use virt_warehouse_pro.Store.Apply.{Balances, Core, Appended, apply_preflight_batch}
use virt_warehouse_pro.Store.Finish.{Finished, finish_batch}
pub mod Endings
pub mod Outcomes
pub mod Repeat
pub mod Retries
pub mod Restore
pub mod Startup
pub mod Rebuild
pub mod Queries

-- The status of an answer that is no success.
pub data Failure : Type 0 where
  bad_request : Failure
  conflict : Bytes → Failure
  unavailable : Failure

-- `internal`
unfoldable pub internal : Error → Failure
internal (Error.conflict id) = conflict id
internal e = unavailable

-- `ensure_writer`, on what `valid_epoch_for` says of the lease, if the node has one.
unfoldable pub ensure_writer : Option (Option ℕ) → Option ℕ
ensure_writer none = some 0
ensure_writer (some epoch) = epoch

-- `replicate`: the log is there or not; a timeout is an error.
unfoldable pub replicate : Option (Result ℕ) → Option Failure
replicate none = none
replicate (some (ok sequence)) = none
replicate (some (err e)) = some (internal e)

unfoldable pub validate_all : List Operation → Option Failure
validate_all [] = none
validate_all (op ∷ ops) = elim (validate op) [
  | valid ↦ validate_all ops
  | invalid why ↦ some bad_request
]

-- The operations that are new: `durable`.
unfoldable pub durable : List Operation → List Bool → List Operation
durable (op ∷ ops) (true ∷ news) = op ∷ durable ops news
durable (op ∷ ops) (false ∷ news) = durable ops news
durable ops news = []

-- The store, as far as a handler changes it, and what was queued for the disk.
pub record Node : Type 0 where
  pub memory : DedupShards
  pub published : Balances
  pub core : Core
  pub queued : List (Hash × Fingerprint)

-- What the node's surroundings answer during a request: the lease at its start and after the
-- replication, the shared log, the write-ahead log, and the notification of the reservation.
pub record Surroundings : Type 0 where
  pub lease : Option (Option ℕ)
  pub lease_after : Option (Option ℕ)
  pub log : Option (Result ℕ)
  pub appended : Appended
  pub reservation : Notify

-- How a request ends, or whom it waits for.
pub data Reply : Type 0 where
  answered : List ApplyResult → Reply
  failed : Failure → Reply
  waits : Notify → Reply

abbrev pub after_finish : Node → Core → Finished → Node
after_finish node core f = record {
  memory = f.memory;
  published = f.published;
  core = core;
  queued = node.queued ++ f.queued;
}

module _ (h : Hashes) where
  -- `finish_batch` with `false`, and the failure.
  unfoldable pub cancel : Node → DedupShards → List Operation → List Bool → Failure → Reply × Node
  cancel node memory ops news why = (
    failed why,
    after_finish node node.core (finish_batch h memory node.published ops news false),
  )

module _ (h : Hashes) (count : ℕ) where
  -- `apply_preflight_batch`, and `finish_batch` by its result.
  unfoldable pub commit :
      Surroundings → Node → DedupShards → List Operation → List Bool → Reply × Node
  commit s node memory ops news =
      let (core, answer) =
        apply_preflight_batch h count s.appended node.core node.published ops news in
      elim answer [
        | err e ↦ cancel h (record node { core = core }) memory ops news (internal e)
        | ok results ↦ (
          answered results,
          after_finish node core (finish_batch h memory node.published ops news true),
        )
      ]

  -- The check after the replication that the lease has not changed.
  unfoldable pub fenced :
      Surroundings → ℕ → Node → DedupShards → List Operation → List Bool → Reply × Node
  fenced s epoch node memory ops news = elim (ensure_writer s.lease_after) [
    | none ↦ cancel h node memory ops news unavailable
    | some now ↦
        if nat_beq now epoch
        then commit s node memory ops news
        else cancel h node memory ops news unavailable
  ]

  -- What follows a preflight that succeeded; `news` says which operations are new.
  unfoldable pub proceed :
      Surroundings → ℕ → Node → DedupShards → List Operation → List Bool → Reply × Node
  proceed s epoch node memory ops news = elim (durable ops news) [
    | [] ↦ commit s node memory ops news
    | op ∷ more ↦ elim (replicate s.log) [
      | some why ↦ cancel h node memory ops news why
      | none ↦ fenced s epoch node memory ops news
    ]
  ]

  module _ (D : DiskIndex) where
    unfoldable pub preflight : Surroundings → ℕ → Node → D.State → List Operation → Reply × Node
    preflight s epoch node disk ops =
        let (outcome, memory) = preflight_batch h D s.reservation node.memory disk ops in
        elim outcome [
          | ready news ↦ proceed s epoch node memory ops news
          | rejected e ↦ (failed (internal e), record node { memory = memory })
          | blocked notify ↦ (waits notify, record node { memory = memory })
        ]

    -- `apply_batch`, on the operations that the body was decoded to.
    unfoldable pub apply_batch : Surroundings → Node → D.State → List Operation → Reply × Node
    apply_batch s node disk ops = elim (ensure_writer s.lease) [
      | none ↦ (failed unavailable, node)
      | some epoch ↦
          if nat_beq (length ops) 0
          then (failed bad_request, node)
          else if ltb 10_000 (length ops)
          then (failed bad_request, node)
          else elim (validate_all ops) [
            | some why ↦ (failed why, node)
            | none ↦ preflight s epoch node disk ops
          ]
    ]

    -- `apply_one`: the same steps on a vector of one operation. `trigger_post_quorum_failpoint`, which
    -- aborts the process at an id that tests configure, is left out: no such id is set.
    unfoldable pub apply_one : Surroundings → Node → D.State → Operation → Reply × Node
    apply_one s node disk op = elim (ensure_writer s.lease) [
      | none ↦ (failed unavailable, node)
      | some epoch ↦ elim (validate op) [
        | invalid why ↦ (failed bad_request, node)
        | valid ↦ preflight s epoch node disk (op ∷ [])
      ]
    ]
