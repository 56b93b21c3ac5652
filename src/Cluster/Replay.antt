-- ===== src/Cluster/Replay.antt =====
-- `catch_up` and the inner loop of `run_history_tail` of src/main.rs: two followers of the shared log.
use virt_warehouse_pro.Common.{
  ℕ, ◌+◌, List, [], ◌∷◌, ◌++◌, Option, none, some, true, false, ltb, leb, ◌==◌, ◌||◌, if◌then◌else◌,
  Result, ok, err, length,
}
use virt_warehouse_pro.Model.{Operation}
use virt_warehouse_pro.Checkpoint.{Checkpoint, advance}
use virt_warehouse_pro.Cluster.{LogRecord, fence, operations, poison_epoch}

-- A record with its sequence number, and what `log.read` returned for it.
abbrev pub Entry : Type 0
Entry = ℕ × Result LogRecord

-- What `catch_up` calls: the store's `restore_chunk`, the log's `quarantine_record`, and the file
-- system under the checkpoint, asked at a sequence number.
pub record Services {ℓ} (S : Type ℓ) : Type ℓ where
  pub restore_chunk : S → List Operation → Result (Unit {0}) × S
  pub quarantine_record : ℕ → Result (Unit {0})
  pub write : ℕ → Result (Unit {0})

-- The variables of `catch_up`, with the store and the checkpoint that it changes.
pub record Progress {ℓ} (S : Type ℓ) : Type ℓ where
  pub store : S
  pub checkpoint : Checkpoint
  pub writer_epoch : ℕ
  pub pending_checkpoint : Option (ℕ × ℕ)
  pub since_checkpoint : ℕ

module _ {ℓ} {S : Type ℓ} (s : Services S) where
  -- The `match` on a record.
  unfoldable pub handle : ℕ → LogRecord → Progress S → Result (Unit {0}) × Progress S
  handle sequence (fence epoch owner) p =
      (ok tt, if ltb p.writer_epoch epoch then record p { writer_epoch = epoch } else p)
  handle sequence (operations epoch []) p =
      if epoch == p.writer_epoch
      then (ok tt, p)
      else if epoch == poison_epoch
      then (ok tt, p)
      else (s.quarantine_record sequence, p)
  handle sequence (operations epoch (op ∷ ops)) p =
      if epoch == p.writer_epoch
      then (let (r, store) = s.restore_chunk p.store (op ∷ ops) in (r, record p { store = store }))
      else if epoch == poison_epoch
      then (ok tt, p)
      else (s.quarantine_record sequence, p)

  -- What follows the `match`: the checkpoint is written after every 64 records.
  unfoldable pub note : ℕ → Progress S → Result (Unit {0}) × Progress S
  note sequence p =
      if leb 64 (p.since_checkpoint + 1)
      then (let (r, c) = advance (s.write sequence) p.checkpoint sequence p.writer_epoch in
          (r, record p { checkpoint = c; since_checkpoint = 0; pending_checkpoint = none }))
      else (
        ok tt,
        record p {
          pending_checkpoint = some (sequence, p.writer_epoch);
          since_checkpoint = p.since_checkpoint + 1;
        },
      )

  -- The end of `catch_up`: what is pending is written.
  unfoldable pub settle : Progress S → Result (Unit {0}) × Progress S
  settle p = elim p.pending_checkpoint [
    | none ↦ (ok tt, p)
    | some (sequence, epoch) ↦
        let (r, c) = advance (s.write sequence) p.checkpoint sequence epoch in
        (r, record p { checkpoint = c })
  ]

  -- The loop, on the records from the checkpoint to the end of the log.
  unfoldable pub replay : List Entry → Progress S → Result (Unit {0}) × Progress S
  replay [] p = settle p
  replay ((sequence, err e) ∷ entries) p = (err e, p)
  replay ((sequence, ok r) ∷ entries) p =
      let (r, q) = handle sequence r p in
      elim r [
        | err e ↦ (err e, q)
        | ok u ↦
            (let (r, t) = note sequence q in
              elim r [ err e ↦ (err e, t) | ok u ↦ replay entries t ])
      ]

  -- `catch_up`; the records are those after `checkpoint.current()`.
  unfoldable pub catch_up : S → Checkpoint → List Entry → Result (Unit {0}) × Progress S
  catch_up store checkpoint entries = replay entries (record {
    store = store;
    checkpoint = checkpoint;
    writer_epoch = checkpoint.value.writer_epoch;
    pending_checkpoint = none;
    since_checkpoint = 0;
  })

-- A record of the history: `(sequence, epoch, operations)`.
abbrev pub HistoryRecord : Type 0
HistoryRecord = ℕ × ℕ × List Operation

-- The epoch after a record and what the history keeps of it.
unfoldable pub history_of : ℕ → LogRecord → ℕ × List Operation
history_of epoch (fence next owner) = (if ltb epoch next then next else epoch, [])
history_of epoch (operations e ops) = if e == epoch then (epoch, ops) else (epoch, [])

module _ {ℓ} {H : Type ℓ} (materialize : H → List HistoryRecord → Result H) where
  -- The loop over the sequences up to `last`, with the records collected so far: what the history
  -- is afterwards, and the sequence that is published.
  unfoldable pub history_tail : ℕ → H → ℕ → ℕ → List HistoryRecord → List Entry → H × ℕ
  history_tail last h published epoch batch [] = (h, published)
  history_tail last h published epoch batch ((sequence, err e) ∷ entries) = (h, published)
  history_tail last h published epoch batch ((sequence, ok r) ∷ entries) =
      let (epoch', ops) = history_of epoch r in
      let batch' = batch ++ (sequence, epoch', ops) ∷ [] in
      elim (length batch' == 16 || sequence == last) [
        | false ↦ history_tail last h published epoch' batch' entries
        | true ↦ elim (materialize h batch') [
          | err e ↦ (h, published)
          | ok h' ↦ history_tail last h' sequence epoch' [] entries
        ]
      ]
