-- ===== src/Wal/Writer.antt =====
-- `append_many`, `reset` and `writer` of src/wal.rs. The writer is a task of its own that receives
-- commands over a queue: here a step function over the events that it meets.
use virt_warehouse_pro.Common.{
  ℕ, zero, suc, ◌+◌, ◌%◌, ◌^◌, List, [], ◌∷◌, ◌++◌, Option, none, some, ltb, if◌then◌else◌, Result,
  Error, ok, err, length, take, ◌>>=◌,
}
use virt_warehouse_pro.Bytes.Words.{Bytes, to_le_bytes}
use virt_warehouse_pro.Model.{Operation}
use virt_warehouse_pro.Binary.Format.{encode_operation}
use virt_warehouse_pro.Wal.Recover.{Codecs}
use mathlib.Core.List.{map}

-- The number of a command stands for its `completed` channel.
pub data Command : Type 0 where
  append : ℕ → List Bytes → Command
  reset : ℕ → Command

-- What a write and its sync do: they succeed, or fail with the first `n` bytes in the file.
pub data Outcome : Type 0 where
  written : Outcome
  failed : ℕ → Outcome

-- The writer receives a command, or its flush deadline passes. The outcome is that of the write
-- which the event leads to, if it leads to one.
pub data Event : Type 0 where
  received : Command → Outcome → Event
  deadline : Outcome → Event

-- A batch that waits for more records: the payloads of each command, and the number of records.
pub record Batch : Type 0 where
  pub commands : List (ℕ × List Bytes)
  pub records : ℕ

pub record Writer : Type 0 where
  pub file : Bytes
  pub batch : Option Batch
  pub acks : List (ℕ × Result (Unit {0}))

abbrev pub start : Bytes → Writer
start file = record { file = file; batch = none; acks = [] }

-- `operations.iter().map(encode_operation).collect()`: the payloads that `append_many` sends.
unfoldable pub encode_all : List Operation → Result (List Bytes)
encode_all [] = ok []
encode_all (op ∷ ops) = do payload ← encode_operation op; rest ← encode_all ops; ok (payload ∷ rest)

-- `append_many`: nothing is sent for an empty list.
unfoldable pub append_many : ℕ → List Operation → Result (Option Command)
append_many id [] = ok none
append_many id (op ∷ ops) = do payloads ← encode_all (op ∷ ops); ok (some (append id payloads))

module _ (c : Codecs) where
  -- `buffer.put_u32_le(len); buffer.put_u32_le(crc); buffer.extend_from_slice(payload)`
  unfoldable pub put_record : Bytes → Bytes → Bytes
  put_record buffer payload =
      ((buffer ++ to_le_bytes 4 (length payload % 2 ^ 32)) ++ to_le_bytes 4 (c.crc32 payload))
      ++ payload

  unfoldable pub put_records : Bytes → List Bytes → Bytes
  put_records buffer [] = buffer
  put_records buffer (payload ∷ payloads) = put_records (put_record buffer payload) payloads

  -- The two loops over the batch.
  unfoldable pub buffer_of : Bytes → List (ℕ × List Bytes) → Bytes
  buffer_of buffer [] = buffer
  buffer_of buffer ((id, payloads) ∷ batch) = buffer_of (put_records buffer payloads) batch

  -- `write_all`, `sync_data`, and the answer to every command of the batch.
  unfoldable pub flush : Writer → List (ℕ × List Bytes) → Outcome → Writer
  flush w batch written = record w {
    file = w.file ++ buffer_of [] batch;
    batch = none;
    acks = w.acks ++ map (λ b. (b.0, ok tt)) batch;
  }
  flush w batch (failed n) = record w {
    file = w.file ++ take n (buffer_of [] batch);
    batch = none;
    acks = w.acks ++ map (λ b. (b.0, err Error.io)) batch;
  }

  -- A reset as the first command. One that fails with 0 has left the file as it was, and one that
  -- fails later, at the sync, has truncated it.
  unfoldable pub truncate : Writer → ℕ → Outcome → Writer
  truncate w id written = record w { file = []; acks = w.acks ++ (id, ok tt) ∷ [] }
  truncate w id (failed zero) = record w { acks = w.acks ++ (id, err Error.io) ∷ [] }
  truncate w id (failed (suc n)) = record w { file = []; acks = w.acks ++ (id, err Error.io) ∷ [] }

  -- The loop condition `records < max_batch`, for a batch that has just grown.
  unfoldable pub grow : ℕ → Writer → Batch → Outcome → Writer
  grow max_batch w b out =
      if ltb b.records max_batch then record w { batch = some b } else flush w b.commands out

  -- The first command of a round.
  unfoldable pub first : ℕ → Writer → Command → Outcome → Writer
  first max_batch w (append id payloads) out =
      grow max_batch w (record { commands = (id, payloads) ∷ []; records = length payloads }) out
  first max_batch w (reset id) out = truncate w id out

  -- A further command, in `select!`. A reset does not match the pattern of its branch: it is dropped
  -- with its channel, the branch is off, and the batch waits for the deadline and is flushed.
  unfoldable pub further : ℕ → Writer → Batch → Command → Outcome → Writer
  further max_batch w b (append id payloads) out =
      grow max_batch w
        (record {
          commands = b.commands ++ (id, payloads) ∷ [];
          records = b.records + length payloads;
        })
        out
  further max_batch w b (reset id) out =
      flush (record w { acks = w.acks ++ (id, err Error.stopped) ∷ [] }) b.commands out

  unfoldable pub step : ℕ → Writer → Event → Writer
  step max_batch w (received command out) = elim w.batch [
    | none ↦ first max_batch w command out
    | some b ↦ further max_batch w b command out
  ]
  step max_batch w (deadline out) = elim w.batch [ none ↦ w | some b ↦ flush w b.commands out ]

  unfoldable pub writer : ℕ → Writer → List Event → Writer
  writer max_batch w [] = w
  writer max_batch w (e ∷ es) = writer max_batch (step max_batch w e) es
