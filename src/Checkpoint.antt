-- ===== src/Checkpoint.antt =====
-- src/checkpoint.rs: the position of the live tail in the shared log, in memory and in its file.
pub mod Reopen
use virt_warehouse_pro.Common.{
  ℕ, ◌^◌, ◌≤◌, ◌<◌, ◌≡◌, refl, arith, List, [], ◌∷◌, ◌++◌, Option, none, some, Bool, ◌&&◌, ◌==◌,
  leb, if◌then◌else◌, Result, Error, ok, err, ◌>>=◌, ◌>>◌, length, take, drop, ensure,
}
use virt_warehouse_pro.Bytes.Words.{Bytes, IsU64, to_le_bytes, from_le_bytes}
use virt_warehouse_pro.Binary.Format.{starts_with}

-- `CheckpointValue`
pub record CheckpointValue : Type 0 where
  pub sequence : ℕ
  pub writer_epoch : ℕ

abbrev pub initial : CheckpointValue
initial = record { sequence = 0; writer_epoch = 0 }

-- "WCP1"
abbrev pub magic : Bytes
magic = b'W' ∷ b'C' ∷ b'P' ∷ b'1' ∷ []

-- `open`, on what is read from the path; `parse_text` reads the JSON or the number of older versions.
unfoldable pub open_file :
    (Bytes → Result CheckpointValue) → Option (Result Bytes) → Result CheckpointValue
open_file parse_text none = ok initial
open_file parse_text (some (err e)) = err e
open_file parse_text (some (ok d)) =
    if starts_with magic d && length d == 20
    then ok (record {
      sequence = from_le_bytes (take 8 (drop 4 d));
      writer_epoch = from_le_bytes (take 8 (drop 12 d));
    })
    else parse_text d

-- The value under the lock, and the file at the path, which a rename replaces as a whole.
pub record Checkpoint : Type 0 where
  pub value : CheckpointValue
  pub file : Option (Result Bytes)

abbrev pub file_of : CheckpointValue → Bytes
file_of v = (magic ++ to_le_bytes 8 v.sequence) ++ to_le_bytes 8 v.writer_epoch

-- `advance`; `io` is what writing the temporary file and renaming it comes to.
unfoldable pub advance : Result (Unit {0}) → Checkpoint → ℕ → ℕ → Result (Unit {0}) × Checkpoint
advance io c next writer_epoch = if leb next c.value.sequence then (ok tt, c) else elim io [
  | err e ↦ (err e, c)
  | ok u ↦
      let v : CheckpointValue = record { sequence = next; writer_epoch = writer_epoch } in
      (ok tt, record { value = v; file = some (ok (file_of v)) })
]

-- `reset`
unfoldable pub reset : Result (Unit {0}) → Checkpoint → Result (Unit {0}) × Checkpoint
reset (err e) c = (err e, c)
reset (ok u) c = (ok tt, record { value = initial; file = some (ok (file_of initial)) })

-- A command to the checkpoint, with what the file system answers.
pub data Command : Type 0 where
  advance_to : Result (Unit {0}) → ℕ → ℕ → Command
  reset_all : Result (Unit {0}) → Command

unfoldable pub run : Checkpoint → List Command → Checkpoint
run c [] = c
run c (advance_to io next e ∷ cs) = run (advance io c next e).1 cs
run c (reset_all io ∷ cs) = run (reset io c).1 cs
