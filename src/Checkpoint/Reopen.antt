-- ===== src/Checkpoint/Reopen.antt =====
-- src/checkpoint.rs: `open` on the file that the commands leave.
use virt_warehouse_pro.Common.{
  ℕ, ◌≡◌, refl, arith, List, [], ◌∷◌, some, Bool-cases, inl, inr, leb, ok, err, Result, All,
}
use virt_warehouse_pro.Bytes.Words.{Bytes, IsU64, to_le_bytes, from_le_bytes-to_le_bytes}
use virt_warehouse_pro.Binary.Format.{starts_with}
use virt_warehouse_pro.Checkpoint.{
  CheckpointValue, initial, Checkpoint, Command, advance_to, reset_all, file_of, open_file, advance,
  reset, run,
}

abbrev IsValue : CheckpointValue → Type 0
IsValue v = IsU64 v.sequence × IsU64 v.writer_epoch

-- What `open` needs to find the value in memory again.
pub record IsSaved (parse_text : Bytes → Result CheckpointValue) (c : Checkpoint) : Type 0 where
  pub saved : open_file parse_text c.file ≡ ok c.value

abbrev pub IsU64Command : Command → Type 0
IsU64Command (advance_to io next e) = IsU64 next × IsU64 e
IsU64Command (reset_all io) = Unit {0}

module _ (parse_text : Bytes → Result CheckpointValue) where
  open_file-file_of :
      (v : CheckpointValue) → IsValue v → open_file parse_text (some (ok (file_of v))) ≡ ok v
  unfolding open_file starts_with to_le_bytes
  open_file-file_of v h =
      rw
        (from_le_bytes-to_le_bytes 8 v.sequence h.0, from_le_bytes-to_le_bytes 8 v.writer_epoch h.1)
        refl

  advance-IsSaved :
      (io : Result (Unit {0})) (c : Checkpoint) (next e : ℕ)
      → IsU64 next
      → IsU64 e
      → IsSaved parse_text c
      → IsSaved parse_text (advance io c next e).1
  unfolding advance
  advance-IsSaved io c next e n u s = elim (Bool-cases (leb next c.value.sequence)) [
    | inl old ↦ rw old s
    | inr new ↦ rw new (written io)
  ]
    where
      written :
          (io : Result (Unit {0}))
          → IsSaved parse_text
              (elim io as (λ x. Result (Unit {0}) × Checkpoint) [
                | err e ↦ (err e, c)
                | ok u ↦ (
                  ok tt,
                  record {
                    value = record { sequence = next; writer_epoch = e };
                    file = some (ok (file_of (record { sequence = next; writer_epoch = e })));
                  },
                )
              ]).1
      written (err x) = s
      written (ok done) = record {
        saved = open_file-file_of (record { sequence = next; writer_epoch = e }) (n, u);
      }

  -- Whatever commands with numbers of 64 bits are given, and whether the file system fails or not:
  -- if opening the file gave the value in memory before, it does afterwards.
  pub run-IsSaved :
      (c : Checkpoint) (cs : List Command)
      → All IsU64Command cs
      → IsSaved parse_text c
      → IsSaved parse_text (run c cs)
  unfolding run reset
  run-IsSaved c [] h s = s
  run-IsSaved c (advance_to io next e ∷ cs) h s =
      run-IsSaved (advance io c next e).1 cs h.1 (advance-IsSaved io c next e h.0.0 h.0.1 s)
  run-IsSaved c (reset_all (err e) ∷ cs) h s = run-IsSaved c cs h.1 s
  run-IsSaved c (reset_all (ok u) ∷ cs) h s =
      run-IsSaved (reset (ok u) c).1 cs h.1
        (record { saved = open_file-file_of initial (omega arith, omega arith) })
