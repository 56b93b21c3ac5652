-- ===== src/Wal/Open.antt =====
-- `open` and `reset` of src/wal.rs, and the write-ahead log over a crash.
use virt_warehouse_pro.Common.{
  ℕ, ◌≡◌, refl, sym, ap, ◌∙◌, List, [], ◌++◌, append-nil, Option, none, some, Result, ok, err, ◌>>◌,
  length, take, take-append_length, All, All-append_parts, subst,
}
use virt_warehouse_pro.Bytes.Words.{Bytes}
use virt_warehouse_pro.Model.{Operation}
use virt_warehouse_pro.Wal.Recover.{Codecs, ReadFile, contents, not_found, read_failed, recover}
use virt_warehouse_pro.Wal.Records.{log_bytes}
use virt_warehouse_pro.Wal.Recovery.{Decodes, IsTorn, recover-log_bytes}
use virt_warehouse_pro.Wal.Writer.{Command, Event, Writer, start, writer}
use virt_warehouse_pro.Wal.Durable.{
  IsClean, requests_of, waiting, acknowledged, Request, payloads_of, log_bytes-append,
  writer-IsDurable, operations_of, Carries, Decodes-append, Decodes-payloads_of,
}

-- What the file that is opened for appending has.
abbrev bytes_of : ReadFile → Bytes
bytes_of (contents file) = file
bytes_of not_found = []
bytes_of read_failed = []

-- What follows the recovery: the file is opened and cut to the length that `recover` returns, which is
-- at most its own, and the writer starts on it.
abbrev cut :
    Result (Unit {0})
    → Bytes
    → Option (Result (List Operation × ℕ))
    → Option (Result (Writer × List Operation))
cut opened file none = none
cut opened file (some (err why)) = some (err why)
cut opened file (some (ok (recovered, valid_len))) =
    some (opened >> ok (start (take valid_len file), recovered))

-- `Wal::open`; `opened` is the answer to the opening of the file and to `set_len`.
unfoldable pub open_wal :
    Codecs → Result (Unit {0}) → ReadFile → Option (Result (Writer × List Operation))
open_wal c opened file = cut opened (bytes_of file) (recover c file)

-- `Wal::reset`: the command that is sent.
unfoldable pub reset_wal : ℕ → Command
reset_wal id = Command.reset id

module _ (c : Codecs) where
  open_wal-log_bytes :
      (payloads : List Bytes) (ops : List Operation) (rest : Bytes)
      → Decodes c payloads ops
      → IsTorn rest
      → open_wal c (ok tt) (contents (log_bytes c payloads ++ rest))
        ≡ some (ok (start (log_bytes c payloads), ops))
  unfolding open_wal
  open_wal-log_bytes payloads ops rest d is_torn =
      ap (cut (ok tt) (log_bytes c payloads ++ rest))
        (recover-log_bytes c payloads ops rest d is_torn)
      ∙ ap (λ (file : Bytes). some (ok (start file, ops)))
          (take-append_length (log_bytes c payloads) rest)

  -- A file of whole records, whose payloads have at most 1 MiB and decode, and of a torn rest is opened
  -- without the rest. After a run from there in which every write succeeds and nothing is reset, where
  -- the payloads have at most 1 MiB and command `id` carries the operations `ops id`, and after a crash
  -- that leaves another torn rest, recovery returns the operations that the file had and then those of
  -- the requests that were answered.
  pub recover-open_wal :
      (max : ℕ) (payloads : List Bytes) (before : List Operation) (rest : Bytes) (es : List Event)
      (torn : Bytes) (ops : ℕ → List Operation)
      → Decodes c payloads before
      → IsTorn rest
      → All IsClean es
      → IsTorn torn
      → All (Carries c ops) (requests_of es)
      → (w : Writer) × (open_wal c (ok tt) (contents (log_bytes c payloads ++ rest))
          ≡ some (ok (w, before)))
        × ((done : List Request) × ((writer c max w es).acks ≡ acknowledged done)
            × (done ++ waiting (writer c max w es).batch ≡ requests_of es)
            × (recover c (contents ((writer c max w es).file ++ torn))
                ≡ some (ok (before ++ operations_of c ops done, length (writer c max w es).file))))
  recover-open_wal max payloads before rest es torn ops d is_torn clean again carries =
      let old = log_bytes c payloads in
      let w = start old in
      let (done, durable, order) =
        writer-IsDurable c max old [] w es
          (record { saved = sym (append-nil old); answered = refl; small = tt }) clean in
      let (whole, later) =
        All-append_parts (Carries c ops) done (waiting (writer c max w es).batch)
          (subst (All (Carries c ops)) (sym order) carries) in
      let file : (writer c max w es).file ≡ log_bytes c (payloads ++ payloads_of done) =
        durable.saved ∙ sym (log_bytes-append c payloads (payloads_of done)) in
      (
        w,
        open_wal-log_bytes payloads before rest d is_torn,
        (
          done,
          durable.answered,
          order,
          rw file (
              recover-log_bytes c (payloads ++ payloads_of done)
                (before ++ operations_of c ops done) torn
                (Decodes-append c payloads (payloads_of done) before (operations_of c ops done) d
                  (Decodes-payloads_of c ops done whole))
                again),
        ),
      )
