-- ===== src/Runs/Formats.antt =====
-- Runs of the theorems on the formats.
use virt_warehouse_pro.Common.{
  ◌≡◌, ◌≤◌, ◌^◌, refl, arith, [], ◌∷◌, ◌++◌, ok, err, Error, some, length, ◌>>=◌, inl,
}
use virt_warehouse_pro.Bytes.Words.{Bytes, to_le_bytes, from_le_bytes}
use virt_warehouse_pro.Bytes.Utf8.{from_utf8}
use virt_warehouse_pro.Binary.Format.{
  starts_with, operations, fence, encode_operation, decode_operation, encode_batch, decode_batch,
  encode_log_operations, encode_log_fence, decode_log,
}
use virt_warehouse_pro.Binary.RoundTrip.{IsOperation, decode-encode_operation, decode-encode_batch}
use virt_warehouse_pro.Binary.Log.{decode-encode_log_operations, decode-encode_log_fence}
use virt_warehouse_pro.Snapshot.Data.{SnapshotData}
use virt_warehouse_pro.Snapshot.Format.{SnapshotCodecs, save, load}
use virt_warehouse_pro.Snapshot.RoundTrip.{
  IsSnapshot, snapshot_bytes, balance_bytes, dedup_bytes, epoch_bytes,
}
use virt_warehouse_pro.Snapshot.Saved.{load-save}
use virt_warehouse_pro.Checkpoint.{
  Checkpoint, initial, advance_to, reset_all, run, file_of, open_file,
}
use virt_warehouse_pro.Checkpoint.Reopen.{IsSaved, run-IsSaved}
use virt_warehouse_pro.Runs.{intake, dispatch}

pub intake-IsOperation : IsOperation intake
unfolding from_utf8
intake-IsOperation =
    ((omega arith, refl), (omega arith, refl), (omega arith, refl), omega arith, omega arith)

dispatch-IsOperation : IsOperation dispatch
unfolding from_utf8
dispatch-IsOperation =
    ((omega arith, refl), (omega arith, refl), (omega arith, refl), omega arith, omega arith)

decode-encode_operation_example : (encode_operation dispatch >>= decode_operation) ≡ ok dispatch
decode-encode_operation_example = decode-encode_operation dispatch dispatch-IsOperation

decode-encode_batch_example :
    (encode_batch (intake ∷ dispatch ∷ []) >>= decode_batch) ≡ ok (intake ∷ dispatch ∷ [])
decode-encode_batch_example =
    decode-encode_batch (intake ∷ dispatch ∷ []) (omega arith)
      (intake-IsOperation, (dispatch-IsOperation, tt))

decode-encode_log_operations_example :
    (encode_log_operations 5 (intake ∷ []) >>= decode_log) ≡ ok (operations 5 (intake ∷ []))
decode-encode_log_operations_example =
    decode-encode_log_operations 5 (intake ∷ []) (omega arith) (omega arith)
      (intake-IsOperation, tt)

decode-encode_log_fence_example :
    (encode_log_fence 5 (b'n' ∷ []) >>= decode_log) ≡ ok (fence 5 (b'n' ∷ []))
unfolding from_utf8
decode-encode_log_fence_example =
    decode-encode_log_fence 5 (b'n' ∷ []) (omega arith) (omega arith, refl)

abbrev zeros : Bytes
zeros = 0 ∷ 0 ∷ 0 ∷ 0 ∷ 0 ∷ 0 ∷ 0 ∷ 0 ∷ []

-- Every digest is 32 zeros.
abbrev test_snapshot_codecs : SnapshotCodecs
test_snapshot_codecs = record {
  sha256 = λ b. zeros ++ (zeros ++ (zeros ++ zeros));
  length-sha256 = λ b. refl;
  from_json = λ b. err Error.legacy;
}

abbrev test_snapshot : SnapshotData
test_snapshot = record {
  version = 3;
  sequence = 9;
  balances = record { owner_id = b'a' ∷ []; sku = b'x' ∷ []; balance = 5 } ∷ [];
  dedup =
      record { operation_id = b'o' ∷ []; fingerprint = zeros ++ (zeros ++ (zeros ++ zeros)) } ∷ [];
  writer_epoch = 2;
}

test_snapshot-IsSnapshot : IsSnapshot test_snapshot
unfolding from_utf8
test_snapshot-IsSnapshot = record {
  version = (omega arith, omega arith);
  sequence = omega arith;
  balance_count = omega arith;
  balances = (((omega arith, refl), (omega arith, refl), omega arith), tt);
  dedup_count = omega arith;
  dedup = (((omega arith, refl), refl), tt);
  writer_epoch = (omega arith, inl refl);
}

small : length (snapshot_bytes test_snapshot) ≤ 2 ^ 32
unfolding snapshot_bytes balance_bytes dedup_bytes epoch_bytes to_le_bytes
small = omega arith

load-save_example :
    (save test_snapshot_codecs test_snapshot >>= λ d. load test_snapshot_codecs (some (ok d)))
    ≡ ok (some test_snapshot)
load-save_example = load-save test_snapshot_codecs test_snapshot test_snapshot-IsSnapshot small

abbrev test_checkpoint : Checkpoint
test_checkpoint = record { value = initial; file = some (ok (file_of initial)) }

run-IsSaved_example :
    IsSaved
      (λ text. err Error.legacy)
      (run test_checkpoint
        (advance_to (ok tt) 64 2 ∷ advance_to (err Error.io) 70 2 ∷ reset_all (err Error.io) ∷ []))
unfolding open_file starts_with to_le_bytes from_le_bytes
run-IsSaved_example =
    run-IsSaved (λ text. err Error.legacy) test_checkpoint
      (advance_to (ok tt) 64 2 ∷ advance_to (err Error.io) 70 2 ∷ reset_all (err Error.io) ∷ [])
      ((omega arith, omega arith), ((omega arith, omega arith), (tt, tt))) (record { saved = refl })
