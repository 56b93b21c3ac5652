-- ===== src/Runs/Logs.antt =====
-- Runs of the theorems on the write-ahead log and on the followers of the shared log.
use virt_warehouse_pro.Common.{
  ◌+◌, ◌<◌, true, false, ℕ, zero, suc, ◌≡◌, refl, arith, List, [], ◌∷◌, ◌++◌, ok, err, Error, none,
  some, length, Result, inl,
}
use virt_warehouse_pro.Bytes.Words.{Bytes, from_le_bytes, is_min64, abs64}
use virt_warehouse_pro.Bytes.Utf8.{from_utf8, chars, trim, any_control}
use virt_warehouse_pro.Model.{Operation, validate, validate_identifier}
use virt_warehouse_pro.Binary.Format.{
  encode_log_operations, decode_operation, decode_log, decode_after, starts_with, operation,
}
use virt_warehouse_pro.Binary.Reader.{◌>>=◌, pure, lift, done, take_bytes, number, string, whole}
use virt_warehouse_pro.Binary.RoundTrip.{IsOperation}
use virt_warehouse_pro.Wal.Recover.{contents, recover, decode_payload}
use virt_warehouse_pro.Wal.Records.{log_bytes}
use virt_warehouse_pro.Wal.Recovery.{IsTorn, recover-log_bytes, recover_total}
use virt_warehouse_pro.Wal.Writer.{Event, append, received, deadline, written, writer, start}
use virt_warehouse_pro.Wal.Durable.{
  IsDurable, requests_of, waiting, acknowledged, operations_of, Request, writer-IsDurable,
  recover-writer,
}
use virt_warehouse_pro.Checkpoint.{Checkpoint, initial}
use virt_warehouse_pro.Cluster.{
  fence, operations, JsonLog, read, parse_record, check_record, validate_all,
}
use virt_warehouse_pro.Cluster.Replay.{Services, HistoryRecord, catch_up, history_tail}
use virt_warehouse_pro.Cluster.Follow.{
  Read, entries, accepted, position, restore_all, Follows, IsAscending, catch_up-accepted,
}
use virt_warehouse_pro.Cluster.History.{
  EndsAt, history, concat, joined, AreBatches, write_all, history_tail-accepted,
}
use virt_warehouse_pro.Cluster.History.{operations_of as history_operations}
use virt_warehouse_pro.Cluster.Reading.{IsChecked, IsValid, read-IsChecked, read-append}
use virt_warehouse_pro.Cluster.Lease.{
  LeaseState, Answers, missing, renew, settled, round, run_lease, valid_epoch_for,
}
use virt_warehouse_pro.Cluster.Holding.{Granted, valid_epoch_for-Granted}
use virt_warehouse_pro.Common.Map.{Map}
use virt_warehouse_pro.Common.Eq.{list_eq, nat_eq}
use virt_warehouse_pro.Disk.History.{History, materialize_history_batch}
use virt_warehouse_pro.Store.Apply.{synced}
use virt_warehouse_pro.Service.{Node}
use virt_warehouse_pro.Service.Restore.{Restored, restored, refused, suspended, restore_chunk}
use virt_warehouse_pro.Runs.{intake, dispatch, test_codecs, test_hashes, test_disk, map_tree}

-- The payload of `intake`.
abbrev pub intake_payload : Bytes
intake_payload =
    b'W' ∷ b'O' ∷ b'P' ∷ b'1' ∷ 2 ∷ 0 ∷ b'o' ∷ b'1' ∷ 1 ∷ 0 ∷ b'a' ∷ 1 ∷ 0 ∷ b'x' ∷ 7 ∷ 0 ∷ 0 ∷ 0
    ∷ 0 ∷ 0 ∷ 0 ∷ 0 ∷ 1 ∷ 0 ∷ 0 ∷ 0 ∷ 0 ∷ 0 ∷ 0 ∷ 0 ∷ []

pub intake_payload-decodes : decode_payload test_codecs intake_payload ≡ ok intake
unfolding decode_payload decode_operation decode_after starts_with whole operation string number
    take_bytes ◌>>=◌ pure lift done from_utf8 from_le_bytes
intake_payload-decodes = refl

abbrev pub torn : Bytes
torn = 30 ∷ 0 ∷ 0 ∷ []

pub torn-IsTorn : IsTorn torn
unfolding IsTorn
torn-IsTorn = inl (omega arith)

recover-log_bytes_example :
    recover test_codecs (contents (log_bytes test_codecs (intake_payload ∷ []) ++ torn))
    ≡ some (ok (intake ∷ [], length (log_bytes test_codecs (intake_payload ∷ []))))
recover-log_bytes_example =
    recover-log_bytes test_codecs (intake_payload ∷ []) (intake ∷ []) torn
      (omega arith, intake_payload-decodes, tt) torn-IsTorn

recover_total_example :
    (r : Result (List Operation × ℕ)) × (recover test_codecs (contents (1 ∷ 2 ∷ 3 ∷ [])) ≡ some r)
recover_total_example = recover_total test_codecs (contents (1 ∷ 2 ∷ 3 ∷ []))

-- Two requests, of which the second one waits for the deadline.
abbrev pub events : List Event
events =
    received (append 1 (intake_payload ∷ intake_payload ∷ [])) written
    ∷ received (append 2 (intake_payload ∷ [])) written
    ∷ deadline written
    ∷ []

abbrev pub carried : ℕ → List Operation
carried zero = []
carried (suc zero) = intake ∷ intake ∷ []
carried (suc (suc n)) = intake ∷ []

writer-IsDurable_example :
    (done : List Request) × IsDurable test_codecs [] done (writer test_codecs 2 (start []) events)
    × (done ++ waiting (writer test_codecs 2 (start []) events).batch ≡ requests_of events)
writer-IsDurable_example =
    writer-IsDurable test_codecs 2 [] [] (start []) events
      (record { saved = refl; answered = refl; small = tt })
      ((omega arith, (omega arith, tt)), ((omega arith, tt), (tt, tt)))

recover-writer_example :
    (done : List Request) × ((writer test_codecs 2 (start []) events).acks ≡ acknowledged done)
    × (done ++ waiting (writer test_codecs 2 (start []) events).batch ≡ requests_of events)
    × (recover test_codecs (contents ((writer test_codecs 2 (start []) events).file ++ torn))
        ≡ some (
            ok (
              operations_of test_codecs carried done,
              length (writer test_codecs 2 (start []) events).file,
            )))
recover-writer_example =
    recover-writer test_codecs 2 events torn carried
      ((omega arith, (omega arith, tt)), ((omega arith, tt), (tt, tt))) torn-IsTorn
      (
        (omega arith, intake_payload-decodes, (omega arith, intake_payload-decodes, tt)),
        ((omega arith, intake_payload-decodes, tt), tt),
      )

-- A fence, a record of its epoch, and one of an older epoch.
abbrev fenced_log : List Read
fenced_log =
    (1, fence 4 (b'n' ∷ []))
    ∷ (2, operations 4 (intake ∷ []))
    ∷ (3, operations 0 (dispatch ∷ []))
    ∷ []

-- How a restored chunk ends. At the start of a node nothing is pending that it could wait for.
abbrev result_of : Restored × Node → Result (Unit {0}) × Node
result_of (restored, node) = (ok tt, node)
result_of (refused e, node) = (err e, node)
result_of (suspended notify, node) = (err Error.stopped, node)

-- The store of the program.
abbrev store_services : Services Node
store_services = record {
  restore_chunk =
      λ node ops. result_of (restore_chunk test_hashes 2 test_disk 5 synced node [] ops);
  quarantine_record = λ n. ok tt;
  write = λ n. ok tt;
}

abbrev new_checkpoint : Checkpoint
new_checkpoint = record { value = initial; file = none }

abbrev new_node : Node
new_node = record {
  memory = λ i. [];
  published = [];
  core = record { shards = λ i. []; wal = [] };
  queued = [];
}

catch_up-accepted_example :
    Follows store_services
      (catch_up store_services new_node new_checkpoint (entries fenced_log))
      (restore_all store_services new_node (accepted 0 fenced_log))
      (position initial 0 fenced_log)
unfolding IsAscending
catch_up-accepted_example =
    catch_up-accepted store_services new_node new_checkpoint fenced_log
      (record { quarantines = λ n. refl; writes = λ n. refl })
      (omega arith, (omega arith, (omega arith, tt)))

abbrev no_tables : History (Map Bytes Bytes)
no_tables table = []

-- The history of the program.
abbrev write_history :
    History (Map Bytes Bytes) → List HistoryRecord → Result (History (Map Bytes Bytes))
write_history tables records = materialize_history_batch (ok tt) tables records

history_tail-accepted_example :
    (bs : List (List HistoryRecord)) × (joined bs ≡ history 0 fenced_log)
    × AreBatches bs
    × (history_tail write_history 3 no_tables 0 0 [] (entries fenced_log)
        ≡ write_all write_history no_tables 0 bs)
    × (history_operations (joined bs) ≡ concat (accepted 0 fenced_log))
unfolding EndsAt IsAscending
history_tail-accepted_example =
    history_tail-accepted write_history 3 no_tables 0 0 (1, fence 4 (b'n' ∷ []))
      ((2, operations 4 (intake ∷ [])) ∷ (3, operations 0 (dispatch ∷ [])) ∷ []) refl
      (omega arith, (omega arith, tt))

-- Every message that is not binary stands for a record of one operation.
abbrev test_json : JsonLog
test_json = record {
  record_from_json = λ b. ok (operations 3 (intake ∷ []));
  operations_from_json = λ b. err Error.legacy;
}

intake-IsValid : IsValid intake
unfolding validate validate_identifier chars trim any_control is_min64 abs64
intake-IsValid = refl

intake-read : read test_json (ok (b'{' ∷ [])) (ok tt) ≡ ok (operations 3 (intake ∷ []))
unfolding read parse_record decode_log decode_after starts_with check_record validate_all validate
    validate_identifier chars trim any_control is_min64 abs64
intake-read = refl

read-IsChecked_example : IsChecked (operations 3 (intake ∷ []))
read-IsChecked_example =
    read-IsChecked test_json (ok (b'{' ∷ [])) (ok tt) (operations 3 (intake ∷ [])) intake-read

intake-IsOperation : IsOperation intake
unfolding from_utf8
intake-IsOperation =
    ((omega arith, refl), (omega arith, refl), (omega arith, refl), omega arith, omega arith)

read-append_example :
    read test_json (encode_log_operations 4 (intake ∷ [])) (err Error.io)
    ≡ ok (operations 4 (intake ∷ []))
read-append_example =
    read-append test_json 4 (intake ∷ []) (err Error.io) (omega arith) (omega arith)
      (intake-IsOperation, tt) (intake-IsValid, tt)

-- A node that has no lease yet, and is granted the entry of revision 8 at the time 1,000.
abbrev free_state : LeaseState
free_state = record { owned = false; valid_until = 0; epoch = 0 }

abbrev grant : Answers
grant = record { updated = false; created = some 8; confirmed = true; fenced = true }

valid_at :
    valid_epoch_for 2_000 2_500 (run_lease (b'n' ∷ []) free_state ((missing, grant, 1_000) ∷ []))
    ≡ some 8
unfolding renew settled round run_lease valid_epoch_for
valid_at = refl

valid_epoch_for-Granted_example :
    (until : ℕ) × Granted (b'n' ∷ []) 8 until ((missing, grant, 1_000) ∷ [])
    × (2_000 + 2_500 < until)
valid_epoch_for-Granted_example =
    valid_epoch_for-Granted (b'n' ∷ []) free_state ((missing, grant, 1_000) ∷ []) 2_000 2_500 8 refl
      valid_at
