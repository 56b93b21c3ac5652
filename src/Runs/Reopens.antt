-- ===== src/Runs/Reopens.antt =====
-- A run of the write-ahead log that is opened again after a crash.
use virt_warehouse_pro.Common.{◌≡◌, arith, List, [], ◌∷◌, ◌++◌, some, ok, length}
use virt_warehouse_pro.Wal.Recover.{recover, contents}
use virt_warehouse_pro.Wal.Records.{log_bytes}
use virt_warehouse_pro.Wal.Writer.{Writer, writer}
use virt_warehouse_pro.Wal.Durable.{Request, acknowledged, waiting, requests_of, operations_of}
use virt_warehouse_pro.Wal.Open.{open_wal, recover-open_wal}
use virt_warehouse_pro.Runs.{intake, test_codecs}
use virt_warehouse_pro.Runs.Logs.{
  intake_payload, intake_payload-decodes, torn, torn-IsTorn, events, carried,
}

recover-open_wal_example :
    (w : Writer) × (open_wal test_codecs
        (ok tt)
        (contents (log_bytes test_codecs (intake_payload ∷ []) ++ torn))
      ≡ some (ok (w, intake ∷ [])))
    × ((done : List Request) × ((writer test_codecs 2 w events).acks ≡ acknowledged done)
        × (done ++ waiting (writer test_codecs 2 w events).batch ≡ requests_of events)
        × (recover test_codecs (contents ((writer test_codecs 2 w events).file ++ torn))
            ≡ some (
                ok (
                  (intake ∷ []) ++ operations_of test_codecs carried done,
                  length (writer test_codecs 2 w events).file,
                ))))
recover-open_wal_example =
    recover-open_wal test_codecs 2 (intake_payload ∷ []) (intake ∷ []) torn events torn carried
      (omega arith, intake_payload-decodes, tt) torn-IsTorn
      ((omega arith, (omega arith, tt)), ((omega arith, tt), (tt, tt))) torn-IsTorn
      (
        (omega arith, intake_payload-decodes, (omega arith, intake_payload-decodes, tt)),
        ((omega arith, intake_payload-decodes, tt), tt),
      )
