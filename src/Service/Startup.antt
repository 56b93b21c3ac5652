-- ===== src/Service/Startup.antt =====
-- The start of `main` in src/main.rs: which of the files on disk are used, and whether the state is
-- rebuilt from the shared log.
use virt_warehouse_pro.Common.{
  Option, none, some, Bool, true, false, ◌&&◌, not, leb, ltb, if◌then◌else◌, Result, ok, err, ◌>>=◌,
  ◌>>◌,
}
use virt_warehouse_pro.Snapshot.Data.{SnapshotData}
use virt_warehouse_pro.Checkpoint.{Checkpoint, advance, reset}

-- What `main` finds: the result of `snapshot::load`, whether there is a shared log and which files
-- exist, what its renames and the second openings come to, and whether the index on disk and the
-- write-ahead log can be opened.
pub record Found : Type 0 where
  pub snapshot : Result (Option SnapshotData)
  pub nats : Bool
  pub dedup_exists : Bool
  pub history_exists : Bool
  pub quarantine_snapshot : Result (Unit {0})
  pub archive_dedup : Result (Unit {0})
  pub quarantine_dedup : Result (Unit {0})
  pub open_dedup : Result (Unit {0})
  pub reopen_dedup : Result (Unit {0})
  pub open_wal : Result (Unit {0})
  pub quarantine_wal : Result (Unit {0})
  pub reopen_wal : Result (Unit {0})

-- The variables `snapshot`, `rebuild_from_quorum` and `dedup_existed`.
pub record Plan : Type 0 where
  pub snapshot : Option SnapshotData
  pub rebuild_from_quorum : Bool
  pub dedup_existed : Bool

-- A damaged snapshot is quarantined.
unfoldable pub load_snapshot : Found → Result Plan
load_snapshot f = elim f.snapshot [
  | ok s ↦ ok (record { snapshot = s; rebuild_from_quorum = false; dedup_existed = f.dedup_exists })
  | err e ↦ do
    f.quarantine_snapshot
    ok (record { snapshot = none; rebuild_from_quorum = f.nats; dedup_existed = f.dedup_exists })
]

-- An index from before the history had its own file is archived.
unfoldable pub archive_monolithic : Found → Plan → Result Plan
archive_monolithic f p =
    if (f.dedup_exists && not f.history_exists) && f.nats
    then (do
      f.archive_dedup
      ok (record { snapshot = none; rebuild_from_quorum = true; dedup_existed = false }))
    else ok p

-- An index without its snapshot is quarantined.
unfoldable pub discard_dedup : Found → Plan → Result Plan
discard_dedup f p = elim p.snapshot [
  | some s ↦ ok p
  | none ↦
      if p.rebuild_from_quorum && p.dedup_existed
      then (do f.quarantine_dedup; ok (record p { dedup_existed = false }))
      else ok p
]

unfoldable pub open_disk_dedup : Found → Plan → Result Plan
open_disk_dedup f p = elim f.open_dedup [
  | ok u ↦ ok p
  | err e ↦
      if f.nats
      then (do
        f.quarantine_dedup
        f.reopen_dedup
        ok (record p { snapshot = none; rebuild_from_quorum = true }))
      else err e
]

-- `!dedup_existed && snapshot.as_ref().is_some_and(|value| value.version >= 2)`
unfoldable pub check_dedup : Found → Plan → Plan
check_dedup f p = elim p.snapshot [
  | none ↦ p
  | some s ↦
      if not p.dedup_existed && leb 2 s.version
      then record p { snapshot = none; rebuild_from_quorum = f.nats }
      else p
]

unfoldable pub open_log : Found → Plan → Result Plan
open_log f p = elim f.open_wal [
  | ok u ↦ ok p
  | err e ↦
      if f.nats
      then (do f.quarantine_wal; f.reopen_wal; ok (record p { rebuild_from_quorum = true }))
      else err e
]

-- The steps up to `Store::start`, in their order.
unfoldable pub startup : Found → Result Plan
startup f = do
  p ← load_snapshot f
  p ← archive_monolithic f p
  p ← discard_dedup f p
  p ← open_disk_dedup f p
  open_log f (check_dedup f p)

-- The checkpoint that `catch_up` starts from; `io` is the answer of the file system.
unfoldable pub start_checkpoint :
    Result (Unit {0}) → Plan → Checkpoint → Result (Unit {0}) × Checkpoint
start_checkpoint io p c = if p.rebuild_from_quorum then reset io c else elim p.snapshot [
  | none ↦ (ok tt, c)
  | some s ↦
      if ltb c.value.sequence s.sequence then advance io c s.sequence s.writer_epoch else (ok tt, c)
]
