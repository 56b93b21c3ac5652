-- ===== src/Runs/Starts.antt =====
-- Runs of the theorem on the start of the program.
use virt_warehouse_pro.Common.{◌≡◌, ◌⊎◌, refl, none, true, false, Error, ok, err}
use virt_warehouse_pro.Checkpoint.{Checkpoint, initial}
use virt_warehouse_pro.Service.Startup.{
  Found, Plan, startup, load_snapshot, archive_monolithic, discard_dedup, open_disk_dedup,
  check_dedup, open_log, start_checkpoint,
}
use virt_warehouse_pro.Service.Rebuild.{startup-reset}

-- A start whose snapshot is damaged, with a shared log.
abbrev damaged : Found
damaged = record {
  snapshot = err Error.checksum_mismatch;
  nats = true;
  dedup_exists = true;
  history_exists = true;
  quarantine_snapshot = ok tt;
  archive_dedup = ok tt;
  quarantine_dedup = ok tt;
  open_dedup = ok tt;
  reopen_dedup = ok tt;
  open_wal = ok tt;
  quarantine_wal = ok tt;
  reopen_wal = ok tt;
}

abbrev rebuilding : Plan
rebuilding = record { snapshot = none; rebuild_from_quorum = true; dedup_existed = false }

abbrev old_checkpoint : Checkpoint
old_checkpoint = record { value = record { sequence = 40; writer_epoch = 2 }; file = none }

damaged-rebuilding : startup damaged ≡ ok rebuilding
unfolding startup load_snapshot archive_monolithic discard_dedup open_disk_dedup check_dedup
    open_log
damaged-rebuilding = refl

startup-reset_example :
    (damaged.snapshot ≡ ok none)
    ⊎ ((start_checkpoint (ok tt) rebuilding old_checkpoint).1.value ≡ initial)
startup-reset_example = startup-reset damaged rebuilding old_checkpoint refl damaged-rebuilding refl
