-- ===== src/Runs/Persists.antt =====
-- A run of the task that writes committed ids to the disk.
use virt_warehouse_pro.Common.{◌≡◌, refl, [], ◌∷◌}
use virt_warehouse_pro.Common.Eq.{list_eq, nat_eq}
use virt_warehouse_pro.Common.Map.{get, insert}
use virt_warehouse_pro.Store.Types.{
  Hash, Fingerprint, entry_of, set_entry, dedup_shard, fingerprint,
}
use virt_warehouse_pro.Store.Finish.{persist}
use virt_warehouse_pro.Store.Known.{known}
use virt_warehouse_pro.Store.Persist.{IsQueued, known-persist}
use virt_warehouse_pro.Runs.{intake, test_hashes, test_disk}
use virt_warehouse_pro.Runs.Stores.{applied_memory}

-- What the commit of an operation queues.
abbrev queued : Hash × Fingerprint
queued = (intake.operation_id, fingerprint test_hashes intake)

queued-IsQueued : IsQueued test_disk applied_memory [] queued
unfolding known entry_of get set_entry dedup_shard insert
queued-IsQueued = refl

known-persist_example :
    known
      (entry_of (persist test_disk applied_memory [] (queued ∷ [])).0 intake.operation_id)
      (test_disk.stored (persist test_disk applied_memory [] (queued ∷ [])).1 intake.operation_id)
    ≡ known (entry_of applied_memory intake.operation_id) (test_disk.stored [] intake.operation_id)
known-persist_example =
    known-persist test_disk applied_memory [] (queued ∷ []) intake.operation_id
      (queued-IsQueued, tt)
