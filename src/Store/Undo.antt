-- ===== src/Store/Undo.antt =====
-- The index in memory after an attempt of `preflight_batch` of src/state.rs that does not succeed.
use virt_warehouse_pro.Common.{
  ◌≡◌, ◌≢◌, refl, arith, List, [], Option, none, some, Bool, Error, ok, Result-cases, inl, inr,
  ==_iff, All-always,
}
use virt_warehouse_pro.Common.Eq.{list_eq, nat_eq, list_beq_iff}
use virt_warehouse_pro.Model.{Operation}
use virt_warehouse_pro.Store.Types.{
  Hash, Fingerprint, Hashes, Notify, pending, DedupShards, dedup_shards, entry_of, fingerprint,
}
use virt_warehouse_pro.Store.Index.{entry_of-set_entry}
use virt_warehouse_pro.Store.DiskIndex.{DiskIndex}
use virt_warehouse_pro.Store.Preflight.{
  Indexed, Stop, conflict_on, wait_for, disk_failed, Attempt, ready, id_hash, visit, visit_from,
  attempt, preflight_batch, unique_from, flags, rollback_reservation,
}
use virt_warehouse_pro.Store.Passage.{visit_from_rule}
use virt_warehouse_pro.Store.Rollback.{
  contains-append_self, IsUndoable, IsFresh, undo_fresh, rollback-IsUndoable,
}

module _ (h : Hashes) (r : Notify) (m : DedupShards) where
  visit-IsUndoable :
      (a : Attempt) (x : Indexed) (v : Option Fingerprint)
      → IsUndoable r m a
      → IsUndoable r m (visit h r a x v)
  unfolding visit
  visit-IsUndoable a x v u = record {
    undone = λ j. ground (
      arith,
      u.undone j,
      u.undone (id_hash h x),
      list_beq_iff (id_hash h x) j,
      ==_iff r r,
      entry_of-set_entry a.memory (id_hash h x) j (pending (some (fingerprint h x.1)) r),
    );
    noted = λ j f e. ground (
      arith,
      u.noted j f,
      contains-append_self a.reserved (id_hash h x) j,
      entry_of-set_entry a.memory (id_hash h x) j (pending (some (fingerprint h x.1)) r),
    );
  }

  -- What stopped the attempt, if anything, was no error of the disk.
  abbrev Answered : Attempt → Type 0
  Answered a = (e : Error) → a.stop ≢ some (disk_failed e)

  visit-Answered :
      (a : Attempt) (x : Indexed) (v : Option Fingerprint) → Answered a → Answered (visit h r a x v)
  unfolding visit
  visit-Answered a x v p e = ground (arith, p e)

  module _ (D : DiskIndex) (disk : D.State) where
    visit_from-IsUndoable :
        (a : Attempt) (unique : List Indexed)
        → IsUndoable r m a
        → IsUndoable r m (visit_from h D dedup_shards 0 r disk a unique)
    visit_from-IsUndoable a unique u =
        visit_from_rule h r (IsUndoable r m) (λ x. Unit) (λ b x v q w. visit-IsUndoable b x v w) D
          disk (λ b keys why e w. record { undone = w.undone; noted = w.noted }) dedup_shards 0 a
          unique (All-always (λ x. tt) unique) u

    -- The disk answers every lookup.
    abbrev pub DiskWorks : Type 0
    DiskWorks =
        (keys : List Hash)
        → (values : List (Option Fingerprint)) × (D.get_many disk keys ≡ ok values)

    visit_from-Answered :
        DiskWorks
        → (a : Attempt) (unique : List Indexed) → Answered a
        → Answered (visit_from h D dedup_shards 0 r disk a unique)
    visit_from-Answered works a unique p =
        visit_from_rule h r Answered (λ x. Unit) (λ b x v q w. visit-Answered b x v w) D disk
          (λ b keys why e w. let (values, found) = works keys in λ x. cc) dedup_shards 0 a unique
          (All-always (λ x. tt) unique) p

    abbrev begin : Attempt
    begin = record { memory = m; news = []; reserved = []; stop = none }

    begin-IsUndoable : IsFresh r m → IsUndoable r m begin
    begin-IsUndoable fresh = record {
      undone = λ j. undo_fresh r (entry_of m j) (fresh j);
      noted = λ j f e. absurd (fresh j f e);
    }

    attempt_unchanged :
        (ops : List Operation) (unique : List Indexed)
        → IsFresh r m
        → DiskWorks
        → ((news : List Bool) → (attempt h D r m disk ops unique).0 ≢ ready news)
        → (j : Hash) → entry_of (attempt h D r m disk ops unique).1 j ≡ entry_of m j
    unfolding attempt
    attempt_unchanged ops unique fresh works refused j =
        let a : Attempt = visit_from h D dedup_shards 0 r disk begin unique in
        go a.stop refl (visit_from-Answered works begin unique (λ e p. cc))
          (rollback-IsUndoable r m a (visit_from-IsUndoable begin unique (begin-IsUndoable fresh))
            j)
          refused
      where
        go :
            (s : Option Stop)
            → (visit_from h D dedup_shards 0 r disk begin unique).stop ≡ s
            → Answered (visit_from h D dedup_shards 0 r disk begin unique)
            → entry_of
                (rollback_reservation
                  (visit_from h D dedup_shards 0 r disk begin unique).memory
                  (visit_from h D dedup_shards 0 r disk begin unique).reserved
                  r)
                j
              ≡ entry_of m j
            → ((news : List Bool) → (attempt h D r m disk ops unique).0 ≢ ready news)
            → entry_of (attempt h D r m disk ops unique).1 j ≡ entry_of m j
        go none e p u refused = absurd (
            refused (flags (visit_from h D dedup_shards 0 r disk begin unique).news 0 ops)
              (rw (e, attempt)))
        go (some (wait_for n)) e p u refused = rw (e, attempt) u
        go (some (conflict_on id)) e p u refused = rw (e, attempt) u
        go (some (disk_failed x)) e p u refused = absurd (p x e)

    -- If the disk answers and no entry is pending under the new reservation, `preflight_batch`
    -- either reserves, or leaves every entry of the index as it was: a request that is refused for a
    -- conflict, or that has to wait, holds nothing.
    pub preflight_batch-unchanged :
        (ops : List Operation)
        → IsFresh r m
        → DiskWorks
        → ((news : List Bool) → (preflight_batch h D r m disk ops).0 ≢ ready news)
        → (j : Hash) → entry_of (preflight_batch h D r m disk ops).1 j ≡ entry_of m j
    unfolding preflight_batch
    preflight_batch-unchanged ops fresh works refused j =
        elim (Result-cases (unique_from h 0 [] ops)) [
          | inl (unique, e) ↦
              rw (e, preflight_batch)
                (attempt_unchanged ops unique fresh works
                  (λ news. rw (e, preflight_batch) at refused news) j)
          | inr (error, e) ↦ rw (e, preflight_batch)
        ]
