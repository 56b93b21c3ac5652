-- ===== src/Store/Committed.antt =====
-- `preflight_batch` and `finish_batch` of src/state.rs: a request that is finished is committed.
use virt_warehouse_pro.Common.{
  ℕ, suc, length, ◌∷◌, ◌≡◌, refl, sym, ap, subst, IfOk-ok, Error, ◌∙◌, arith, List, [], Option,
  none, some, Bool, true, false, ok, Bool-cases, Result-cases, inl, inr, All, All-weaken,
}
use virt_warehouse_pro.Common.Eq.{list_eq, nat_eq}
use virt_warehouse_pro.Model.{Operation}
use virt_warehouse_pro.Store.Types.{
  Hash, Fingerprint, Hashes, Notify, pending, DedupShards, dedup_shards, entry_of, fingerprint,
  operation_id_hash,
}
use virt_warehouse_pro.Store.DiskIndex.{DiskIndex}
use virt_warehouse_pro.Store.Preflight.{
  Indexed, Stop, Attempt, Outcome, ready, blocked, rejected, wait_for, conflict_on, disk_failed,
  rollback_reservation, visit_from, attempt, preflight_batch, unique_from, flags,
}
use virt_warehouse_pro.Store.Rollback.{contains, IsFresh, dedup_shard-lt}
use virt_warehouse_pro.Store.Apply.{Balances}
use virt_warehouse_pro.Store.Finish.{new_keys, finish_batch}
use virt_warehouse_pro.Store.Known.{known, IsKnown}
use virt_warehouse_pro.Store.Unique.{unique_from-All}
use virt_warehouse_pro.Store.Reserved.{settled, Kept, visit_from-Passed}
use virt_warehouse_pro.Store.Marked.{
  Placed, unique_from-Placed, contains-no_marks, visit_from-Marked, visit_from-Owned,
}
use virt_warehouse_pro.Store.Finished.{entry_of-finish_batch}

length-flags :
    (news : List ℕ) (index : ℕ) (ops : List Operation) → length (flags news index ops) ≡ length ops
unfolding flags
length-flags news index [] = refl
length-flags news index (op ∷ ops) = omega (arith, length-flags news (suc index) ops)

module _ (h : Hashes) (D : DiskIndex) (r : Notify) (m : DedupShards) (disk : D.State)
    (ops : List Operation) where
  -- What `preflight_batch` under `r` leaves of the index `m`, when it is ready.
  pub record Reserves (news : List Bool) (after : DedupShards) : Type 0 where
    -- an entry is as it was, or is reserved and its id was unknown
    pub kept : Kept h r (D.stored disk) m after
    -- what is pending under `r` is the key of a new operation, and the other way round
    pub marked :
        (j : Hash) (f : Option Fingerprint)
        → entry_of after j ≡ some (pending f r)
        → contains (new_keys h ops news) j ≡ true
    pub owned :
        (j : Hash)
        → contains (new_keys h ops news) j ≡ true
        → (f : Fingerprint) × (entry_of after j ≡ some (pending (some f) r))
    -- there is a flag for each operation
    pub sized : length news ≡ length ops
    -- each operation is committed once the new operations are
    pub covered :
        All
          (λ op.
            settled r
              (entry_of after (operation_id_hash h op.operation_id))
              (D.stored disk (operation_id_hash h op.operation_id))
            ≡ some (fingerprint h op))
          ops

  abbrev begin : Attempt
  begin = record { memory = m; news = []; reserved = []; stop = none }

  -- What an attempt comes to that has been stopped so.
  abbrev judged : Attempt → Option Stop → Outcome × DedupShards
  judged a s = elim s [
    | none ↦ (ready (flags a.news 0 ops), a.memory)
    | some (wait_for notify) ↦ (blocked notify, rollback_reservation a.memory a.reserved r)
    | some (conflict_on id) ↦
        (rejected (Error.conflict id), rollback_reservation a.memory a.reserved r)
    | some (disk_failed e) ↦ (rejected e, a.memory)
  ]

  judged-ready :
      (a : Attempt) (s : Option Stop) (news : List Bool) (after : DedupShards)
      → judged a s ≡ (ready news, after)
      → (s ≡ none) × (flags a.news 0 ops ≡ news) × (a.memory ≡ after)
  judged-ready a none news after e = (refl, ground (arith, e), ap (λ p. p.1) e)
  judged-ready a (some (wait_for n)) news after e = absurd (ground (arith, e))
  judged-ready a (some (conflict_on id)) news after e = absurd (ground (arith, e))
  judged-ready a (some (disk_failed x)) news after e = absurd (ground (arith, e))

  attempt-Reserves :
      (unique : List Indexed) (news : List Bool) (after : DedupShards)
      → IsFresh r m
      → unique_from h 0 [] ops ≡ ok unique
      → attempt h D r m disk ops unique ≡ (ready news, after)
      → Reserves news after
  unfolding attempt
  attempt-Reserves unique news after fresh first e =
      let a = visit_from h D dedup_shards 0 r disk begin unique in
      let (go, marks, left) = judged-ready a a.stop news after e in
      let placed =
        IfOk-ok (All (Placed h ops 0)) (unique_from h 0 [] ops) unique
          (unique_from-Placed h 0 [] ops) first in
      let (kept, done) = visit_from-Passed h D r disk dedup_shards 0 begin unique in
      let covered =
        unique_from-All h
          (λ id f.
            settled r (entry_of a.memory (operation_id_hash h id))
              (D.stored disk (operation_id_hash h id))
            ≡ some f)
          ops unique first
          (All-weaken
            (λ x p. p (ground (arith, dedup_shard-lt (operation_id_hash h (x.1).operation_id))))
            unique (done go)) in
      subst (λ m'. Reserves news m') left
        (subst (λ ns. Reserves ns a.memory) marks
          (record {
            kept = kept;
            marked =
                visit_from-Marked h r ops D disk begin unique placed
                  (λ j f p. absurd (fresh j f p));
            owned =
                visit_from-Owned h r ops D disk begin unique placed
                  (λ j p. absurd (ground (arith, contains-no_marks h 0 ops j, p)));
            sized = length-flags a.news 0 ops;
            covered = covered;
          }))

  pub preflight_batch-Reserves :
      (news : List Bool) (after : DedupShards)
      → IsFresh r m
      → preflight_batch h D r m disk ops ≡ (ready news, after)
      → Reserves news after
  unfolding preflight_batch
  preflight_batch-Reserves news after fresh e = elim (Result-cases (unique_from h 0 [] ops)) [
    | inl (unique, first) ↦
        attempt-Reserves unique news after fresh first (rw (first, preflight_batch) at e)
    | inr (why, bad) ↦
        let no : (rejected why, m) ≡ (ready news, after) = rw (bad, preflight_batch) at e in
        absurd (ground (arith, no))
  ]

  module _ (news : List Bool) (after : DedupShards) (published : Balances)
      (held : Reserves news after) where
    abbrev key : Operation → Hash
    key op = operation_id_hash h op.operation_id

    ended-known :
        (j : Hash) (f : Fingerprint)
        → settled r (entry_of after j) (D.stored disk j) ≡ some f
        → known (entry_of (finish_batch h after published ops news true).memory j) (D.stored disk j)
          ≡ some f
    unfolding known
    ended-known j f s =
        ground (
          arith,
          s,
          entry_of-finish_batch h after published ops news true j,
          held.marked j (some f),
        )

    -- After the request is finished, its operations are committed.
    finish-IsKnown :
        All (IsKnown h D (finish_batch h after published ops news true).memory disk) ops
    finish-IsKnown = All-weaken (λ op s. ended-known (key op) (fingerprint h op) s) ops held.covered

    -- After it is given up, the index is what it was.
    cancel_restores :
        IsFresh r m
        → (j : Hash)
        → entry_of (finish_batch h after published ops news false).memory j ≡ entry_of m j
    cancel_restores fresh j =
        let e = entry_of-finish_batch h after published ops news false j in
        elim (Bool-cases (contains (new_keys h ops news) j)) [
          | inl mine ↦
              let (f, there) = held.owned j mine in
              elim (held.kept j) [
                | inl same ↦ absurd (fresh j (some f) (sym same ∙ there))
                | inr (empty, unknown, reserved) ↦ e ∙ rw mine (sym empty)
              ]
          | inr other ↦ elim (held.kept j) [
            | inl same ↦ e ∙ rw other same
            | inr (empty, unknown, (f, reserved)) ↦
                absurd (ground (arith, other, held.marked j (some f) reserved))
          ]
        ]

  -- When no entry is pending under the new reservation and `preflight_batch` is ready, then after
  -- `finish_batch` with success every operation of the request, new or not, is committed with its own
  -- fingerprint, in memory or on disk.
  pub finish_batch-IsKnown :
      (news : List Bool) (after : DedupShards) (published : Balances)
      → IsFresh r m
      → preflight_batch h D r m disk ops ≡ (ready news, after)
      → All (IsKnown h D (finish_batch h after published ops news true).memory disk) ops
  finish_batch-IsKnown news after published fresh e =
      finish-IsKnown news after published (preflight_batch-Reserves news after fresh e)

  -- When no entry is pending under the new reservation and `preflight_batch` is ready, then `finish_batch`
  -- with failure leaves under every id the entry that was there before the request.
  pub finish_batch-cancelled :
      (news : List Bool) (after : DedupShards) (published : Balances)
      → IsFresh r m
      → preflight_batch h D r m disk ops ≡ (ready news, after)
      → (j : Hash)
      → entry_of (finish_batch h after published ops news false).memory j ≡ entry_of m j
  finish_batch-cancelled news after published fresh e =
      cancel_restores news after published (preflight_batch-Reserves news after fresh e) fresh
