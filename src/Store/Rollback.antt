-- ===== src/Store/Rollback.antt =====
-- `rollback_reservation` of src/state.rs: the entries of the index after it.
use virt_warehouse_pro.Common.{
  ℕ, zero, suc, ◌+◌, ◌<◌, ◌≡◌, ◌≢◌, refl, sym, ap, ◌∙◌, arith, List, [], ◌∷◌, ◌++◌, Option, none,
  some, Bool, true, false, ◌&&◌, ◌||◌, ltb, leb, ◌==◌ as nat_beq, if◌then◌else◌, Bool-cases, inl,
  inr,
}
use virt_warehouse_pro.Common.Eq.{◌==◌, list_eq, nat_eq, list_beq_iff, beq_refl}
use virt_warehouse_pro.Store.Types.{
  Hash, Fingerprint, Notify, DedupEntry, committed, pending, DedupShards, dedup_shards, dedup_shard,
  entry_of,
}
use virt_warehouse_pro.Store.Index.{entry_of-drop_entry}
use virt_warehouse_pro.Store.Preflight.{
  Attempt, in_shard, release, release_all, rollback_from, rollback_reservation,
}

-- The entry without what this reservation put there.
abbrev pub undo : Notify → Option DedupEntry → Option DedupEntry
undo r none = none
undo r (some (committed f)) = some (committed f)
undo r (some (pending f n)) = if nat_beq n r then none else some (pending f n)

undo_twice : (r : Notify) (e : Option DedupEntry) → undo r (undo r e) ≡ undo r e
undo_twice r e = ground arith

unfoldable pub contains : List Hash → Hash → Bool
contains [] j = false
contains (k ∷ ks) j = (k == j) || contains ks j

entry_of-release :
    (r : Notify) (m : DedupShards) (k j : Hash)
    → entry_of (release r m k) j ≡ (if k == j then undo r (entry_of m j) else entry_of m j)
unfolding release
entry_of-release r m k j = elim (Bool-cases (k == j)) [
  | inl same ↦
      rw ((list_beq_iff k j).0 same, beq_refl j)
        (ground (arith, entry_of-drop_entry m j j, beq_refl j))
  | inr other ↦ rw other (ground (arith, entry_of-drop_entry m k j, other))
]

entry_of-release_all :
    (r : Notify) (m : DedupShards) (ks : List Hash) (j : Hash)
    → entry_of (release_all r m ks) j
      ≡ (if contains ks j then undo r (entry_of m j) else entry_of m j)
unfolding release_all contains
entry_of-release_all r m [] j = refl
entry_of-release_all r m (k ∷ ks) j = ground (
  arith,
  entry_of-release_all r (release r m k) ks j,
  entry_of-release r m k j,
  undo_twice r (entry_of m j),
)

same_shard : (k j : Hash) → (k == j) ≡ true → dedup_shard k ≡ dedup_shard j
same_shard k j h = ap dedup_shard ((list_beq_iff k j).0 h)

pub contains-in_shard :
    (shard : ℕ) (ks : List Hash) (j : Hash)
    → contains (in_shard dedup_shard shard ks) j ≡ (contains ks j && nat_beq (dedup_shard j) shard)
unfolding contains in_shard
contains-in_shard shard [] j = refl
contains-in_shard shard (k ∷ ks) j = ground (arith, contains-in_shard shard ks j, same_shard k j)

pub dedup_shard-lt : (k : Hash) → dedup_shard k < dedup_shards
unfolding dedup_shard
dedup_shard-lt k = omega arith

-- After the shards from `shard` on, `left` of them, the keys of those shards are undone.
entry_of-rollback_from :
    (left shard : ℕ) (r : Notify) (m : DedupShards) (ks : List Hash) (j : Hash)
    → entry_of (rollback_from left shard r m ks) j ≡ (
        if contains ks j && (leb shard (dedup_shard j) && ltb (dedup_shard j) (shard + left))
        then undo r (entry_of m j)
        else entry_of m j)
unfolding rollback_from
entry_of-rollback_from zero shard r m ks j = ground arith
entry_of-rollback_from (suc left) shard r m ks j = ground (
  arith,
  entry_of-rollback_from left (suc shard) r (release_all r m (in_shard dedup_shard shard ks)) ks j,
  entry_of-release_all r m (in_shard dedup_shard shard ks) j,
  contains-in_shard shard ks j,
  undo_twice r (entry_of m j),
)

pub entry_of-rollback_reservation :
    (m : DedupShards) (ks : List Hash) (r : Notify) (j : Hash)
    → entry_of (rollback_reservation m ks r) j
      ≡ (if contains ks j then undo r (entry_of m j) else entry_of m j)
unfolding rollback_reservation
entry_of-rollback_reservation m ks r j =
    ground (arith, entry_of-rollback_from dedup_shards 0 r m ks j, dedup_shard-lt j)

pub contains-append_self :
    (ks : List Hash) (k j : Hash) → contains (ks ++ k ∷ []) j ≡ (contains ks j || k == j)
unfolding contains
contains-append_self [] k j = ground arith
contains-append_self (i ∷ ks) k j = ground (arith, contains-append_self ks k j)

-- What an attempt under the reservation `r` has done to the index `m` so far can be undone: without
-- the pending entries of `r` it is `m`, and the keys of those entries are in `reserved`.
pub record IsUndoable (r : Notify) (m : DedupShards) (a : Attempt) : Type 0 where
  pub undone : (j : Hash) → undo r (entry_of a.memory j) ≡ entry_of m j
  pub noted :
      (j : Hash) (f : Option Fingerprint)
      → entry_of a.memory j ≡ some (pending f r)
      → contains a.reserved j ≡ true

-- Nothing in the index is pending under `r`: a reservation is new when an attempt starts.
abbrev pub IsFresh : Notify → DedupShards → Type 0
IsFresh r m = (j : Hash) (f : Option Fingerprint) → entry_of m j ≢ some (pending f r)

pub undo_fresh :
    (r : Notify) (e : Option DedupEntry)
    → ((f : Option Fingerprint) → e ≢ some (pending f r))
    → undo r e ≡ e
undo_fresh r none h = refl
undo_fresh r (some (committed f)) h = refl
undo_fresh r (some (pending f n)) h = ground (arith, h f)

-- An attempt that can be undone is undone by the rollback.
pub rollback-IsUndoable :
    (r : Notify) (m : DedupShards) (a : Attempt)
    → IsUndoable r m a
    → (j : Hash) → entry_of (rollback_reservation a.memory a.reserved r) j ≡ entry_of m j
rollback-IsUndoable r m a u j =
    entry_of-rollback_reservation a.memory a.reserved r j
    ∙ elim (Bool-cases (contains a.reserved j)) [
      | inl here ↦ rw here (u.undone j)
      | inr gone ↦ rw gone (sym (undo_fresh r _ (λ f e. cc (gone, u.noted j f e))) ∙ u.undone j)
    ]
