-- ===== src/Disk/Rows.antt =====
-- src/dedup_disk.rs: what a key's value is in the layers of the index, and what the passes of
-- `get_many` do with the row of one key.
use virt_warehouse_pro.Common.{
  ℕ, zero, suc, ◌+◌, ◌<◌, ◌≡◌, ap, inl, inr, arith, Option, none, some, Bool, true, false, ◌&&◌,
  ltb, leb, ◌==◌ as nat_beq, ==_iff, if◌then◌else◌, Option-cases,
}
use virt_warehouse_pro.Common.Eq.{list_eq, nat_eq}
use virt_warehouse_pro.Disk.Tree.{Tree, get}
use virt_warehouse_pro.Bytes.Words.{Bytes}
use virt_warehouse_pro.Bytes.Bits.{bit_and-le}
use virt_warehouse_pro.Store.Types.{Hash, Fingerprint}
use virt_warehouse_pro.Disk.Dedup.{
  dedup_lsm_shards, dedup_shards, dedup_disk_shard, dedup_lsm_shard, DiskDedup, Layer, lsm_shard,
  lsm_whole, file_shard, file_whole, keyspace, Row, is_missing, found_in,
}

abbrev pub first_of : Option Bytes → Option Bytes → Option Bytes
first_of none next = next
first_of (some v) next = some v

-- The value of a key: of the first layer that has one.
unfoldable pub stored : {K : Type 0} ⦃tree : Tree K⦄ → DiskDedup K → Hash → Option Fingerprint
stored d key = first_of (get key (keyspace d (lsm_shard (dedup_lsm_shard key)))) (
    first_of (get key (keyspace d lsm_whole)) (
      if d.legacy_fallback
      then first_of (get key (keyspace d (file_shard (dedup_disk_shard key))))
          (get key (keyspace d file_whole))
      else none))

abbrev pub look : {K : Type 0} ⦃tree : Tree K⦄ → DiskDedup K → (Row → Bool) → Layer → Row → Row
look d wanted layer r = if wanted r then found_in (get r.key (keyspace d layer)) r else r

pub dedup_lsm_shard-lt : (key : Hash) → dedup_lsm_shard key < dedup_lsm_shards
unfolding dedup_lsm_shard
dedup_lsm_shard-lt key = omega (arith, bit_and-le _ 63)

pub dedup_disk_shard-lt : (key : Hash) → dedup_disk_shard key < dedup_shards
unfolding dedup_disk_shard
dedup_disk_shard-lt key = omega (arith, bit_and-le _ 15)

module _ {K : Type 0} ⦃tree : Tree K⦄ (d : DiskDedup K) where
  unfoldable pub in_lsm_shard : ℕ → Row → Bool
  in_lsm_shard shard r = r.candidate && nat_beq (dedup_lsm_shard r.key) shard

  unfoldable pub in_file_shard : ℕ → Row → Bool
  in_file_shard shard r = is_missing r && nat_beq (dedup_disk_shard r.key) shard

  -- What the loops over the shards do with a row.
  unfoldable pub lsm_row : ℕ → ℕ → Row → Row
  lsm_row zero shard r = r
  lsm_row (suc left) shard r =
      lsm_row left (suc shard) (look d (in_lsm_shard shard) (lsm_shard shard) r)

  unfoldable pub file_row : ℕ → ℕ → Row → Row
  file_row zero shard r = r
  file_row (suc left) shard r =
      file_row left (suc shard) (look d (in_file_shard shard) (file_shard shard) r)

  -- A row is looked up once, in the shard of its key.
  lsm_row_lem :
      (left shard : ℕ) (r : Row)
      → lsm_row left shard r ≡ (
          if r.candidate
            && (leb shard (dedup_lsm_shard r.key) && ltb (dedup_lsm_shard r.key) (shard + left))
          then found_in (get r.key (keyspace d (lsm_shard (dedup_lsm_shard r.key)))) r
          else r)
  unfolding lsm_row in_lsm_shard
  lsm_row_lem zero shard r = ground arith
  lsm_row_lem (suc left) shard r =
      elim (Option-cases (get r.key (keyspace d (lsm_shard (dedup_lsm_shard r.key))))) [
        | inl e ↦
            ground (arith, e, lsm_row_lem left (suc shard) r, ==_iff (dedup_lsm_shard r.key) shard)
        | inr (v, e) ↦ ground (
          arith,
          e,
          lsm_row_lem left (suc shard) r,
          lsm_row_lem left (suc shard) (found_in (some v) r),
          ==_iff (dedup_lsm_shard r.key) shard,
        )
      ]

  file_row_lem :
      (left shard : ℕ) (r : Row)
      → file_row left shard r ≡ (
          if is_missing r
            && (leb shard (dedup_disk_shard r.key) && ltb (dedup_disk_shard r.key) (shard + left))
          then found_in (get r.key (keyspace d (file_shard (dedup_disk_shard r.key)))) r
          else r)
  unfolding file_row in_file_shard
  file_row_lem zero shard r = ground arith
  file_row_lem (suc left) shard r =
      elim (Option-cases (get r.key (keyspace d (file_shard (dedup_disk_shard r.key))))) [
        | inl e ↦
            ground
              (arith, e, file_row_lem left (suc shard) r, ==_iff (dedup_disk_shard r.key) shard)
        | inr (v, e) ↦ ground (
          arith,
          e,
          file_row_lem left (suc shard) r,
          file_row_lem left (suc shard) (found_in (some v) r),
          ==_iff (dedup_disk_shard r.key) shard,
        )
      ]

  unfoldable pub legacy_row : Row → Row
  legacy_row r =
      if d.legacy_fallback then look d is_missing file_whole (file_row dedup_shards 0 r) else r

  unfoldable pub row_after : Row → Row
  row_after r = legacy_row (look d is_missing lsm_whole (lsm_row dedup_lsm_shards 0 r))

  pub legacy_row_lem :
      (b : Bool) (r : Row)
      → d.legacy_fallback ≡ b
      → legacy_row r ≡ (if b then look d is_missing file_whole (file_row dedup_shards 0 r) else r)
  unfolding legacy_row
  legacy_row_lem b r h =
      ap (λ (b : Bool). if b then look d is_missing file_whole (file_row dedup_shards 0 r) else r) h

  lsm_row-all :
      (r : Row)
      → lsm_row dedup_lsm_shards 0 r ≡ (
          if r.candidate
          then found_in (get r.key (keyspace d (lsm_shard (dedup_lsm_shard r.key)))) r
          else r)
  lsm_row-all r = ground (arith, lsm_row_lem dedup_lsm_shards 0 r, dedup_lsm_shard-lt r.key)

  file_row-all :
      (r : Row)
      → file_row dedup_shards 0 r ≡ (
          if is_missing r
          then found_in (get r.key (keyspace d (file_shard (dedup_disk_shard r.key)))) r
          else r)
  file_row-all r = ground (arith, file_row_lem dedup_shards 0 r, dedup_disk_shard-lt r.key)

  legacy_row-found :
      (key : Hash) (found : Option Fingerprint)
      → (legacy_row (record { key = key; candidate = true; found = found })).found
        ≡ first_of found (
            if d.legacy_fallback
            then first_of
                (get key (keyspace d (file_shard (dedup_disk_shard key))))
                (get key (keyspace d file_whole))
            else none)
  unfolding legacy_row
  legacy_row-found key none =
      rw (file_row-all (record { key = key; candidate = true; found = none }))
        (elim (Option-cases (get key (keyspace d (file_shard (dedup_disk_shard key))))) [
          | inl e ↦ elim (Option-cases (get key (keyspace d file_whole))) [
            | inl g ↦ ground (arith, e, g)
            | inr (w, g) ↦ ground (arith, e, g)
          ]
          | inr (v, e) ↦ ground (arith, e)
        ])
  legacy_row-found key (some v) =
      rw (file_row-all (record { key = key; candidate = true; found = some v })) (ground arith)

  legacy_row-kept :
      (key : Hash) (found : Option Fingerprint)
      → (legacy_row (record { key = key; candidate = false; found = found })).found ≡ found
  unfolding legacy_row
  legacy_row-kept key found =
      rw (file_row-all (record { key = key; candidate = false; found = found })) (ground arith)

  pub row_after-found :
      (key : Hash) (seen : Bool)
      → (row_after (record { key = key; candidate = seen; found = none })).found
        ≡ (if seen then stored d key else none)
  unfolding row_after stored
  row_after-found key false =
      rw (lsm_row-all (record { key = key; candidate = false; found = none }))
        (legacy_row-kept key none)
  row_after-found key true =
      rw (lsm_row-all (record { key = key; candidate = true; found = none }))
        (elim (Option-cases (get key (keyspace d (lsm_shard (dedup_lsm_shard key))))) [
          | inl e ↦ elim (Option-cases (get key (keyspace d lsm_whole))) [
            | inl g ↦ rw (e, g) (legacy_row-found key none)
            | inr (w, g) ↦ rw (e, g) (legacy_row-found key (some w))
          ]
          | inr (v, e) ↦ rw e (legacy_row-found key (some v))
        ])
