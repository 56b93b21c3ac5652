-- ===== src/Disk/Warmup/Lookups.antt =====
-- src/dedup_disk.rs: lookups while the Bloom filter is rebuilt.
use virt_warehouse_pro.Common.{
  ℕ, zero, suc, ◌+◌, ◌≤◌, ◌<◌, ◌≡◌, refl, ap, inl, inr, arith, List, [], ◌∷◌, ◌++◌, Option, none,
  true, false, ◌||◌, ok, map, Bool-cases, Option-cases, length,
}
use virt_warehouse_pro.Common.Eq.{list_eq, nat_eq}
use virt_warehouse_pro.Disk.Tree.{Tree, get}
use virt_warehouse_pro.Bytes.Words.{Bytes}
use virt_warehouse_pro.Store.Types.{Hash, Fingerprint}
use virt_warehouse_pro.Disk.Dedup.{
  dedup_lsm_shards, dedup_shards, dedup_disk_shard, dedup_lsm_shard, DiskDedup, Layer, lsm_shard,
  lsm_whole, file_shard, file_whole, keyspace,
}
use virt_warehouse_pro.Disk.Warmup.{
  numbered, layers, Warmup, Reach, Reach.start, Reach.then_step, opened,
}
use virt_warehouse_pro.Disk.Warmup.Filters.{has, awaits}
use virt_warehouse_pro.Disk.Warmup.Cover.{is_seen, home_layers, IsWarm, Step-IsWarm}
use virt_warehouse_pro.Disk.Rows.{stored, dedup_lsm_shard-lt, dedup_disk_shard-lt}
use virt_warehouse_pro.Disk.Lookup.{IsCovered, get_many-eq_ok, get_one-eq_ok}
use virt_warehouse_pro.Disk.Dedup.{Reads, get_one, get_many, is_candidate}

Reach-IsWarm : {K : Type 0} ⦃tree : Tree K⦄ → (v w : Warmup K) → Reach v w → IsWarm v → IsWarm w
Reach-IsWarm v _ (start _) h = h
Reach-IsWarm v w (then_step _ u _ r s) h = Step-IsWarm u w s (Reach-IsWarm v u r h)

has-append :
    (xs ys : List Layer) (layer : Layer) → has (xs ++ ys) layer ≡ (has xs layer || has ys layer)
unfolding has
has-append [] ys layer = refl
has-append (x ∷ xs) ys layer = ground (arith, has-append xs ys layer)

has-numbered_lsm :
    (left first i : ℕ)
    → first ≤ i
    → i < first + left
    → has (numbered lsm_shard left first) (lsm_shard i) ≡ true
unfolding has numbered
has-numbered_lsm zero first i p q = absurd (omega arith)
has-numbered_lsm (suc left) first i p q = ground (arith, has-numbered_lsm left (suc first) i)

has-numbered_file :
    (left first i : ℕ)
    → first ≤ i
    → i < first + left
    → has (numbered file_shard left first) (file_shard i) ≡ true
unfolding has numbered
has-numbered_file zero first i p q = absurd (omega arith)
has-numbered_file (suc left) first i p q = ground (arith, has-numbered_file left (suc first) i)

has-layers :
    (key : Hash) (layer : Layer) → has (home_layers key) layer ≡ true → has layers layer ≡ true
unfolding has layers home_layers
has-layers key lsm_whole h = refl
has-layers key file_whole h =
    rw
      (has-append (numbered lsm_shard dedup_lsm_shards 0)
        (file_whole ∷ numbered file_shard dedup_shards 0) file_whole)
      (ground arith)
has-layers key (lsm_shard i) h =
    rw
      (has-append (numbered lsm_shard dedup_lsm_shards 0)
        (file_whole ∷ numbered file_shard dedup_shards 0) (lsm_shard i))
      (ground (arith, h, has-numbered_lsm dedup_lsm_shards 0 i, dedup_lsm_shard-lt key))
has-layers key (file_shard i) h =
    rw
      (has-append (numbered lsm_shard dedup_lsm_shards 0)
        (file_whole ∷ numbered file_shard dedup_shards 0) (file_shard i))
      (ground (arith, h, has-numbered_file dedup_shards 0 i, dedup_disk_shard-lt key))

length-zeros : (bs : Bytes) → length {A = ℕ} (map (λ b. 0) bs) ≡ length bs
length-zeros [] = refl
length-zeros (b ∷ bs) = omega (arith, length-zeros bs)

-- An index that `open` finds: with a filter, which is in use at once only if nothing is stored.
unfoldable pub IsOpened : {K : Type 0} ⦃tree : Tree K⦄ → DiskDedup K → Type 0
IsOpened d =
    (0 < length d.bloom)
    × (d.bloom_ready ≡ true → (layer : Layer) (key : Hash) → get key (keyspace d layer) ≡ none)

opened-IsWarm : {K : Type 0} ⦃tree : Tree K⦄ → (d : DiskDedup K) → IsOpened d → IsWarm (opened d)
unfolding IsOpened IsWarm opened is_seen
opened-IsWarm d h = (
  h.0,
  length-zeros d.bloom,
  λ layer key home held. elim (Bool-cases d.bloom_ready) [
    | inl t ↦ let e = h.1 t layer key in ground (arith, e, held)
    | inr t ↦ ground (arith, t, has-layers key layer home)
  ],
)

is_home_lsm : (key : Hash) → has (home_layers key) (lsm_shard (dedup_lsm_shard key)) ≡ true
unfolding has home_layers
is_home_lsm key = ground arith

is_home_whole : (key : Hash) → has (home_layers key) lsm_whole ≡ true
unfolding has home_layers
is_home_whole key = refl

is_home_file : (key : Hash) → has (home_layers key) (file_shard (dedup_disk_shard key)) ≡ true
unfolding has home_layers
is_home_file key = ground arith

is_home_last : (key : Hash) → has (home_layers key) file_whole ≡ true
unfolding has home_layers
is_home_last key = refl

covered :
    {K : Type 0} ⦃tree : Tree K⦄ → (w : Warmup K) → IsWarm w → w.adding ≡ [] → IsCovered w.index
unfolding IsWarm IsCovered is_candidate is_seen awaits stored
covered w h quiet key out =
    let none_in : (layer : Layer)
        → has (home_layers key) layer ≡ true
        → get key (keyspace w.index layer) ≡ none =
      λ layer home. elim (Option-cases (get key (keyspace w.index layer))) [
        | inl e ↦ e
        | inr (v, e) ↦
            let seen = h.2 layer key home (ground (arith, e)) in
            let no_wait : awaits w.adding key ≡ false = ap (λ a. awaits a key) quiet in
            absurd (ground (arith, seen, no_wait, out))
      ] in
    let one = none_in (lsm_shard (dedup_lsm_shard key)) (is_home_lsm key) in
    let two = none_in lsm_whole (is_home_whole key) in
    let three = none_in (file_shard (dedup_disk_shard key)) (is_home_file key) in
    let four = none_in file_whole (is_home_last key) in ground (arith, one, two, three, four)

-- While the thread rebuilds the filter, in whatever order its steps and those of insertions are made,
-- and after it has ended, with or without an error: when no batch is between its commit and its
-- addition to the filter, a batch of lookups that succeeds returns, for each key, what the layers hold.
pub get_many-Reach :
    {K : Type 0} ⦃tree : Tree K⦄
    → (io : Reads) (d : DiskDedup K) (w : Warmup K) → IsOpened d
    → Reach (opened d) w
    → w.adding ≡ []
    → (keys : List Hash) (values : List (Option Fingerprint)) → get_many io w.index keys ≡ ok values
    → values ≡ map (stored w.index) keys
get_many-Reach io d w h reach quiet =
    get_many-eq_ok io w.index
      (covered w (Reach-IsWarm (opened d) w reach (opened-IsWarm d h)) quiet)

-- While the thread rebuilds the filter, in whatever order its steps and those of insertions are made,
-- and after it has ended, with or without an error: when no batch is between its commit and its
-- addition to the filter, a single lookup that succeeds returns what the layers hold.
pub get_one-Reach :
    {K : Type 0} ⦃tree : Tree K⦄
    → (io : Reads) (d : DiskDedup K) (w : Warmup K) → IsOpened d
    → Reach (opened d) w
    → w.adding ≡ []
    → (key : Hash) (found : Option Fingerprint) → get_one io w.index key ≡ ok found
    → found ≡ stored w.index key
get_one-Reach io d w h reach quiet =
    get_one-eq_ok io w.index (covered w (Reach-IsWarm (opened d) w reach (opened-IsWarm d h)) quiet)
