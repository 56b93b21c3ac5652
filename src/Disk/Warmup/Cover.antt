-- ===== src/Disk/Warmup/Cover.antt =====
-- src/dedup_disk.rs: no key that is stored is is_missing from a Bloom filter that is in use.
use virt_warehouse_pro.Common.{
  ◌<◌, ◌≡◌, refl, sym, ap, ◌∙◌, subst, inl, inr, arith, List, [], ◌∷◌, ◌++◌, Bool, true, false, not,
  ◌&&◌, ◌||◌, Bool-cases, Option-cases, length,
}
use virt_warehouse_pro.Common.Eq.{list_eq, nat_eq}
use virt_warehouse_pro.Disk.Tree.{Tree, get}
use virt_warehouse_pro.Bytes.Words.{Bytes}
use virt_warehouse_pro.Store.Types.{Hash, Fingerprint}
use virt_warehouse_pro.Store.DiskIndex.{inserted}
use virt_warehouse_pro.Disk.Bloom.{bloom_maybe}
use virt_warehouse_pro.Disk.Bloom.Members.{length-merge, bloom_maybe-merge}
use virt_warehouse_pro.Disk.Dedup.{
  dedup_disk_shard, dedup_lsm_shard, DiskDedup, is_none, Layer, lsm_shard, lsm_whole, file_shard,
  file_whole, keyspace, commit, mark,
}
use virt_warehouse_pro.Disk.Warmup.{
  publish, Warmup, Step, Step.commit_batch, Step.mark_batch, Step.scan, Step.abandon, Step.finish,
}
use virt_warehouse_pro.Disk.Warmup.Filters.{
  layer_beq, layer_beq-eq, has, names, awaits, awaits-append, get-put_all, inserted-eq_some,
  length-add_all, bloom_maybe-add_all, length-add_keys, bloom_maybe-add_keys,
}

-- A value in a layer is in the filter, or its batch will be added, or the thread has it or will read it.
unfoldable pub is_seen : {K : Type 0} ⦃tree : Tree K⦄ → Warmup K → Layer → Hash → Bool
is_seen w layer key =
    bloom_maybe w.index.bloom key
    || (awaits w.adding key
        || (not w.index.bloom_ready && (bloom_maybe w.rebuilt key || has w.left layer)))

abbrev pub holds : {K : Type 0} ⦃tree : Tree K⦄ → DiskDedup K → Layer → Hash → Bool
holds d layer key = not (is_none (get key (keyspace d layer)))

-- The layers in which a key is looked up.
unfoldable pub home_layers : Hash → List Layer
home_layers key =
    lsm_shard (dedup_lsm_shard key)
    ∷ lsm_whole
    ∷ file_shard (dedup_disk_shard key)
    ∷ file_whole
    ∷ []

-- What holds in every state that is reached.
unfoldable pub IsWarm : {K : Type 0} ⦃tree : Tree K⦄ → Warmup K → Type 0
IsWarm w =
    (0 < length w.index.bloom)
    × (length w.rebuilt ≡ length w.index.bloom)
    × ((layer : Layer) (key : Hash)
        → has (home_layers key) layer ≡ true
        → holds w.index layer key ≡ true
        → is_seen w layer key ≡ true)

holds-commit :
    {K : Type 0} ⦃tree : Tree K⦄
    → (d : DiskDedup K) (entries : List (Hash × Fingerprint)) (layer : Layer) (key : Hash)
    → holds (commit d entries) layer key ≡ true
    → (names entries key || holds d layer key) ≡ true
unfolding commit keyspace
holds-commit d entries (lsm_shard i) key h =
    let old = get key (d.lsm_dedup_shards i) in
    let after = get-put_all d.lsm_dedup_shards entries key i in
    elim (Option-cases (inserted entries key old)) [
      | inl e ↦ ground (arith, h, after, e)
      | inr (v, e) ↦ elim (inserted-eq_some entries key old v e) [
        | inl named ↦ ground (arith, named)
        | inr kept ↦ ground (arith, kept)
      ]
    ]
holds-commit d entries lsm_whole key h = ground (arith, h)
holds-commit d entries (file_shard i) key h = ground (arith, h)
holds-commit d entries file_whole key h = ground (arith, h)

keyspace-mark :
    {K : Type 0}
    → (d : DiskDedup K) (entries : List (Hash × Fingerprint)) (layer : Layer)
    → keyspace (mark d entries) layer ≡ keyspace d layer
unfolding keyspace mark
keyspace-mark d entries (lsm_shard i) = refl
keyspace-mark d entries lsm_whole = refl
keyspace-mark d entries (file_shard i) = refl
keyspace-mark d entries file_whole = refl

keyspace-publish :
    {K : Type 0}
    → (d : DiskDedup K) (rebuilt : Bytes) (layer : Layer)
    → keyspace (publish d rebuilt) layer ≡ keyspace d layer
unfolding keyspace publish
keyspace-publish d rebuilt (lsm_shard i) = refl
keyspace-publish d rebuilt lsm_whole = refl
keyspace-publish d rebuilt (file_shard i) = refl
keyspace-publish d rebuilt file_whole = refl

-- A value that is in a layer is in the same one with equal entries.
pub holds_eq :
    {K : Type 0} ⦃tree : Tree K⦄
    → (d e : DiskDedup K) (layer : Layer) (key : Hash) → keyspace d layer ≡ keyspace e layer
    → holds d layer key ≡ true
    → holds e layer key ≡ true
holds_eq {K = K} d e layer key same h = subst (λ (k : K). not (is_none (get key k)) ≡ true) same h

pub Step-IsWarm : {K : Type 0} ⦃tree : Tree K⦄ → (v w : Warmup K) → Step v w → IsWarm v → IsWarm w
unfolding IsWarm is_seen awaits commit mark has publish
Step-IsWarm v _ (commit_batch _ entries) h = (
  h.0,
  h.1,
  λ layer key home held.
      ground (arith, holds-commit v.index entries layer key held, h.2 layer key home),
)
Step-IsWarm v _ (mark_batch _ before after entries e) h =
    let size = length-add_all v.index.bloom entries in
    (
      omega (arith, size, h.0),
      h.1 ∙ sym size,
      λ layer key home held.
          let old = h.2 layer key home (
            holds_eq (mark v.index entries) v.index layer key (keyspace-mark v.index entries layer)
              held) in
          let split : awaits v.adding key ≡ (names entries key || awaits (before ++ after) key) =
            ap (λ a. awaits a key) e ∙ awaits-append before after entries key in
          ground (arith, old, split, bloom_maybe-add_all v.index.bloom entries key h.0),
    )
Step-IsWarm ⦃tree = tree⦄ v _ (scan _ layer rest rebuilt runs e added) h =
    let size = length-add_keys v.rebuilt rebuilt (tree.entries (keyspace v.index layer)) added in
    (
      h.0,
      size ∙ h.1,
      λ other key home held.
          let old = h.2 other key home held in
          let left : has v.left other ≡ (layer_beq layer other || has rest other) =
            ap (λ l. has l other) e in
          let read =
            bloom_maybe-add_keys v.rebuilt rebuilt (tree.entries (keyspace v.index layer)) key
              (omega (arith, h.0, h.1)) added in
          elim (Bool-cases (layer_beq layer other)) [
            | inl t ↦
                let here : holds v.index layer key ≡ true =
                  subst (λ (l : Layer). holds v.index l key ≡ true)
                    (sym (layer_beq-eq layer other t)) held in
                ground (arith, read, here, tree.get_entries key (keyspace v.index layer))
            | inr t ↦ ground (arith, old, left, t, read)
          ],
    )
Step-IsWarm v _ (abandon _ layer rest runs e) h = h
Step-IsWarm v _ (finish _ runs e) h =
    let size = length-merge v.index.bloom v.rebuilt in
    (
      omega (arith, size, h.0),
      h.1 ∙ sym size,
      λ layer key home held.
          let old = h.2 layer key home (
            holds_eq (publish v.index v.rebuilt) v.index layer key
              (keyspace-publish v.index v.rebuilt layer) held) in
          let none_left : has v.left layer ≡ false = ap (λ l. has l layer) e in
          ground (arith, old, none_left, bloom_maybe-merge v.index.bloom v.rebuilt key (sym h.1)),
    )
