-- ===== src/Disk/Index.antt =====
-- src/dedup_disk.rs: the index as the map of hashes to fingerprints that src/state.rs uses.
use virt_warehouse_pro.Common.{
  ◌<◌, ◌≡◌, refl, ap, ◌∙◌, subst, inl, inr, arith, List, [], ◌∷◌, Option, some, false, ==_iff,
  Result, ok, err, >>=-eq-ok, map, Bool-cases, length, map_ext,
}
use virt_warehouse_pro.Common.Eq.{◌==◌, list_eq, nat_eq}
use virt_warehouse_pro.Disk.Tree.{Tree}
use virt_warehouse_pro.Store.Types.{Hash, Fingerprint}
use virt_warehouse_pro.Store.DiskIndex.{inserted}
use virt_warehouse_pro.Disk.Dedup.{
  dedup_lsm_shard, DiskDedup, keyspace, put_all, add_all, commit, mark,
}
use virt_warehouse_pro.Disk.Warmup.Filters.{names, get-put_all, length-add_all, bloom_maybe-add_all}
use virt_warehouse_pro.Disk.Rows.{stored, first_of}
use virt_warehouse_pro.Disk.Lookup.{IsCovered, get_many-eq_ok}
use virt_warehouse_pro.Disk.Dedup.{Reads, get_many, is_candidate}
use virt_warehouse_pro.Disk.Dedup.{insert_many}
use virt_warehouse_pro.Store.DiskIndex.{DiskIndex}

first_of-inserted :
    (entries : List (Hash × Fingerprint)) (key : Hash) (a b : Option Fingerprint)
    → first_of (inserted entries key a) b ≡ inserted entries key (first_of a b)
first_of-inserted [] key a b = refl
first_of-inserted ((k, v) ∷ entries) key a b = elim (Bool-cases (k == key)) [
  | inl t ↦ rw t (first_of-inserted entries key (some v) b)
  | inr t ↦ rw t (first_of-inserted entries key a b)
]

stored-commit :
    {K : Type 0} ⦃tree : Tree K⦄
    → (d : DiskDedup K) (entries : List (Hash × Fingerprint)) (key : Hash)
    → stored (mark (commit d entries) entries) key ≡ inserted entries key (stored d key)
unfolding stored commit mark keyspace
stored-commit d entries key =
    rw
      (
        get-put_all d.lsm_dedup_shards entries key (dedup_lsm_shard key),
        (==_iff (dedup_lsm_shard key) (dedup_lsm_shard key)).1 refl,
      )
      (first_of-inserted entries key _ _)

abbrev or_first : {K : Type 0} → DiskDedup K → Result (DiskDedup K) → DiskDedup K
or_first d (err e) = d
or_first d (ok t) = t

-- What an insertion that succeeds leaves.
insert_many-eq_ok :
    {K : Type 0} ⦃tree : Tree K⦄
    → (committed : Result (Unit {0})) (d t : DiskDedup K) (entries : List (Hash × Fingerprint))
    → insert_many committed d entries ≡ ok t
    → mark (commit d entries) entries ≡ t
unfolding insert_many commit mark put_all add_all
insert_many-eq_ok committed d t [] h = ap (or_first d) h
insert_many-eq_ok committed d t (e ∷ entries) h =
    let (passed, first, done) = >>=-eq-ok committed _ h in ap (or_first d) done

-- After entries are inserted, each key has the value of the last entry for it, and its earlier value
-- if there is none.
pub insert_many-stored :
    {K : Type 0} ⦃tree : Tree K⦄
    → (committed : Result (Unit {0})) (d t : DiskDedup K) (entries : List (Hash × Fingerprint))
      (key : Hash)
    → insert_many committed d entries ≡ ok t
    → stored t key ≡ inserted entries key (stored d key)
insert_many-stored {K = K} committed d t entries key h =
    subst (λ (x : DiskDedup K). stored x key ≡ inserted entries key (stored d key))
      (insert_many-eq_ok committed d t entries h) (stored-commit d entries key)

unfoldable pub IsSound : {K : Type 0} ⦃tree : Tree K⦄ → DiskDedup K → Type 0
IsSound d = (0 < length d.bloom) × IsCovered d

inserted-none :
    (entries : List (Hash × Fingerprint)) (key : Hash) (old : Option Fingerprint)
    → names entries key ≡ false
    → inserted entries key old ≡ old
unfolding names
inserted-none [] key old h = refl
inserted-none ((k, v) ∷ entries) key old h = elim (Bool-cases (k == key)) [
  | inl t ↦ absurd (ground (arith, t, h))
  | inr t ↦ rw t (inserted-none entries key old (ground (arith, t, h)))
]

commit-IsSound :
    {K : Type 0} ⦃tree : Tree K⦄
    → (d : DiskDedup K) (entries : List (Hash × Fingerprint)) → IsSound d
    → IsSound (mark (commit d entries) entries)
unfolding IsSound IsCovered is_candidate commit mark
commit-IsSound d entries h = (
  omega (arith, length-add_all d.bloom entries, h.0),
  λ key out.
      let found = bloom_maybe-add_all d.bloom entries key h.0 in
      let not_named : names entries key ≡ false = ground (arith, found, out) in
      stored-commit d entries key
      ∙ inserted-none entries key (stored d key) not_named
      ∙ h.1 key (ground (arith, found, out)),
)

-- The invariant of the lookups is kept by an insertion.
pub insert_many-IsSound :
    {K : Type 0} ⦃tree : Tree K⦄
    → (committed : Result (Unit {0})) (d t : DiskDedup K) (entries : List (Hash × Fingerprint))
    → IsSound d
    → insert_many committed d entries ≡ ok t
    → IsSound t
insert_many-IsSound committed d t entries h done =
    subst IsSound (insert_many-eq_ok committed d t entries done) (commit-IsSound d entries h)

-- A lookup after an insertion finds what was inserted, and else what was there.
pub get_many-insert_many :
    {K : Type 0} ⦃tree : Tree K⦄
    → (io : Reads) (committed : Result (Unit {0})) (d t : DiskDedup K)
      (entries : List (Hash × Fingerprint))
    → IsSound d
    → insert_many committed d entries ≡ ok t
    → (keys : List Hash) (values : List (Option Fingerprint)) → get_many io t keys ≡ ok values
    → values ≡ map (λ key. inserted entries key (stored d key)) keys
unfolding IsSound
get_many-insert_many io committed d t entries sound done keys values h =
    get_many-eq_ok io t (insert_many-IsSound committed d t entries sound done).1 keys values h
    ∙ map_ext (stored t) (λ key. inserted entries key (stored d key))
        (λ key. insert_many-stored committed d t entries key done) keys

-- A result with a proof of what holds of its value.
abbrev pub keep :
    {K : Type 0} ⦃tree : Tree K⦄
    → (r : Result (DiskDedup K)) → ((t : DiskDedup K) → r ≡ ok t → IsSound t)
    → Result ((d : DiskDedup K) × IsSound d)
keep (err why) sound = err why
keep (ok t) sound = ok (t, sound t refl)

pub keep-eq_ok :
    {K : Type 0} ⦃tree : Tree K⦄
    → (r : Result (DiskDedup K)) (sound : (t : DiskDedup K) → r ≡ ok t → IsSound t)
      (s : (d : DiskDedup K) × IsSound d)
    → keep r sound ≡ ok s
    → r ≡ ok s.0
keep-eq_ok (err why) sound s h = cc
keep-eq_ok {K = K} (ok t) sound s h =
    ap
      (λ (x : Result ((d : DiskDedup K) × IsSound d)). elim x [ err why ↦ err why | ok v ↦ ok v.0 ])
      h

-- The index, with its invariant, implements what the store relies on.
unfoldable pub disk_index : (K : Type 0) ⦃tree : Tree K⦄ → Reads → Result (Unit {0}) → DiskIndex
unfolding IsSound
disk_index K io committed = record {
  State = (d : DiskDedup K) × IsSound d;
  get_many = λ s keys. get_many io s.0 keys;
  insert_many = λ s entries.
      keep (insert_many committed s.0 entries)
        (λ t. insert_many-IsSound committed s.0 t entries s.1);
  stored = λ s key. stored s.0 key;
  get_many_lem = λ s keys values h. get_many-eq_ok io s.0 s.1.1 keys values h;
  insert_many_lem = λ s t entries key h.
      insert_many-stored committed s.0 t.0 entries key
        (keep-eq_ok (insert_many committed s.0 entries) _ t h);
}
