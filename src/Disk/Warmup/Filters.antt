-- ===== src/Disk/Warmup/Filters.antt =====
-- src/dedup_disk.rs: what the parts of a step add to the shards and to the filters.
use virt_warehouse_pro.Common.{
  ℕ, ◌<◌, ◌≡◌, refl, sym, ap, ◌∙◌, subst, ◌⊎◌, inl, inr, arith, List, [], ◌∷◌, ◌++◌, Option, some,
  Bool, true, false, not, ◌||◌, ◌==◌ as nat_beq, ==_iff, if◌then◌else◌, ok, >>=-eq-ok, Bool-cases,
  length, ensure, Error,
}
use virt_warehouse_pro.Common.Eq.{◌==◌, list_eq, nat_eq, list_beq_iff, beq_refl}
use virt_warehouse_pro.Common.Map as Map
use virt_warehouse_pro.Disk.Tree.{Tree, get, insert, get-insert}
use virt_warehouse_pro.Bytes.Words.{Bytes}
use virt_warehouse_pro.Store.Types.{Hash, Fingerprint}
use virt_warehouse_pro.Store.DiskIndex.{inserted}
use virt_warehouse_pro.Disk.Bloom.{bloom_maybe, bloom_add}
use virt_warehouse_pro.Disk.Bloom.Members.{length-bloom_add, bloom_maybe-bloom_add}
use virt_warehouse_pro.Disk.Dedup.{
  dedup_lsm_shard, is_none, Layer, lsm_shard, lsm_whole, file_shard, file_whole, put_all, add_all,
}
use virt_warehouse_pro.Disk.Warmup.{add_keys}

abbrev pub layer_beq : Layer → Layer → Bool
layer_beq (lsm_shard a) (lsm_shard b) = nat_beq a b
layer_beq lsm_whole lsm_whole = true
layer_beq (file_shard a) (file_shard b) = nat_beq a b
layer_beq file_whole file_whole = true
layer_beq a b = false

pub layer_beq-eq : (a b : Layer) → layer_beq a b ≡ true → a ≡ b
layer_beq-eq (lsm_shard a) (lsm_shard b) h = ap lsm_shard ((==_iff a b).0 h)
layer_beq-eq lsm_whole lsm_whole h = refl
layer_beq-eq (file_shard a) (file_shard b) h = ap file_shard ((==_iff a b).0 h)
layer_beq-eq file_whole file_whole h = refl
layer_beq-eq a b h = cc

unfoldable pub has : List Layer → Layer → Bool
has [] layer = false
has (l ∷ left) layer = layer_beq l layer || has left layer

-- The batch has an entry for the key.
unfoldable pub names : List (Hash × Fingerprint) → Hash → Bool
names [] key = false
names ((k, v) ∷ entries) key = (k == key) || names entries key

unfoldable pub awaits : List (List (Hash × Fingerprint)) → Hash → Bool
awaits [] key = false
awaits (entries ∷ adding) key = names entries key || awaits adding key

pub awaits-append :
    (before after : List (List (Hash × Fingerprint))) (entries : List (Hash × Fingerprint))
    (key : Hash)
    → awaits (before ++ (entries ∷ after)) key ≡ (names entries key || awaits (before ++ after) key)
unfolding awaits
awaits-append [] after entries key = refl
awaits-append (b ∷ before) after entries key =
    ground (arith, awaits-append before after entries key)

-- What the insertion of entries does to the value of a key in a shard.
pub get-put_all :
    {K : Type 0} ⦃tree : Tree K⦄
    → (shards : ℕ → K) (entries : List (Hash × Fingerprint)) (key : Hash) (i : ℕ)
    → get key (put_all shards entries i) ≡ (
        if nat_beq i (dedup_lsm_shard key)
        then inserted entries key (get key (shards i))
        else get key (shards i))
unfolding put_all
get-put_all shards [] key i = ground arith
get-put_all shards ((k, v) ∷ entries) key i = elim (Bool-cases (k == key)) [
  | inl t ↦
      let e : k ≡ key = (list_beq_iff k key).0 t in
      rw
        (
          get-put_all
              (λ j. if nat_beq j (dedup_lsm_shard k) then insert k v (shards j) else shards j)
              entries key i,
          sym e,
        )
        (elim (Bool-cases (nat_beq i (dedup_lsm_shard k))) [
          | inl u ↦ rw (u, get-insert k k v (shards i), beq_refl k) refl
          | inr u ↦ rw u refl
        ])
  | inr t ↦
      rw
        (
          get-put_all
              (λ j. if nat_beq j (dedup_lsm_shard k) then insert k v (shards j) else shards j)
              entries key i,
          t,
        )
        (elim (Bool-cases (nat_beq i (dedup_lsm_shard k))) [
          | inl u ↦ rw (u, get-insert k key v (shards i), t) refl
          | inr u ↦ rw u refl
        ])
]

pub inserted-eq_some :
    (entries : List (Hash × Fingerprint)) (key : Hash) (old : Option Fingerprint) (v : Fingerprint)
    → inserted entries key old ≡ some v
    → (names entries key ≡ true) ⊎ (old ≡ some v)
unfolding names
inserted-eq_some [] key old v h = inr h
inserted-eq_some ((k, w) ∷ entries) key old v h = elim (Bool-cases (k == key)) [
  | inl t ↦ inl (ground (arith, t))
  | inr t ↦ ground (arith, t, h, inserted-eq_some entries key old v)
]

pub length-add_all :
    (bloom : Bytes) (entries : List (Hash × Fingerprint))
    → length (add_all bloom entries) ≡ length bloom
unfolding add_all
length-add_all bloom [] = refl
length-add_all bloom ((k, v) ∷ entries) =
    length-add_all (bloom_add bloom k) entries ∙ length-bloom_add bloom k

pub bloom_maybe-add_all :
    (bloom : Bytes) (entries : List (Hash × Fingerprint)) (key : Hash)
    → 0 < length bloom
    → (names entries key || bloom_maybe bloom key) ≡ true
    → bloom_maybe (add_all bloom entries) key ≡ true
unfolding add_all names
bloom_maybe-add_all bloom [] key some_bits h = h
bloom_maybe-add_all bloom ((k, v) ∷ entries) key some_bits h =
    let both = bloom_maybe-bloom_add bloom k key some_bits in
    let rest =
      bloom_maybe-add_all (bloom_add bloom k) entries key
        (omega (arith, length-bloom_add bloom k)) in
    elim (Bool-cases (k == key)) [
      | inl t ↦
          let e : k ≡ key = (list_beq_iff k key).0 t in
          let found : bloom_maybe (bloom_add bloom k) key ≡ true =
            subst (λ (x : Hash). bloom_maybe (bloom_add bloom k) x ≡ true) e both.0 in
          rest (ground (arith, found))
      | inr t ↦ rest (ground (arith, t, h, both))
    ]

pub length-add_keys :
    (bloom last : Bytes) (entries : List (Bytes × Bytes))
    → add_keys bloom entries ≡ ok last
    → length last ≡ length bloom
unfolding add_keys
length-add_keys bloom last [] h = cc
length-add_keys bloom last ((k, v) ∷ entries) h =
    let (passed, checked, done) = >>=-eq-ok (ensure (nat_beq (length k) 32) Error.bad_length) _ h in
    length-add_keys (bloom_add bloom k) last entries done ∙ length-bloom_add bloom k

pub bloom_maybe-add_keys :
    (bloom last : Bytes) (entries : List (Bytes × Bytes)) (key : Hash)
    → 0 < length bloom
    → add_keys bloom entries ≡ ok last
    → (bloom_maybe bloom key || not (is_none (Map.get key entries))) ≡ true
    → bloom_maybe last key ≡ true
unfolding add_keys Map.get
bloom_maybe-add_keys bloom last [] key some_bits h known =
    let same : bloom ≡ last = ground (arith, h) in
    subst (λ (b : Bytes). bloom_maybe b key ≡ true) same (ground (arith, known))
bloom_maybe-add_keys bloom last ((k, v) ∷ entries) key some_bits h known =
    let (passed, checked, done) = >>=-eq-ok (ensure (nat_beq (length k) 32) Error.bad_length) _ h in
    let both = bloom_maybe-bloom_add bloom k key some_bits in
    let rest =
      bloom_maybe-add_keys (bloom_add bloom k) last entries key
        (omega (arith, length-bloom_add bloom k)) done in
    elim (Bool-cases (k == key)) [
      | inl t ↦
          let e : k ≡ key = (list_beq_iff k key).0 t in
          let found : bloom_maybe (bloom_add bloom k) key ≡ true =
            subst (λ (x : Hash). bloom_maybe (bloom_add bloom k) x ≡ true) e both.0 in
          rest (ground (arith, found))
      | inr t ↦ rest (ground (arith, t, known, both))
    ]
