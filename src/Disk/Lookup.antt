-- ===== src/Disk/Lookup.antt =====
-- src/dedup_disk.rs: the lookups return what the layers of the index hold.
use virt_warehouse_pro.Common.{
  ◌≡◌, refl, sym, ap, ap₂, ◌∙◌, inl, inr, arith, List, [], ◌∷◌, Option, none, some, false, not,
  ◌&&◌, if◌then◌else◌, Result, ok, err, ◌>>=◌, >>=-eq-ok, map, map-map, map_ext, Bool-cases,
}
use virt_warehouse_pro.Common.Eq.{list_eq, nat_eq}
use virt_warehouse_pro.Disk.Tree.{Tree, get}
use virt_warehouse_pro.Store.Types.{Hash, Fingerprint}
use virt_warehouse_pro.Disk.Bloom.{bloom_maybe}
use virt_warehouse_pro.Disk.Dedup.{
  dedup_disk_shard, dedup_lsm_shard, DiskDedup, Layer, lsm_shard, lsm_whole, file_shard, file_whole,
  keyspace, Reads, read_fingerprint, or_else, get_one, Row, is_candidate, any_wanted, search_rows,
  row_of, get_many,
}
use virt_warehouse_pro.Disk.Rows.{first_of, stored, row_after, row_after-found}
use virt_warehouse_pro.Disk.Passes.{read_layer-eq_ok, search_rows-eq_ok}

-- The Bloom filter, once it is in use, knows every key that has a value.
unfoldable pub IsCovered : {K : Type 0} ⦃tree : Tree K⦄ → DiskDedup K → Type 0
IsCovered d = (key : Hash) → is_candidate d key ≡ false → stored d key ≡ none

module _ {K : Type 0} ⦃tree : Tree K⦄ (io : Reads) (d : DiskDedup K) (covered : IsCovered d) where
  no_candidate :
      (keys : List Hash)
      → any_wanted (λ r. r.candidate) (map (row_of d) keys) ≡ false
      → map (λ key. none) keys ≡ map (stored d) keys
  unfolding any_wanted IsCovered
  no_candidate [] h = refl
  no_candidate (key ∷ keys) h = elim (Bool-cases (is_candidate d key)) [
    | inl t ↦ absurd (ground (arith, t, h))
    | inr t ↦ ap₂ (λ f fs. f ∷ fs) (sym (covered key t)) (no_candidate keys (ground (arith, t, h)))
  ]

  row_of-found : (key : Hash) → (row_after d (row_of d key)).found ≡ stored d key
  unfolding IsCovered
  row_of-found key =
      let e = row_after-found d key (is_candidate d key) in
      elim (Bool-cases (is_candidate d key)) [
        | inl t ↦ ground (arith, t, e)
        | inr t ↦ ground (arith, t, e, covered key t)
      ]

  -- A batch of lookups that succeeds returns, for each key, what the layers hold.
  pub get_many-eq_ok :
      (keys : List Hash) (values : List (Option Fingerprint))
      → get_many io d keys ≡ ok values
      → values ≡ map (stored d) keys
  unfolding get_many
  get_many-eq_ok keys values h =
      let rows = map (row_of d) keys in
      elim (Bool-cases (any_wanted (λ r. r.candidate) rows)) [
        | inl t ↦
            let searched : (search_rows io d rows >>= (λ rows. ok (map (λ r. r.found) rows)))
                ≡ ok values =
              ground (arith, t, h) in
            let (last, first, done) = >>=-eq-ok (search_rows io d rows) _ searched in
            let whole : map (λ (r : Row). r.found) last ≡ values = ground (arith, done) in
            sym whole
            ∙ ap (map (λ (r : Row). r.found)) (search_rows-eq_ok io d rows last first)
            ∙ map-map (λ (r : Row). r.found) (row_after d) rows
            ∙ map-map (λ r. (row_after d r).found) (row_of d) keys
            ∙ map_ext _ (stored d) row_of-found keys
        | inr t ↦
            let whole : map (λ key. none) keys ≡ values = ground (arith, t, h) in
            sym whole ∙ no_candidate keys t
      ]

  or_else-eq_ok :
      (first rest : Result (Option Fingerprint)) (here next f : Option Fingerprint)
      → ((g : Option Fingerprint) → first ≡ ok g → g ≡ here)
      → ((g : Option Fingerprint) → rest ≡ ok g → g ≡ next)
      → or_else first rest ≡ ok f
      → f ≡ first_of here next
  or_else-eq_ok (err e) rest here next f p q h = cc
  or_else-eq_ok (ok none) rest here next f p q h = rw (sym (p none refl)) (q f h)
  or_else-eq_ok (ok (some v)) rest here next f p q h = rw (sym (p (some v) refl)) cc

  read_fingerprint-eq_ok :
      (layer : Layer) (key : Hash) (f : Option Fingerprint)
      → read_fingerprint io d layer key ≡ ok f
      → f ≡ get key (keyspace d layer)
  unfolding read_fingerprint
  read_fingerprint-eq_ok layer key f h =
      let (opened, then_open, done) = >>=-eq-ok (io.open_table layer) _ h in
      read_layer-eq_ok io d layer key f done

  abbrev legacy_value : Hash → Option Fingerprint
  legacy_value key =
      first_of (get key (keyspace d (file_shard (dedup_disk_shard key))))
        (get key (keyspace d file_whole))

  abbrev legacy_lookup : Hash → Result (Option Fingerprint)
  legacy_lookup key =
      or_else (read_fingerprint io d (file_shard (dedup_disk_shard key)) key)
        (read_fingerprint io d file_whole key)

  legacy_lookup-eq_ok :
      (key : Hash) (g : Option Fingerprint)
      → (if not d.legacy_fallback then ok none else legacy_lookup key) ≡ ok g
      → g ≡ (if d.legacy_fallback then legacy_value key else none)
  legacy_lookup-eq_ok key g h =
      let both : legacy_lookup key ≡ ok g → g ≡ legacy_value key =
        or_else-eq_ok _ _ _ _ g (read_fingerprint-eq_ok (file_shard (dedup_disk_shard key)) key)
          (read_fingerprint-eq_ok file_whole key) in
      elim (Bool-cases d.legacy_fallback) [
        | inl t ↦ ground (arith, t, h, both)
        | inr t ↦ ground (arith, t, h)
      ]

  -- A lookup that succeeds returns what the layers hold.
  pub get_one-eq_ok :
      (key : Hash) (f : Option Fingerprint) → get_one io d key ≡ ok f → f ≡ stored d key
  unfolding get_one stored IsCovered is_candidate
  get_one-eq_ok key f h = elim (Bool-cases (d.bloom_ready && not (bloom_maybe d.bloom key))) [
    | inl t ↦
        let none_found : f ≡ none = ground (arith, t, h) in
        none_found ∙ sym (covered key (ground (arith, t)))
    | inr t ↦
        or_else-eq_ok _ _ _ _ f (read_layer-eq_ok io d (lsm_shard (dedup_lsm_shard key)) key)
          (λ g h.
            or_else-eq_ok _ _ _ _ g (read_layer-eq_ok io d lsm_whole key) (legacy_lookup-eq_ok key)
              h)
          (ground (arith, t, h))
  ]
