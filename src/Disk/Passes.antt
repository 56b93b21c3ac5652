-- ===== src/Disk/Passes.antt =====
-- src/dedup_disk.rs: each pass of `get_many` that succeeds treats every row by itself.
use virt_warehouse_pro.Common.{
  ℕ, zero, suc, ◌≡◌, refl, sym, ap, ◌∙◌, inl, inr, arith, List, [], ◌∷◌, Option, none, Bool, true,
  false, ◌==◌ as nat_beq, if◌then◌else◌, ok, ◌>>=◌, ◌>>◌, >>=-eq-ok, map, map-map, map_ext,
  Bool-cases, Option-cases, length,
}
use virt_warehouse_pro.Common.Eq.{list_eq, nat_eq}
use virt_warehouse_pro.Disk.Tree.{Tree, get}
use virt_warehouse_pro.Store.Types.{Hash, Fingerprint}
use virt_warehouse_pro.Disk.Dedup.{
  dedup_lsm_shards, dedup_shards, DiskDedup, Layer, lsm_shard, lsm_whole, file_shard, file_whole,
  keyspace, Reads, fingerprint_bytes, read_layer, Row, pass, lsm_pass, is_missing, any_wanted,
  file_shard_pass, file_pass, legacy_rows, search_rows, found_in,
}
use virt_warehouse_pro.Disk.Rows.{
  look, in_lsm_shard, in_file_shard, lsm_row, file_row, legacy_row, row_after, legacy_row_lem,
}

map_id : (rows : List Row) → map (λ r. r) rows ≡ rows
map_id [] = refl
map_id (r ∷ rows) = ap (λ rest. r ∷ rest) (map_id rows)

module _ {K : Type 0} ⦃tree : Tree K⦄ (io : Reads) (d : DiskDedup K) where
  pub read_layer-eq_ok :
      (layer : Layer) (key : Hash) (f : Option Fingerprint)
      → read_layer io d layer key ≡ ok f
      → f ≡ get key (keyspace d layer)
  unfolding read_layer fingerprint_bytes
  read_layer-eq_ok layer key f h =
      let (passed, read, h) = >>=-eq-ok (io.read layer key) _ h in
      elim (Option-cases (get key (keyspace d layer))) [
        | inl e ↦ cc
        | inr (value, e) ↦ elim (Bool-cases (nat_beq (length value) 32)) [
          | inl t ↦ ground (arith, e, t, h)
          | inr t ↦ ground (arith, e, t, h)
        ]
      ]

  found_in-look :
      (wanted : Row → Bool) (layer : Layer) (r : Row) (f : Option Fingerprint)
      → (if wanted r then read_layer io d layer r.key else ok none) ≡ ok f
      → found_in f r ≡ look d wanted layer r
  found_in-look wanted layer r f h = elim (Bool-cases (wanted r)) [
    | inl t ↦ rw t (
        ap (λ x. found_in x r)
          (read_layer-eq_ok layer r.key f
            (sym (ap (λ (b : Bool). if b then read_layer io d layer r.key else ok none) t) ∙ h)))
    | inr t ↦ let e : f ≡ none = ground (arith, t, h) in rw (t, e) refl
  ]

  pass-eq_ok :
      (wanted : Row → Bool) (layer : Layer) (rows last : List Row)
      → pass io d wanted layer rows ≡ ok last
      → last ≡ map (look d wanted layer) rows
  unfolding pass
  pass-eq_ok wanted layer [] last h = cc
  pass-eq_ok wanted layer (r ∷ rows) last h =
      let (f, first, h) =
        >>=-eq-ok (if wanted r then read_layer io d layer r.key else ok none) _ h in
      let (rest, then_rest, done) = >>=-eq-ok (pass io d wanted layer rows) _ h in
      let tail = pass-eq_ok wanted layer rows rest then_rest in
      let head = found_in-look wanted layer r f first in
      let whole : ok (found_in f r ∷ rest) ≡ ok last = done in cc

  any_wanted-false :
      (wanted : Row → Bool) (layer : Layer) (rows : List Row)
      → any_wanted wanted rows ≡ false
      → rows ≡ map (look d wanted layer) rows
  unfolding any_wanted
  any_wanted-false wanted layer [] h = refl
  any_wanted-false wanted layer (r ∷ rows) h = elim (Bool-cases (wanted r)) [
    | inl t ↦ absurd (ground (arith, t, h))
    | inr t ↦
        rw t (ap (λ rest. r ∷ rest) (any_wanted-false wanted layer rows (ground (arith, t, h))))
  ]

  file_shard_pass-eq_ok :
      (shard : ℕ) (rows last : List Row)
      → file_shard_pass io d shard rows ≡ ok last
      → last ≡ map (look d (in_file_shard d shard) (file_shard shard)) rows
  unfolding file_shard_pass in_file_shard
  file_shard_pass-eq_ok shard rows last h =
      elim (Bool-cases (any_wanted (in_file_shard d shard) rows)) [
        | inl t ↦
            pass-eq_ok (in_file_shard d shard) (file_shard shard) rows last (ground (arith, t, h))
        | inr t ↦
            let e : rows ≡ last = ground (arith, t, h) in
            sym e ∙ (any_wanted-false (in_file_shard d shard) (file_shard shard) rows t)
      ]

  lsm_pass-eq_ok :
      (left shard : ℕ) (rows last : List Row)
      → lsm_pass io d left shard rows ≡ ok last
      → last ≡ map (lsm_row d left shard) rows
  unfolding lsm_pass lsm_row in_lsm_shard
  lsm_pass-eq_ok zero shard rows last h =
      let e : rows ≡ last = ground (arith, h) in sym e ∙ sym (map_id rows)
  lsm_pass-eq_ok (suc left) shard rows last h =
      let (mid, first, then_last) =
        >>=-eq-ok (pass io d (in_lsm_shard d shard) (lsm_shard shard) rows) _ h in
      lsm_pass-eq_ok left (suc shard) mid last then_last
      ∙ ap (map (lsm_row d left (suc shard)))
          (pass-eq_ok (in_lsm_shard d shard) (lsm_shard shard) rows mid first)
      ∙ map-map (lsm_row d left (suc shard)) (look d (in_lsm_shard d shard) (lsm_shard shard)) rows

  file_pass-eq_ok :
      (left shard : ℕ) (rows last : List Row)
      → file_pass io d left shard rows ≡ ok last
      → last ≡ map (file_row d left shard) rows
  unfolding file_pass file_row
  file_pass-eq_ok zero shard rows last h =
      let e : rows ≡ last = ground (arith, h) in sym e ∙ sym (map_id rows)
  file_pass-eq_ok (suc left) shard rows last h =
      let (mid, first, then_last) = >>=-eq-ok (file_shard_pass io d shard rows) _ h in
      file_pass-eq_ok left (suc shard) mid last then_last
      ∙ ap (map (file_row d left (suc shard))) (file_shard_pass-eq_ok shard rows mid first)
      ∙ map-map (file_row d left (suc shard)) (look d (in_file_shard d shard) (file_shard shard))
          rows

  legacy_rows-eq_ok :
      (rows last : List Row) → legacy_rows io d rows ≡ ok last → last ≡ map (legacy_row d) rows
  unfolding legacy_rows
  legacy_rows-eq_ok rows last h = elim (Bool-cases d.legacy_fallback) [
    | inl t ↦
        let unfolded : (file_pass io d dedup_shards 0 rows
              >>= (λ rows. io.open_table file_whole >> pass io d is_missing file_whole rows))
            ≡ ok last =
          ground (arith, t, h) in
        let (mid, first, h) = >>=-eq-ok (file_pass io d dedup_shards 0 rows) _ unfolded in
        let (opened, then_open, done) = >>=-eq-ok (io.open_table file_whole) _ h in
        pass-eq_ok is_missing file_whole mid last done
        ∙ ap (map (look d is_missing file_whole)) (file_pass-eq_ok dedup_shards 0 rows mid first)
        ∙ map-map (look d is_missing file_whole) (file_row d dedup_shards 0) rows
        ∙ map_ext _ (legacy_row d) (λ r. sym (legacy_row_lem d true r t)) rows
    | inr t ↦
        let e : rows ≡ last = ground (arith, t, h) in
        sym e
        ∙ sym (map_id rows)
        ∙ map_ext _ (legacy_row d) (λ r. sym (legacy_row_lem d false r t)) rows
  ]

  pub search_rows-eq_ok :
      (rows last : List Row) → search_rows io d rows ≡ ok last → last ≡ map (row_after d) rows
  unfolding search_rows row_after
  search_rows-eq_ok rows last h =
      let (one, first, h) = >>=-eq-ok (lsm_pass io d dedup_lsm_shards 0 rows) _ h in
      let (two, second, done) = >>=-eq-ok (pass io d is_missing lsm_whole one) _ h in
      legacy_rows-eq_ok two last done
      ∙ ap (map (legacy_row d)) (
          pass-eq_ok is_missing lsm_whole one two second
          ∙ ap (map (look d is_missing lsm_whole))
              (lsm_pass-eq_ok dedup_lsm_shards 0 rows one first)
          ∙ map-map (look d is_missing lsm_whole) (lsm_row d dedup_lsm_shards 0) rows)
      ∙ map-map (legacy_row d) (λ r. look d is_missing lsm_whole (lsm_row d dedup_lsm_shards 0 r))
          rows
