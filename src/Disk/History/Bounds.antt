-- ===== src/Disk/History/Bounds.antt =====
-- src/dedup_disk.rs: a page of the history has at most as many operations as its limit.
use virt_warehouse_pro.Common.{
  ℕ, suc, ◌<◌, ◌≤◌, ◌≡◌, ap, arith, List, [], ◌∷◌, ◌++◌, Option, none, some, true, false, not, ◌||◌,
  ◌==◌ as nat_beq, Bool-cases, Option-cases, inl, inr, Result, ok, err, ◌>>=◌, ◌>>◌, >>=-eq-ok,
  length, drop, length-append,
}
use virt_warehouse_pro.Bytes.Words.{Bytes}
use virt_warehouse_pro.Bytes.Utf8.{from_utf8}
use virt_warehouse_pro.Model.{Operation}
use virt_warehouse_pro.Binary.Format.{decode_operation}
use virt_warehouse_pro.Disk.Tree.{Tree}
use virt_warehouse_pro.Disk.History.{
  index_prefix, Table, lsm_history, old_history, History, HistoryReads, decode_old, point,
}
use virt_warehouse_pro.Disk.History.Lookup.{
  is_before, Page, index_loop, by_index, is_cursor, scan_loop, scan_operations, or_start, is_empty,
  is_nil,
}

length-add : (ops : List Operation) (op : Operation) → length (ops ++ (op ∷ [])) ≡ suc (length ops)
length-add ops op = omega (arith, length-append ops (op ∷ []))

ok-eq {ℓ} : {A : Type ℓ} (a b : A) → ok a ≡ ok b → a ≡ b
ok-eq {A = A} a b e = ap (λ (r : Result A). elim r [ err why ↦ a | ok x ↦ x ]) e

module _ {K : Type 0} ⦃tree : Tree K⦄ (io : HistoryReads) (tables : History K) where
  scan_loop-le :
      (cursor : Option Bytes) (limit : ℕ) (entries : List (Bytes × Bytes))
      (result last : List Operation)
      → length result < limit
      → scan_loop io tables cursor limit entries result ≡ ok last
      → length last ≤ limit
  unfolding scan_loop
  scan_loop-le cursor limit [] result last small h =
      let same = ok-eq result last h in omega (arith, small, ap length same)
  scan_loop-le cursor limit ((key, value) ∷ entries) result last small h =
      let (passed, first, h) = >>=-eq-ok (io.read lsm_history key) _ h in
      elim (Bool-cases (is_cursor cursor key)) [
        | inl t ↦ scan_loop-le cursor limit entries result last small (ground (arith, t, h))
        | inr t ↦
            let next = scan_loop io tables cursor limit entries in
            let rest : (decode_operation value >>= (λ op.
              elim (nat_beq (length (result ++ (op ∷ []))) limit) [
                | true ↦ ok (result ++ (op ∷ []))
                | false ↦ next (result ++ (op ∷ []))
              ]))
                ≡ ok last =
              ground (arith, t, h) in
            let (op, decoded, h) = >>=-eq-ok (decode_operation value) _ rest in
            elim (Bool-cases (nat_beq (length (result ++ (op ∷ []))) limit)) [
              | inl u ↦
                  let same : (result ++ (op ∷ [])) ≡ last = ok-eq _ last (ground (arith, u, h)) in
                  omega (arith, small, ap length same, length-add result op)
              | inr u ↦
                  scan_loop-le cursor limit entries (result ++ (op ∷ [])) last
                    (ground (arith, u, small, length-add result op)) (ground (arith, u, h))
            ]
      ]

  index_loop-le :
      (index records : Table) (decode : Bytes → Result Operation) (skipped : ℕ)
      (cursor : Option Bytes) (limit : ℕ) (entries : List (Bytes × Bytes)) (result : List Operation)
      (page : Page)
      → length result < limit
      → index_loop io tables index records decode skipped cursor limit entries result ≡ ok page
      → length page.operations ≤ limit
  unfolding index_loop
  index_loop-le index records decode skipped cursor limit [] result page small h =
      let same = ok-eq _ page h in omega (arith, small, ap (λ (p : Page). length p.operations) same)
  index_loop-le index records decode skipped cursor limit ((index_key, operation_key) ∷ entries)
        result page small h =
      let (passed, first, h) = >>=-eq-ok (io.read index index_key) _ h in
      let (id, text, h) = >>=-eq-ok (from_utf8 (drop skipped index_key)) _ h in
      let next = index_loop io tables index records decode skipped cursor limit entries in
      let after = index_loop-le index records decode skipped cursor limit entries in
      elim (Bool-cases (is_before cursor id)) [
        | inl t ↦ after result page small (ground (arith, t, h))
        | inr t ↦
            let looked : (point io tables records operation_key >>= (λ value. elim value [
              | none ↦ next result
              | some payload ↦ decode payload >>= (λ op.
                  elim (nat_beq (length (result ++ (op ∷ []))) limit) [
                    | true ↦ ok (record { operations = result ++ (op ∷ []); full = true })
                    | false ↦ next (result ++ (op ∷ []))
                  ])
            ]))
                ≡ ok page =
              ground (arith, t, h) in
            let (value, looks, h) = >>=-eq-ok (point io tables records operation_key) _ looked in
            elim (Option-cases value) [
              | inl none_found ↦ after result page small (ground (arith, none_found, h))
              | inr (payload, e) ↦
                  let decoding : (decode payload >>= (λ op.
                    elim (nat_beq (length (result ++ (op ∷ []))) limit) [
                      | true ↦ ok (record { operations = result ++ (op ∷ []); full = true })
                      | false ↦ next (result ++ (op ∷ []))
                    ]))
                      ≡ ok page =
                    ground (arith, e, h) in
                  let (op, decoded, h) = >>=-eq-ok (decode payload) _ decoding in
                  elim (Bool-cases (nat_beq (length (result ++ (op ∷ []))) limit)) [
                    | inl u ↦
                        let same : record { operations = result ++ (op ∷ []); full = true } ≡ page =
                          ok-eq _ page (ground (arith, u, h)) in
                        omega (
                          arith,
                          small,
                          ap (λ (p : Page). length p.operations) same,
                          length-add result op,
                        )
                    | inr u ↦
                        after (result ++ (op ∷ [])) page
                          (ground (arith, u, small, length-add result op)) (ground (arith, u, h))
                  ]
            ]
      ]

  pub scan_operations-le :
      (cursor : Option Bytes) (limit : ℕ) (ops : List Operation)
      → 0 < limit
      → scan_operations io tables cursor limit ≡ ok ops
      → length ops ≤ limit
  unfolding scan_operations
  scan_operations-le cursor limit ops some_room h =
      scan_loop-le cursor limit (tree.range (or_start cursor) none (tables lsm_history)) [] ops
        some_room h

  pub by_index-le :
      (lsm old : Table) (value : Bytes) (cursor : Option Bytes) (limit : ℕ) (ops : List Operation)
      → 0 < limit
      → by_index io tables lsm old value cursor limit ≡ ok ops
      → length ops ≤ limit
  unfolding by_index
  by_index-le lsm old value cursor limit ops some_room h =
      let prefix = index_prefix value in
      let end = prefix ++ (255 ∷ []) in
      let (page, first, h) =
        >>=-eq-ok
          (index_loop io tables lsm lsm_history decode_operation (length prefix) cursor limit
            (tree.range prefix (some end) (tables lsm)) [])
          _ h in
      elim (Bool-cases (
        page.full
        || (not (is_empty page.operations) || not (is_nil (tree.entries (tables lsm_history)))))) [
          | inl t ↦
              let small =
                index_loop-le lsm lsm_history decode_operation (length prefix) cursor limit _ []
                  page some_room first in
              let same : page.operations ≡ ops = ok-eq _ ops (ground (arith, t, h)) in
              omega (arith, small, ap length same)
          | inr t ↦
              let loop =
                index_loop io tables old old_history (decode_old io) (length prefix) cursor limit
                  (tree.range prefix (some end) (tables old)) [] in
              let older : (io.open_table old
                    >> (io.open_table old_history >> (loop >>= (λ p. ok p.operations))))
                  ≡ ok ops =
                ground (arith, t, h) in
              let (opened, then_open, h) = >>=-eq-ok (io.open_table old) _ older in
              let (opened, then_open, h) = >>=-eq-ok (io.open_table old_history) _ h in
              let (last, second, done) = >>=-eq-ok loop _ h in
              let small =
                index_loop-le old old_history (decode_old io) (length prefix) cursor limit _ [] last
                  some_room second in
              omega (arith, small, ap length (ok-eq _ ops done))
        ]
