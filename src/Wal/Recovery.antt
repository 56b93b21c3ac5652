-- ===== src/Wal/Recovery.antt =====
-- src/wal.rs: `recover` on the files that `writer` leaves.
use virt_warehouse_pro.Common.{
  ℕ, zero, suc, ◌+◌, ◌-◌, ◌*◌, ◌≤◌, ◌<◌, ◌≡◌, refl, ap, ◌∙◌, arith, List, [], ◌∷◌, ◌++◌,
  append_assoc, append-nil, some, Result, Error, ok, err, length, length-append, length-drop, take,
  drop, ◌⊎◌,
}
use virt_warehouse_pro.Bytes.Words.{Bytes, from_le_bytes}
use virt_warehouse_pro.Model.{Operation}
use virt_warehouse_pro.Wal.Recover.{
  Codecs, Round, end, bad, entry, decode_payload, check_record, read_record, recover_loop, recover,
  contents, not_found, read_failed, ReadFile,
}
use virt_warehouse_pro.Wal.Records.{
  record_bytes, log_bytes, IsSmall, length-record_bytes, take_record, behind_record, record_room,
}

-- The rest of a file in which no whole record follows: less than a header, or a record that says
-- it is longer than what is left.
unfoldable pub IsTorn : Bytes → Type 0
IsTorn rest =
    (length rest < 8)
    ⊎ ((from_le_bytes (take 4 (take 8 rest)) ≤ 1024 * 1024)
        × (length rest < 8 + from_le_bytes (take 4 (take 8 rest))))

module _ (c : Codecs) where
  -- Payloads that fit a record and decode to these operations.
  abbrev pub Decodes : List Bytes → List Operation → Type 0
  Decodes [] [] = Unit {0}
  Decodes [] (op ∷ ops) = ⊥
  Decodes (payload ∷ payloads) [] = ⊥
  Decodes (payload ∷ payloads) (op ∷ ops) =
      IsSmall payload × (decode_payload c payload ≡ ok op) × Decodes payloads ops

  torn_end :
      (file : Bytes) (cursor : ℕ)
      → cursor ≤ length file
      → IsTorn (drop cursor file)
      → read_record c file cursor ≡ end
  unfolding read_record check_record IsTorn
  torn_end file cursor inside torn = ground (arith, length-drop cursor file)

  -- From any cursor in front of whole records, the loop returns their operations.
  recover_loop-log :
      (payloads : List Bytes) (new : List Operation) (fuel : ℕ) (file : Bytes) (cursor : ℕ)
      (ops : List Operation) (rest : Bytes) (n : ℕ)
      → Decodes payloads new
      → IsTorn rest
      → cursor ≤ length file
      → drop cursor file ≡ log_bytes c payloads ++ rest
      → length (log_bytes c payloads) < fuel
      → n ≡ cursor + length (log_bytes c payloads)
      → recover_loop c fuel file cursor ops ≡ some (ok (ops ++ new, n))
  unfolding recover_loop
  recover_loop-log payloads new zero file cursor ops rest n d torn inside e enough k =
      absurd (omega arith)
  recover_loop-log [] [] (suc fuel) file cursor ops rest n d torn inside e enough k =
      rw (torn_end file cursor inside (rw e torn), recover_loop, append-nil)
        (ap (λ (m : ℕ). some (ok (ops, m))) (omega arith))
  recover_loop-log [] (op ∷ new) (suc fuel) file cursor ops rest n d torn inside e enough k =
      absurd d
  recover_loop-log (payload ∷ payloads) [] (suc fuel) file cursor ops rest n d torn inside e enough
        k =
      absurd d
  recover_loop-log (payload ∷ payloads) (op ∷ new) (suc fuel) file cursor ops rest n d torn inside e
        enough k =
      let e' = e ∙ append_assoc (record_bytes c payload) (log_bytes c payloads) rest in
      let size = length-append (record_bytes c payload) (log_bytes c payloads) in
      let eight = length-record_bytes c payload in
      rw
        (
          take_record c (c.crc32 payload) file cursor payload (log_bytes c payloads ++ rest)
              (c.crc32_u32 payload) inside e' op d.0 d.1 refl,
          recover_loop,
        )
        (recover_loop-log payloads new fuel file (cursor + 8 + length payload) (ops ++ op ∷ []) rest
            n d.2 torn
            (omega (
              arith,
              record_room c (c.crc32 payload) file cursor payload (log_bytes c payloads ++ rest)
                  (c.crc32_u32 payload) inside e',
            ))
            (behind_record c (c.crc32 payload) file cursor payload (log_bytes c payloads ++ rest)
              (c.crc32_u32 payload) inside e')
            (omega arith) (omega arith)
          ∙ ap (λ (l : List Operation). some (ok (l, n))) (append_assoc ops (op ∷ []) new))

  -- On a file of whole records, whose payloads have at most 1 MiB and decode, and a torn rest behind
  -- them, recovery returns the operations of the records in order, and the length of the whole
  -- records.
  pub recover-log_bytes :
      (payloads : List Bytes) (ops : List Operation) (rest : Bytes)
      → Decodes payloads ops
      → IsTorn rest
      → recover c (contents (log_bytes c payloads ++ rest))
        ≡ some (ok (ops, length (log_bytes c payloads)))
  unfolding recover
  recover-log_bytes payloads ops rest d torn =
      recover_loop-log payloads ops _ _ 0 [] rest (length (log_bytes c payloads)) d torn
        (omega arith) refl (omega (arith, length-append (log_bytes c payloads) rest)) (omega arith)

  read_record_progress :
      (file : Bytes) (cursor : ℕ) (op : Operation) (next : ℕ)
      → read_record c file cursor ≡ entry op next
      → (cursor + 8 ≤ next) × (next ≤ length file)
  unfolding read_record check_record
  read_record_progress file cursor op next e = ground arith

  recover_loop_total :
      (fuel : ℕ) (file : Bytes) (cursor : ℕ) (ops : List Operation)
      → length file - cursor < fuel
      → (r : Result (List Operation × ℕ)) × (recover_loop c fuel file cursor ops ≡ some r)
  unfolding recover_loop
  recover_loop_total zero file cursor ops h = absurd (omega arith)
  recover_loop_total (suc fuel) file cursor ops h =
      go (read_record c file cursor) refl (λ next more p. recover_loop_total fuel file next more p)
    where
      go :
          (r : Round)
          → read_record c file cursor ≡ r
          → ((next : ℕ) (more : List Operation)
              → length file - next < fuel
              → (x : Result (List Operation × ℕ)) × (recover_loop c fuel file next more ≡ some x))
          → (x : Result (List Operation × ℕ)) × (recover_loop c (suc fuel) file cursor ops ≡ some x)
      go end e rec = (ok (ops, cursor), rw (e, recover_loop))
      go (bad x) e rec = (err x, rw (e, recover_loop))
      go (entry op next) e rec =
          let (x, p) =
            rec next (ops ++ op ∷ []) (omega (arith, read_record_progress file cursor op next e)) in
          (x, rw (e, recover_loop) p)

  -- The loop ends on every file, whatever it holds: the fuel is never used up.
  pub recover_total : (f : ReadFile) → (r : Result (List Operation × ℕ)) × (recover c f ≡ some r)
  unfolding recover
  recover_total (contents file) = recover_loop_total (suc (length file)) file 0 [] (omega arith)
  recover_total not_found = (ok ([], 0), refl)
  recover_total read_failed = (err Error.io, refl)
