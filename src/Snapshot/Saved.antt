-- ===== src/Snapshot/Saved.antt =====
-- src/snapshot.rs: `load` on what `save` has written.
use virt_warehouse_pro.Common.{
  ℕ, ◌+◌, ◌^◌, ◌≤◌, ◌≡◌, refl, sym, ap, ◌∙◌, arith, ◌++◌, append_assoc, le→leb, ==_iff, some, ok,
  ◌>>=◌, length, length-append, take, drop, take-append_length, drop-append_length,
}
use virt_warehouse_pro.Common.Eq.{list_eq, nat_eq, beq_refl}
use virt_warehouse_pro.Bytes.Words.{
  Bytes, to_le_bytes, length-to_le_bytes, from_le_bytes-to_le_bytes,
}
use virt_warehouse_pro.Snapshot.Data.{SnapshotData}
use virt_warehouse_pro.Snapshot.Format.{magic, SnapshotCodecs, save, check_payload, load, decode}
use virt_warehouse_pro.Snapshot.RoundTrip.{IsSnapshot, snapshot_bytes, encode_lem, decode_lem}

take_at : (n : ℕ) (a b : Bytes) → n ≡ length a → take n (a ++ b) ≡ a
take_at n a b h = rw h (take-append_length a b)

drop_at : (n : ℕ) (a b : Bytes) → n ≡ length a → drop n (a ++ b) ≡ b
drop_at n a b h = rw h (drop-append_length a b)

module _ (C : SnapshotCodecs) (p : Bytes) where
  -- The file with the payload `p`.
  file : Bytes
  file = ((magic ++ to_le_bytes 8 (length p)) ++ C.sha256 p) ++ p

  length-file : length file ≡ 48 + length p
  unfolding file
  length-file =
      length-append ((magic ++ to_le_bytes 8 (length p)) ++ C.sha256 p) p
      ∙ omega (
        arith,
        length-append (magic ++ to_le_bytes 8 (length p)) (C.sha256 p),
        length-append magic (to_le_bytes 8 (length p)),
        length-to_le_bytes 8 (length p),
        C.length-sha256 p,
      )

  file-size : take 8 (drop 8 file) ≡ to_le_bytes 8 (length p)
  unfolding file
  file-size =
      ap (take 8) (append_assoc (to_le_bytes 8 (length p)) (C.sha256 p) p)
      ∙ take_at 8 (to_le_bytes 8 (length p)) (C.sha256 p ++ p)
          (sym (length-to_le_bytes 8 (length p)))

  file-digest : take 32 (drop 16 file) ≡ C.sha256 p
  unfolding file
  file-digest =
      ap (λ (t : Bytes). take 32 (drop 8 t))
        (append_assoc (to_le_bytes 8 (length p)) (C.sha256 p) p)
      ∙ ap (take 32) (
          drop_at 8 (to_le_bytes 8 (length p)) (C.sha256 p ++ p)
            (sym (length-to_le_bytes 8 (length p))))
      ∙ take_at 32 (C.sha256 p) p (sym (C.length-sha256 p))

  file-payload : drop 48 file ≡ p
  unfolding file
  file-payload = drop_at 40 (to_le_bytes 8 (length p) ++ C.sha256 p) p (
      omega (
        arith,
        length-append (to_le_bytes 8 (length p)) (C.sha256 p),
        length-to_le_bytes 8 (length p),
        C.length-sha256 p,
      ))

  magic_lem : take 8 file ≡ magic
  unfolding file
  magic_lem = refl

check_payload-file :
    (C : SnapshotCodecs) (p : Bytes) → length p ≤ 2 ^ 32 → check_payload C (file C p) ≡ decode p
unfolding check_payload
check_payload-file C p small =
    let size = from_le_bytes-to_le_bytes 8 (length p) (omega arith) in
    rw
      (
        magic_lem C p,
        file-size C p,
        size,
        length-file C p,
        file-digest C p,
        file-payload C p,
        beq_refl (C.sha256 p),
        le→leb (length p) (2 ^ 32) small,
        (==_iff (48 + length p) (48 + length p)).1 refl,
      )
      refl

-- A snapshot of a version from 1 to 3 whose strings, numbers and counts are in the limits of the
-- format, whose epoch is 0 before version 3, and whose payload has at most 4 GiB, is saved, and
-- loading the file gives it back.
pub load-save :
    (C : SnapshotCodecs) (s : SnapshotData)
    → IsSnapshot s
    → length (snapshot_bytes s) ≤ 2 ^ 32
    → (save C s >>= λ d. load C (some (ok d))) ≡ ok (some s)
unfolding save load file
load-save C s h small =
    let p = snapshot_bytes s in
    rw
      (
        encode_lem s h,
        check_payload-file C p small,
        decode_lem s h (omega arith),
        length-file C p,
        le→leb 48 (48 + length p) (omega arith),
        le→leb 1 s.version h.version.0,
        le→leb s.version 3 h.version.1,
      )
      refl
