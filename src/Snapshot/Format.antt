-- ===== src/Snapshot/Format.antt =====
-- `encode`, `decode`, `load` and `save` of src/snapshot.rs.
use virt_warehouse_pro.Common.{
  ℕ, ◌+◌, ◌^◌, List, [], ◌∷◌, ◌++◌, Option, none, some, ◌||◌, ◌&&◌, leb, if◌then◌else◌,
  ◌==◌ as nat_beq, ◌≡◌, Result, Error, ok, err, length, take, drop, ensure, ◌>>=◌, ◌>>◌,
}
use virt_warehouse_pro.Common.Eq.{◌==◌, list_eq, nat_eq}
use virt_warehouse_pro.Bytes.Words.{Bytes, to_le_bytes, from_le_bytes}
use virt_warehouse_pro.Binary.Reader.{
  Parse, pure, lift, take_bytes, u32, u64, i64, string, repeat, new, whole, value_of,
}
use virt_warehouse_pro.Binary.Reader.{◌>>=◌ as bind}
use virt_warehouse_pro.Snapshot.Data.{BalanceSnapshot, DedupSnapshot, SnapshotData}

-- "WHSNAP02" and "WHSNAP01"
abbrev pub magic : Bytes
magic = b'W' ∷ b'H' ∷ b'S' ∷ b'N' ∷ b'A' ∷ b'P' ∷ b'0' ∷ b'2' ∷ []

abbrev pub legacy_magic : Bytes
legacy_magic = b'W' ∷ b'H' ∷ b'S' ∷ b'N' ∷ b'A' ∷ b'P' ∷ b'0' ∷ b'1' ∷ []

abbrev pub header_size : ℕ
header_size = 48

unfoldable pub put_string : Bytes → Bytes → Result Bytes
put_string output value =
    if leb (length value) 65_535
    then ok ((output ++ to_le_bytes 2 (length value)) ++ value)
    else err Error.string_too_long

-- `for entry in &snapshot.balances`
unfoldable pub put_balances : Bytes → List BalanceSnapshot → Result Bytes
put_balances output [] = ok output
put_balances output (entry ∷ entries) = do
  output ← put_string output entry.owner_id
  output ← put_string output entry.sku
  put_balances (output ++ to_le_bytes 8 entry.balance) entries

-- `for entry in &snapshot.dedup`
unfoldable pub put_dedup : Bytes → List DedupSnapshot → Result Bytes
put_dedup output [] = ok output
put_dedup output (entry ∷ entries) = do
  output ← put_string output entry.operation_id
  put_dedup (output ++ entry.fingerprint) entries

unfoldable pub put_epoch : Bytes → SnapshotData → Bytes
put_epoch output s = if leb 3 s.version then output ++ to_le_bytes 8 s.writer_epoch else output

unfoldable pub encode : SnapshotData → Result Bytes
encode s = do
  output ←
      put_balances
        ((to_le_bytes 4 s.version ++ to_le_bytes 8 s.sequence) ++ to_le_bytes 8 (length s.balances))
        s.balances
  output ← put_dedup (output ++ to_le_bytes 8 (length s.dedup)) s.dedup
  ok (put_epoch output s)

-- `Reader::count`
unfoldable pub count : Parse ℕ
count = bind u64 λ n. lift (if leb n 100_000_000 then ok n else err Error.count_too_large)

unfoldable pub balance : Parse BalanceSnapshot
balance = bind string λ owner_id.
    bind string
      λ sku. bind i64 λ value. pure (record { owner_id = owner_id; sku = sku; balance = value })

unfoldable pub dedup_entry : Parse DedupSnapshot
dedup_entry = bind string λ operation_id.
    bind (take_bytes 32)
      λ fingerprint. pure (record { operation_id = operation_id; fingerprint = fingerprint })

unfoldable pub epoch : ℕ → Parse ℕ
epoch version = if leb 3 version then u64 else pure 0

unfoldable pub snapshot : Parse SnapshotData
snapshot = bind u32 λ version. bind u64 λ sequence. bind count λ balance_count.
    bind (repeat balance_count balance) λ balances. bind count λ dedup_count.
      bind (repeat dedup_count dedup_entry) λ dedup. bind (epoch version) λ writer_epoch.
        pure (record {
          version = version;
          sequence = sequence;
          balances = balances;
          dedup = dedup;
          writer_epoch = writer_epoch;
        })

unfoldable pub decode : Bytes → Result SnapshotData
decode payload = value_of (whole snapshot (new payload))

-- `Sha256::digest`, and `serde_json::from_slice` on the payload of a legacy file.
pub record SnapshotCodecs : Type 0 where
  pub sha256 : Bytes → Bytes
  pub length-sha256 : (b : Bytes) → length (sha256 b) ≡ 32
  pub from_json : Bytes → Result SnapshotData

module _ (C : SnapshotCodecs) where
  -- The file that the rename puts at the path.
  unfoldable pub save : SnapshotData → Result Bytes
  save s = do
    payload ← encode s
    ok (((magic ++ to_le_bytes 8 (length payload)) ++ C.sha256 payload) ++ payload)

  unfoldable pub check_payload : Bytes → Result SnapshotData
  check_payload d = do
    ensure (take 8 d == magic || take 8 d == legacy_magic) Error.bad_magic
    ensure (leb (from_le_bytes (take 8 (drop 8 d))) (2 ^ 32)) Error.too_large
    ensure (nat_beq (length d) (header_size + from_le_bytes (take 8 (drop 8 d))))
        Error.length_mismatch
    ensure (C.sha256 (drop header_size d) == take 32 (drop 16 d)) Error.checksum_mismatch
    if take 8 d == legacy_magic
        then C.from_json (drop header_size d)
        else decode (drop header_size d)

  -- `load`, on the file that is there.
  unfoldable pub load : Option (Result Bytes) → Result (Option SnapshotData)
  load none = ok none
  load (some (err e)) = err e
  load (some (ok d)) = do
    ensure (leb header_size (length d)) Error.truncated
    s ← check_payload d
    ensure (leb 1 s.version && leb s.version 3) Error.bad_version
    ok (some s)
