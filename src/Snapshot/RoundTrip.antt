-- ===== src/Snapshot/RoundTrip.antt =====
-- src/snapshot.rs: the bytes that `encode` writes, and `decode` on them.
use virt_warehouse_pro.Common.{
  ℕ, ◌^◌, ◌≤◌, ◌<◌, ◌≡◌, ◌⊎◌, inl, inr, refl, sym, ap, ◌∙◌, arith, List, [], ◌∷◌, ◌++◌,
  append_assoc, append-nil, if◌then◌else◌, ok, Bool-cases, leb, length, All,
}
use virt_warehouse_pro.Bytes.Words.{Bytes, IsU64, to_le_bytes}
use virt_warehouse_pro.Binary.Reads.{
  Reads, Reads-bind, Reads-bind_last, Reads-pure, Reads-number, Reads-string, Reads-lift,
  Reads-take_bytes, Reads-repeat, Reads-whole, string_bytes, IsString, all_bytes,
}
use virt_warehouse_pro.Snapshot.Data.{BalanceSnapshot, DedupSnapshot, SnapshotData}
use virt_warehouse_pro.Snapshot.Format.{
  put_string, put_balances, put_dedup, put_epoch, encode, count, balance, dedup_entry, epoch,
  snapshot, decode,
}

abbrev pub IsBalance : BalanceSnapshot → Type 0
IsBalance entry = IsString entry.owner_id × IsString entry.sku × IsU64 entry.balance

abbrev pub IsDedup : DedupSnapshot → Type 0
IsDedup entry = IsString entry.operation_id × (length entry.fingerprint ≡ 32)

-- What the types of the fields give, the limits that `decode` sets, and a version that is written;
-- the epoch has a place from version 3 on.
pub record IsSnapshot (s : SnapshotData) : Type 0 where
  pub version : (1 ≤ s.version) × (s.version ≤ 3)
  pub sequence : IsU64 s.sequence
  pub balance_count : length s.balances ≤ 100_000_000
  pub balances : All IsBalance s.balances
  pub dedup_count : length s.dedup ≤ 100_000_000
  pub dedup : All IsDedup s.dedup
  pub writer_epoch : IsU64 s.writer_epoch × ((s.version ≡ 3) ⊎ (s.writer_epoch ≡ 0))

unfoldable pub balance_bytes : BalanceSnapshot → Bytes
balance_bytes entry =
    string_bytes entry.owner_id ++ (string_bytes entry.sku ++ to_le_bytes 8 entry.balance)

unfoldable pub dedup_bytes : DedupSnapshot → Bytes
dedup_bytes entry = string_bytes entry.operation_id ++ entry.fingerprint

unfoldable pub epoch_bytes : SnapshotData → Bytes
epoch_bytes s = if leb 3 s.version then to_le_bytes 8 s.writer_epoch else []

-- The payload of the file of a snapshot.
unfoldable pub snapshot_bytes : SnapshotData → Bytes
snapshot_bytes s =
    to_le_bytes 4 s.version
    ++ (to_le_bytes 8 s.sequence
        ++ (to_le_bytes 8 (length s.balances)
            ++ (all_bytes balance_bytes s.balances
                ++ (to_le_bytes 8 (length s.dedup)
                    ++ (all_bytes dedup_bytes s.dedup ++ epoch_bytes s)))))

put_string_lem : (out s : Bytes) → length s < 2 ^ 16 → put_string out s ≡ ok (out ++ string_bytes s)
unfolding put_string
put_string_lem out s h = ground (arith, append_assoc out (to_le_bytes 2 (length s)) s)

put_balances_lem :
    (out : Bytes) (entries : List BalanceSnapshot)
    → All IsBalance entries
    → put_balances out entries ≡ ok (out ++ all_bytes balance_bytes entries)
unfolding put_balances balance_bytes
put_balances_lem out [] h = ap ok (sym (append-nil out))
put_balances_lem out (e ∷ es) h =
    rw (put_string_lem out e.owner_id h.0.0.0, put_string_lem _ e.sku h.0.1.0)
      (put_balances_lem
          (((out ++ string_bytes e.owner_id) ++ string_bytes e.sku) ++ to_le_bytes 8 e.balance) es
          h.1
        ∙ ap ok (simp append_assoc))

put_dedup_lem :
    (out : Bytes) (entries : List DedupSnapshot)
    → All IsDedup entries
    → put_dedup out entries ≡ ok (out ++ all_bytes dedup_bytes entries)
unfolding put_dedup dedup_bytes
put_dedup_lem out [] h = ap ok (sym (append-nil out))
put_dedup_lem out (e ∷ es) h = rw (put_string_lem out e.operation_id h.0.0.0) (
    put_dedup_lem ((out ++ string_bytes e.operation_id) ++ e.fingerprint) es h.1
    ∙ ap ok (simp append_assoc))

put_epoch_lem : (out : Bytes) (s : SnapshotData) → put_epoch out s ≡ out ++ epoch_bytes s
unfolding put_epoch epoch_bytes
put_epoch_lem out s = elim (Bool-cases (leb 3 s.version)) [
  | inl e ↦ rw e refl
  | inr e ↦ rw e (sym (append-nil out))
]

pub encode_lem : (s : SnapshotData) → IsSnapshot s → encode s ≡ ok (snapshot_bytes s)
unfolding encode snapshot_bytes
encode_lem s h =
    rw
      (put_balances_lem _ s.balances h.balances, put_dedup_lem _ s.dedup h.dedup, put_epoch_lem _ s)
      (ap ok (simp append_assoc))

Reads-count : (n : ℕ) → n ≤ 100_000_000 → Reads count n (to_le_bytes 8 n)
unfolding count
Reads-count n h =
    Reads-bind_last _ _ n n _ (Reads-number 8 n (omega arith)) (Reads-lift _ n (ground arith))

Reads-balance : (e : BalanceSnapshot) → IsBalance e → Reads balance e (balance_bytes e)
unfolding balance balance_bytes
Reads-balance e h = Reads-bind _ _ _ e _ _ (Reads-string _ h.0) (
    Reads-bind _ _ _ e _ _ (Reads-string _ h.1)
      (Reads-bind_last _ _ _ e _ (Reads-number 8 _ h.2) (Reads-pure e)))

Reads-dedup_entry : (e : DedupSnapshot) → IsDedup e → Reads dedup_entry e (dedup_bytes e)
unfolding dedup_entry dedup_bytes
Reads-dedup_entry e h =
    Reads-bind _ _ _ e _ _ (Reads-string _ h.0)
      (Reads-bind_last _ _ _ e _ (Reads-take_bytes e.fingerprint 32 (sym h.1)) (Reads-pure e))

Reads-epoch :
    (s : SnapshotData) → IsSnapshot s → Reads (epoch s.version) s.writer_epoch (epoch_bytes s)
unfolding epoch epoch_bytes
Reads-epoch s h = elim (Bool-cases (leb 3 s.version)) [
  | inl e ↦ rw e (Reads-number 8 s.writer_epoch h.writer_epoch.0)
  | inr e ↦
      let z : s.writer_epoch ≡ 0 = ground (arith, h.writer_epoch.1) in rw (e, z) (Reads-pure 0)
]

Reads-snapshot : (s : SnapshotData) → IsSnapshot s → Reads snapshot s (snapshot_bytes s)
unfolding snapshot snapshot_bytes
Reads-snapshot s h = Reads-bind _ _ _ s _ _ (Reads-number 4 s.version (omega (arith, h.version))) (
    Reads-bind _ _ _ s _ _ (Reads-number 8 s.sequence h.sequence) (
      Reads-bind _ _ _ s _ _ (Reads-count _ h.balance_count) (
        Reads-bind _ _ _ s _ _
          (Reads-repeat balance balance_bytes IsBalance Reads-balance s.balances h.balances)
          (Reads-bind _ _ _ s _ _ (Reads-count _ h.dedup_count) (
            Reads-bind _ _ _ s _ _
              (Reads-repeat dedup_entry dedup_bytes IsDedup Reads-dedup_entry s.dedup h.dedup)
              (Reads-bind_last _ _ _ s _ (Reads-epoch s h) (Reads-pure s)))))))

pub decode_lem :
    (s : SnapshotData)
    → IsSnapshot s
    → length (snapshot_bytes s) < 2 ^ 64
    → decode (snapshot_bytes s) ≡ ok s
unfolding decode
decode_lem s h small =
    rw (Reads-whole snapshot s (snapshot_bytes s) (Reads-snapshot s h) small) refl
