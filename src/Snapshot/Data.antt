-- ===== src/Snapshot/Data.antt =====
-- The types of src/snapshot.rs.
use virt_warehouse_pro.Common.{ℕ, List}
use virt_warehouse_pro.Bytes.Words.{Bytes}

pub record BalanceSnapshot : Type 0 where
  pub owner_id : Bytes
  pub sku : Bytes
  pub balance : ℕ

pub record DedupSnapshot : Type 0 where
  pub operation_id : Bytes
  pub fingerprint : Bytes

pub record SnapshotData : Type 0 where
  pub version : ℕ
  pub sequence : ℕ
  pub balances : List BalanceSnapshot
  pub dedup : List DedupSnapshot
  pub writer_epoch : ℕ
