-- ===== src/Config/Shards.antt =====
-- src/config.rs, src/state.rs: the shards of a configuration that is accepted.
use virt_warehouse_pro.Common.{
  ℕ, ◌<◌, ◌≡◌, refl, ap, arith, Bool, true, false, ltb, Result, Error, ok, err, ensure, >>=-eq-ok,
  subst,
}
use virt_warehouse_pro.Bytes.Words.{Bytes}
use virt_warehouse_pro.Store.Types.{Hashes, shard_for}
use virt_warehouse_pro.Store.Balances.{shard_for-lt}
use virt_warehouse_pro.Config.{Environment, parse_usize, is_power_of_two, Config, from_env}

ensure-eq_ok : (b : Bool) (e : Error) (passed : Unit {0}) → ensure b e ≡ ok passed → b ≡ true
ensure-eq_ok true e passed h = refl
ensure-eq_ok false e passed h = cc

is_power_of_two-positive : (n : ℕ) → is_power_of_two n ≡ true → 0 < n
unfolding is_power_of_two
is_power_of_two-positive n h = ground (arith, h)

positive : (n : ℕ) → ltb 0 n ≡ true → 0 < n
positive n h = ground (arith, h)

abbrev shards_of : {A : Type 0} → ℕ → Result (Config A) → ℕ
shards_of other (err why) = other
shards_of other (ok config) = config.shards

abbrev batch_of : {A : Type 0} → ℕ → Result (Config A) → ℕ
batch_of other (err why) = other
batch_of other (ok config) = config.wal_batch

-- In a configuration that is accepted, the batches of the write-ahead log are not limited to zero, and the
-- shard of every owner and SKU is below the count of shards.
pub from_env-shard_for :
    {A : Type 0} (parse_address : Bytes → Result A) (env : Environment) (config : Config A)
    (h : Hashes) (owner_id sku : Bytes)
    → from_env parse_address env ≡ ok config
    → (0 < config.wal_batch) × (shard_for h owner_id sku config.shards < config.shards)
unfolding from_env
from_env-shard_for parse_address env config h owner_id sku e =
    let (bind, one, e) = >>=-eq-ok (parse_address _) _ e in
    let (shards, two, e) = >>=-eq-ok (parse_usize env _ _) _ e in
    let (wal_batch, three, e) = >>=-eq-ok (parse_usize env _ _) _ e in
    let (flush_ms, four, e) = >>=-eq-ok (parse_usize env _ _) _ e in
    let (power, five, e) = >>=-eq-ok (ensure (is_power_of_two shards) Error.not_power_of_two) _ e in
    let (passes, six, e) = >>=-eq-ok (ensure (ltb 0 wal_batch) Error.not_positive) _ e in
    let (delay, seven, e) = >>=-eq-ok (parse_usize env _ _) _ e in
    let same_shards : shards ≡ config.shards = ap (shards_of shards) e in
    let same_batch : wal_batch ≡ config.wal_batch = ap (batch_of wal_batch) e in
    let some_shards = is_power_of_two-positive shards (ensure-eq_ok _ _ power five) in
    let some_batch = positive wal_batch (ensure-eq_ok _ _ passes six) in
    (
      subst (λ (n : ℕ). 0 < n) same_batch some_batch,
      shard_for-lt h owner_id sku config.shards (subst (λ (n : ℕ). 0 < n) same_shards some_shards),
    )
