-- ===== src/Disk/Dedup.antt =====
-- The index of committed operations in src/dedup_disk.rs: two layers of an LSM tree, and two of the
-- files of older installations, behind a Bloom filter.
use virt_warehouse_pro.Common.{
  ℕ, zero, suc, List, [], ◌∷◌, Option, none, some, Bool, true, false, not, ◌&&◌, ◌||◌,
  ◌==◌ as nat_beq, if◌then◌else◌, Result, Error, ok, err, ◌>>=◌, ◌>>◌, length, map, bit_and,
}
use virt_warehouse_pro.Common.Eq.{list_eq, nat_eq}
use virt_warehouse_pro.Disk.Tree.{Tree, get, insert}
use virt_warehouse_pro.Bytes.Words.{Bytes}
use virt_warehouse_pro.Store.Types.{Hash, Fingerprint}
use virt_warehouse_pro.Disk.Bloom.{bloom_maybe, bloom_add}

abbrev pub dedup_lsm_shards : ℕ
dedup_lsm_shards = 64

abbrev pub dedup_shards : ℕ
dedup_shards = 16

abbrev first_byte : Bytes → ℕ
first_byte [] = 0
first_byte (b ∷ bs) = b

-- `key[0] as usize & (DEDUP_SHARDS - 1)`
unfoldable pub dedup_disk_shard : Hash → ℕ
dedup_disk_shard key = bit_and (first_byte key) 15

unfoldable pub dedup_lsm_shard : Hash → ℕ
dedup_lsm_shard key = bit_and (first_byte key) 63

-- The part of `DiskDedup` that holds the index.
pub record DiskDedup (K : Type 0) : Type 0 where
  pub lsm_dedup_shards : ℕ → K
  pub lsm_dedup : K
  pub databases : ℕ → K
  pub database : K
  pub legacy_fallback : Bool
  pub bloom : Bytes
  pub bloom_ready : Bool

-- Where a value is read.
pub data Layer : Type 0 where
  lsm_shard : ℕ → Layer
  lsm_whole : Layer
  file_shard : ℕ → Layer
  file_whole : Layer

unfoldable pub keyspace : {K : Type 0} → DiskDedup K → Layer → K
keyspace d (lsm_shard shard) = d.lsm_dedup_shards shard
keyspace d lsm_whole = d.lsm_dedup
keyspace d (file_shard shard) = d.databases shard
keyspace d file_whole = d.database

-- What the databases answer: to the transaction that opens the table of a file, and to the read of a key.
pub record Reads : Type 0 where
  pub open_table : Layer → Result (Unit {0})
  pub read : Layer → Hash → Result (Unit {0})

unfoldable pub fingerprint_bytes : Bytes → Result Fingerprint
fingerprint_bytes bytes = if nat_beq (length bytes) 32 then ok bytes else err Error.bad_length

-- `if let Some(value) = ... { return Ok(Some(value)) }`, and what follows.
abbrev pub or_else :
    Result (Option Fingerprint) → Result (Option Fingerprint) → Result (Option Fingerprint)
or_else (err e) rest = err e
or_else (ok (some f)) rest = ok (some f)
or_else (ok none) rest = rest

module _ {K : Type 0} ⦃tree : Tree K⦄ (io : Reads) (d : DiskDedup K) where
  -- A value of a layer, checked.
  unfoldable pub read_layer : Layer → Hash → Result (Option Fingerprint)
  read_layer layer key = do
    io.read layer key
    elim (get key (keyspace d layer)) [
      | none ↦ ok none
      | some value ↦ do f ← fingerprint_bytes value; ok (some f)
    ]

  -- `read_fingerprint`, of a file
  unfoldable pub read_fingerprint : Layer → Hash → Result (Option Fingerprint)
  read_fingerprint layer key = do io.open_table layer; read_layer layer key

  -- `get`
  unfoldable pub get_one : Hash → Result (Option Fingerprint)
  get_one key =
      if d.bloom_ready && not (bloom_maybe d.bloom key)
      then ok none
      else or_else (read_layer (lsm_shard (dedup_lsm_shard key)) key) (
          or_else (read_layer lsm_whole key) (
            if not d.legacy_fallback
            then ok none
            else or_else (read_fingerprint (file_shard (dedup_disk_shard key)) key)
                (read_fingerprint file_whole key)))

-- An index of `get_many`: its key, `candidates[index]` and `result[index]`.
pub record Row : Type 0 where
  pub key : Hash
  pub candidate : Bool
  pub found : Option Fingerprint

abbrev pub is_none : Option Fingerprint → Bool
is_none none = true
is_none (some f) = false

-- `if let Some(value) = ... { result[index] = Some(value) }`
abbrev pub found_in : Option Fingerprint → Row → Row
found_in none r = r
found_in (some v) r = record r { found = some v }

-- `!ready || bloom_maybe(&bloom, key)`
unfoldable pub is_candidate : {K : Type 0} → DiskDedup K → Hash → Bool
is_candidate d key = not d.bloom_ready || bloom_maybe d.bloom key

abbrev pub is_missing : Row → Bool
is_missing r = r.candidate && is_none r.found

unfoldable pub any_wanted : (Row → Bool) → List Row → Bool
any_wanted wanted [] = false
any_wanted wanted (r ∷ rows) = wanted r || any_wanted wanted rows

abbrev pub row_of : {K : Type 0} → DiskDedup K → Hash → Row
row_of d key = record { key = key; candidate = is_candidate d key; found = none }

module _ {K : Type 0} ⦃tree : Tree K⦄ (io : Reads) (d : DiskDedup K) where
  -- A loop over the rows that reads those which are wanted in a layer, and keeps what it finds.
  unfoldable pub pass : (Row → Bool) → Layer → List Row → Result (List Row)
  pass wanted layer [] = ok []
  pass wanted layer (r ∷ rows) = do
    f ← (if wanted r then read_layer io d layer r.key else ok none)
    rest ← pass wanted layer rows
    ok (found_in f r ∷ rest)

  -- The loop over the shards of the LSM tree from `shard` on, of which `left` are left.
  unfoldable pub lsm_pass : ℕ → ℕ → List Row → Result (List Row)
  lsm_pass zero shard rows = ok rows
  lsm_pass (suc left) shard rows = do
    rows ← pass (λ r. r.candidate && nat_beq (dedup_lsm_shard r.key) shard) (lsm_shard shard) rows
    lsm_pass left (suc shard) rows

  -- A shard of the files, which is opened when an index needs it.
  unfoldable pub file_shard_pass : ℕ → List Row → Result (List Row)
  file_shard_pass shard rows =
      let wanted = λ (r : Row). is_missing r && nat_beq (dedup_disk_shard r.key) shard in
      if not (any_wanted wanted rows)
      then ok rows
      else (do io.open_table (file_shard shard); pass wanted (file_shard shard) rows)

  -- The loop over the shards of the files of older installations.
  unfoldable pub file_pass : ℕ → ℕ → List Row → Result (List Row)
  file_pass zero shard rows = ok rows
  file_pass (suc left) shard rows = do
    rows ← file_shard_pass shard rows
    file_pass left (suc shard) rows

  -- `if self.legacy_fallback { ... }`
  unfoldable pub legacy_rows : List Row → Result (List Row)
  legacy_rows rows =
      if d.legacy_fallback
      then (do
        rows ← file_pass dedup_shards 0 rows
        io.open_table file_whole
        pass is_missing file_whole rows)
      else ok rows

  -- The passes after the check that there is a candidate.
  unfoldable pub search_rows : List Row → Result (List Row)
  search_rows rows = do
    rows ← lsm_pass dedup_lsm_shards 0 rows
    rows ← pass is_missing lsm_whole rows
    legacy_rows rows

  unfoldable pub get_many : List Hash → Result (List (Option Fingerprint))
  get_many keys =
      let rows = map (row_of d) keys in
      if not (any_wanted (λ r. r.candidate) rows)
      then ok (map (λ key. none) keys)
      else (do rows ← search_rows rows; ok (map (λ r. r.found) rows))

-- The batch of the LSM tree, which is committed as a whole.
unfoldable pub put_all : {K : Type 0} ⦃tree : Tree K⦄ → (ℕ → K) → List (Hash × Fingerprint) → ℕ → K
put_all shards [] = shards
put_all shards ((key, value) ∷ entries) =
    put_all (λ i. if nat_beq i (dedup_lsm_shard key) then insert key value (shards i) else shards i)
      entries

unfoldable pub add_all : Bytes → List (Hash × Fingerprint) → Bytes
add_all bloom [] = bloom
add_all bloom ((key, value) ∷ entries) = add_all (bloom_add bloom key) entries

unfoldable pub commit :
    {K : Type 0} ⦃tree : Tree K⦄ → DiskDedup K → List (Hash × Fingerprint) → DiskDedup K
commit d entries = record d { lsm_dedup_shards = put_all d.lsm_dedup_shards entries }

unfoldable pub mark : {K : Type 0} → DiskDedup K → List (Hash × Fingerprint) → DiskDedup K
mark d entries = record d { bloom = add_all d.bloom entries }

-- `insert_many`; `committed` is the answer to the commit.
unfoldable pub insert_many :
    {K : Type 0} ⦃tree : Tree K⦄
    → Result (Unit {0})
    → DiskDedup K
    → List (Hash × Fingerprint)
    → Result (DiskDedup K)
insert_many committed d [] = ok d
insert_many committed d (e ∷ entries) = do
  committed
  ok (mark (commit d (e ∷ entries)) (e ∷ entries))
