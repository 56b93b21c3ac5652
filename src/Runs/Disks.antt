-- ===== src/Runs/Disks.antt =====
-- Runs of the index on disk.
use virt_warehouse_pro.Common.{
  ◌≡◌, refl, arith, List, [], ◌∷◌, ◌++◌, none, some, true, false, ok, length, map,
}
use virt_warehouse_pro.Common.Eq.{list_eq, nat_eq}
use virt_warehouse_pro.Common.Map as Map
use virt_warehouse_pro.Bytes.Words.{Bytes, from_le_bytes}
use virt_warehouse_pro.Store.Types.{Hash, Fingerprint}
use virt_warehouse_pro.Store.DiskIndex.{inserted}
use virt_warehouse_pro.Runs.{map_tree}
use virt_warehouse_pro.Disk.Bloom.{
  bloom_positions, has_bit, update, set_bit, has_all, set_all, bloom_maybe, bloom_add,
}
use virt_warehouse_pro.Disk.Bloom.Members.{length-bloom_add}
use virt_warehouse_pro.Disk.Bloom.Found.{found-bloom_add}
use virt_warehouse_pro.Disk.Dedup.{
  dedup_disk_shard, dedup_lsm_shard, DiskDedup, lsm_shard, lsm_whole, file_shard, file_whole,
  keyspace, Reads, fingerprint_bytes, read_layer, read_fingerprint, get_one, is_candidate, pass,
  lsm_pass, any_wanted, file_shard_pass, file_pass, legacy_rows, search_rows, get_many, put_all,
  add_all, commit, mark, insert_many,
}
use virt_warehouse_pro.Disk.Rows.{stored}
use virt_warehouse_pro.Disk.Lookup.{IsCovered}
use virt_warehouse_pro.Disk.Warmup.{numbered, layers, add_keys, Warmup, Step, Reach, opened}
use virt_warehouse_pro.Disk.Warmup.Lookups.{IsOpened, get_many-Reach, get_one-Reach}
use virt_warehouse_pro.Disk.Index.{IsSound, get_many-insert_many}

abbrev padded : Bytes → Bytes
padded bytes =
    bytes
    ++ (0 ∷ 0 ∷ 0 ∷ 0 ∷ 0 ∷ 0 ∷ 0 ∷ 0 ∷ 0 ∷ 0 ∷ 0 ∷ 0 ∷ 0 ∷ 0 ∷ 0 ∷ 0 ∷ 0 ∷ 0 ∷ 0 ∷ 0 ∷ 0 ∷ 0 ∷ 0
        ∷ 0 ∷ 0 ∷ 0 ∷ 0 ∷ 0 ∷ [])

abbrev first_key : Hash
first_key = padded (65 ∷ 0 ∷ 0 ∷ 0 ∷ [])

abbrev other_key : Hash
other_key = padded (3 ∷ 1 ∷ 0 ∷ 0 ∷ [])

abbrev value : Fingerprint
value = padded (9 ∷ 9 ∷ 9 ∷ 9 ∷ [])

abbrev zeros : Bytes
zeros = 0 ∷ 0 ∷ 0 ∷ 0 ∷ []

abbrev answers : Reads
answers = record { open_table = λ layer. ok tt; read = λ layer key. ok tt }

first_added : bloom_maybe (bloom_add zeros first_key) first_key ≡ true
unfolding bloom_maybe bloom_add bloom_positions has_all set_all has_bit set_bit update from_le_bytes
first_added = refl

added_size : (key : Hash) → length (bloom_add zeros key) ≡ 4
added_size key = length-bloom_add zeros key

found-bloom_add_example :
    bloom_maybe (bloom_add (bloom_add zeros first_key) other_key) first_key ≡ true
found-bloom_add_example =
    found-bloom_add (bloom_add zeros first_key) other_key first_key
      (omega (arith, added_size first_key)) first_added

-- A new index.
abbrev empty_index : DiskDedup (Map.Map Bytes Bytes)
empty_index = record {
  lsm_dedup_shards = λ shard. [];
  lsm_dedup = [];
  databases = λ shard. [];
  database = [];
  legacy_fallback = false;
  bloom = zeros;
  bloom_ready = true;
}

-- An index of an older installation, before its filter is rebuilt.
abbrev pub old_index : DiskDedup (Map.Map Bytes Bytes)
old_index = record {
  lsm_dedup_shards = λ shard. [];
  lsm_dedup = (other_key, value) ∷ [];
  databases = λ shard. [];
  database = (first_key, value) ∷ [];
  legacy_fallback = true;
  bloom = zeros;
  bloom_ready = false;
}

abbrev batch : List (Hash × Fingerprint)
batch = (first_key, value) ∷ []

empty_IsSound : IsSound empty_index
unfolding IsSound IsCovered stored keyspace Map.get
empty_IsSound = (omega arith, λ key h. refl)

abbrev after_batch : DiskDedup (Map.Map Bytes Bytes)
after_batch = mark (commit empty_index batch) batch

inserted_batch : insert_many (ok tt) empty_index batch ≡ ok after_batch
unfolding insert_many
inserted_batch = refl

found_batch :
    get_many answers after_batch (first_key ∷ other_key ∷ []) ≡ ok (some value ∷ none ∷ [])
unfolding get_many any_wanted is_candidate search_rows lsm_pass pass read_layer fingerprint_bytes
    legacy_rows file_pass file_shard_pass keyspace Map.get Map.insert dedup_lsm_shard
    dedup_disk_shard mark commit put_all add_all bloom_maybe bloom_add bloom_positions has_all
    set_all has_bit set_bit update from_le_bytes
found_batch = refl

get_many-insert_many_example :
    (some value ∷ none ∷ [])
    ≡ map (λ key. inserted batch key (stored empty_index key)) (first_key ∷ other_key ∷ [])
get_many-insert_many_example =
    get_many-insert_many answers (ok tt) empty_index after_batch batch empty_IsSound inserted_batch
      (first_key ∷ other_key ∷ []) (some value ∷ none ∷ []) found_batch

old_IsOpened : IsOpened old_index
unfolding IsOpened
old_IsOpened = (omega arith, λ h. absurd cc)

abbrev zero_warmup : Warmup (Map.Map Bytes Bytes)
zero_warmup = opened old_index

abbrev committed_warmup : Warmup (Map.Map Bytes Bytes)
committed_warmup = record zero_warmup { index = commit old_index batch; adding = batch ∷ [] }

-- The filter of the thread after it has read the first layer, in which `other_key` is.
abbrev scanned_warmup : Warmup (Map.Map Bytes Bytes)
scanned_warmup = record committed_warmup {
  rebuilt = bloom_add zeros other_key;
  left = numbered lsm_shard 64 0 ++ (file_whole ∷ numbered file_shard 16 0);
}

abbrev marked_warmup : Warmup (Map.Map Bytes Bytes)
marked_warmup = record scanned_warmup { index = mark (commit old_index batch) batch; adding = [] }

read_first :
    add_keys zeros (map_tree.entries (keyspace (commit old_index batch) lsm_whole))
    ≡ ok (bloom_add zeros other_key)
unfolding add_keys keyspace commit
read_first = refl

marked_warmup-Reach : Reach (opened old_index) marked_warmup
unfolding opened layers
marked_warmup-Reach =
    Reach.then_step zero_warmup scanned_warmup marked_warmup
      (Reach.then_step zero_warmup committed_warmup scanned_warmup
        (Reach.then_step zero_warmup zero_warmup committed_warmup (Reach.start zero_warmup)
          (Step.commit_batch zero_warmup batch))
        (Step.scan committed_warmup lsm_whole
          (numbered lsm_shard 64 0 ++ (file_whole ∷ numbered file_shard 16 0))
          (bloom_add zeros other_key) refl refl read_first))
      (Step.mark_batch scanned_warmup [] [] batch refl)

found_marked :
    get_many answers marked_warmup.index (first_key ∷ other_key ∷ [])
    ≡ ok (some value ∷ some value ∷ [])
unfolding get_many any_wanted is_candidate search_rows lsm_pass pass read_layer fingerprint_bytes
    legacy_rows file_pass file_shard_pass keyspace Map.get Map.insert dedup_lsm_shard
    dedup_disk_shard mark commit put_all
found_marked = refl

get_many-Reach_example :
    (some value ∷ some value ∷ []) ≡ map (stored marked_warmup.index) (first_key ∷ other_key ∷ [])
get_many-Reach_example =
    get_many-Reach answers old_index marked_warmup old_IsOpened marked_warmup-Reach refl
      (first_key ∷ other_key ∷ []) (some value ∷ some value ∷ []) found_marked

one_marked : get_one answers marked_warmup.index first_key ≡ ok (some value)
unfolding get_one read_layer read_fingerprint fingerprint_bytes keyspace Map.get Map.insert
    dedup_lsm_shard dedup_disk_shard mark commit put_all
one_marked = refl

get_one-Reach_example : some value ≡ stored marked_warmup.index first_key
get_one-Reach_example =
    get_one-Reach answers old_index marked_warmup old_IsOpened marked_warmup-Reach refl first_key
      (some value) one_marked
