-- ===== src/Disk/Tree.antt =====
-- What src/dedup_disk.rs relies on of a table of its databases, a `Keyspace` of fjall or a table of
-- redb: an interface.
use virt_warehouse_pro.Common.{◌≡◌, List, Option, some, if◌then◌else◌}
use virt_warehouse_pro.Common.Eq.{◌==◌, list_eq, nat_eq}
use virt_warehouse_pro.Common.Map as Map
use virt_warehouse_pro.Bytes.Words.{Bytes}
use virt_warehouse_pro.Bytes.Order.{within, select}

pub record Tree (K : Type 0) : Type 0 where
  pub get_key : Bytes → K → Option Bytes
  pub insert_key : Bytes → Bytes → K → K
  -- what an iteration yields
  pub entries : K → List (Bytes × Bytes)
  -- `range(lo..hi)`, or `range(lo..)`
  pub range : Bytes → Option Bytes → K → List (Bytes × Bytes)
  pub get_insert :
      (key other value : Bytes) (table : K)
      → get_key other (insert_key key value table)
        ≡ (if key == other then some value else get_key other table)
  pub get_entries : (key : Bytes) (table : K) → get_key key table ≡ Map.get key (entries table)
  pub range_entries :
      (lo : Bytes) (hi : Option Bytes) (table : K)
      → range lo hi table ≡ select (λ e. within lo hi e.0) (entries table)

module _ {K : Type 0} ⦃tree : Tree K⦄ where
  abbrev pub get : Bytes → K → Option Bytes
  get = tree.get_key

  abbrev pub insert : Bytes → Bytes → K → K
  insert = tree.insert_key

  pub get-insert :
      (key other value : Bytes) (table : K)
      → get other (insert key value table) ≡ (if key == other then some value else get other table)
  get-insert = tree.get_insert
