-- ===== src/Store/DiskIndex.antt =====
-- What the store relies on of the index on disk (src/dedup_disk.rs): an interface.
use virt_warehouse_pro.Common.{◌≡◌, List, [], ◌∷◌, Option, some, Result, ok, map, if◌then◌else◌}
use virt_warehouse_pro.Common.Eq.{◌==◌, list_eq, nat_eq}
use virt_warehouse_pro.Store.Types.{Hash, Fingerprint}

-- The value that a list of entries, inserted one after the other, leaves under a key.
abbrev pub inserted : List (Hash × Fingerprint) → Hash → Option Fingerprint → Option Fingerprint
inserted [] key old = old
inserted ((k, v) ∷ entries) key old = inserted entries key (if k == key then some v else old)

pub record DiskIndex : Type 1 where
  pub State : Type 0
  pub get_many : State → List Hash → Result (List (Option Fingerprint))
  pub insert_many : State → List (Hash × Fingerprint) → Result State
  -- what is on disk
  pub stored : State → Hash → Option Fingerprint
  pub get_many_lem :
      (s : State) (keys : List Hash) (values : List (Option Fingerprint))
      → get_many s keys ≡ ok values
      → values ≡ map (stored s) keys
  pub insert_many_lem :
      (s t : State) (entries : List (Hash × Fingerprint)) (key : Hash)
      → insert_many s entries ≡ ok t
      → stored t key ≡ inserted entries key (stored s key)
