-- ===== src/Store/Sorted.antt =====
-- src/state.rs: the entries that `run_disk_persist` sorts before it inserts them.
use virt_warehouse_pro.Common.{
  ◌≡◌, refl, ap, ◌∙◌, inl, inr, arith, List, [], ◌∷◌, Option, some, Bool, true, false, ◌||◌,
  if◌then◌else◌, Bool-cases, All,
}
use virt_warehouse_pro.Common.Eq.{◌==◌, list_eq, nat_eq}
use virt_warehouse_pro.Store.Types.{Hash, Fingerprint}
use virt_warehouse_pro.Store.DiskIndex.{inserted}
use virt_warehouse_pro.Store.Finish.{hash_lt, insert_entry, sort_entries}

-- The list has an entry for the key.
abbrev pub has_key : List (Hash × Fingerprint) → Hash → Bool
has_key [] key = false
has_key (e ∷ entries) key = (e.0 == key) || has_key entries key

module _ (P : Hash × Fingerprint → Type 0) where
  All-insert_entry :
      (e : Hash × Fingerprint) (es : List (Hash × Fingerprint))
      → P e
      → All P es
      → All P (insert_entry e es)
  unfolding insert_entry
  All-insert_entry e [] p h = (p, tt)
  All-insert_entry e (d ∷ es) p h = elim (Bool-cases (hash_lt d.0 e.0)) [
    | inl t ↦ rw t (h.0, All-insert_entry e es p h.1)
    | inr t ↦ rw t (p, h)
  ]

  pub All-sort_entries : (es : List (Hash × Fingerprint)) → All P es → All P (sort_entries es)
  unfolding sort_entries
  All-sort_entries [] h = tt
  All-sort_entries (e ∷ es) h = All-insert_entry e (sort_entries es) h.0 (All-sort_entries es h.1)

has_key-insert_entry :
    (e : Hash × Fingerprint) (es : List (Hash × Fingerprint)) (key : Hash)
    → has_key (insert_entry e es) key ≡ ((e.0 == key) || has_key es key)
unfolding insert_entry
has_key-insert_entry e [] key = refl
has_key-insert_entry e (d ∷ es) key = ground (arith, has_key-insert_entry e es key)

pub has_key-sort_entries :
    (es : List (Hash × Fingerprint)) (key : Hash) → has_key (sort_entries es) key ≡ has_key es key
unfolding sort_entries
has_key-sort_entries [] key = refl
has_key-sort_entries (e ∷ es) key =
    has_key-insert_entry e (sort_entries es) key
    ∙ ap (λ b. (e.0 == key) || b) (has_key-sort_entries es key)

-- Entries that give a key one value leave it.
pub inserted-agree :
    (es : List (Hash × Fingerprint)) (key : Hash) (v : Fingerprint) (old : Option Fingerprint)
    → All (λ e. (e.0 == key) ≡ true → e.1 ≡ v) es
    → inserted es key old ≡ (if has_key es key then some v else old)
inserted-agree [] key v old h = refl
inserted-agree (e ∷ es) key v old h = elim (Bool-cases (e.0 == key)) [
  | inl t ↦
      ground
        (arith, t, ap (λ (x : Fingerprint). some x) (h.0 t), inserted-agree es key v (some e.1) h.1)
  | inr t ↦ ground (arith, t, inserted-agree es key v old h.1)
]
