-- ===== src/Store/Persist.antt =====
-- src/state.rs: a round of `run_disk_persist` moves committed ids from the memory to the disk.
use virt_warehouse_pro.Common.{
  ◌≡◌, refl, sym, ap, ◌∙◌, ◌⊎◌, inl, inr, arith, List, [], ◌∷◌, Option, none, some, true, false,
  if◌then◌else◌, Result, ok, err, Bool-cases, Option-cases, Result-cases, All,
}
use virt_warehouse_pro.Common.Eq.{◌==◌, list_eq, nat_eq, list_beq_iff}
use virt_warehouse_pro.Store.Types.{
  Hash, Fingerprint, DedupEntry, committed, pending, DedupShards, entry_of, drop_entry,
}
use virt_warehouse_pro.Store.DiskIndex.{DiskIndex, inserted}
use virt_warehouse_pro.Store.Index.{entry_of-drop_entry}
use virt_warehouse_pro.Store.Finish.{sort_entries, forget, persist}
use virt_warehouse_pro.Store.Known.{known}
use virt_warehouse_pro.Store.Sorted.{
  has_key, All-sort_entries, has_key-sort_entries, inserted-agree,
}

-- An entry is as it was, or it is for a key of the list and gone.
IsForgotten : DedupShards → DedupShards → List (Hash × Fingerprint) → Hash → Type 0
IsForgotten before after es key =
    (entry_of after key ≡ entry_of before key)
    ⊎ ((entry_of after key ≡ none) × (has_key es key ≡ true))

IsForgotten-cons :
    (before mid after : DedupShards) (e : Hash × Fingerprint) (es : List (Hash × Fingerprint))
    (key : Hash)
    → IsForgotten before mid (e ∷ []) key
    → IsForgotten mid after es key
    → IsForgotten before after (e ∷ es) key
unfolding IsForgotten
IsForgotten-cons before mid after e es key (inl p) (inl q) = inl (q ∙ p)
IsForgotten-cons before mid after e es key (inl p) (inr (gone, named)) =
    inr (gone, ground (arith, named))
IsForgotten-cons before mid after e es key (inr (gone, named)) (inl q) =
    inr (q ∙ gone, ground (arith, named))
IsForgotten-cons before mid after e es key (inr (gone, named)) (inr (none_left, also)) =
    inr (none_left, ground (arith, also))

IsForgotten-drop_entry :
    (memory : DedupShards) (k key : Hash) (f : Fingerprint)
    → IsForgotten memory (drop_entry memory k) ((k, f) ∷ []) key
unfolding IsForgotten
IsForgotten-drop_entry memory k key f = elim (Bool-cases (k == key)) [
  | inl t ↦ inr (ground (arith, t, entry_of-drop_entry memory k key), ground (arith, t))
  | inr t ↦ inl (ground (arith, t, entry_of-drop_entry memory k key))
]

forget-IsForgotten :
    (memory : DedupShards) (es : List (Hash × Fingerprint)) (key : Hash)
    → IsForgotten memory (forget memory es) es key
unfolding forget IsForgotten
forget-IsForgotten memory [] key = inl refl
forget-IsForgotten memory ((k, f) ∷ es) key = elim (Option-cases (entry_of memory k)) [
  | inl e ↦
      rw (e, forget)
        (IsForgotten-cons memory memory (forget memory es) (k, f) es key (inl refl)
          (forget-IsForgotten memory es key))
  | inr (pending g n, e) ↦
      rw (e, forget)
        (IsForgotten-cons memory memory (forget memory es) (k, f) es key (inl refl)
          (forget-IsForgotten memory es key))
  | inr (committed g, e) ↦ elim (Bool-cases (g == f)) [
    | inl t ↦
        rw (e, forget, t)
          (IsForgotten-cons memory (drop_entry memory k) (forget (drop_entry memory k) es) (k, f) es
            key (IsForgotten-drop_entry memory k key f)
            (forget-IsForgotten (drop_entry memory k) es key))
    | inr t ↦
        rw (e, forget, t)
          (IsForgotten-cons memory memory (forget memory es) (k, f) es key (inl refl)
            (forget-IsForgotten memory es key))
  ]
]

abbrev or_value : Fingerprint → Option Fingerprint → Fingerprint
or_value v none = v
or_value v (some f) = f

known-same :
    (entry : Option DedupEntry) (old new : Option Fingerprint) (v : Fingerprint)
    → known entry old ≡ some v
    → new ≡ some v
    → known entry new ≡ known entry old
unfolding known
known-same none old new v p q = q ∙ sym p
known-same (some (committed f)) old new v p q = refl
known-same (some (pending f n)) old new v p q = refl

abbrev known_of :
    {S : Type 0} → (S → Hash → Option Fingerprint) → Hash → DedupShards × S → Option Fingerprint
known_of stored key (memory, disk) = known (entry_of memory key) (stored disk key)

module _ (D : DiskIndex) (memory : DedupShards) (disk : D.State) where
  -- The fingerprint under which a key is committed before the round.
  abbrev known_before : Hash → Option Fingerprint
  known_before key = known (entry_of memory key) (D.stored disk key)

  -- The entry was queued when its key was committed.
  abbrev pub IsQueued : Hash × Fingerprint → Type 0
  IsQueued e = known_before e.0 ≡ some e.1

  agree :
      (es : List (Hash × Fingerprint)) (key : Hash) (v : Fingerprint)
      → All IsQueued es
      → known_before key ≡ some v
      → All (λ e. (e.0 == key) ≡ true → e.1 ≡ v) es
  agree [] key v h k = tt
  agree (e ∷ es) key v h k = (
    λ t.
        let same = (list_beq_iff e.0 key).0 t in
        let both : some e.1 ≡ some v = sym h.0 ∙ ap known_before same ∙ k in ap (or_value v) both,
    agree es key v h.1 k,
  )

  vacuous :
      (es : List (Hash × Fingerprint)) (key : Hash) (v : Fingerprint)
      → has_key es key ≡ false
      → All (λ e. (e.0 == key) ≡ true → e.1 ≡ v) es
  vacuous [] key v h = tt
  vacuous (e ∷ es) key v h =
      (λ t. absurd (ground (arith, t, h)), vacuous es key v (ground (arith, h)))

  has_key-known :
      (es : List (Hash × Fingerprint)) (key : Hash)
      → All IsQueued es
      → known_before key ≡ none
      → has_key es key ≡ false
  has_key-known [] key h k = refl
  has_key-known (e ∷ es) key h k = elim (Bool-cases (e.0 == key)) [
    | inl t ↦
        let same = (list_beq_iff e.0 key).0 t in
        let both : some e.1 ≡ none = sym h.0 ∙ ap known_before same ∙ k in
        absurd (ground (arith, both))
    | inr t ↦ ground (arith, t, has_key-known es key h.1 k)
  ]

  known-forget :
      (es : List (Hash × Fingerprint)) (key : Hash)
      → All IsQueued es
      → known (entry_of (forget memory es) key) (inserted (sort_entries es) key (D.stored disk key))
        ≡ known_before key
  unfolding known IsForgotten
  known-forget es key h = elim (Option-cases (known_before key)) [
    | inl unknown ↦
        let absent = has_key-known es key h unknown in
        let kept =
          inserted-agree (sort_entries es) key [] (D.stored disk key)
            (vacuous (sort_entries es) key [] (has_key-sort_entries es key ∙ absent)) in
        elim (forget-IsForgotten memory es key) [
          | inl same ↦ ground (arith, same, kept, absent, has_key-sort_entries es key)
          | inr (gone, named) ↦ absurd (ground (arith, named, absent))
        ]
    | inr (v, found) ↦
        let kept =
          inserted-agree (sort_entries es) key v (D.stored disk key)
            (All-sort_entries (λ e. (e.0 == key) ≡ true → e.1 ≡ v) es (agree es key v h found)) in
        elim (forget-IsForgotten memory es key) [
          | inl same ↦ elim (Bool-cases (has_key es key)) [
            | inl t ↦
                let new : inserted (sort_entries es) key (D.stored disk key) ≡ some v =
                  kept
                  ∙ ap (λ b. if b then some v else D.stored disk key)
                      (has_key-sort_entries es key ∙ t) in
                ap (λ entry. known entry (inserted (sort_entries es) key (D.stored disk key))) same
                ∙ known-same (entry_of memory key) (D.stored disk key) _ v found new
            | inr t ↦ ground (arith, same, kept, t, has_key-sort_entries es key)
          ]
          | inr (gone, named) ↦
              ground (arith, gone, named, kept, found, has_key-sort_entries es key)
        ]
  ]

  abbrev written : List (Hash × Fingerprint) → Result D.State → DedupShards × D.State
  written combined (ok after) = (forget memory combined, after)
  written combined (err why) = (memory, disk)

  -- A round of the task that writes to the disk, of entries that were queued when their keys were
  -- committed, changes for no key under which fingerprint it is committed, whether it succeeds or fails.
  pub known-persist :
      (combined : List (Hash × Fingerprint)) (key : Hash)
      → All IsQueued combined
      → known
          (entry_of (persist D memory disk combined).0 key)
          (D.stored (persist D memory disk combined).1 key)
        ≡ known (entry_of memory key) (D.stored disk key)
  unfolding persist
  known-persist combined key h = elim (Result-cases (D.insert_many disk (sort_entries combined))) [
    | inl (after, e) ↦
        ap (λ r. known_of D.stored key (written combined r)) e
        ∙ ap (λ new. known (entry_of (forget memory combined) key) new)
            (D.insert_many_lem disk after (sort_entries combined) key e)
        ∙ known-forget combined key h
    | inr (why, e) ↦ ap (λ r. known_of D.stored key (written combined r)) e
  ]
