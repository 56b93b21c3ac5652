-- ===== src/Service/Endings.antt =====
-- How `apply_batch` of src/main.rs goes on behind a preflight that has reserved: the request is given up, or
-- committed.
use virt_warehouse_pro.Common.{
  ℕ, ◌<◌, ◌≡◌, ◌⊎◌, refl, sym, ap, arith, List, [], ◌∷◌, ◌++◌, append-nil, none, some, Bool, true,
  Bool-cases, Option-cases, Result-cases, inl, inr, Result, Error, ok, err, take, map, length,
  ◌==◌ as nat_beq,
}
use virt_warehouse_pro.Common.Eq.{list_eq, nat_eq}
use virt_warehouse_pro.Model.{Operation, ApplyResult}
use virt_warehouse_pro.Store.Types.{Hashes, DedupShards}
use virt_warehouse_pro.Store.Apply.{
  Core, Appended, synced, broken, append_wal, apply_batched, apply_from, fresh_of, known_results,
  set_results, collect, apply_preflight_batch,
}
use virt_warehouse_pro.Store.Answers.{collect-apply_from}
use virt_warehouse_pro.Store.Finish.{finish_batch}
use virt_warehouse_pro.Service.{
  Failure, unavailable, Node, Surroundings, Reply, answered, internal, ensure_writer, replicate,
  durable, after_finish, cancel, commit, fenced, proceed,
}

append_wal-err :
    (a : Appended) (wal ops : List Operation) (e : Error)
    → (append_wal a wal ops).1 ≡ err e
    → (n : ℕ) × ((append_wal a wal ops).0 ≡ wal ++ take n ops)
unfolding append_wal
append_wal-err synced wal [] e h = absurd (ground (arith, h))
append_wal-err (broken x n) wal [] e h = absurd (ground (arith, h))
append_wal-err synced wal (op ∷ ops) e h = absurd (ground (arith, h))
append_wal-err (broken x n) wal (op ∷ ops) e h = (n, refl)

append_wal-ok :
    (a : Appended) (wal ops : List Operation) (u : Unit {0})
    → (append_wal a wal ops).1 ≡ ok u
    → (append_wal a wal ops).0 ≡ wal ++ ops
unfolding append_wal
append_wal-ok synced wal [] u h = sym (append-nil wal)
append_wal-ok (broken x n) wal [] u h = sym (append-nil wal)
append_wal-ok synced wal (op ∷ ops) u h = refl
append_wal-ok (broken x n) wal (op ∷ ops) u h = absurd (ground (arith, h))

-- The operations of a batch that are new.
abbrev pub new_operations : List Operation → List Bool → List Operation
new_operations ops news = map (λ x. x.1) (fresh_of 0 ops news)

-- The core with the first `n` of the new operations in the log, and nothing applied.
abbrev pub logged : Core → ℕ → List Operation → List Bool → Core
logged core n ops news = record {
  shards = core.shards;
  wal = core.wal ++ take n (new_operations ops news);
}

-- The core with the new operations in the log and applied to the shards.
abbrev pub applied_core : Hashes → ℕ → Core → List Operation → List Bool → Core
applied_core h count core ops news = record {
  shards = (apply_from h count count 0 core.shards (fresh_of 0 ops news)).0;
  wal = core.wal ++ new_operations ops news;
}

module _ (h : Hashes) (count : ℕ) (s : Surroundings) (node : Node) where
  -- A request that reserved `news` is given up, or committed.
  abbrev pub Ends : DedupShards → List Operation → List Bool → Reply × Node → Type 0
  Ends memory ops news x =
      ((n : ℕ) × (why : Failure) × (x
          ≡ cancel h (record node { core = logged node.core n ops news }) memory ops news why))
      ⊎ ((results : List ApplyResult) × (x ≡ (
        answered results,
        after_finish node (applied_core h count node.core ops news)
            (finish_batch h memory node.published ops news true),
      )))

  cancel-Ends :
      (memory : DedupShards) (ops : List Operation) (news : List Bool) (why : Failure)
      → Ends memory ops news (cancel h node memory ops news why)
  cancel-Ends memory ops news why = inl (
    0,
    why,
    ap
        (λ (w : List Operation).
          cancel h (record node { core = record { shards = node.core.shards; wal = w } }) memory ops
            news why)
        (sym (append-nil node.core.wal)),
  )

  module _ (some_shards : 0 < count) (memory : DedupShards) (ops : List Operation)
      (news : List Bool) (sized : length news ≡ length ops) where
    abbrev appending : List Operation × Result (Unit {0})
    appending = append_wal s.appended node.core.wal (new_operations ops news)

    apply_preflight_batch-ok :
        (u : Unit {0}) (results : List ApplyResult)
        → appending.1 ≡ ok u
        → collect (
            set_results
              (known_results node.published ops news)
              (apply_from h count count 0 node.core.shards (fresh_of 0 ops news)).1)
          ≡ ok results
        → apply_preflight_batch h count s.appended node.core node.published ops news
          ≡ (applied_core h count node.core ops news, ok results)
    unfolding apply_preflight_batch apply_batched
    apply_preflight_batch-ok u results e done =
        let whole = append_wal-ok s.appended node.core.wal (new_operations ops news) u e in
        rw (apply_preflight_batch, apply_batched, e, done, whole) refl

    apply_preflight_batch-err :
        (x : Error)
        → appending.1 ≡ err x
        → apply_preflight_batch h count s.appended node.core node.published ops news
          ≡ (record { shards = node.core.shards; wal = appending.0 }, err x)
    unfolding apply_preflight_batch apply_batched
    apply_preflight_batch-err x e = rw (apply_preflight_batch, apply_batched, e) refl

    commit-Ends : Ends memory ops news (commit h count s node memory ops news)
    unfolding commit
    commit-Ends = elim (Result-cases appending.1) [
      | inl (u, e) ↦
          let (results, done) =
            collect-apply_from h count node.core.shards node.published ops news some_shards sized in
          let whole = apply_preflight_batch-ok u results e done in
          inr (results, rw (commit, whole, whole) refl)
      | inr (x, e) ↦
          let (n, left) = append_wal-err s.appended node.core.wal (new_operations ops news) x e in
          let stopped = apply_preflight_batch-err x e in
          inl (n, internal x, rw (commit, stopped, stopped, left) refl)
    ]

    fenced-Ends : (epoch : ℕ) → Ends memory ops news (fenced h count s epoch node memory ops news)
    unfolding fenced
    fenced-Ends epoch = elim (Option-cases (ensure_writer s.lease_after)) [
      | inl e ↦ rw (fenced, e) (cancel-Ends memory ops news unavailable)
      | inr (now, e) ↦ elim (Bool-cases (nat_beq now epoch)) [
        | inl same ↦ rw (fenced, e, same) commit-Ends
        | inr other ↦ rw (fenced, e, other) (cancel-Ends memory ops news unavailable)
      ]
    ]

    pub proceed-Ends :
        (epoch : ℕ) → Ends memory ops news (proceed h count s epoch node memory ops news)
    unfolding proceed
    proceed-Ends epoch = from (durable ops news)
      where
        from :
            (kept : List Operation)
            → Ends memory ops news (elim kept as (λ x. Reply × Node) [
              | [] ↦ commit h count s node memory ops news
              | op ∷ more ↦ elim (replicate s.log) as (λ x. Reply × Node) [
                | some why ↦ cancel h node memory ops news why
                | none ↦ fenced h count s epoch node memory ops news
              ]
            ])
        from [] = commit-Ends
        from (op ∷ more) = elim (Option-cases (replicate s.log)) [
          | inl e ↦ rw e (fenced-Ends epoch)
          | inr (why, e) ↦ rw e (cancel-Ends memory ops news why)
        ]
