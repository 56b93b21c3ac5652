-- ===== src/Cluster/Follow.antt =====
-- src/main.rs: the records of the shared log that `catch_up` restores.
use virt_warehouse_pro.Common.{
  ℕ, ◌+◌, ◌≤◌, ◌<◌, ◌≡◌, refl, ap, ap₂, subst, arith, List, [], ◌∷◌, ◌++◌, none, some, ltb, leb,
  ◌==◌, if◌then◌else◌, Bool-cases, Option-cases, inl, inr, Result, Result-cases, Error, ok, err,
}
use virt_warehouse_pro.Model.{Operation}
use virt_warehouse_pro.Checkpoint.{CheckpointValue, Checkpoint, advance, file_of}
use virt_warehouse_pro.Cluster.{LogRecord, fence, operations}
use virt_warehouse_pro.Cluster.Replay.{
  Entry, Services, Progress, handle, note, settle, replay, catch_up,
}

-- A record that was read, with its sequence number.
abbrev pub Read : Type 0
Read = ℕ × LogRecord

abbrev pub entries : List Read → List Entry
entries [] = []
entries ((n, r) ∷ rs) = (n, ok r) ∷ entries rs

-- The highest epoch of a fence so far.
abbrev pub epoch_after : ℕ → LogRecord → ℕ
epoch_after epoch (fence next owner) = if ltb epoch next then next else epoch
epoch_after epoch (operations e ops) = epoch

-- The chunk of a record of the active epoch.
abbrev pub kept : ℕ → LogRecord → List (List Operation)
kept epoch (fence next owner) = []
kept epoch (operations e []) = []
kept epoch (operations e (op ∷ ops)) = if e == epoch then (op ∷ ops) ∷ [] else []

-- The chunks of the records whose epoch is the highest of a fence before them.
unfoldable pub accepted : ℕ → List Read → List (List Operation)
accepted epoch [] = []
accepted epoch ((n, r) ∷ rs) = kept epoch r ++ accepted (epoch_after epoch r) rs

-- The position of the last record.
unfoldable pub position : CheckpointValue → ℕ → List Read → CheckpointValue
position v epoch [] = v
position v epoch ((n, r) ∷ rs) =
    position (record { sequence = n; writer_epoch = epoch_after epoch r }) (epoch_after epoch r) rs

-- The sequence numbers go up from `low`.
unfoldable pub IsAscending : ℕ → List Read → Type 0
IsAscending low [] = Unit {0}
IsAscending low ((n, r) ∷ rs) = (low < n) × IsAscending n rs

module _ {ℓ} {S : Type ℓ} (s : Services S) where
  -- The log and the file system do what they are asked.
  pub record Works : Type ℓ where
    pub quarantines : (n : ℕ) → s.quarantine_record n ≡ ok tt
    pub writes : (n : ℕ) → s.write n ≡ ok tt

  -- The chunks are restored one after the other, up to the first one that is refused.
  unfoldable pub restore_all : S → List (List Operation) → Result (Unit {0}) × S
  restore_all store [] = (ok tt, store)
  restore_all store (ops ∷ chunks) =
      let (r, store') = s.restore_chunk store ops in
      elim r [ err e ↦ (err e, store') | ok u ↦ restore_all store' chunks ]

  -- One result behind another.
  abbrev and_all : Result (Unit {0}) × S → List (List Operation) → Result (Unit {0}) × S
  and_all (err e, store) chunks = (err e, store)
  and_all (ok u, store) chunks = restore_all store chunks

  restore_all-append :
      (store : S) (xs ys : List (List Operation))
      → restore_all store (xs ++ ys) ≡ and_all (restore_all store xs) ys
  unfolding restore_all
  restore_all-append store [] ys = refl
  restore_all-append store (x ∷ xs) ys = elim (Result-cases (s.restore_chunk store x).0) [
    | inl (u, e) ↦ rw (e, restore_all) (restore_all-append (s.restore_chunk store x).1 xs ys)
    | inr (why, e) ↦ rw (e, restore_all) refl
  ]

  handle_lem :
      (n : ℕ) (r : LogRecord) (p : Progress S)
      → Works
      → handle s n r p ≡ (
        (restore_all p.store (kept p.writer_epoch r)).0,
        record p {
          store = (restore_all p.store (kept p.writer_epoch r)).1;
          writer_epoch = epoch_after p.writer_epoch r;
        },
      )
  unfolding handle restore_all
  handle_lem n (fence epoch owner) p w = elim (Bool-cases (ltb p.writer_epoch epoch)) [
    | inl e ↦ rw e refl
    | inr e ↦ rw e refl
  ]
  handle_lem n (operations epoch []) p w = ground (arith, w.quarantines n)
  handle_lem n (operations epoch (op ∷ ops)) p w = elim (Bool-cases (epoch == p.writer_epoch)) [
    | inl e ↦ elim (Result-cases (s.restore_chunk p.store (op ∷ ops)).0) [
      | inl (u, f) ↦ rw (e, f) refl
      | inr (why, f) ↦ rw (e, f) refl
    ]
    | inr e ↦ rw (e, w.quarantines n) (ground arith)
  ]

  -- Where the follower stands, written or not.
  abbrev place : Progress S → CheckpointValue
  place p = elim p.pending_checkpoint [
    | none ↦ p.checkpoint.value
    | some (n, e) ↦ record { sequence = n; writer_epoch = e }
  ]

  -- Nothing is pending that is not above the checkpoint.
  record IsOrdered (p : Progress S) : Type 0 where
    ordered : (n e : ℕ) → p.pending_checkpoint ≡ some (n, e) → p.checkpoint.value.sequence < n
    below : p.checkpoint.value.sequence ≤ (place p).sequence

  -- A follower that has noted the record `n`.
  record Noted (n : ℕ) (p : Progress S) : Type ℓ where
    after : Progress S
    done : note s n p ≡ (ok tt, after)
    ordered : IsOrdered after
    placed : place after ≡ record { sequence = n; writer_epoch = p.writer_epoch }
    same_store : after.store ≡ p.store
    same_epoch : after.writer_epoch ≡ p.writer_epoch

  abbrev written : ℕ → ℕ → Checkpoint
  written n e =
      let v : CheckpointValue = record { sequence = n; writer_epoch = e } in
      record { value = v; file = some (ok (file_of v)) }

  advance_lem :
      (c : Checkpoint) (n e : ℕ)
      → c.value.sequence < n
      → advance (ok tt) c n e ≡ (ok tt, written n e)
  unfolding advance
  advance_lem c n e h = ground arith

  note_lem : (n : ℕ) (p : Progress S) → Works → p.checkpoint.value.sequence < n → Noted n p
  unfolding note
  note_lem n p w h = elim (Bool-cases (leb 64 (p.since_checkpoint + 1))) [
    | inl e ↦ record {
      after = record p {
        checkpoint = written n p.writer_epoch;
        since_checkpoint = 0;
        pending_checkpoint = none;
      };
      done = rw (e, w.writes n, advance_lem p.checkpoint n p.writer_epoch h) refl;
      ordered = record { ordered = λ m e' bad. ground arith; below = omega arith };
      placed = refl;
      same_store = refl;
      same_epoch = refl;
    }
    | inr e ↦ record {
      after = record p {
        pending_checkpoint = some (n, p.writer_epoch);
        since_checkpoint = p.since_checkpoint + 1;
      };
      done = rw e refl;
      ordered = record { ordered = λ m e' same. ground (arith, h); below = omega (arith, h) };
      placed = refl;
      same_store = refl;
      same_epoch = refl;
    }
  ]

  settle_lem :
      (p : Progress S)
      → Works
      → IsOrdered p
      → ((settle s p).0 ≡ ok tt)
        × ((settle s p).1.store ≡ p.store)
        × ((settle s p).1.checkpoint.value ≡ place p)
  unfolding settle
  settle_lem p w o = elim (Option-cases p.pending_checkpoint) [
    | inl e ↦ rw e (refl, refl, refl)
    | inr ((n, x), e) ↦
        rw (e, w.writes n, advance_lem p.checkpoint n x (o.ordered n x e)) (refl, refl, refl)
  ]

  replay_step :
      (n : ℕ) (r : LogRecord) (es : List Entry) (p q t : Progress S)
      → handle s n r p ≡ (ok tt, q)
      → note s n q ≡ (ok tt, t)
      → replay s ((n, ok r) ∷ es) p ≡ replay s es t
  unfolding replay
  replay_step n r es p q t e d = rw (e, replay, e, d, e, d) refl

  replay_stop :
      (n : ℕ) (r : LogRecord) (es : List Entry) (p q : Progress S) (why : Error)
      → handle s n r p ≡ (err why, q)
      → replay s ((n, ok r) ∷ es) p ≡ (err why, q)
  unfolding replay
  replay_stop n r es p q why e = rw (e, replay, e) refl

  -- What a follower comes to, by what its chunks come to: it ends with their result and with their store,
  -- and if all are restored, with the checkpoint at `v`.
  abbrev pub Follows :
      Result (Unit {0}) × Progress S → Result (Unit {0}) × S → CheckpointValue → Type ℓ
  Follows x (ok u, store) v = (x.0 ≡ ok tt) × (x.1.store ≡ store) × (x.1.checkpoint.value ≡ v)
  Follows x (err why, store) v = (x.0 ≡ err why) × (x.1.store ≡ store)

  -- One record of a run, from the run of the others.
  follow_step :
      (n : ℕ) (r : LogRecord) (rs : List Read) (p : Progress S) (x : Result (Unit {0}) × S)
      → Works
      → p.checkpoint.value.sequence < n
      → IsAscending n rs
      → handle s n r p
        ≡ (x.0, record p { store = x.1; writer_epoch = epoch_after p.writer_epoch r })
      → ((q : Progress S)
          → IsOrdered q
          → IsAscending (place q).sequence rs
          → Follows
              (replay s (entries rs) q)
              (restore_all q.store (accepted q.writer_epoch rs))
              (position (place q) q.writer_epoch rs))
      → Follows
          (replay s ((n, ok r) ∷ entries rs) p)
          (and_all x (accepted (epoch_after p.writer_epoch r) rs))
          (position
            (record { sequence = n; writer_epoch = epoch_after p.writer_epoch r })
            (epoch_after p.writer_epoch r)
            rs)
  unfolding replay
  follow_step n r rs p (err why, store) w low a e rest =
      rw (replay_stop n r (entries rs) p _ why e) (refl, refl)
  follow_step n r rs p (ok u, store) w low a e rest =
      let q : Progress S = record p {
        store = store;
        writer_epoch = epoch_after p.writer_epoch r;
      } in
      let noted = note_lem n q w low in
      let after = noted.after in
      let run =
        rest after noted.ordered (rw (ap (λ (v : CheckpointValue). v.sequence) noted.placed) a) in
      let all = ap₂ (λ st ep. restore_all st (accepted ep rs)) noted.same_store noted.same_epoch in
      let last = ap₂ (λ v ep. position v ep rs) noted.placed noted.same_epoch in
      rw (replay_step n r (entries rs) p q after e noted.done) (
        subst
          (λ (v : CheckpointValue).
            Follows (replay s (entries rs) after)
              (restore_all store (accepted (epoch_after p.writer_epoch r) rs)) v)
          last
          (subst
            (λ (y : Result (Unit {0}) × S).
              Follows (replay s (entries rs) after) y
                (position (place after) after.writer_epoch rs))
            all run))

  replay_lem :
      (rs : List Read) (p : Progress S)
      → Works
      → IsOrdered p
      → IsAscending (place p).sequence rs
      → Follows
          (replay s (entries rs) p)
          (restore_all p.store (accepted p.writer_epoch rs))
          (position (place p) p.writer_epoch rs)
  unfolding replay IsAscending accepted position restore_all
  replay_lem [] p w o a = settle_lem p w o
  replay_lem ((n, r) ∷ rs) p w o a =
      rw
        (restore_all-append p.store (kept p.writer_epoch r)
          (accepted (epoch_after p.writer_epoch r) rs))
        (follow_step n r rs p (restore_all p.store (kept p.writer_epoch r)) w
          (omega (arith, o.below, a.0)) a.1 (handle_lem n r p w)
          (λ q o' a'. replay_lem rs q w o' a'))

  -- When the log and the file system do what they are asked and the sequence numbers of the records go up
  -- from the checkpoint, `catch_up` restores exactly the chunks whose epoch is the highest of the fences
  -- before them, one after the other up to the first one that the store refuses, and leaves the store that
  -- this gives. It ends with the error of that chunk; if no chunk is refused, it succeeds and leaves the
  -- checkpoint at the last record.
  pub catch_up-accepted :
      (store : S) (c : Checkpoint) (rs : List Read)
      → Works
      → IsAscending c.value.sequence rs
      → Follows
          (catch_up s store c (entries rs))
          (restore_all store (accepted c.value.writer_epoch rs))
          (position c.value c.value.writer_epoch rs)
  unfolding catch_up
  catch_up-accepted store c rs w a =
      replay_lem rs _ w (record { ordered = λ n e bad. ground arith; below = omega arith }) a
