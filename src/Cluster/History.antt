-- ===== src/Cluster/History.antt =====
-- src/main.rs: the records that `run_history_tail` materializes.
use virt_warehouse_pro.Common.{
  ℕ, ◌<◌, ◌≤◌, ◌≡◌, refl, sym, ap, ◌∙◌, arith, List, [], ◌∷◌, ◌++◌, append_assoc, append-nil, ltb,
  ◌==◌, ==_iff, false, if◌then◌else◌, Bool-cases, inl, inr, Result, Result-cases, ok, err, length,
  length-append,
}
use virt_warehouse_pro.Model.{Operation}
use virt_warehouse_pro.Cluster.{fence, operations}
use virt_warehouse_pro.Cluster.Replay.{HistoryRecord, history_of, history_tail}
use virt_warehouse_pro.Cluster.Follow.{Read, entries, accepted, IsAscending}

-- The record of the history for each record of the log.
unfoldable pub history : ℕ → List Read → List HistoryRecord
history epoch [] = []
history epoch ((n, r) ∷ rs) =
    (n, (history_of epoch r).0, (history_of epoch r).1) ∷ history (history_of epoch r).0 rs

abbrev pub operations_of : List HistoryRecord → List Operation
operations_of [] = []
operations_of ((n, e, ops) ∷ hs) = ops ++ operations_of hs

abbrev pub concat : List (List Operation) → List Operation
concat [] = []
concat (ops ∷ chunks) = ops ++ concat chunks

operations_of-history :
    (epoch : ℕ) (rs : List Read) → operations_of (history epoch rs) ≡ concat (accepted epoch rs)
unfolding history accepted history_of
operations_of-history epoch [] = refl
operations_of-history epoch ((n, fence e owner) ∷ rs) =
    operations_of-history (if ltb epoch e then e else epoch) rs
operations_of-history epoch ((n, operations e []) ∷ rs) = elim (Bool-cases (e == epoch)) [
  | inl same ↦ rw same (operations_of-history epoch rs)
  | inr other ↦ rw other (operations_of-history epoch rs)
]
operations_of-history epoch ((n, operations e (op ∷ ops)) ∷ rs) = elim (Bool-cases (e == epoch)) [
  | inl same ↦ rw same (ap (λ more. op ∷ ops ++ more) (operations_of-history epoch rs))
  | inr other ↦ rw other (operations_of-history epoch rs)
]

-- The last record, the first being `x`, has this sequence number.
unfoldable pub EndsAt : ℕ → Read → List Read → Type 0
EndsAt last x [] = x.0 ≡ last
EndsAt last x (y ∷ rs) = EndsAt last y rs

-- Batches of 16 records, but for the last, which has 1 to 16.
abbrev pub AreBatches : List (List HistoryRecord) → Type 0
AreBatches [] = Unit
AreBatches (b ∷ []) = (0 < length b) × (length b ≤ 16)
AreBatches (b ∷ c ∷ bs) = (length b ≡ 16) × AreBatches (c ∷ bs)

abbrev pub joined : List (List HistoryRecord) → List HistoryRecord
joined [] = []
joined (b ∷ bs) = b ++ joined bs

-- The sequence of the last record of a batch.
abbrev pub last_sequence : ℕ → List HistoryRecord → ℕ
last_sequence n [] = n
last_sequence n ((m, e, ops) ∷ b) = last_sequence m b

last_sequence-append :
    (m n e : ℕ) (ops : List Operation) (b : List HistoryRecord)
    → last_sequence m (b ++ (n, e, ops) ∷ []) ≡ n
last_sequence-append m n e ops [] = refl
last_sequence-append m n e ops ((k, x, y) ∷ b) = last_sequence-append k n e ops b

AreBatches-cons :
    (b : List HistoryRecord) (bs : List (List HistoryRecord))
    → length b ≡ 16
    → AreBatches bs
    → AreBatches (b ∷ bs)
AreBatches-cons b [] e h = (omega (arith, e), omega (arith, e))
AreBatches-cons b (c ∷ bs) e h = (e, h)

EndsAt-le :
    (last : ℕ) (x : Read) (rs : List Read) → EndsAt last x rs → IsAscending x.0 rs → x.0 ≤ last
unfolding EndsAt IsAscending
EndsAt-le last x [] e a = omega (arith, e)
EndsAt-le last x (y ∷ rs) e a = omega (arith, a.0, EndsAt-le last y rs e a.1)

module _ {ℓ} {H : Type ℓ} (materialize : H → List HistoryRecord → Result H) where
  -- The batches are written one after the other, up to the first one that fails; the last sequence of each
  -- batch that is written is published.
  unfoldable pub write_all : H → ℕ → List (List HistoryRecord) → H × ℕ
  write_all h published [] = (h, published)
  write_all h published (b ∷ bs) = elim (materialize h b) [
    | err e ↦ (h, published)
    | ok h' ↦ write_all h' (last_sequence 0 b) bs
  ]

  write_all-ok :
      (h h' : H) (n published : ℕ) (b : List HistoryRecord) (bs : List (List HistoryRecord))
      → materialize h b ≡ ok h'
      → last_sequence 0 b ≡ n
      → write_all h published (b ∷ bs) ≡ write_all h' n bs
  unfolding write_all
  write_all-ok h h' n published b bs done same = rw (write_all, done, same) refl

  -- The batches that the tail makes, and that it writes them.
  abbrev Batched : ℕ → H → ℕ → ℕ → List HistoryRecord → List Read → Type ℓ
  Batched last h published epoch batch rs =
      (bs : List (List HistoryRecord)) × (joined bs ≡ batch ++ history epoch rs)
      × AreBatches bs
      × (history_tail materialize last h published epoch batch (entries rs)
          ≡ write_all h published bs)

  history_tail_lem :
      (last : ℕ) (h : H) (published epoch : ℕ) (batch : List HistoryRecord) (x : Read)
      (rs : List Read)
      → length batch < 16
      → EndsAt last x rs
      → IsAscending x.0 rs
      → Batched last h published epoch batch (x ∷ rs)
  unfolding history_tail history EndsAt IsAscending write_all
  history_tail_lem last h published epoch batch (n, r) [] room e a =
      let end : List HistoryRecord = (n, (history_of epoch r).0, (history_of epoch r).1) ∷ [] in
      let b = batch ++ end in
      let size = length-append batch end in
      let same = last_sequence-append 0 n (history_of epoch r).0 (history_of epoch r).1 batch in
      (
        b ∷ [],
        append-nil b,
        (omega (arith, size), omega (arith, size, room)),
        elim (Bool-cases (length b == 16)) [
          | inl full ↦ elim (Result-cases (materialize h b)) [
            | inl (h', done) ↦ rw (history_tail, full, done, write_all, same) refl
            | inr (why, failed) ↦ rw (history_tail, full, failed, write_all) refl
          ]
          | inr less ↦ elim (Result-cases (materialize h b)) [
            | inl (h', done) ↦
                rw (history_tail, less, (==_iff n last).1 e, done, write_all, same) refl
            | inr (why, failed) ↦
                rw (history_tail, less, (==_iff n last).1 e, failed, write_all) refl
          ]
        ],
      )
  history_tail_lem last h published epoch batch (n, r) (y ∷ rs) room e a =
      let end : List HistoryRecord = (n, (history_of epoch r).0, (history_of epoch r).1) ∷ [] in
      let b = batch ++ end in
      let size = length-append batch end in
      let same = last_sequence-append 0 n (history_of epoch r).0 (history_of epoch r).1 batch in
      let early : (n == last) ≡ false = ground (arith, EndsAt-le last y rs e a.1, a.0) in
      elim (Bool-cases (length b == 16)) [
        | inl full ↦ elim (Result-cases (materialize h b)) [
          | inl (h', done) ↦
              let tail_full : history_tail materialize last h published epoch batch
                    (entries ((n, r) ∷ y ∷ rs))
                  ≡ history_tail materialize last h' n (history_of epoch r).0 []
                      (entries (y ∷ rs)) =
                rw (history_tail, full, done) refl in
              let (bs, all, sizes, run) =
                history_tail_lem last h' n (history_of epoch r).0 [] y rs (omega arith) e a.1 in
              (
                b ∷ bs,
                ap (λ c. b ++ c) all
                    ∙ append_assoc batch end (history (history_of epoch r).0 (y ∷ rs)),
                AreBatches-cons b bs (ground (arith, full)) sizes,
                tail_full ∙ run ∙ sym (write_all-ok h h' n published b bs done same),
              )
          | inr (why, failed) ↦
              let (bs, all, sizes, run) =
                history_tail_lem last h n (history_of epoch r).0 [] y rs (omega arith) e a.1 in
              (
                b ∷ bs,
                ap (λ c. b ++ c) all
                    ∙ append_assoc batch end (history (history_of epoch r).0 (y ∷ rs)),
                AreBatches-cons b bs (ground (arith, full)) sizes,
                rw (history_tail, full, failed, write_all) refl,
              )
        ]
        | inr less ↦
            let (bs, all, sizes, run) =
              history_tail_lem last h published (history_of epoch r).0 b y rs
                (ground (arith, less, size, room)) e a.1 in
            (
              bs,
              all ∙ append_assoc batch end (history (history_of epoch r).0 (y ∷ rs)),
              sizes,
              rw (history_tail, less, early) run,
            )
      ]

  -- When the sequence numbers of the records up to the end of the log go up, the tail makes one record of
  -- history for each of them, and writes these in batches of 16, the last one of 1 to 16, one after the
  -- other up to the first batch that fails; after each batch that is written it publishes the sequence of
  -- its last record. The operations of the records are those that `catch_up` restores from the same
  -- position, in the same order.
  pub history_tail-accepted :
      (last : ℕ) (h : H) (published epoch : ℕ) (x : Read) (rs : List Read)
      → EndsAt last x rs
      → IsAscending x.0 rs
      → (bs : List (List HistoryRecord)) × (joined bs ≡ history epoch (x ∷ rs))
        × AreBatches bs
        × (history_tail materialize last h published epoch [] (entries (x ∷ rs))
            ≡ write_all h published bs)
        × (operations_of (joined bs) ≡ concat (accepted epoch (x ∷ rs)))
  history_tail-accepted last h published epoch x rs e a =
      let (bs, all, sizes, run) =
        history_tail_lem last h published epoch [] x rs (omega arith) e a in
      (bs, all, sizes, run, ap operations_of all ∙ operations_of-history epoch (x ∷ rs))
