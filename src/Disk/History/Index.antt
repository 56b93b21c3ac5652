-- ===== src/Disk/History/Index.antt =====
-- src/dedup_disk.rs: the history that is written is the history that is read.
use virt_warehouse_pro.Common.{
  ℕ, ◌<◌, ◌^◌, ◌≡◌, refl, sym, ap, ◌∙◌, arith, List, [], ◌∷◌, Option, none, some, Bool, true, false,
  if◌then◌else◌, Result, ok, err, ◌>>=◌, >>=-eq-ok, subst,
}
use virt_warehouse_pro.Common.Eq.{◌==◌, list_eq, nat_eq}
use virt_warehouse_pro.Bytes.Words.{
  Bytes, to_le_bytes, from_le_bytes, length-to_le_bytes, from_le_bytes-to_le_bytes,
}
use virt_warehouse_pro.Model.{Operation}
use virt_warehouse_pro.Binary.Format.{encode_operation, decode_operation}
use virt_warehouse_pro.Binary.RoundTrip.{IsOperation, decode-encode_operation}
use virt_warehouse_pro.Store.Types.{Hashes}
use virt_warehouse_pro.Disk.Tree.{Tree, get, insert, get-insert}
use virt_warehouse_pro.Cluster.Replay.{HistoryRecord}
use virt_warehouse_pro.Disk.History.{
  index_key, lsm_history, lsm_by_owner, lsm_by_sku, lsm_history_meta, History, HistoryReads,
  history_sequence, history_epoch, put, point, lsm_u64, history_progress, put_operations,
  write_records, last_record, materialize_history_batch,
}
use virt_warehouse_pro.Disk.History.Lookup.{get_operation}

-- The last operation with an id, or else `old`.
abbrev pub latest : Bytes → List Operation → Option Operation → Option Operation
latest id [] old = old
latest id (op ∷ ops) old = latest id ops (if op.operation_id == id then some op else old)

abbrev pub latest_of : Bytes → List HistoryRecord → Option Operation → Option Operation
latest_of id [] old = old
latest_of id (r ∷ records) old = latest_of id records (latest id r.2 old)

ok-eq {ℓ} : {A : Type ℓ} (a b : A) → ok a ≡ ok b → a ≡ b
ok-eq {A = A} a b e = ap (λ (r : Result A). elim r [ err why ↦ a | ok x ↦ x ]) e

module _ {K : Type 0} ⦃tree : Tree K⦄ (id : Bytes) where
  -- The operation is in the history, under its id.
  IsWritten : Option Operation → History K → Type 0
  IsWritten none tables = Unit
  IsWritten (some op) tables =
      (payload : Bytes) × (encode_operation op ≡ ok payload)
      × (get id (tables lsm_history) ≡ some payload)

  IsWritten-kept :
      (old : Option Operation) (tables after : History K)
      → get id (after lsm_history) ≡ get id (tables lsm_history)
      → IsWritten old tables
      → IsWritten old after
  unfolding IsWritten
  IsWritten-kept none tables after same h = tt
  IsWritten-kept (some op) tables after same (payload, encoded, found) =
      (payload, encoded, same ∙ found)

  IsWritten-if :
      (test : Bool) (old : Option Operation) (op : Operation) (tables : History K)
      → (test ≡ true → IsWritten (some op) tables)
      → (test ≡ false → IsWritten old tables)
      → IsWritten (if test then some op else old) tables
  IsWritten-if true old op tables p q = p refl
  IsWritten-if false old op tables p q = q refl

  IsWritten-put :
      (old : Option Operation) (op : Operation) (payload : Bytes) (tables : History K)
      → encode_operation op ≡ ok payload
      → IsWritten old tables
      → IsWritten (if op.operation_id == id then some op else old) (
          put lsm_by_sku (index_key op.sku op.operation_id) op.operation_id (
            put lsm_by_owner
              (index_key op.owner_id op.operation_id)
              op.operation_id
              (put lsm_history op.operation_id payload tables)))
  unfolding IsWritten put
  IsWritten-put old op payload tables e h =
      let read = get-insert op.operation_id id payload (tables lsm_history) in
      IsWritten-if (op.operation_id == id) old op _
        (λ t.
          (payload, e, read ∙ ap (λ b. if b then some payload else get id (tables lsm_history)) t))
        (λ t.
          IsWritten-kept old tables _
            (read ∙ ap (λ b. if b then some payload else get id (tables lsm_history)) t) h)

  put_operations-IsWritten :
      (ops : List Operation) (old : Option Operation) (tables after : History K)
      → put_operations ops tables ≡ ok after
      → IsWritten old tables
      → IsWritten (latest id ops old) after
  unfolding put_operations
  put_operations-IsWritten [] old tables after e h = subst (IsWritten old) (ok-eq tables after e) h
  put_operations-IsWritten (op ∷ ops) old tables after e h =
      let (payload, encoded, e) = >>=-eq-ok (encode_operation op) _ e in
      put_operations-IsWritten ops _ _ after e (IsWritten-put old op payload tables encoded h)

  write_records-IsWritten :
      (records : List HistoryRecord) (old : Option Operation) (tables after : History K)
      → write_records records tables ≡ ok after
      → IsWritten old tables
      → IsWritten (latest_of id records old) after
  unfolding write_records
  write_records-IsWritten [] old tables after e h = subst (IsWritten old) (ok-eq tables after e) h
  write_records-IsWritten (r ∷ records) old tables after e h =
      let (mid, first, e) = >>=-eq-ok (put_operations r.2 tables) _ e in
      write_records-IsWritten records (latest id r.2 old) mid after e
        (put_operations-IsWritten r.2 old tables mid first h)

  IsWritten-metadata :
      (old : Option Operation) (tables : History K) (sequence epoch : Bytes)
      → IsWritten old tables
      → IsWritten old (
          put lsm_history_meta history_epoch epoch
            (put lsm_history_meta history_sequence sequence tables))
  unfolding put
  IsWritten-metadata old tables sequence epoch h = IsWritten-kept old tables _ refl h

  materialize-IsWritten :
      (committed : Result (Unit {0})) (r : HistoryRecord) (records : List HistoryRecord)
      (tables after : History K)
      → materialize_history_batch committed tables (r ∷ records) ≡ ok after
      → IsWritten (latest_of id (r ∷ records) none) after
  unfolding materialize_history_batch IsWritten
  materialize-IsWritten committed r records tables after e =
      let (written, first, e) = >>=-eq-ok (write_records (r ∷ records) tables) _ e in
      let (passed, done, e) = >>=-eq-ok committed _ e in
      subst (IsWritten (latest_of id (r ∷ records) none)) (ok-eq _ after e) (
        IsWritten-metadata (latest_of id (r ∷ records) none) written _ _
          (write_records-IsWritten (r ∷ records) none tables written first tt))

  get_operation-IsWritten :
      (h : Hashes) (io : HistoryReads) (op : Operation) (tables : History K)
      → io.read lsm_history id ≡ ok tt
      → IsOperation op
      → IsWritten (some op) tables
      → get_operation h io tables id ≡ ok (some op)
  unfolding get_operation point IsWritten
  get_operation-IsWritten h io op tables answers fits (payload, encoded, found) =
      let decoded : decode_operation payload ≡ ok op =
        sym (ap (λ r. r >>= decode_operation) encoded) ∙ decode-encode_operation op fits in
      rw (answers, found, decoded) refl

-- After a batch of records is written, a read of an id returns the last operation of the records that
-- has this id, if there is one and it is within the limits of the format.
pub get_operation-materialize :
    {K : Type 0} ⦃tree : Tree K⦄ (h : Hashes) (io : HistoryReads) (committed : Result (Unit {0}))
    (tables after : History K) (r : HistoryRecord) (records : List HistoryRecord) (id : Bytes)
    (op : Operation)
    → materialize_history_batch committed tables (r ∷ records) ≡ ok after
    → latest_of id (r ∷ records) none ≡ some op
    → IsOperation op
    → io.read lsm_history id ≡ ok tt
    → get_operation h io after id ≡ ok (some op)
get_operation-materialize h io committed tables after r records id op done last fits answers =
    get_operation-IsWritten id h io op after answers fits (
      subst (λ (o : Option Operation). IsWritten id o after) last
        (materialize-IsWritten id committed r records tables after done))

u64-read : (v : ℕ) → v < 2 ^ 64 → from_le_bytes (to_le_bytes 8 v) ≡ v
u64-read v h = from_le_bytes-to_le_bytes 8 v (omega (arith, h))

lsm_u64-stored :
    {K : Type 0} ⦃tree : Tree K⦄ (io : HistoryReads) (tables : History K) (key : Bytes) (v : ℕ)
    → io.read lsm_history_meta key ≡ ok tt
    → get key (tables lsm_history_meta) ≡ some (to_le_bytes 8 v)
    → v < 2 ^ 64
    → lsm_u64 io tables key ≡ ok v
unfolding lsm_u64 point
lsm_u64-stored io tables key v answers found small =
    rw (answers, found, length-to_le_bytes 8 v, u64-read v small) refl

-- After a batch of records is written, the progress is the sequence and the epoch of the last one.
pub history_progress-materialize :
    {K : Type 0} ⦃tree : Tree K⦄ (io : HistoryReads) (committed : Result (Unit {0}))
    (tables after : History K) (r : HistoryRecord) (records : List HistoryRecord)
    → materialize_history_batch committed tables (r ∷ records) ≡ ok after
    → (last_record r records).0 < 2 ^ 64
    → (last_record r records).1 < 2 ^ 64
    → io.read lsm_history_meta history_sequence ≡ ok tt
    → io.read lsm_history_meta history_epoch ≡ ok tt
    → history_progress io after ≡ ok ((last_record r records).0, (last_record r records).1)
unfolding materialize_history_batch history_progress put
history_progress-materialize ⦃tree = tree⦄ io committed tables after r records done small_sequence
      small_epoch one two =
    let last = last_record r records in
    let (written, first, done) = >>=-eq-ok (write_records (r ∷ records) tables) _ done in
    let (passed, commits, done) = >>=-eq-ok committed _ done in
    let meta = insert history_sequence (to_le_bytes 8 last.0) (written lsm_history_meta) in
    let same : after lsm_history_meta ≡ insert history_epoch (to_le_bytes 8 last.1) meta =
      ap (λ t. t lsm_history_meta) (sym (ok-eq _ after done)) in
    let sequence =
      lsm_u64-stored io after history_sequence last.0 one
        (ap (get history_sequence) same
          ∙ get-insert history_epoch history_sequence (to_le_bytes 8 last.1) meta
          ∙ get-insert history_sequence history_sequence (to_le_bytes 8 last.0)
              (written lsm_history_meta))
        small_sequence in
    let epoch =
      lsm_u64-stored io after history_epoch last.1 two
        (ap (get history_epoch) same
          ∙ get-insert history_epoch history_epoch (to_le_bytes 8 last.1) meta)
        small_epoch in
    rw (sequence, epoch) refl
