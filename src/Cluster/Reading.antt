-- ===== src/Cluster/Reading.antt =====
-- src/cluster.rs: what `read` lets through.
use virt_warehouse_pro.Common.{
  ℕ, ◌≤◌, ◌≡◌, refl, sym, ◌∙◌, subst, ◌⊎◌, List, [], ◌∷◌, Result, Error, ok, err, ◌>>=◌, >>=-eq-ok,
  Result-cases, inl, inr, All, length,
}
use virt_warehouse_pro.Bytes.Words.{Bytes, IsU64}
use virt_warehouse_pro.Model.{Operation, Checked, Invalid, valid, invalid, validate}
use virt_warehouse_pro.Binary.Format.{BinaryLogRecord, encode_log_operations, decode_log}
use virt_warehouse_pro.Binary.RoundTrip.{IsOperation}
use virt_warehouse_pro.Binary.Log.{decode-encode_log_operations}
use virt_warehouse_pro.Cluster.{
  LogRecord, fence, operations, poison_epoch, JsonLog, log_record_of, validate_all, check_record,
  parse_record, read,
}

ok-injective : {A : Type 0} {a b : A} → Path (Result A) (ok a) (ok b) → a ≡ b
ok-injective e = cc

-- `Operation::validate` accepts it.
abbrev pub IsValid : Operation → Type 0
IsValid op = validate op ≡ valid

-- The operations of a record are valid.
abbrev pub IsChecked : LogRecord → Type 0
IsChecked (fence epoch owner) = Unit {0}
IsChecked (operations epoch ops) = All IsValid ops

Checked-cases : (c : Checked) → (c ≡ valid) ⊎ ((why : Invalid) × (c ≡ invalid why))
Checked-cases valid = inl refl
Checked-cases (invalid why) = inr (why, refl)

validate_all-IsValid : (ops : List Operation) → validate_all ops ≡ ok tt → All IsValid ops
unfolding validate_all
validate_all-IsValid [] e = tt
validate_all-IsValid (op ∷ ops) e = elim (Checked-cases (validate op)) [
  | inl v ↦ (v, validate_all-IsValid ops (sym (rw (validate_all, v) refl) ∙ e))
  | inr (why, bad) ↦
      let refused : validate_all (op ∷ ops) ≡ err Error.legacy = rw (validate_all, bad) refl in cc
]

IsValid-validate_all : (ops : List Operation) → All IsValid ops → validate_all ops ≡ ok tt
unfolding validate_all
IsValid-validate_all [] h = refl
IsValid-validate_all (op ∷ ops) h = rw (validate_all, h.0) (IsValid-validate_all ops h.1)

check_record-IsChecked : (r q : LogRecord) → check_record r ≡ ok q → IsChecked q
unfolding check_record
check_record-IsChecked (fence epoch owner) q e =
    let same : fence epoch owner ≡ q = cc in subst IsChecked same tt
check_record-IsChecked (operations epoch ops) q e =
    let (u, passed, done) = >>=-eq-ok (validate_all ops) (λ u. ok (operations epoch ops)) e in
    let same : operations epoch ops ≡ q = cc in
    subst IsChecked same (validate_all-IsValid ops passed)

module _ (json : JsonLog) where
  -- Whatever a message holds: if `read` returns a record, its operations are valid.
  pub read-IsChecked :
      (message : Result Bytes) (dlq : Result (Unit {0})) (r : LogRecord)
      → read json message dlq ≡ ok r
      → IsChecked r
  unfolding read
  read-IsChecked (err x) dlq r e = cc
  read-IsChecked (ok payload) dlq r e =
      elim (Result-cases (parse_record json payload >>= check_record)) [
        | inl (q, parsed) ↦
            let (raw, p, checked) = >>=-eq-ok (parse_record json payload) check_record parsed in
            let same : q ≡ r = ok-injective (sym (rw (read, parsed) refl) ∙ e) in
            subst IsChecked same (check_record-IsChecked raw q checked)
        | inr (x, failed) ↦ poison dlq (sym (rw (read, failed) refl) ∙ e)
      ]
    where
      poison :
          (dlq : Result (Unit {0}))
          → elim dlq as (λ y. Result LogRecord) [
            | ok u ↦ ok (operations poison_epoch [])
            | err e ↦ err e
          ]
            ≡ ok r
          → IsChecked r
      poison (ok u) e = subst IsChecked (ok-injective e) tt
      poison (err x) e = cc

  parse_decoded :
      (bytes : Bytes) (r : BinaryLogRecord)
      → decode_log bytes ≡ ok r
      → parse_record json bytes ≡ ok (log_record_of r)
  unfolding parse_record
  parse_decoded bytes r got = rw (parse_record, got) refl

  check_valid :
      (epoch : ℕ) (ops : List Operation)
      → All IsValid ops
      → check_record (operations epoch ops) ≡ ok (operations epoch ops)
  unfolding check_record
  check_valid epoch ops v = rw (check_record, IsValid-validate_all ops v) refl

  read_decoded :
      (epoch : ℕ) (ops : List Operation) (bytes : Bytes) (dlq : Result (Unit {0}))
      → decode_log bytes ≡ ok (BinaryLogRecord.operations epoch ops)
      → All IsValid ops
      → read json (ok bytes) dlq ≡ ok (operations epoch ops)
  unfolding read
  read_decoded epoch ops bytes dlq got v =
      rw
        (
          read,
          parse_decoded bytes (BinaryLogRecord.operations epoch ops) got,
          check_valid epoch ops v,
        )
        refl

  -- A message that `append` sent, of at most 100,000 operations that can be encoded and are valid,
  -- and an epoch of 64 bits, is read as it was sent.
  pub read-append :
      (epoch : ℕ) (ops : List Operation) (dlq : Result (Unit {0}))
      → IsU64 epoch
      → length ops ≤ 100_000
      → All IsOperation ops
      → All IsValid ops
      → read json (encode_log_operations epoch ops) dlq ≡ ok (operations epoch ops)
  read-append epoch ops dlq u n h v =
      let (bytes, sent, got) =
        >>=-eq-ok (encode_log_operations epoch ops) decode_log
          (decode-encode_log_operations epoch ops u n h) in
      rw sent (read_decoded epoch ops bytes dlq got v)
