-- ===== src/Binary/RoundTrip.antt =====
-- src/binary.rs: the bytes that the encoders write, and the decoders on them.
use virt_warehouse_pro.Common.{
  ◌*◌, ◌^◌, ◌≤◌, ◌<◌, ◌≡◌, refl, sym, ap, ◌∙◌, arith, List, [], ◌∷◌, ◌++◌, append_assoc, append-nil,
  ok, ◌>>=◌, lt→ltb, length, length-append, All, true, drop-append_length,
}
use virt_warehouse_pro.Bytes.Words.{Bytes, IsU64, to_le_bytes, length-to_le_bytes}
use virt_warehouse_pro.Model.{Operation}
use virt_warehouse_pro.Binary.Reader.{Parse}
use virt_warehouse_pro.Binary.Reads.{
  Reads, Reads-bind, Reads-bind_last, Reads-pure, Reads-number, Reads-string, Reads-count,
  Reads-repeat, Reads-whole, string_bytes, IsString, all_bytes,
}
use virt_warehouse_pro.Binary.Format.{
  put_string, put_u32, put_operation, put_operations, encode_operation, encode_batch, operation,
  batch, decode_after, decode_operation, decode_batch, starts_with, op_magic, batch_magic,
}

-- What the types of the fields give, and the length that a string may have.
abbrev pub IsOperation : Operation → Type 0
IsOperation op =
    IsString op.operation_id
    × IsString op.owner_id
    × IsString op.sku
    × IsU64 op.delta
    × IsU64 op.event_version

unfoldable pub operation_bytes : Operation → Bytes
operation_bytes op =
    string_bytes op.operation_id
    ++ (string_bytes op.owner_id
        ++ (string_bytes op.sku ++ (to_le_bytes 8 op.delta ++ to_le_bytes 8 op.event_version)))

pub put_string_lem :
    (out s : Bytes) → length s < 2 ^ 16 → put_string out s ≡ ok (out ++ string_bytes s)
unfolding put_string
put_string_lem out s h = rw lt→ltb (ap ok (append_assoc out (to_le_bytes 2 (length s)) s))

pub put_operation_lem :
    (out : Bytes) (op : Operation)
    → IsOperation op
    → put_operation out op ≡ ok (out ++ operation_bytes op)
unfolding put_operation operation_bytes
put_operation_lem out op h =
    rw (put_string_lem _ _ h.0.0, put_string_lem _ _ h.1.0, put_string_lem _ _ h.2.0)
      (simp append_assoc)

pub put_operations_lem :
    (out : Bytes) (ops : List Operation)
    → All IsOperation ops
    → put_operations out ops ≡ ok (out ++ all_bytes operation_bytes ops)
unfolding put_operations
put_operations_lem out [] h = ap ok (sym (append-nil out))
put_operations_lem out (op ∷ ops) h =
    rw (put_operation_lem out op h.0)
      (put_operations_lem (out ++ operation_bytes op) ops h.1 ∙ ap ok (append_assoc out _ _))

pub Reads-operation : (op : Operation) → IsOperation op → Reads operation op (operation_bytes op)
unfolding operation operation_bytes
Reads-operation op h = Reads-bind _ _ _ op _ _ (Reads-string _ h.0) (
    Reads-bind _ _ _ op _ _ (Reads-string _ h.1) (
      Reads-bind _ _ _ op _ _ (Reads-string _ h.2) (
        Reads-bind _ _ _ op _ _ (Reads-number 8 _ h.3)
          (Reads-bind_last _ _ _ op _ (Reads-number 8 _ h.4) (Reads-pure op)))))

pub Reads-batch :
    (ops : List Operation)
    → length ops ≤ 100_000
    → All IsOperation ops
    → Reads batch ops (to_le_bytes 4 (length ops) ++ all_bytes operation_bytes ops)
unfolding batch
Reads-batch ops n h =
    Reads-bind _ _ (length ops) ops _ _ (Reads-count _ n)
      (Reads-repeat operation operation_bytes IsOperation Reads-operation ops h)

pub length-operation_bytes :
    (op : Operation) → IsOperation op → length (operation_bytes op) ≤ 196_627
unfolding operation_bytes
length-operation_bytes op h = simp (length-append, length-to_le_bytes) (omega arith)

pub length-all_bytes :
    (ops : List Operation)
    → All IsOperation ops
    → length (all_bytes operation_bytes ops) ≤ 196_627 * length ops
length-all_bytes [] h = omega arith
length-all_bytes (op ∷ ops) h =
    rw length-append (omega (arith, length-operation_bytes op h.0, length-all_bytes ops h.1))

starts_with_self : (m d : Bytes) → starts_with m (m ++ d) ≡ true
unfolding starts_with
starts_with_self [] d = refl
starts_with_self (b ∷ m) d = ground (arith, starts_with_self m d)

-- A decoder behind four bytes of magic returns what its parser reads from the rest.
pub decode_after_lem :
    {A : Type 0} (magic : Bytes) (p : Parse A) (a : A) (bs : Bytes)
    → length magic ≡ 4
    → Reads p a bs
    → length bs < 2 ^ 64
    → decode_after magic p (magic ++ bs) ≡ ok a
unfolding decode_after
decode_after_lem magic p a bs four reads small = rw (
  starts_with_self magic bs,
  sym four,
  drop-append_length magic bs,
  Reads-whole p a bs reads small,
)

-- Every operation whose strings fit 16 bits of length and whose numbers fit 64 bits is encoded, and
-- decoding the bytes gives it back.
pub decode-encode_operation :
    (op : Operation) → IsOperation op → (encode_operation op >>= decode_operation) ≡ ok op
unfolding encode_operation decode_operation
decode-encode_operation op h = rw (put_operation_lem op_magic op h) (
    decode_after_lem op_magic operation op _ refl (Reads-operation op h)
      (omega (arith, length-operation_bytes op h)))

batch_small :
    (ops : List Operation)
    → length ops ≤ 100_000
    → All IsOperation ops
    → length (to_le_bytes 4 (length ops) ++ all_bytes operation_bytes ops) < 2 ^ 63
batch_small ops n h = rw (length-append, length-to_le_bytes) (omega (arith, length-all_bytes ops h))

-- A batch of at most 100,000 operations, whose strings fit 16 bits of length and whose numbers fit
-- 64 bits, is encoded, and decoding the bytes gives back the same operations in the same order.
pub decode-encode_batch :
    (ops : List Operation)
    → length ops ≤ 100_000
    → All IsOperation ops
    → (encode_batch ops >>= decode_batch) ≡ ok ops
unfolding encode_batch decode_batch put_u32
decode-encode_batch ops n h =
    rw (lt→ltb (length ops) (2 ^ 32) (omega arith), put_operations_lem _ ops h, append_assoc)
      (decode_after_lem batch_magic batch ops _ refl (Reads-batch ops n h)
        (omega (arith, batch_small ops n h)))
