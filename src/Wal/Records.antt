-- ===== src/Wal/Records.antt =====
-- src/wal.rs: the bytes of a record, and one round of `recover` in front of a whole record.
use virt_warehouse_pro.Common.{
  ℕ, ◌+◌, ◌*◌, ◌%◌, ◌^◌, ◌≤◌, ◌<◌, ◌≡◌, refl, sym, ap, ◌∙◌, arith, List, [], ◌∷◌, ◌++◌,
  append_assoc, append-nil, Error, ok, length, length-append, length-drop, take, drop, drop-drop,
  take-append_length, drop-append_length, ◌≢◌, All,
}
use virt_warehouse_pro.Bytes.Words.{
  Bytes, to_le_bytes, from_le_bytes, from_le_bytes-to_le_bytes, length-to_le_bytes,
}
use virt_warehouse_pro.Model.{Operation}
use virt_warehouse_pro.Wal.Recover.{Codecs, bad, entry, decode_payload, check_record, read_record}
use virt_warehouse_pro.Wal.Writer.{put_record, put_records}

abbrev pub IsSmall : Bytes → Type 0
IsSmall payload = length payload ≤ 1024 * 1024

short_mod :
    (payload : Bytes) → length payload ≤ 1024 * 1024 → length payload % 2 ^ 32 ≡ length payload
short_mod payload h = omega arith

take_four : (a b : ℕ) → take 4 (to_le_bytes 4 a ++ to_le_bytes 4 b) ≡ to_le_bytes 4 a
unfolding to_le_bytes
take_four a b = refl

drop_four : (a b : ℕ) → take 4 (drop 4 (to_le_bytes 4 a ++ to_le_bytes 4 b)) ≡ to_le_bytes 4 b
unfolding to_le_bytes
drop_four a b = refl

module _ (c : Codecs) where
  -- A record under a checksum, and under its own.
  abbrev pub record_under : ℕ → Bytes → Bytes
  record_under sum payload = to_le_bytes 4 (length payload) ++ (to_le_bytes 4 sum ++ payload)

  abbrev pub record_bytes : Bytes → Bytes
  record_bytes payload = record_under (c.crc32 payload) payload

  abbrev pub log_bytes : List Bytes → Bytes
  log_bytes [] = []
  log_bytes (payload ∷ payloads) = record_bytes payload ++ log_bytes payloads

  pub length-record_bytes : (payload : Bytes) → length (record_bytes payload) ≡ 8 + length payload
  length-record_bytes payload = simp (length-append, length-to_le_bytes) (omega arith)

  pub put_records_lem :
      (buffer : Bytes) (payloads : List Bytes)
      → All IsSmall payloads
      → put_records c buffer payloads ≡ buffer ++ log_bytes payloads
  unfolding put_records put_record
  put_records_lem buffer [] small = sym (append-nil buffer)
  put_records_lem buffer (payload ∷ payloads) small =
      put_records_lem (put_record c buffer payload) payloads small.1
      ∙ rw (short_mod payload small.0) (simp append_assoc)

  module _ (sum : ℕ) (file : Bytes) (cursor : ℕ) (payload rest : Bytes) (fits : sum < 2 ^ 32)
      (inside : cursor ≤ length file)
      (e : drop cursor file ≡ record_under sum payload ++ rest) where
    abbrev pub header : Bytes
    header = take 8 (drop cursor file)

    header_lem : header ≡ to_le_bytes 4 (length payload) ++ to_le_bytes 4 sum
    unfolding to_le_bytes
    header_lem = ap (take 8) e

    size_lem : length payload < 2 ^ 32 → from_le_bytes (take 4 header) ≡ length payload
    size_lem h =
        ap from_le_bytes (ap (take 4) header_lem ∙ take_four (length payload) sum)
        ∙ from_le_bytes-to_le_bytes 4 (length payload) h

    checksum_lem : from_le_bytes (take 4 (drop 4 header)) ≡ sum
    checksum_lem =
        ap from_le_bytes
          (ap (λ (t : Bytes). take 4 (drop 4 t)) header_lem ∙ drop_four (length payload) sum)
        ∙ from_le_bytes-to_le_bytes 4 sum fits

    behind_header : drop (cursor + 8) file ≡ payload ++ rest
    behind_header =
        sym (drop-drop cursor 8 (cursor + 8) file refl)
        ∙ ap (drop 8) e
        ∙ (unfold to_le_bytes in refl)

    payload_lem : take (length payload) (drop (cursor + 8) file) ≡ payload
    payload_lem = ap (take (length payload)) behind_header ∙ take-append_length payload rest

    pub behind_record : drop (cursor + 8 + length payload) file ≡ rest
    behind_record =
        sym (drop-drop (cursor + 8) (length payload) (cursor + 8 + length payload) file refl)
        ∙ ap (drop (length payload)) behind_header
        ∙ drop-append_length payload rest

    pub record_room : length file ≡ cursor + 8 + length payload + length rest
    record_room = omega (
      arith,
      length-drop (cursor + 8) file,
      length-drop cursor file,
      ap (λ (t : Bytes). length t) behind_header,
      ap (λ (t : Bytes). length t) e,
      length-append payload rest,
      length-append (record_under sum payload) rest,
      length-append (to_le_bytes 4 (length payload)) (to_le_bytes 4 sum ++ payload),
      length-append (to_le_bytes 4 sum) payload,
      length-to_le_bytes 4 (length payload),
      length-to_le_bytes 4 sum,
    )

    check_record_lem :
        (op : Operation)
        → IsSmall payload
        → decode_payload c payload ≡ ok op
        → sum ≡ c.crc32 payload
        → check_record c file cursor (length payload) sum ≡ entry op (cursor + 8 + length payload)
    unfolding check_record
    check_record_lem op small decodes right =
        rw (payload_lem, decodes) (ground (arith, record_room))

    -- A record whose checksum is not that of its payload.
    pub wrong_record :
        IsSmall payload
        → sum ≢ c.crc32 payload
        → read_record c file cursor ≡ bad Error.checksum_mismatch
    unfolding read_record check_record
    wrong_record small wrong =
        rw (size_lem (omega arith), checksum_lem)
          (ground (arith, record_room, payload_lem, ap c.crc32 payload_lem))

    -- The recovery loop takes one whole record.
    pub take_record :
        (op : Operation)
        → IsSmall payload
        → decode_payload c payload ≡ ok op
        → sum ≡ c.crc32 payload
        → read_record c file cursor ≡ entry op (cursor + 8 + length payload)
    unfolding read_record
    take_record op small decodes right =
        rw (size_lem (omega arith), checksum_lem, check_record_lem op small decodes right)
          (ground (arith, record_room))
