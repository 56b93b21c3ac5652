-- ===== src/Wal/Recover.antt =====
-- `recover` of src/wal.rs: the operations of a log file, and the length of its valid part.
use virt_warehouse_pro.Common.{
  ℕ, zero, suc, ◌+◌, ◌-◌, ◌*◌, ◌^◌, ◌<◌, List, [], ◌∷◌, ◌++◌, Option, none, some, ltb, leb, ◌==◌,
  if◌then◌else◌, Result, Error, ok, err, length, take, drop,
}
use virt_warehouse_pro.Bytes.Words.{Bytes, from_le_bytes}
use virt_warehouse_pro.Model.{Operation}
use virt_warehouse_pro.Binary.Format.{decode_operation}

-- What the module takes from crates whose code is not here: the CRC-32 of `crc32fast`, a `u32`, and
-- the JSON reader for records of older versions.
pub record Codecs : Type 0 where
  pub crc32 : Bytes → ℕ
  pub crc32_u32 : (b : Bytes) → crc32 b < 2 ^ 32
  pub from_json : Bytes → Result Operation

abbrev pub header_size : ℕ
header_size = 8

-- What `tokio::fs::read` finds.
pub data ReadFile : Type 0 where
  contents : Bytes → ReadFile
  not_found read_failed : ReadFile

-- How a round of the loop ends: `break` or the loop condition, `return Err`, or a record and the
-- cursor behind it.
pub data Round : Type 0 where
  end : Round
  bad : Error → Round
  entry : Operation → ℕ → Round

module _ (c : Codecs) where
  -- `decode_operation(payload).or_else(|_| serde_json::from_slice(payload))`
  unfoldable pub decode_payload : Bytes → Result Operation
  decode_payload payload = elim (decode_operation payload) [
    | ok op ↦ ok op
    | err e ↦ c.from_json payload
  ]

  -- The checks on a record whose header gave this size and checksum.
  unfoldable pub check_record : Bytes → ℕ → ℕ → ℕ → Round
  check_record file cursor size checksum =
      let record_end = cursor + header_size + size in
      let payload = take size (drop (cursor + header_size) file) in
      if ltb (1024 * 1024) size
      then bad Error.too_large
      else if ltb (length file) record_end
      then end
      else if c.crc32 payload == checksum
      then (elim (decode_payload payload) [ err e ↦ bad e | ok op ↦ entry op record_end ])
      else bad Error.checksum_mismatch

  -- One round of the loop.
  unfoldable pub read_record : Bytes → ℕ → Round
  read_record file cursor =
      if leb header_size (length file - cursor)
      then (let header = take 8 (drop cursor file) in
          check_record file cursor (from_le_bytes (take 4 header))
            (from_le_bytes (take 4 (drop 4 header))))
      else end

  -- The loop, on fuel; `none` means that the fuel ran out.
  unfoldable pub recover_loop :
      ℕ → Bytes → ℕ → List Operation → Option (Result (List Operation × ℕ))
  recover_loop zero file cursor operations = none
  recover_loop (suc fuel) file cursor operations = elim (read_record file cursor) [
    | bad e ↦ some (err e)
    | end ↦ some (ok (operations, cursor))
    | entry op record_end ↦ recover_loop fuel file record_end (operations ++ op ∷ [])
  ]

  -- A round takes eight bytes at least, so the length of the file is enough fuel.
  unfoldable pub recover : ReadFile → Option (Result (List Operation × ℕ))
  recover not_found = some (ok ([], 0))
  recover read_failed = some (err Error.io)
  recover (contents file) = recover_loop (suc (length file)) file 0 []
