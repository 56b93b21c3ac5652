-- ===== src/Runs.antt =====
-- Concrete data for the tests of the library: operations, and simple stand-ins for what the program
-- takes from other code.
use virt_warehouse_pro.Common.{
  ℕ, ◌%◌, ◌^◌, ◌<◌, ◌≡◌, refl, ap, ◌∙◌, arith, List, [], ◌∷◌, Option, none, some, Result, Error, ok,
  err, length, map, if◌then◌else◌, Bool-cases, inl, inr,
}
use virt_warehouse_pro.Common.Eq.{◌==◌, list_eq, nat_eq}
use virt_warehouse_pro.Common.Map.{Map, get, insert, get-insert}
use virt_warehouse_pro.Bytes.Words.{Bytes}
use virt_warehouse_pro.Bytes.Order.{within, select}
use virt_warehouse_pro.Disk.Tree.{Tree}
use virt_warehouse_pro.Model.{Operation}
use virt_warehouse_pro.Wal.Recover.{Codecs}
use virt_warehouse_pro.Store.Types.{Hash, Fingerprint, Hashes}
use virt_warehouse_pro.Store.DiskIndex.{DiskIndex, inserted}
mod Formats
mod Logs
mod Stores
mod Requests
mod Starts
mod Disks
mod Histories
mod Queries
mod Persists
mod Reopens

abbrev pub intake : Operation
intake = record {
  operation_id = b'o' ∷ b'1' ∷ [];
  owner_id = b'a' ∷ [];
  sku = b'x' ∷ [];
  delta = 7;
  event_version = 1;
}

-- The delta is -2.
abbrev pub dispatch : Operation
dispatch = record {
  operation_id = b'o' ∷ b'2' ∷ [];
  owner_id = b'a' ∷ [];
  sku = b'x' ∷ [];
  delta = 18_446_744_073_709_551_614;
  event_version = 1;
}

pub checksum-lt : (b : Bytes) → length b % 2 ^ 32 < 2 ^ 32
checksum-lt b = omega arith

-- The length stands for the checksum.
abbrev pub test_codecs : Codecs
test_codecs = record {
  crc32 = λ b. length b % 2 ^ 32;
  crc32_u32 = checksum-lt;
  from_json = λ b. err Error.legacy;
}

-- Every digest is the text itself.
abbrev pub test_hashes : Hashes
test_hashes = record { sha256 = λ b. b; default_hash = λ owner sku. length owner }

abbrev pub insert_all : Map Hash Fingerprint → List (Hash × Fingerprint) → Map Hash Fingerprint
insert_all m [] = m
insert_all m ((k, v) ∷ entries) = insert_all (insert k v m) entries

insert_all_lem :
    (m : Map Hash Fingerprint) (entries : List (Hash × Fingerprint)) (key : Hash)
    → get key (insert_all m entries) ≡ inserted entries key (get key m)
insert_all_lem m [] key = refl
insert_all_lem m ((k, v) ∷ entries) key =
    insert_all_lem (insert k v m) entries key ∙ ap (inserted entries key) (get-insert k key v m)

pub values_lem :
    (m : Map Hash Fingerprint) (keys : List Hash) (values : List (Option Fingerprint))
    → Path (Result (List (Option Fingerprint))) (ok (map (λ k. get k m) keys)) (ok values)
    → values ≡ map (λ k. get k m) keys
values_lem m keys values e = cc

pub inserted_lem :
    (m t : Map Hash Fingerprint) (entries : List (Hash × Fingerprint)) (key : Hash)
    → Path (Result (Map Hash Fingerprint)) (ok (insert_all m entries)) (ok t)
    → get key t ≡ inserted entries key (get key m)
inserted_lem m t entries key e =
    let same : t ≡ insert_all m entries = cc in rw same (insert_all_lem m entries key)

-- An index on disk that is a map.
abbrev pub test_disk : DiskIndex
test_disk = record {
  State = Map Hash Fingerprint;
  get_many = λ m keys. ok (map (λ k. get k m) keys);
  insert_many = λ m entries. ok (insert_all m entries);
  stored = λ m k. get k m;
  get_many_lem = values_lem;
  insert_many_lem = inserted_lem;
}

-- Tables as association lists.
instance abbrev pub map_tree : Tree (Map Bytes Bytes)
map_tree = record {
  get_key = get;
  insert_key = insert;
  entries = λ table. table;
  range = λ lo hi table. select (λ e. within lo hi e.0) table;
  get_insert = get-insert;
  get_entries = λ key table. refl;
  range_entries = λ lo hi table. refl;
}
