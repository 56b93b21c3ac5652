-- ===== src/Bytes.antt =====
-- What the program takes from Rust's standard library for bytes: little-endian words, two's
-- complement, and the decoding of UTF-8. A byte string is a list of numbers below 256.
pub mod Words
pub mod Utf8
pub mod Bits
pub mod Order
