-- ===== src/Binary/Reader.antt =====
-- The cursor over a byte slice of src/binary.rs (`Reader`). src/snapshot.rs has one with the same
-- fields and methods.
use virt_warehouse_pro.Common.{
  ℕ, zero, suc, ◌+◌, ◌^◌, List, [], ◌∷◌, ltb, leb, ◌==◌, Result, Error, ok, err, if◌then◌else◌,
  length, take, drop,
}
use virt_warehouse_pro.Bytes.Words.{Bytes, from_le_bytes}
use virt_warehouse_pro.Bytes.Utf8.{from_utf8}

pub record Reader : Type 0 where
  pub source : Bytes
  pub cursor : ℕ

-- A method reads through `&mut self` and may fail: it returns the value and the new reader. What it
-- did to the reader before it failed is lost, since every caller drops the reader then.
abbrev pub Parse : Type 0 → Type 0
Parse A = Reader → Result (A × Reader)

infixl 5 ◌>>=◌
unfoldable pub ◌>>=◌ : {A B : Type 0} → Parse A → (A → Parse B) → Parse B
◌>>=◌ p f r = elim (p r) [ ok (a, r') ↦ f a r' | err e ↦ err e ]

infixl 5 ◌>>◌
abbrev pub ◌>>◌ : {A B : Type 0} → Parse A → Parse B → Parse B
p >> q = p >>= λ _. q

unfoldable pub pure : {A : Type 0} → A → Parse A
pure a r = ok (a, r)

unfoldable pub fail : {A : Type 0} → Error → Parse A
fail e r = err e

unfoldable pub lift : {A : Type 0} → Result A → Parse A
lift m r = elim m [ ok a ↦ ok (a, r) | err e ↦ err e ]

-- `Reader::new`
abbrev pub new : Bytes → Reader
new s = record { source = s; cursor = 0 }

-- `take`: the addition is checked, in 64 bits.
unfoldable pub take_bytes : ℕ → Parse Bytes
take_bytes n r =
    let end = r.cursor + n in
    if leb (2 ^ 64) end
    then err Error.offset_overflow
    else if ltb (length r.source) end
    then err Error.truncated
    else ok (take n (drop r.cursor r.source), record r { cursor = end })

unfoldable pub number : ℕ → Parse ℕ
number width = do bytes ← take_bytes width; pure (from_le_bytes bytes)

abbrev pub u8 : Parse ℕ
u8 = number 1

abbrev pub u16 : Parse ℕ
u16 = number 2

abbrev pub u32 : Parse ℕ
u32 = number 4

abbrev pub u64 : Parse ℕ
u64 = number 8

abbrev pub i64 : Parse ℕ
i64 = number 8

unfoldable pub count : Parse ℕ
count = do n ← u32; lift (if leb n 100_000 then ok n else err Error.count_too_large)

unfoldable pub string : Parse Bytes
string = do n ← u16; bytes ← take_bytes n; lift (from_utf8 bytes)

-- `done`: nothing may be left.
unfoldable pub done : Parse (Unit {0})
done r = if r.cursor == length r.source then ok (tt, r) else err Error.trailing_bytes

-- `for _ in 0..count { result.push(p) }`
unfoldable pub repeat : {A : Type 0} → ℕ → Parse A → Parse (List A)
repeat zero p = pure []
repeat (suc n) p = do x ← p; xs ← repeat n p; pure (x ∷ xs)

-- `p`, and then nothing may be left: the way every decoder ends.
unfoldable pub whole : {A : Type 0} → Parse A → Parse A
whole p = do x ← p; done; pure x

-- What a decoder returns: the reader is dropped.
abbrev pub value_of : {A : Type 0} → Result (A × Reader) → Result A
value_of (ok (a, r)) = ok a
value_of (err e) = err e
