-- ===== src/Bytes/Utf8.antt =====
-- UTF-8: `std::str::from_utf8`, `chars`, `trim` and `char::is_control` of the standard library.
use virt_warehouse_pro.Common.{
  ℕ, zero, suc, ◌+◌, ◌*◌, ◌%◌, List, [], ◌∷◌, Bool, true, false, ◌&&◌, ◌||◌, Option, none, some,
  leb, ltb, ◌==◌, if◌then◌else◌, Result, Error, ok, err,
}
use virt_warehouse_pro.Bytes.Words.{Bytes}
use mathlib.Core.Option
use mathlib.Core.List.{reverse}
pub mod Text

between : ℕ → ℕ → ℕ → Bool
between lo hi b = leb lo b && leb b hi

-- What the first byte of a character says: the number of bytes that follow, the bits that it
-- gives, and the range of the second byte.
lead : ℕ → Option (ℕ × ℕ × ℕ × ℕ)
unfolding between
lead b =
    if ltb b 0x80
    then some (0, b, 0x80, 0xbf)
    else if between 0xc2 0xdf b
    then some (1, b % 32, 0x80, 0xbf)
    else if b == 0xe0
    then some (2, b % 16, 0xa0, 0xbf)
    else if b == 0xed
    then some (2, b % 16, 0x80, 0x9f)
    else if between 0xe1 0xef b
    then some (2, b % 16, 0x80, 0xbf)
    else if b == 0xf0
    then some (3, b % 8, 0x90, 0xbf)
    else if between 0xf1 0xf3 b
    then some (3, b % 8, 0x80, 0xbf)
    else if b == 0xf4
    then some (3, b % 8, 0x80, 0x8f)
    else none

-- The code points of the bytes, where `need` bytes of a character with the bits `acc` are still
-- to come and the next of them lies between `lo` and `hi`.
chars_from : Bytes → ℕ → ℕ → ℕ → ℕ → Option (List ℕ)
unfolding lead
chars_from [] zero acc lo hi = some []
chars_from [] (suc need) acc lo hi = none
chars_from (b ∷ bs) zero acc lo hi = elim (lead b) [
  | none ↦ none
  | some (n, bits, l, h) ↦ elim n [
    | zero ↦ Option.map (λ cs. bits ∷ cs) (chars_from bs 0 0 0 0)
    | suc k ↦ chars_from bs (suc k) bits l h
  ]
]
chars_from (b ∷ bs) (suc need) acc lo hi = elim (between lo hi b) [
  | false ↦ none
  | true ↦ elim need [
    | zero ↦ Option.map (λ cs. (acc * 64 + b % 64) ∷ cs) (chars_from bs 0 0 0 0)
    | suc k ↦ chars_from bs (suc k) (acc * 64 + b % 64) 0x80 0xbf
  ]
]

-- The code points, or `none` if the bytes are not UTF-8.
unfoldable pub chars : Bytes → Option (List ℕ)
unfolding chars_from
chars s = chars_from s 0 0 0 0

-- `std::str::from_utf8`
unfoldable pub from_utf8 : Bytes → Result Bytes
unfolding chars
from_utf8 s = elim (chars s) [ none ↦ err Error.bad_utf8 | some cs ↦ ok s ]

-- `char::is_whitespace`: the characters of Unicode's White_Space.
unfoldable pub is_whitespace : ℕ → Bool
unfolding between
is_whitespace c =
    between 9 13 c
    || c == 32
    || c == 0x85
    || c == 0xa0
    || c == 0x1680
    || between 0x2000 0x200a c
    || c == 0x2028
    || c == 0x2029
    || c == 0x202f
    || c == 0x205f
    || c == 0x3000

-- `char::is_control`: the characters of Unicode's category Cc.
unfoldable pub is_control : ℕ → Bool
is_control c = leb c 0x1f || leb 0x7f c && leb c 0x9f

-- `str::trim_start`
unfoldable pub trim_start : List ℕ → List ℕ
unfolding is_whitespace
trim_start [] = []
trim_start (c ∷ cs) = if is_whitespace c then trim_start cs else c ∷ cs

-- `str::trim`, on the characters of a text
unfoldable pub trim : List ℕ → List ℕ
unfolding trim_start
trim cs = reverse (trim_start (reverse (trim_start cs)))

-- `chars().any(char::is_control)`
unfoldable pub any_control : List ℕ → Bool
unfolding is_control
any_control [] = false
any_control (c ∷ cs) = is_control c || any_control cs
