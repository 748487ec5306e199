-- ===== src/Cose/Head.antt =====
-- itx/cose/cbor.py: the head of a data item, `_head`, and its reading, `_Reader.argument`.
-- A reader is the list of the bytes that are left. `none` is a CBORError.
pub mod RoundTrip
pub mod Minimal
use custody.Base.{
  ℕ, zero, suc, ◌+◌, ◌-◌, ◌*◌, ◌/◌, ◌%◌, ◌^◌, ltb, leb, ◌==◌, Bool, true, false, not, List, [], ◌∷◌,
  ◌++◌, Option, none, some, length, take, drop, if◌then◌else◌,
}
use custody.Crypto.{Bytes}

-- `value.to_bytes(width, "big")`
unfoldable pub to_be : ℕ → ℕ → Bytes
to_be zero v = []
to_be (suc width) v = to_be width (v / 256) ++ v % 256 ∷ []

-- `int.from_bytes(data, "big")`, on top of the bytes before.
unfoldable pub from_be : ℕ → Bytes → ℕ
from_be acc [] = acc
from_be acc (b ∷ bs) = from_be (acc * 256 + b) bs

-- `bytes([prefix | extra]) + value.to_bytes(width, "big")`; the low five bits of the prefix are 0.
abbrev pub long_head : ℕ → ℕ → ℕ → ℕ → Bytes
long_head major extra width value = (major * 32 + extra) ∷ to_be width value

-- `_head`
unfoldable pub head : ℕ → ℕ → Option Bytes
head major value =
    if ltb value 24
    then some ((major * 32 + value) ∷ [])
    else if ltb value 256
    then some (long_head major 24 1 value)
    else if ltb value 65536
    then some (long_head major 25 2 value)
    else if ltb value 4294967296
    then some (long_head major 26 4 value)
    else if ltb value 18446744073709551616
    then some (long_head major 27 8 value)
    else none

-- `take`: the bytes read and those that are left.
unfoldable pub read_bytes : ℕ → Bytes → Option (Bytes × Bytes)
read_bytes n bytes = if ltb (length bytes) n then none else some (take n bytes, drop n bytes)

abbrev is_minimal : ℕ → Option Bytes → Bool
is_minimal width none = false
is_minimal width (some minimal) = length minimal == width + 1

abbrev checked : ℕ → ℕ → Option (Bytes × Bytes) → Option (ℕ × Bytes)
checked major width none = none
checked major width (some (chunk, rest)) =
    let value = from_be 0 chunk in
    if is_minimal width (head major value) then some (value, rest) else none

-- `argument`
unfoldable pub argument : ℕ → Bytes → Option (ℕ × Bytes)
argument initial bytes =
    let info = initial % 32 in
    let width = 2 ^ (info - 24) in
    if ltb info 24
    then some (info, bytes)
    else if info == 31
    then none
    else if ltb 27 info
    then none
    else checked (initial / 32) width (read_bytes width bytes)
