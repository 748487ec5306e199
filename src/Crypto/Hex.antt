-- ===== src/Crypto/Hex.antt =====
-- `bytes.hex()` and `bytes.fromhex(text)`, which skips ASCII white space between two bytes.
use Prim.Native.Char.{Char, code}
use Prim.Native.String.{String}
use custody.Base.{
  ℕ, ◌+◌, ◌-◌, ◌*◌, ◌/◌, ◌%◌, ◌==◌, leb, Bool, ◌&&◌, ◌||◌, List, Option, none, some, if◌then◌else◌,
}
use mathlib.Core.List.{[], ◌∷◌}

abbrev pub Bytes : Type 0
Bytes = List ℕ

-- The lower-case digit of a number below 16.
unfoldable pub nibble : ℕ → Char
nibble n =
    if n == 0
    then "0"
    else if n == 1
    then "1"
    else if n == 2
    then "2"
    else if n == 3
    then "3"
    else if n == 4
    then "4"
    else if n == 5
    then "5"
    else if n == 6
    then "6"
    else if n == 7
    then "7"
    else if n == 8
    then "8"
    else if n == 9
    then "9"
    else if n == 10
    then "a"
    else if n == 11
    then "b"
    else if n == 12
    then "c"
    else if n == 13
    then "d"
    else if n == 14
    then "e"
    else "f"

unfoldable pub hex : Bytes → String
unfolding nibble
hex [] = String.[]
hex (b ∷ bs) = String.◌∷◌ (nibble (b / 16)) (String.◌∷◌ (nibble (b % 16)) (hex bs))

-- The value of a hexadecimal digit of either case.
unfoldable pub digit_value : ℕ → Option ℕ
digit_value c =
    if leb b'0' c && leb c b'9'
    then some (c - 48)
    else if leb b'a' c && leb c b'f'
    then some (c - 87)
    else if leb b'A' c && leb c b'F'
    then some (c - 55)
    else none

unfoldable pub is_space : ℕ → Bool
is_space c = c == 32 || (leb 9 c && leb c 13)

abbrev pub prepend : Option ℕ → Option ℕ → Option Bytes → Option Bytes
prepend (some h) (some l) (some bs) = some ((h * 16 + l) ∷ bs)
prepend _ _ _ = none

-- `none` is the ValueError.
unfoldable pub from_hex : String → Option Bytes
unfolding digit_value is_space
from_hex String.[] = some []
from_hex (String.◌∷◌ c String.[]) = if is_space (code c) then some [] else none
from_hex (String.◌∷◌ c (String.◌∷◌ d rest)) =
    let skipped = from_hex (String.◌∷◌ d rest) in
    let tail = from_hex rest in
    if is_space (code c)
    then skipped
    else prepend (digit_value (code c)) (digit_value (code d)) tail
