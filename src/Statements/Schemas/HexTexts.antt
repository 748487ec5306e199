-- ===== src/Statements/Schemas/HexTexts.antt =====
-- Which texts `_is_hex` takes.
use Prim.Native.String.{count}
use text.Mathlib.TextLemmas.{length-nil, length-cons}
use custody.Base.{◌*◌, ◌≡◌, refl, String, true, [], ◌∷◌, some, arith, length, All}
use custody.Crypto.{Bytes, hex, from_hex, is_space}
use custody.Crypto.HexLaws.{IsByte, from_hex-hex}
use custody.Statements.Schemas.{is_hex}

count-hex : (bs : Bytes) → count (hex bs) ≡ 2 * length bs
unfolding hex
count-hex [] = length-nil
count-hex (b ∷ bs) = omega (arith, length-cons _ _, length-cons _ _, count-hex bs)

-- Two blanks before a text.
abbrev pub padded : String → String
padded t = String.◌∷◌ " " (String.◌∷◌ " " t)

from_hex-padded :
    (bs : Bytes) → All IsByte bs → length bs ≡ 31 → from_hex (padded (hex bs)) ≡ some bs
unfolding from_hex hex is_space
from_hex-padded [] a h = absurd (omega arith)
from_hex-padded (b ∷ bs) a h = from_hex-hex (b ∷ bs) a

count-padded : (bs : Bytes) → length bs ≡ 31 → count (padded (hex bs)) ≡ 64
count-padded bs h =
    omega (arith, length-cons " " (String.◌∷◌ " " (hex bs)), length-cons " " (hex bs), count-hex bs)

-- The hexadecimal text of 31 bytes behind two blanks passes `is_hex` as a text of 64 digits, and
-- decodes to those 31 bytes.
pub is_hex-padded :
    (bs : Bytes)
    → All IsByte bs
    → length bs ≡ 31
    → (is_hex (padded (hex bs)) 64 ≡ true) × (from_hex (padded (hex bs)) ≡ some bs)
unfolding is_hex
is_hex-padded bs a h = (rw (count-padded bs h, from_hex-padded bs a h) refl, from_hex-padded bs a h)
