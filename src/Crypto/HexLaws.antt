-- ===== src/Crypto/HexLaws.antt =====
-- The decoding of hexadecimal texts.
use Prim.Native.Char.{code}
use custody.Base.{
  none, ◌==◌, ◌&&◌, not, true, all_below, all_below_sound, ℕ, ◌/◌, ◌%◌, ◌<◌, ◌≡◌, refl, ap, Bool,
  false, some, [], ◌∷◌, All, arith,
}
use custody.Crypto.Hex.{Bytes, nibble, hex, digit_value, is_space, from_hex}

abbrev pub IsByte : ℕ → Type 0
IsByte b = b < 256

-- A digit decodes to the number that it was written for.
abbrev digit_ok : ℕ → Bool
digit_ok n = elim (digit_value (code (nibble n))) [
  | none ↦ false
  | some d ↦ d == n && not (is_space (code (nibble n)))
]

digit_table : all_below 16 digit_ok ≡ true
unfolding digit_value nibble is_space all_below
digit_table = refl

nibble-digit :
    (n : ℕ)
    → n < 16
    → (digit_value (code (nibble n)) ≡ some n) × (is_space (code (nibble n)) ≡ false)
nibble-digit n h = ground (arith, all_below_sound 16 digit_ok n digit_table h)

-- Decoding the hexadecimal text of a list of bytes gives the list back.
pub from_hex-hex : (bs : Bytes) → All IsByte bs → from_hex (hex bs) ≡ some bs
unfolding from_hex hex
from_hex-hex [] h = refl
from_hex-hex (b ∷ bs) h =
    ground (arith, nibble-digit (b / 16), nibble-digit (b % 16), from_hex-hex bs)

pub hex-injective : (a b : Bytes) → All IsByte a → All IsByte b → hex a ≡ hex b → a ≡ b
hex-injective a b p q e = ground (arith, from_hex-hex a p, from_hex-hex b q, ap from_hex e)
