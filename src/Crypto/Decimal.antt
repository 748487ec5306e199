-- ===== src/Crypto/Decimal.antt =====
-- `str(n)` of the language: the decimal digits of a number.
use custody.Base.{ℕ, zero, suc, ◌/◌, ◌%◌, String, ltb, if◌then◌else◌}
use Prim.Native.String
use custody.Crypto.Hex.{nibble}

-- One digit is read off for each unit of fuel.
unfoldable pub decimal : ℕ → ℕ → String
decimal zero n = ""
decimal (suc fuel) n =
    let rest = decimal fuel (n / 10) in
    String.◌++◌ (if ltb n 10 then "" else rest) (String.◌∷◌ (nibble (n % 10)) "")

unfoldable pub number_text : ℕ → String
number_text n = decimal (suc n) n
