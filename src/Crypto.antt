-- ===== src/Crypto.antt =====
-- itx/crypto/hashing.py, and `bytes.hex` and `bytes.fromhex` of the language.
-- A byte is a number; SHA-256 and signature verification are the fields of `Primitives`, and every
-- definition that hashes or verifies takes them.
mod Hex
pub mod HexLaws
pub mod Decimal
unfoldable pub use Hex.{Bytes, hex, nibble, digit_value, is_space, from_hex}
use custody.Base.{◌==◌, Bool, String, ◌++◌, Option, none, some, length, if◌then◌else◌}

-- hashlib and the signature back ends, which the program calls.
pub record Primitives : Type 0 where
  pub sha256 : Bytes → Bytes
  -- `verify(public_key, message, signature)`
  pub verify : Bytes → Bytes → Bytes → Bool

-- `none`: the ValueError of a salt or a content hash that is not 32 bytes.
unfoldable pub commit : Primitives → Bytes → Bytes → Option Bytes
commit prim salt content_hash =
    if length salt == 32
    then (if length content_hash == 32 then some (prim.sha256 (salt ++ content_hash)) else none)
    else none

-- `none`: also the ValueError of a text that is no hexadecimal text.
unfoldable pub commit_hex : Primitives → String → String → Option String
commit_hex prim salt_hex content_hash_hex = elim (from_hex salt_hex) [
  | none ↦ none
  | some salt ↦ elim (from_hex content_hash_hex) [
    | none ↦ none
    | some content_hash ↦ elim (commit prim salt content_hash) [
      | none ↦ none
      | some c ↦ some (hex c)
    ]
  ]
]
