-- ===== src/Statements/Envelope.antt =====
-- itx/statements/envelope.py: reading and verifying a signed statement.
use custody.Base.{ℕ, String, Bool, true, false, List, [], ◌∷◌, none, some, ◌≟◌, ◌||◌, if◌then◌else◌}
use custody.Crypto.{Bytes, Primitives, hex, from_hex}
use custody.Statements.Payloads.{
  ContentType, contract, relay, receipt, observation, manifest, verdict, policy, other, Statement,
  signed, Payload,
}

-- What the statements use of the canonical serialisation, which the language's JSON library
-- writes, and of its regular expressions.
pub record Codec : Type 0 where
  -- `to_be_signed()`
  pub to_be_signed : Statement → Bytes
  -- `leaf_bytes()`
  pub leaf_bytes : Statement → Bytes
  -- `re.compile(pattern).match(text)`
  pub matches : String → String → Bool

abbrev pub iss : Statement → String
iss (signed i s c k t p g) = i

abbrev pub sub : Statement → String
sub (signed i s c k t p g) = s

abbrev pub content_type : Statement → ContentType
content_type (signed i s c k t p g) = c

abbrev pub kid : Statement → String
kid (signed i s c k t p g) = k

abbrev pub issued_at : Statement → ℕ
issued_at (signed i s c k t p g) = t

abbrev pub payload : Statement → Payload
payload (signed i s c k t p g) = p

abbrev pub signature : Statement → String
signature (signed i s c k t p g) = g

-- The equality of two content types.
unfoldable pub same_type : ContentType → ContentType → Bool
same_type contract contract = true
same_type relay relay = true
same_type receipt receipt = true
same_type observation observation = true
same_type manifest manifest = true
same_type verdict verdict = true
same_type policy policy = true
same_type (other a) (other b) = a ≟ b
same_type _ _ = false

-- `content_type in content_types`
unfoldable pub has_type : List ContentType → ContentType → Bool
has_type [] c = false
has_type (x ∷ xs) c = same_type x c || has_type xs c

module _ (prim : Primitives) (codec : Codec) where
  unfoldable pub statement_hash : Statement → String
  statement_hash s = hex (prim.sha256 (codec.to_be_signed s))

  unfoldable pub verify_with : Statement → Bytes → Bool
  verify_with s public_key = if signature s ≟ "" then false else elim (from_hex (signature s)) [
    | none ↦ false
    | some sig ↦ prim.verify public_key (codec.to_be_signed s) sig
  ]

  -- `issue`: the private key signs the statement's bytes.
  unfoldable pub issue :
      (Bytes → Bytes) → String → String → String → ContentType → Payload → ℕ → Statement
  issue sign key_kid i s c p now =
      signed i s c key_kid now p (hex (sign (codec.to_be_signed (signed i s c key_kid now p ""))))
