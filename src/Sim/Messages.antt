-- ===== src/Sim/Messages.antt =====
-- itx/sim/parties/messages.py: the messages on the wire, and salted commits of bodies. A body is a
-- JSON object; the type of the bodies and their canonical serialisation are parameters.
pub mod Commits
use custody.Base.{ℕ, String, Option, none, some}
use custody.Crypto.{Bytes, Primitives, hex, commit_hex}

-- The JSON objects that are sent, and `canonical_json`.
pub record Bodies : Type 1 where
  pub Body : Type 0
  pub canonical_json : Body → Bytes

-- `_commit`: no salt gives no commit. The outer `none` is the ValueError of a salt that is not the
-- hexadecimal text of 32 bytes.
unfoldable pub commit_body :
    Primitives → (bodies : Bodies) → Option String → bodies.Body → Option (Option String)
commit_body prim bodies none body = some none
commit_body prim bodies (some salt) body =
    elim (commit_hex prim salt (hex (prim.sha256 (bodies.canonical_json body)))) [
      | none ↦ none
      | some c ↦ some (some c)
    ]

pub record WireRequest (bodies : Bodies) : Type 0 where
  pub sub : String
  pub attempt_id : String
  pub nonce : Option String
  pub salt : Option String
  pub body : bodies.Body
  pub requested_model : String
