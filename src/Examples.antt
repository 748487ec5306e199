-- ===== src/Examples.antt =====
-- Concrete inputs: a toy hash and signature, an honest run of one request, and the runs of the
-- witnesses.
pub mod Trees
pub mod Logs
pub mod Verdicts
pub mod Gates
pub mod Streams
pub mod Audits
pub mod Heads
pub mod Services
pub mod Parties
pub mod Waits
pub mod Replays
pub mod Deployments
pub mod Ledgers
use custody.Base.{
  ℕ, zero, suc, ◌+◌, ◌%◌, ◌≡◌, ◌≢◌, refl, String, Bool, true, false, List, [], ◌∷◌, ◌++◌, map,
  Option, none, some, take, replicate, length, All, length-take, length-append, arith, All-take,
  All-append,
}
use text.Mathlib.Text.{starts_with}
use custody.Crypto.HexLaws.{IsByte}
use custody.Crypto.{Bytes, Primitives, hex}
use custody.Statements.{
  Statement, signed, Contract, Relay, Receipt, Observation, Payload, contract_payload,
  relay_payload, receipt_payload, observation_payload, absent, ContentType, contract, relay,
  receipt, observation,
}
use custody.Statements.Envelope.{Codec, issue, issued_at, signature}
use custody.Ts.Merkle.{bytes_eq}
use custody.Ts.Merkle.Completeness.{bytes_eq_refl}
use custody.Ts.Merkle.Soundness.{IsDigest}
use custody.Ts.Merkle.Digests.{AreBytes}
use custody.Ts.Log.{LogCodec, KeyPair, ReceiptBody, HeadBody}
use custody.Ts.Log.Receipts.{Works}

abbrev low : ℕ → ℕ
low x = x % 256

-- The first 32 bytes, filled up with zeros.
abbrev pub toy_hash : Bytes → Bytes
toy_hash b = take 32 (map low b ++ replicate 32 0)

abbrev pub toy : Primitives
toy = record {
  sha256 = toy_hash;
  verify = λ key message sig. bytes_eq sig (toy_hash (key ++ message));
}

abbrev pub toy_codec : Codec
toy_codec = record {
  to_be_signed = λ s. issued_at s ∷ [];
  leaf_bytes = λ s. issued_at s ∷ [];
  matches = λ pattern text. starts_with text pattern;
}

abbrev pub toy_log_codec : LogCodec
toy_log_codec = record {
  statements = toy_codec;
  signed_bytes = λ (b : ReceiptBody). b.leaf_index ∷ b.tree_size ∷ [];
  head_bytes = λ (b : HeadBody). b.tree_size ∷ [];
}

-- The key pair with the public key `n`.
abbrev pub toy_key : String → ℕ → KeyPair
toy_key kid n = record { kid = kid; public_key = n ∷ []; sign = λ message. toy_hash (n ∷ message) }

length-map-low : (b : Bytes) → length (map low b) ≡ length b
length-map-low [] = refl
length-map-low (x ∷ b) = omega (arith, length-map-low b)

pub toy_hash-IsDigest : (b : Bytes) → IsDigest (toy_hash b)
toy_hash-IsDigest b = omega (
  arith,
  length-take 32 (map low b ++ replicate 32 0),
  length-append (map low b) (replicate 32 0),
)

low-AreBytes : (b : Bytes) → AreBytes (map low b)
low-AreBytes [] = tt
low-AreBytes (x ∷ b) = (omega arith, low-AreBytes b)

zeros-AreBytes : (n : ℕ) → AreBytes (replicate n 0)
zeros-AreBytes zero = tt
zeros-AreBytes (suc n) = (omega arith, zeros-AreBytes n)

pub toy_hash-AreBytes : (b : Bytes) → AreBytes (toy_hash b)
toy_hash-AreBytes b =
    All-take IsByte 32 (map low b ++ replicate 32 0)
      (All-append IsByte (map low b) (replicate 32 0) (low-AreBytes b) (zeros-AreBytes 32))

nonempty : (b : Bytes) → IsDigest b → b ≢ []
nonempty [] h p = absurd (omega arith)
nonempty (x ∷ b) h p = cc p

pub toy_key-Works : (kid : String) (n : ℕ) → Works toy (toy_key kid n)
toy_key-Works kid n = record {
  hash_bytes = toy_hash-AreBytes;
  signature_bytes = λ m. toy_hash-AreBytes (n ∷ m);
  signature_nonempty = λ m. nonempty (toy_hash (n ∷ m)) (toy_hash-IsDigest (n ∷ m));
  verifies = λ m. bytes_eq_refl (toy_hash (n ∷ m));
}

-- The commit of the request under the toy hash.
abbrev pub request_commit : String
request_commit = "0505050505050505050505050505050505050505050505050505050505050505"

abbrev pub response_commit : String
response_commit = "0606060606060606060606060606060606060606060606060606060606060606"

abbrev pub forged_commit : String
forged_commit = "0707070707070707070707070707070707070707070707070707070707070707"

abbrev pub nonce : String
nonce = "0808080808080808080808080808080808080808080808080808080808080808"

abbrev pub the_contract : Contract
the_contract = record {
  profile = "itx-profile/0.1/contract";
  attempt_id = "a-1";
  session_id = "s-1";
  session_seq = 1;
  nonce = nonce;
  req_commit = request_commit;
  requested_model = "m-1";
  allowed_models = "m-1" ∷ "m-2" ∷ [];
  fallback_policy = "declared_only";
  allowed_request_transforms = "identity" ∷ [];
  allowed_response_transforms = "identity" ∷ [];
  relay_id = "R";
  expires_at = 5000;
  client_time = 1000;
  enforcement_mode = "strict";
}

abbrev pub the_relay : Relay
the_relay = record {
  profile = "itx-profile/0.1/relay";
  attempt_id = "a-1";
  in_commit = request_commit;
  out_commit = request_commit;
  request_transform_id = "identity";
  upstream_id = "M";
  upstream_model = "m-1";
  resp_in_commit = some response_commit;
  resp_out_commit = some response_commit;
  response_transform_id = "identity";
  policy_version = "1";
  policy_decision = "forwarded";
  nonce_forwarded = some nonce;
  salt_forwarded = true;
  relay_seq = 1;
}

-- The model's receipt for the request and the response that it reports.
abbrev pub receipt_for : String → String → Receipt
receipt_for got sent = record {
  profile = "itx-profile/0.1/receipt";
  cti = "c-1";
  attempt_id = "a-1";
  request_commit = some got;
  response_commit = some sent;
  model_id = "m-1";
  model_version = "1";
  model_hash = some forged_commit;
  model_hash_scheme = "sha256-manifest";
  eat_nonce = some nonce;
  security_mode = "evaluation";
  attestation_kind = some "mock";
  execution_time_ms = 20;
  pre_exec_check = "passed";
  decision = "served";
}

abbrev pub the_observation : Observation
the_observation = record {
  profile = "itx-profile/0.1/observation";
  attempt_id = "a-1";
  resp_commit = response_commit;
  received_at = 1200;
  inline_receipt_hash = none;
  inline_relay_hash = none;
}

-- A statement that the party with the public key `n` signed; the signature is the toy hash of the
-- key and the time.
abbrev pub signed_by : String → ℕ → String → ContentType → Payload → ℕ → Statement
signed_by kid n iss ct p now =
    signed iss "urn:itx:req:1" ct kid now p (hex (toy_hash (n ∷ now ∷ [])))

abbrev pub user_contract : Statement
user_contract = signed_by "kU" 1 "U" contract (contract_payload the_contract) 1000

abbrev pub relay_statement : Statement
relay_statement = signed_by "kR" 2 "R" relay (relay_payload the_relay) 1010

abbrev pub model_receipt : Statement
model_receipt =
    signed_by "kM" 3 "M" receipt (receipt_payload (receipt_for request_commit response_commit)) 1020

abbrev pub user_observation : Statement
user_observation =
    signed_by "kU" 1 "U" observation (observation_payload the_observation absent) 1200
