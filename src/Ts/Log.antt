-- ===== src/Ts/Log.antt =====
-- itx/ts/log.py: the append-only log, its registration policy and its registration receipts.
pub mod Receipts
pub mod Registration
pub mod Tampering
use custody.Base.{
  ℕ, zero, suc, ◌+◌, ◌-◌, ◌≤◌, String, Bool, true, false, not, List, [], ◌∷◌, ◌++◌, Option, none,
  some, ◌≟◌, ◌&&◌, if◌then◌else◌, Dict, lookup, insert, length, map, leb, take,
}
use Prim.Native.String
use custody.Crypto.{Bytes, Primitives, hex, from_hex}
use custody.Statements.{
  ContentType, policy, verdict, Statement, Payload, policy_payload, Policy, KeyInfo,
}
use custody.Statements.Envelope.{
  Codec, sub, content_type, kid, iss, payload, same_type, has_type, verify_with, statement_hash,
  issue,
}
use custody.Statements.Schemas.{SchemaError, validate_payload}
use custody.Ts.Merkle.{leaf_hash, mth, inclusion_path, verify_inclusion}

-- `TS_CONTENT_TYPES`
abbrev pub ts_content_types : List ContentType
ts_content_types = policy ∷ verdict ∷ []

-- The key pair of the log.
pub record KeyPair : Type 0 where
  pub kid : String
  pub public_key : Bytes
  pub sign : Bytes → Bytes

-- What the signature of a registration receipt covers.
pub record ReceiptBody : Type 0 where
  pub log_id : String
  pub leaf_index : ℕ
  pub tree_size : ℕ
  pub root_hash : String
  pub leaf_hash : String
  pub registered_at : ℕ
  pub ts_kid : String

pub record RegistrationReceipt : Type 0 where
  pub body : ReceiptBody
  pub inclusion_proof : List String
  pub signature : String

pub record LogEntry : Type 0 where
  pub index : ℕ
  pub statement : Statement
  pub registered_at : ℕ
  pub leaf_hash : String

-- The state of a `TransparencyLog`; `leaves` is its Merkle tree.
pub record Log : Type 0 where
  pub log_id : String
  pub key : KeyPair
  pub leaves : List Bytes
  pub entries : List LogEntry
  pub policy : Policy
  pub allowed : List ContentType
  pub trusted : Dict (String × Bytes)
  pub issuer_content_types : Dict (List ContentType)

-- The reasons of a refusal.
pub data Refusal : Type 0 where
  content_type_not_allowed sub_mismatch unknown_kid kid_not_bound signature_invalid : Refusal
  issuer_not_authorized : Refusal
  schema : SchemaError → Refusal

-- What the signature of a tree head covers.
pub record HeadBody : Type 0 where
  pub log_id : String
  pub tree_size : ℕ
  pub root_hash : String
  pub time : ℕ
  pub ts_kid : String

pub record TreeHead : Type 0 where
  pub body : HeadBody
  pub signature : String

-- What the program uses of the canonical serialisation of receipts and tree heads.
pub record LogCodec : Type 0 where
  pub statements : Codec
  -- `signed_bytes()`
  pub signed_bytes : ReceiptBody → Bytes
  -- `canonical_json` of a tree head without its signature
  pub head_bytes : HeadBody → Bytes

-- `[bytes.fromhex(p) for p in proof]`
unfoldable pub proof_bytes : List String → Option (List Bytes)
proof_bytes [] = some []
proof_bytes (p ∷ ps) = elim (from_hex p) [
  | none ↦ none
  | some b ↦ elim (proof_bytes ps) [ none ↦ none | some bs ↦ some (b ∷ bs) ]
]

-- `bytes.fromhex(signature or "00")`
unfoldable pub signature_bytes : String → Option Bytes
signature_bytes s = if s ≟ "" then from_hex "00" else from_hex s

-- `issuer_content_types.get(iss, ())`
abbrev pub types_of : Dict (List ContentType) → String → List ContentType
types_of d i = elim (lookup i d) [ none ↦ [] | some cts ↦ cts ]

-- A check that adds its reason when it fails.
abbrev pub refuse_unless : Bool → Refusal → List Refusal
refuse_unless true r = []
refuse_unless false r = r ∷ []

-- The result of `verify_receipt`; `raised` is the ValueError of a text that is not hexadecimal.
pub data ReceiptCheck : Type 0 where
  valid bad_signature leaf_mismatch bad_proof raised : ReceiptCheck

-- `RegistrationRefused` carries the reasons.
pub data Registered : Type 0 where
  refused : List Refusal → Registered
  accepted : RegistrationReceipt → Registered

module _ (prim : Primitives) (codec : LogCodec) where
  check_proof : RegistrationReceipt → Bytes → ReceiptCheck
  check_proof receipt lh = elim (proof_bytes receipt.inclusion_proof) [
    | none ↦ raised
    | some proof ↦ elim (from_hex receipt.body.root_hash) [
      | none ↦ raised
      | some root ↦
          if verify_inclusion prim.sha256 receipt.body.leaf_index receipt.body.tree_size lh proof
            root
          then valid
          else bad_proof
    ]
  ]

  unfoldable pub verify_receipt : RegistrationReceipt → Statement → Bytes → ReceiptCheck
  unfolding check_proof
  verify_receipt receipt statement ts_public_key = elim (signature_bytes receipt.signature) [
    | none ↦ raised
    | some sig ↦
        if prim.verify ts_public_key (codec.signed_bytes receipt.body) sig
        then (let lh = leaf_hash prim.sha256 (codec.statements.leaf_bytes statement) in
            if hex lh ≟ receipt.body.leaf_hash then check_proof receipt lh else leaf_mismatch)
        else bad_signature
  ]

  -- The binding of the key id to the issuer, and the signature.
  unfoldable pub check_key : Option (String × Bytes) → Statement → List Refusal
  check_key none stmt = unknown_kid ∷ []
  check_key (some (i, pub_key)) stmt =
      if i ≟ iss stmt
      then refuse_unless (verify_with prim codec.statements stmt pub_key) signature_invalid
      else kid_not_bound ∷ []

  unfoldable pub check_policy : Log → Statement → List Refusal
  check_policy log stmt =
      refuse_unless (has_type log.allowed (content_type stmt)) content_type_not_allowed
      ++ (refuse_unless (codec.statements.matches log.policy.sub_pattern (sub stmt)) sub_mismatch
          ++ (check_key (lookup (kid stmt) log.trusted) stmt
              ++ (refuse_unless
                    (has_type (types_of log.issuer_content_types (iss stmt)) (content_type stmt))
                    issuer_not_authorized
                  ++ map schema (validate_payload (content_type stmt) (payload stmt)))))

  -- The receipt that `_append` builds for the entry that it has just added.
  unfoldable pub make_receipt : Log → ℕ → Bytes → ℕ → RegistrationReceipt
  make_receipt log idx lh registered_at =
      let body : ReceiptBody = record {
        log_id = log.log_id;
        leaf_index = idx;
        tree_size = length log.leaves;
        root_hash = hex (mth prim.sha256 log.leaves);
        leaf_hash = hex lh;
        registered_at = registered_at;
        ts_kid = log.key.kid;
      } in
      record {
        body = body;
        inclusion_proof = map hex (inclusion_path prim.sha256 idx log.leaves);
        signature = hex (log.key.sign (codec.signed_bytes body));
      }

  unfoldable pub append : Log → Statement → ℕ → Log × RegistrationReceipt
  append log stmt registered_at =
      let lh = leaf_hash prim.sha256 (codec.statements.leaf_bytes stmt) in
      let idx = length log.leaves in
      let entry : LogEntry = record {
        index = idx;
        statement = stmt;
        registered_at = registered_at;
        leaf_hash = hex lh;
      } in
      let log' = record log {
        leaves = log.leaves ++ lh ∷ [];
        entries = log.entries ++ entry ∷ [];
      } in
      (log', make_receipt log' idx lh registered_at)

  abbrev settle : Log → Statement → ℕ → List Refusal → Log × Registered
  settle log stmt registered_at [] =
      let (log', receipt) = append log stmt registered_at in (log', accepted receipt)
  settle log stmt registered_at (e ∷ es) = (log, refused (e ∷ es))

  unfoldable pub register : Log → Statement → ℕ → Log × Registered
  register log stmt registered_at = settle log stmt registered_at (check_policy log stmt)

-- The loop that reads the trust list; `none` is a ValueError.
unfoldable pub read_trusted : Dict KeyInfo → Option (Dict (String × Bytes))
read_trusted [] = some []
read_trusted ((k, info) ∷ d) = elim (from_hex info.public_key) [
  | none ↦ none
  | some key ↦ elim (read_trusted d) [ none ↦ none | some ks ↦ some ((k, (info.iss, key)) ∷ ks) ]
]

-- `statements_for`
unfoldable pub statements_for : List LogEntry → String → Option ℕ → List LogEntry
statements_for [] s visible_at = []
statements_for (e ∷ es) s visible_at =
    let rest = statements_for es s visible_at in
    let seen : Bool = elim visible_at [ none ↦ true | some t ↦ leb e.registered_at t ] in
    if sub e.statement ≟ s && seen then e ∷ rest else rest

module _ (prim : Primitives) (codec : LogCodec) where
  unfoldable pub tree_head : Log → ℕ → TreeHead
  tree_head log now =
      let body : HeadBody = record {
        log_id = log.log_id;
        tree_size = length log.leaves;
        root_hash = hex (mth prim.sha256 log.leaves);
        time = now;
        ts_kid = log.key.kid;
      } in
      record { body = body; signature = hex (log.key.sign (codec.head_bytes body)) }

  -- `none` is the ValueError of a signature that is not hexadecimal.
  unfoldable pub verify_tree_head : TreeHead → Bytes → Option Bool
  verify_tree_head head ts_public_key = elim (from_hex head.signature) [
    | none ↦ none
    | some sig ↦ some (prim.verify ts_public_key (codec.head_bytes head.body) sig)
  ]

  -- `__init__`: the policy is statement 0. `none` is a ValueError of a key that is not hexadecimal.
  unfoldable pub open_log : String → KeyPair → Policy → ℕ → Option Log
  open_log log_id key p now = elim (read_trusted p.trusted_keys) [
    | none ↦ none
    | some ks ↦
        let empty : Log = record {
          log_id = log_id;
          key = key;
          leaves = [];
          entries = [];
          policy = p;
          allowed = policy ∷ p.allowed_content_types;
          trusted = insert key.kid (p.ts_iss, key.public_key) ks;
          issuer_content_types = insert p.ts_iss ts_content_types p.issuer_content_types;
        } in
        let statement =
          issue prim codec.statements key.sign key.kid p.ts_iss
            (String.◌++◌ "urn:itx:policy:" log_id) policy (policy_payload p) now in
        some (append prim codec empty statement now).0
  ]

  -- The entries that `drop_sub` keeps, numbered from `idx` again.
  unfoldable pub rebuild : String → ℕ → List LogEntry → List LogEntry
  rebuild s idx [] = []
  rebuild s idx (e ∷ es) =
      let kept = rebuild s (idx + 1) es in
      let skipped = rebuild s idx es in
      if sub e.statement ≟ s
      then skipped
      else record e {
        index = idx;
        leaf_hash = hex (leaf_hash prim.sha256 (codec.statements.leaf_bytes e.statement));
      }
        ∷ kept

  -- The leaves of a list of entries.
  unfoldable pub entry_leaves : List LogEntry → List Bytes
  entry_leaves [] = []
  entry_leaves (e ∷ es) =
      leaf_hash prim.sha256 (codec.statements.leaf_bytes e.statement) ∷ entry_leaves es

  -- `drop_sub`: the malicious operator of the scenarios.
  unfoldable pub drop_sub : Log → String → Log
  drop_sub log s =
      let kept = rebuild s 0 log.entries in
      record log { entries = kept; leaves = entry_leaves kept }
