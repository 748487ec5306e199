-- ===== src/Statements/Payloads.antt =====
-- The payloads of itx/statements/schemas.py. A payload is the record of its profile's required
-- fields; a field that may be null is an option. Times are milliseconds.
use custody.Base.{ℕ, String, Bool, List, Option, Dict}

-- The content types of envelope.py; `other` is any text that is none of them.
pub data ContentType : Type 0 where
  contract relay receipt observation manifest verdict policy : ContentType
  other : String → ContentType

-- contract_payload
pub record Contract : Type 0 where
  pub profile : String
  pub attempt_id : String
  pub session_id : String
  pub session_seq : ℕ
  pub nonce : String
  pub req_commit : String
  pub requested_model : String
  pub allowed_models : List String
  pub fallback_policy : String
  pub allowed_request_transforms : List String
  pub allowed_response_transforms : List String
  pub relay_id : String
  pub expires_at : ℕ
  pub client_time : ℕ
  pub enforcement_mode : String

-- relay_payload
pub record Relay : Type 0 where
  pub profile : String
  pub attempt_id : String
  pub in_commit : String
  pub out_commit : String
  pub request_transform_id : String
  pub upstream_id : String
  pub upstream_model : String
  pub resp_in_commit : Option String
  pub resp_out_commit : Option String
  pub response_transform_id : String
  pub policy_version : String
  pub policy_decision : String
  pub nonce_forwarded : Option String
  pub salt_forwarded : Bool
  pub relay_seq : ℕ

-- receipt_payload; of the attestation only its kind is read, and `none` is no kind.
pub record Receipt : Type 0 where
  pub profile : String
  pub cti : String
  pub attempt_id : String
  pub request_commit : Option String
  pub response_commit : Option String
  pub model_id : String
  pub model_version : String
  pub model_hash : Option String
  pub model_hash_scheme : String
  pub eat_nonce : Option String
  pub security_mode : String
  pub attestation_kind : Option String
  pub execution_time_ms : ℕ
  pub pre_exec_check : String
  pub decision : String

-- observation_payload, but for the presented receipt, which stands beside it
pub record Observation : Type 0 where
  pub profile : String
  pub attempt_id : String
  pub resp_commit : String
  pub received_at : ℕ
  pub inline_receipt_hash : Option String
  pub inline_relay_hash : Option String

-- manifest_payload
pub record Manifest : Type 0 where
  pub profile : String
  pub session_id : String
  pub attempts : List (Dict String)
  pub closed_at : ℕ
  pub prev_manifest_hash : Option String

-- The fields of a verdict that the schema check and an independent replay read; of an equation its
-- result, of a discrepancy its code, of an evidence reference its hash.
pub record VerdictFields : Type 0 where
  pub profile : String
  pub attempt_id : String
  pub verification_status : String
  pub established_assurance : String
  pub deployment_mode : String
  pub completeness : String
  pub policy_hash : String
  pub checker_version : String
  pub trust_keys_version : String
  pub equations : Dict String
  pub codes : List String
  pub evidence : List String
  pub private_evidence_hash : Option String

-- A key of the trust list.
pub record KeyInfo : Type 0 where
  pub iss : String
  pub public_key : String

-- policy_payload
pub record Policy : Type 0 where
  pub profile : String
  pub version : ℕ
  pub ts_id : String
  pub ts_iss : String
  pub allowed_content_types : List ContentType
  pub sub_pattern : String
  pub trusted_keys : Dict KeyInfo
  pub issuer_content_types : Dict (List ContentType)

-- An observation carries the receipt that the user was shown: none, a copy that is no statement,
-- or a statement.
mutual
  pub data Statement : Type 0 where
    signed :
        (iss sub : String) (content_type : ContentType) (kid : String) (issued_at : ℕ)
        (payload : Payload) (signature : String)
        → Statement

  pub data Payload : Type 0 where
    contract_payload : Contract → Payload
    relay_payload : Relay → Payload
    receipt_payload : Receipt → Payload
    observation_payload : Observation → Presented → Payload
    manifest_payload : Manifest → Payload
    verdict_payload : VerdictFields → Payload
    policy_payload : Policy → Payload

  pub data Presented : Type 0 where
    absent malformed : Presented
    copy : Statement → Presented
