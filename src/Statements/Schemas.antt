-- ===== src/Statements/Schemas.antt =====
-- `validate_payload` of itx/statements/schemas.py. A payload of another profile lacks a field that
-- the content type requires, so the check stops at the missing field.
pub mod HexTexts
use custody.Base.{
  ℕ, ◌==◌, String, Bool, true, false, List, [], ◌∷◌, ◌++◌, Option, none, some, ◌≟◌, ◌&&◌,
  if◌then◌else◌, contains, Dict,
}
use text.Mathlib.Text.{starts_with}
use custody.Crypto.{from_hex}
use custody.Statements.Payloads.{
  ContentType, contract, relay, receipt, observation, manifest, verdict, policy, other, Payload,
  contract_payload, relay_payload, receipt_payload, observation_payload, manifest_payload,
  verdict_payload, policy_payload, Contract, Relay, Receipt, Observation, VerdictFields, Policy,
}
use Prim.Native.String.{count}

-- The messages of the schema check.
pub data SchemaError : Type 0 where
  unknown_content_type missing_field bad_profile bad_fallback_policy : SchemaError
  bad_enforcement_mode requested_model_not_allowed bad_policy_decision : SchemaError
  bad_security_mode bad_attestation bad_decision bad_verification_status : SchemaError
  bad_assurance bad_deployment_mode bad_completeness : SchemaError
  bad_hex bad_issuer_types : String → SchemaError

abbrev pub profile_version : String
profile_version = "itx-profile/0.1"

abbrev pub policy_decisions : List String
policy_decisions = "forwarded" ∷ "refused" ∷ "fallback" ∷ "error" ∷ []

abbrev pub verification_statuses : List String
verification_statuses = "passed" ∷ "failed" ∷ "insufficient_evidence" ∷ []

abbrev pub assurance_levels : List String
assurance_levels = "none" ∷ "air-local" ∷ []

abbrev pub completeness_values : List String
completeness_values = "complete" ∷ "gap" ∷ "not_observable" ∷ []

abbrev pub enforcement_modes : List String
enforcement_modes = "observe" ∷ "protect" ∷ "strict" ∷ []

abbrev pub fallback_policies : List String
fallback_policies = "none" ∷ "declared_only" ∷ []

-- `_is_hex(v, n)`
unfoldable pub is_hex : String → ℕ → Bool
is_hex v n = if count v == n then elim (from_hex v) [ none ↦ false | some _ ↦ true ] else false

-- A check that adds one message when it fails.
abbrev pub require : Bool → SchemaError → List SchemaError
require true e = []
require false e = e ∷ []

-- `v is None or _is_hex(v, 64)`
abbrev pub is_hex_or_null : Option String → Bool
is_hex_or_null none = true
is_hex_or_null (some v) = is_hex v 64

unfoldable pub validate_contract : Contract → List SchemaError
validate_contract c =
    require (starts_with c.profile profile_version) bad_profile
    ++ (require (is_hex c.nonce 64) (bad_hex "nonce")
        ++ (require (is_hex c.req_commit 64) (bad_hex "req_commit")
            ++ (require (contains fallback_policies c.fallback_policy) bad_fallback_policy
                ++ (require (contains enforcement_modes c.enforcement_mode) bad_enforcement_mode
                    ++ require (contains c.allowed_models c.requested_model)
                        requested_model_not_allowed))))

unfoldable pub validate_relay : Relay → List SchemaError
validate_relay r =
    require (starts_with r.profile profile_version) bad_profile
    ++ (require (is_hex r.in_commit 64) (bad_hex "in_commit")
        ++ (require (is_hex r.out_commit 64) (bad_hex "out_commit")
            ++ (require (is_hex_or_null r.resp_in_commit) (bad_hex "resp_in_commit")
                ++ (require (is_hex_or_null r.resp_out_commit) (bad_hex "resp_out_commit")
                    ++ (require (is_hex_or_null r.nonce_forwarded) (bad_hex "nonce_forwarded")
                        ++ require (contains policy_decisions r.policy_decision)
                            bad_policy_decision)))))

abbrev pub is_mock : Option String → Bool
is_mock none = false
is_mock (some kind) = kind ≟ "mock"

unfoldable pub validate_receipt : Receipt → List SchemaError
validate_receipt m =
    require (starts_with m.profile profile_version) bad_profile
    ++ (require (m.security_mode ≟ "evaluation") bad_security_mode
        ++ (require (is_hex_or_null m.request_commit) (bad_hex "request_commit")
            ++ (require (is_hex_or_null m.response_commit) (bad_hex "response_commit")
                ++ (require (is_hex_or_null m.model_hash) (bad_hex "model_hash")
                    ++ (require (is_hex_or_null m.eat_nonce) (bad_hex "eat_nonce")
                        ++ (require (is_mock m.attestation_kind) bad_attestation
                            ++ require (contains ("served" ∷ "refused" ∷ []) m.decision)
                                bad_decision))))))

unfoldable pub validate_observation : Observation → List SchemaError
validate_observation o =
    require (starts_with o.profile profile_version) bad_profile
    ++ require (is_hex o.resp_commit 64) (bad_hex "resp_commit")

unfoldable pub validate_verdict : VerdictFields → List SchemaError
validate_verdict v =
    require (starts_with v.profile profile_version) bad_profile
    ++ (require (contains verification_statuses v.verification_status) bad_verification_status
        ++ (require (contains assurance_levels v.established_assurance) bad_assurance
            ++ (require (v.deployment_mode ≟ "evaluation") bad_deployment_mode
                ++ require (contains completeness_values v.completeness) bad_completeness)))

unfoldable pub is_known : ContentType → Bool
is_known (other _) = false
is_known _ = true

unfoldable pub all_known : List ContentType → Bool
all_known [] = true
all_known (c ∷ cs) = is_known c && all_known cs

-- The loop over `issuer_content_types`.
unfoldable pub validate_issuers : Dict (List ContentType) → List SchemaError
validate_issuers [] = []
validate_issuers ((i, cts) ∷ d) = require (all_known cts) (bad_issuer_types i) ++ validate_issuers d

unfoldable pub validate_policy : Policy → List SchemaError
validate_policy p =
    require (starts_with p.profile profile_version) bad_profile
    ++ validate_issuers p.issuer_content_types

unfoldable pub validate_payload : ContentType → Payload → List SchemaError
unfolding validate_contract
validate_payload contract (contract_payload c) = validate_contract c
validate_payload relay (relay_payload r) = validate_relay r
validate_payload receipt (receipt_payload m) = validate_receipt m
validate_payload observation (observation_payload o p) = validate_observation o
validate_payload manifest (manifest_payload m) =
    require (starts_with m.profile profile_version) bad_profile
validate_payload verdict (verdict_payload v) = validate_verdict v
validate_payload policy (policy_payload p) = validate_policy p
validate_payload (other _) _ = unknown_content_type ∷ []
validate_payload _ _ = missing_field ∷ []
