-- ===== src/Reconcile/Engine.antt =====
-- itx/reconcile/engine.py: gathering evidence from log entries, and the verdict.
pub mod Gathering
pub mod Verdicts
pub mod Failures
pub mod Grounds
use custody.Base.{
  ℕ, ◌+◌, String, Bool, true, false, List, [], ◌∷◌, ◌++◌, Option, none, some, Dict, lookup, ◌≟◌,
  ◌&&◌, ◌||◌, not, ltb, if◌then◌else◌, map,
}
use custody.Crypto.{Bytes, Primitives}
use custody.Statements.{
  ContentType, contract, relay, receipt, observation, manifest, Statement, Presented, absent,
  malformed, copy, Contract, Relay, Receipt, Observation,
}
use custody.Statements.Envelope.{
  Codec, content_type, kid, iss, has_type, same_type, statement_hash, verify_with,
}
use custody.Reconcile.Evidence.{
  EvidenceSet, StatementRef, PrivateEvidence, Party, ReceiptSource, registered, presented_to_user,
  no_source, present_parties, presented, c, r, m, o,
}
use custody.Reconcile.Equations.{
  EqId, e1, e4, e5, e8, e9, e10, e11, e12, EqResult, Outcome, pass, fail, not_evaluable, Results,
  all_ids, evaluate_equations,
}
use custody.Reconcile.Discrepancies.{
  Discrepancy, Severity, violation, contradiction, observed, Code, sig_invalid, issuer_unauthorized,
  receipt_presented_differs, gap as gap_code, late, Attribution, issuer, relay_only, no_attribution,
  classify,
}
use custody.Reconcile.Completeness.{
  Assessment, assess_completeness, CompletenessStatus, complete, gap, not_observable,
}

pub record Engine : Type 0 where
  pub trusted_keys : Dict (String × Bytes)
  pub reference_model_hashes : Dict String
  pub policy_hash : String
  pub trust_keys_version : String
  pub issuer_content_types : Dict (List ContentType)
  pub late_threshold_ms : ℕ

-- A log entry as `gather` reads it.
pub record Entry : Type 0 where
  pub log_index : Option ℕ
  pub registered_at : Option ℕ
  pub statement : Statement

abbrev types_of : Option (List ContentType) → List ContentType
types_of none = []
types_of (some cts) = cts

unfoldable pub authorized : Engine → String → ContentType → Bool
authorized engine i ct = has_type (types_of (lookup i engine.issuer_content_types)) ct

-- Adds a reference to the list of the references used.
abbrev pub with_ref : EvidenceSet → StatementRef → EvidenceSet
with_ref ev ref = record ev { refs = ev.refs ++ ref ∷ [] }

-- `_CT_TO_FIELD`: the statement replaces an earlier one of its type; other types are left out.
unfoldable pub file_statement : EvidenceSet → StatementRef → Statement → ContentType → EvidenceSet
file_statement ev ref s contract = record (with_ref ev ref) { contract = some s }
file_statement ev ref s relay = record (with_ref ev ref) { relay = some s }
file_statement ev ref s receipt = record (with_ref ev ref) { receipt = some s }
file_statement ev ref s observation = record (with_ref ev ref) { observation = some s }
file_statement ev ref s manifest = record (with_ref ev ref) { manifest = some s }
file_statement ev ref s _ = ev

module _ (prim : Primitives) (codec : Codec) where
  abbrev key_verifies : Option (String × Bytes) → Statement → Bool
  key_verifies none s = false
  key_verifies (some (i, key)) s = i ≟ iss s && verify_with prim codec s key

  unfoldable pub is_valid : Engine → Statement → Bool
  is_valid engine s = key_verifies (lookup (kid s) engine.trusted_keys) s

  abbrev pub ref_of : Statement → Option ℕ → Option ℕ → Bool → StatementRef
  ref_of s index at valid = record {
    content_type = content_type s;
    iss = iss s;
    kid = kid s;
    statement_hash = statement_hash prim codec s;
    log_index = index;
    registered_at = at;
    signature_valid = valid;
  }

  unfoldable pub gather_entry : Engine → EvidenceSet → Entry → EvidenceSet
  gather_entry engine ev e =
      let s = e.statement in
      let ref = ref_of s e.log_index e.registered_at (is_valid engine s) in
      if is_valid engine s
      then (if authorized engine (iss s) (content_type s)
          then file_statement ev ref s (content_type s)
          else record ev { unauthorized_issuers = ev.unauthorized_issuers ++ ref ∷ [] })
      else record ev { invalid_signatures = ev.invalid_signatures ++ ref ∷ [] }

  unfoldable pub gather_entries : Engine → EvidenceSet → List Entry → EvidenceSet
  gather_entries engine ev [] = ev
  gather_entries engine ev (e ∷ es) = gather_entries engine (gather_entry engine ev e) es

  abbrev is_usable : Engine → Statement → Bool
  is_usable engine s =
      same_type (content_type s) receipt
      && (is_valid engine s && authorized engine (iss s) (content_type s))

  abbrev take_presented : Engine → EvidenceSet → Presented → EvidenceSet
  take_presented engine ev absent = ev
  take_presented engine ev malformed = ev
  take_presented engine ev (copy s) =
      if is_usable engine s
      then record (with_ref ev (ref_of s none none true)) {
        receipt = some s;
        receipt_source = presented_to_user;
      }
      else ev

  abbrev no_receipt : EvidenceSet → Option Statement → EvidenceSet
  no_receipt ev none = record ev { receipt_source = no_source }
  no_receipt ev (some s) = ev

  abbrev fill_receipt : Engine → EvidenceSet → Option Statement → EvidenceSet
  fill_receipt engine ev (some s) = ev
  fill_receipt engine ev none =
      let ev' = take_presented engine ev (presented ev) in no_receipt ev' ev'.receipt

  -- The copy of a receipt that the user was shown stands in for one that is not registered.
  unfoldable pub use_presented : Engine → EvidenceSet → EvidenceSet
  use_presented engine ev = fill_receipt engine ev ev.receipt

  abbrev pub no_evidence : Engine → String → Option PrivateEvidence → ℕ → EvidenceSet
  no_evidence engine sub private now = record {
    sub = sub;
    contract = none;
    relay = none;
    receipt = none;
    observation = none;
    manifest = none;
    private = private;
    reference_model_hashes = engine.reference_model_hashes;
    refs = [];
    invalid_signatures = [];
    unauthorized_issuers = [];
    receipt_source = registered;
    now = now;
  }

  unfoldable pub gather : Engine → String → List Entry → Option PrivateEvidence → ℕ → EvidenceSet
  gather engine sub entries private now =
      use_presented engine (gather_entries engine (no_evidence engine sub private now) entries)

pub data Status : Type 0 where
  passed failed insufficient_evidence : Status

pub data Assurance : Type 0 where
  no_assurance air_local : Assurance

-- `REQUIRED_FOR_PASS`
abbrev pub required_for_pass : List EqId
required_for_pass = e1 ∷ e4 ∷ e5 ∷ e8 ∷ e9 ∷ e10 ∷ e11 ∷ e12 ∷ []

abbrev pub is_grave : Severity → Bool
is_grave observed = false
is_grave _ = true

unfoldable pub any_grave : List Discrepancy → Bool
any_grave [] = false
any_grave (d ∷ ds) = is_grave d.severity || any_grave ds

abbrev pub is_fail : Outcome → Bool
is_fail fail = true
is_fail _ = false

abbrev pub is_pass : Outcome → Bool
is_pass pass = true
is_pass _ = false

unfoldable pub any_failed : Results → List EqId → Bool
any_failed eqs [] = false
any_failed eqs (e ∷ es) = is_fail (eqs e).outcome || any_failed eqs es

unfoldable pub all_pass : Results → List EqId → Bool
all_pass eqs [] = true
all_pass eqs (e ∷ es) = is_pass (eqs e).outcome && all_pass eqs es

-- `_status`
unfoldable pub status : Results → List Discrepancy → Status
status eqs ds =
    if any_grave ds
    then failed
    else if any_failed eqs all_ids
    then failed
    else if all_pass eqs required_for_pass
    then passed
    else insufficient_evidence

abbrev plain : Code → Severity → Attribution → Discrepancy
plain cd sv a = record { code = cd; severity = sv; equations = []; attribution = a }

abbrev pub bad_signature : StatementRef → Discrepancy
bad_signature ref = plain sig_invalid contradiction (issuer ref.iss)

abbrev pub bad_issuer : StatementRef → Discrepancy
bad_issuer ref = plain issuer_unauthorized violation (issuer ref.iss)

abbrev client_time : Option Contract → Option ℕ
client_time none = none
client_time (some c) = some c.client_time

-- `ref.registered_at - client_time > threshold`
abbrev pub is_late : ℕ → ℕ → Option ℕ → Bool
is_late threshold sent none = false
is_late threshold sent (some at) = ltb (sent + threshold) at

unfoldable pub any_late : ℕ → ℕ → List StatementRef → Bool
any_late threshold sent [] = false
any_late threshold sent (ref ∷ refs) =
    is_late threshold sent ref.registered_at || any_late threshold sent refs

-- `_late_registrations` is not empty.
unfoldable pub has_late : ℕ → Option ℕ → List StatementRef → Bool
has_late threshold none refs = false
has_late threshold (some sent) refs = any_late threshold sent refs

abbrev one_if : Bool → Discrepancy → List Discrepancy
one_if true d = d ∷ []
one_if false d = []

abbrev is_gap : CompletenessStatus → Bool
is_gap gap = true
is_gap _ = false

-- The first attempt id that is there: of the contract, the observation, the receipt, the relay.
abbrev first_id : List String → String
first_id [] = "unknown"
first_id (a ∷ as_) = a

abbrev pub id_or_none : {A : Type 0} → (A → String) → Option A → List String
id_or_none f none = []
id_or_none f (some a) = if f a ≟ "" then [] else f a ∷ []

unfoldable pub attempt_id : EvidenceSet → String
attempt_id ev = first_id (
    id_or_none (λ (x : Contract). x.attempt_id) (c ev)
    ++ (id_or_none (λ (x : Observation). x.attempt_id) (o ev)
        ++ (id_or_none (λ (x : Receipt). x.attempt_id) (m ev)
            ++ id_or_none (λ (x : Relay). x.attempt_id) (r ev))))

abbrev assure : Status → Option Statement → Assurance
assure passed (some s) = air_local
assure _ _ = no_assurance

pub record Verdict : Type 0 where
  pub attempt : String
  pub verification_status : Status
  pub established_assurance : Assurance
  pub cooperation : List Party
  pub completeness : Assessment
  pub equations : Results
  pub discrepancies : List Discrepancy
  pub evidence_refs : List StatementRef
  pub invalid_signature_refs : List StatementRef
  pub unauthorized_issuer_refs : List StatementRef
  pub policy_hash : String
  pub trust_keys_version : String

module _ (prim : Primitives) (codec : Codec) where
  abbrev presented_differs : ReceiptSource → Option Statement → Presented → Bool
  presented_differs registered (some s) (copy p) =
      not (statement_hash prim codec p ≟ statement_hash prim codec s)
  presented_differs _ _ _ = false

  -- The discrepancies beside those of the equations.
  unfoldable pub further_discrepancies :
      Engine → EvidenceSet → CompletenessStatus → List Discrepancy
  further_discrepancies engine ev completeness =
      map bad_signature ev.invalid_signatures
      ++ (map bad_issuer ev.unauthorized_issuers
          ++ (one_if (presented_differs ev.receipt_source ev.receipt (presented ev))
                (plain receipt_presented_differs contradiction relay_only)
              ++ (one_if (is_gap completeness) (plain gap_code observed no_attribution)
                  ++ one_if (has_late engine.late_threshold_ms (client_time (c ev)) ev.refs)
                      (plain late observed no_attribution))))

  unfoldable pub verdict_from : Engine → EvidenceSet → List Party → Results → Verdict
  verdict_from engine ev expected eqs =
      let assessment = assess_completeness ev expected in
      let ds =
        classify eqs (present_parties ev) ++ further_discrepancies engine ev assessment.status in
      record {
        attempt = attempt_id ev;
        verification_status = status eqs ds;
        established_assurance = assure (status eqs ds) ev.receipt;
        cooperation = present_parties ev;
        completeness = assessment;
        equations = eqs;
        discrepancies = ds;
        evidence_refs = ev.refs;
        invalid_signature_refs = ev.invalid_signatures;
        unauthorized_issuer_refs = ev.unauthorized_issuers;
        policy_hash = engine.policy_hash;
        trust_keys_version = engine.trust_keys_version;
      }

  -- `none` is the ValueError that E1 may raise.
  unfoldable pub reconcile : Engine → EvidenceSet → List Party → Option Verdict
  reconcile engine ev expected = elim (evaluate_equations prim ev) [
    | none ↦ none
    | some eqs ↦ some (verdict_from engine ev expected eqs)
  ]
