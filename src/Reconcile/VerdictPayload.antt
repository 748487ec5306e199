-- ===== src/Reconcile/VerdictPayload.antt =====
-- The payload of a verdict statement: the dictionary that `reconcile` of itx/reconcile/engine.py
-- returns, read as a verdict's fields.
use custody.Base.{String, none, List, [], ◌∷◌, map, Dict}
use custody.Statements.{VerdictFields}
use custody.Reconcile.Evidence.{StatementRef}
use custody.Reconcile.Equations.{
  EqId, e1, e2, e3, e4, e5, e6, e7, e8, e9, e10, e11, e12, Outcome, pass, fail, not_evaluable,
  Results, all_ids,
}
use custody.Reconcile.Completeness.{CompletenessStatus, complete, gap, not_observable}
use custody.Reconcile.Discrepancies.{
  Code, user_self, req_contradict, req_unapproved, nonce, resp_contradict, resp_unapproved,
  route_unapproved, route_undeclared, model_art, attempt_mismatch, expired, sig_invalid,
  issuer_unauthorized, receipt_presented_differs, gap as gap_code, late, Discrepancy,
}
use custody.Reconcile.Engine.{
  Verdict, Status, passed, failed, insufficient_evidence, Assurance, no_assurance, air_local,
}

abbrev eq_text : EqId → String
eq_text e1 = "E1"
eq_text e2 = "E2"
eq_text e3 = "E3"
eq_text e4 = "E4"
eq_text e5 = "E5"
eq_text e6 = "E6"
eq_text e7 = "E7"
eq_text e8 = "E8"
eq_text e9 = "E9"
eq_text e10 = "E10"
eq_text e11 = "E11"
eq_text e12 = "E12"

-- `DISCREPANCY_DOCS`
abbrev pub code_text : Code → String
code_text user_self = "D-USER-SELF"
code_text req_contradict = "D-REQ-CONTRADICT"
code_text req_unapproved = "D-REQ-UNAPPROVED"
code_text nonce = "D-NONCE"
code_text resp_contradict = "D-RESP-CONTRADICT"
code_text resp_unapproved = "D-RESP-UNAPPROVED"
code_text route_unapproved = "D-ROUTE-UNAPPROVED"
code_text route_undeclared = "D-ROUTE-UNDECLARED"
code_text model_art = "D-MODEL-ART"
code_text attempt_mismatch = "D-ATTEMPT-MISMATCH"
code_text expired = "D-EXPIRED"
code_text sig_invalid = "D-SIG-INVALID"
code_text issuer_unauthorized = "D-ISSUER-UNAUTHORIZED"
code_text receipt_presented_differs = "D-RECEIPT-PRESENTED-DIFFERS"
code_text gap_code = "D-GAP"
code_text late = "D-LATE"

abbrev outcome_text : Outcome → String
outcome_text pass = "pass"
outcome_text fail = "fail"
outcome_text not_evaluable = "not_evaluable"

abbrev pub status_text : Status → String
status_text passed = "passed"
status_text failed = "failed"
status_text insufficient_evidence = "insufficient_evidence"

abbrev assurance_text : Assurance → String
assurance_text no_assurance = "none"
assurance_text air_local = "air-local"

abbrev completeness_text : CompletenessStatus → String
completeness_text complete = "complete"
completeness_text gap = "gap"
completeness_text not_observable = "not_observable"

abbrev equation_texts : Results → List EqId → Dict String
equation_texts eqs [] = []
equation_texts eqs (e ∷ es) = (eq_text e, outcome_text (eqs e).outcome) ∷ equation_texts eqs es

unfoldable pub verdict_fields : Verdict → VerdictFields
verdict_fields v = record {
  profile = "itx-profile/0.1/verdict";
  attempt_id = v.attempt;
  verification_status = status_text v.verification_status;
  established_assurance = assurance_text v.established_assurance;
  deployment_mode = "evaluation";
  completeness = completeness_text v.completeness.status;
  policy_hash = v.policy_hash;
  checker_version = "itx-reconcile/0.1.0";
  trust_keys_version = v.trust_keys_version;
  equations = equation_texts v.equations all_ids;
  codes = map (λ (d : Discrepancy). code_text d.code) v.discrepancies;
  evidence = map (λ (r : StatementRef). r.statement_hash) v.evidence_refs;
  private_evidence_hash = none;
}
