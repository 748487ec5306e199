-- ===== src/Examples/Verdicts.antt =====
-- Verdicts on an honest run, and on runs in which the relay changed the response or the request.
use custody.Base.{◌≡◌, ◌≢◌, refl, true, false, List, [], ◌∷◌, none, some, contains, lookup, eq_iff}
use custody.Crypto.{commit_hex, commit, from_hex, digit_value, is_space, hex, nibble}
use custody.Statements.{contract, relay, receipt, observation, Statement, receipt_payload}
use custody.Reconcile.Evidence.{
  EvidenceSet, PrivateEvidence, Party, user, relay_party, model_operator, registered,
  present_parties,
}
use custody.Reconcile.Equations.{
  EqResult, result, pass, third_party_salted, results, e10, e4, fail, evaluate_equations, eq1, eq2,
  eq3, eq4, eq5, eq6, eq7, eq8, eq9, eq10, eq11, eq12, judge_request, all_recomputable, all_same,
  attempt_ids, is_approved, is_identity_only, is_recomputable_request_transform, judge_route,
  matches_expected, only_identity,
}
use custody.Reconcile.Discrepancies.{
  resp_unapproved, req_unapproved, violation, relay_only, Discrepancy,
}
use custody.Reconcile.Discrepancies.{classify, classify_from, explain, has_model_operator}
use custody.Reconcile.Completeness.{
  after_model, after_relay, assess_completeness, completeness_status, missing, missing_of,
  receipt_refused, relay_refused,
}
use custody.Statements.Envelope.{statement_hash}
use custody.Reconcile.Engine.{
  all_pass, any_failed, any_late, attempt_id, further_discrepancies, has_late, status, any_grave,
  Engine, Verdict, verdict_from, reconcile, passed, failed, Entry, gather, all_pass, any_failed,
  any_late, attempt_id, further_discrepancies, has_late, status, any_grave,
}
use custody.Reconcile.Engine.Verdicts.{EndToEnd, passed-EndToEnd}
use custody.Reconcile.Engine.Grounds.{Grounds, failed-Grounds}
use custody.Reconcile.Engine.Gathering.{IsSound, gather-IsSound}
use custody.Reconcile.Discrepancies.Classification.{Among}
use custody.Reconcile.Engine.Failures.{changed_response-failed, changed_request-failed}
use custody.Examples.{
  toy, toy_codec, request_commit, response_commit, forged_commit, the_contract, receipt_for,
  the_observation, user_contract, relay_statement, model_receipt, user_observation, signed_by,
}

abbrev parties : List Party
parties = user ∷ relay_party ∷ model_operator ∷ []

abbrev the_engine : Engine
the_engine = record {
  trusted_keys = ("kU", ("U", 1 ∷ [])) ∷ ("kR", ("R", 2 ∷ [])) ∷ ("kM", ("M", 3 ∷ [])) ∷ [];
  reference_model_hashes = ("m-1", forged_commit) ∷ [];
  policy_hash = "p";
  trust_keys_version = "1";
  issuer_content_types =
      ("U", contract ∷ observation ∷ []) ∷ ("R", relay ∷ []) ∷ ("M", receipt ∷ []) ∷ [];
  late_threshold_ms = 1000;
}

abbrev secret : PrivateEvidence
secret = record {
  salt = request_commit;
  request_hash = response_commit;
  response_hash = none;
  expected_request_commits = [];
}

-- The evidence of a run with the given receipt.
abbrev evidence : Statement → EvidenceSet
evidence s = record {
  sub = "urn:itx:req:1";
  contract = some user_contract;
  relay = some relay_statement;
  receipt = some s;
  observation = some user_observation;
  manifest = none;
  private = some secret;
  reference_model_hashes = ("m-1", forged_commit) ∷ [];
  refs = [];
  invalid_signatures = [];
  unauthorized_issuers = [];
  receipt_source = registered;
  now = 2000;
}

abbrev e1_passes : EqResult
e1_passes = result pass third_party_salted

abbrev verdict_on : Statement → Verdict
verdict_on s =
    verdict_from toy toy_codec the_engine (evidence s) parties (results (evidence s) e1_passes)

judged :
    (s : Statement) → reconcile toy toy_codec the_engine (evidence s) parties ≡ some (verdict_on s)
unfolding reconcile evaluate_equations eq1 commit_hex from_hex commit digit_value is_space hex
    nibble
judged s = refl

honest_status : (verdict_on model_receipt).verification_status ≡ passed
unfolding verdict_from results eq2 eq3 eq4 eq5 eq6 eq7 eq8 eq9 eq10 eq11 eq12 judge_request contains
    lookup after_model after_relay assess_completeness completeness_status missing missing_of
    receipt_refused relay_refused classify classify_from explain has_model_operator all_pass
    any_failed any_late attempt_id further_discrepancies has_late all_recomputable all_same
    attempt_ids is_approved is_identity_only is_recomputable_request_transform judge_route
    matches_expected only_identity present_parties statement_hash status any_grave
honest_status = refl

passed_example : EndToEnd toy (evidence model_receipt)
passed_example =
    passed-EndToEnd toy toy_codec the_engine (evidence model_receipt) parties
      (verdict_on model_receipt) (judged model_receipt) honest_status

-- The receipt states no request commit, and the relay's own word is judged in its place.
abbrev silent_receipt : Statement
silent_receipt =
    let stated = receipt_for request_commit response_commit in
    signed_by "kM" 3 "M" receipt (receipt_payload (record stated { request_commit = none })) 1020

silent_status : (verdict_on silent_receipt).verification_status ≡ passed
unfolding verdict_from results eq2 eq3 eq4 eq5 eq6 eq7 eq8 eq9 eq10 eq11 eq12 judge_request contains
    lookup after_model after_relay assess_completeness completeness_status missing missing_of
    receipt_refused relay_refused classify classify_from explain has_model_operator all_pass
    any_failed any_late attempt_id further_discrepancies has_late all_recomputable all_same
    attempt_ids is_approved is_identity_only is_recomputable_request_transform judge_route
    matches_expected only_identity present_parties statement_hash status any_grave
silent_status = refl

-- The model signed another response than the user received.
abbrev other_response : Statement
other_response =
    signed_by "kM" 3 "M" receipt (receipt_payload (receipt_for request_commit forged_commit)) 1020

abbrev other_request : Statement
other_request =
    signed_by "kM" 3 "M" receipt (receipt_payload (receipt_for forged_commit response_commit)) 1020

different : forged_commit ≢ response_commit
different p = let q : false ≡ true = (eq_iff forged_commit response_commit).1 p in cc q

abbrev changed_response_entry : Discrepancy
changed_response_entry = record {
  code = resp_unapproved;
  severity = violation;
  equations = e10 ∷ [];
  attribution = relay_only;
}

abbrev changed_request_entry : Discrepancy
changed_request_entry = record {
  code = req_unapproved;
  severity = violation;
  equations = e4 ∷ [];
  attribution = relay_only;
}

no_transform : is_identity_only the_contract.allowed_response_transforms ≡ true
unfolding is_identity_only
no_transform = refl

changed_response_example :
    ((verdict_on other_response).verification_status ≡ failed)
    × Among changed_response_entry (verdict_on other_response).discrepancies
changed_response_example =
    changed_response-failed toy toy_codec the_engine (evidence other_response) parties
      (verdict_on other_response) (judged other_response) the_contract
      (receipt_for request_commit forged_commit) the_observation forged_commit refl refl refl
      no_transform refl different

e10_fails : ((verdict_on other_response).equations e10).outcome ≡ fail
unfolding verdict_from results eq10 is_identity_only contains
e10_fails = refl

abbrev entries : List Entry
entries =
    record { log_index = some 1; registered_at = some 1100; statement = user_contract }
    ∷ record { log_index = some 2; registered_at = some 1110; statement = relay_statement }
    ∷ record { log_index = some 3; registered_at = some 1120; statement = model_receipt }
    ∷ []

gather_example :
    IsSound toy toy_codec the_engine
      (gather toy toy_codec the_engine "urn:itx:req:1" entries (some secret) 2000)
gather_example = gather-IsSound toy toy_codec the_engine "urn:itx:req:1" entries (some secret) 2000

response_failed : (verdict_on other_response).verification_status ≡ failed
unfolding verdict_from results eq2 eq3 eq4 eq5 eq6 eq7 eq8 eq9 eq10 eq11 eq12 judge_request contains
    lookup after_model after_relay assess_completeness completeness_status missing missing_of
    receipt_refused relay_refused classify classify_from explain has_model_operator all_pass
    any_failed any_late attempt_id further_discrepancies has_late all_recomputable all_same
    attempt_ids is_approved is_identity_only is_recomputable_request_transform judge_route
    matches_expected only_identity present_parties statement_hash status any_grave
response_failed = refl

failed-Grounds_example :
    Grounds toy toy_codec (evidence other_response) (verdict_on other_response).equations
failed-Grounds_example =
    failed-Grounds toy toy_codec (evidence other_response) the_engine parties
      (verdict_on other_response) (judged other_response) response_failed

recomputable : all_recomputable the_contract.allowed_request_transforms ≡ true
unfolding all_recomputable is_recomputable_request_transform contains
recomputable = refl

not_approved : is_approved the_contract (some secret) forged_commit ≡ false
unfolding is_approved contains matches_expected lookup
not_approved = refl

changed_request_example :
    ((verdict_on other_request).verification_status ≡ failed)
    × Among changed_request_entry (verdict_on other_request).discrepancies
changed_request_example =
    changed_request-failed toy toy_codec the_engine (evidence other_request) parties
      (verdict_on other_request) (judged other_request) the_contract
      (receipt_for forged_commit response_commit) secret forged_commit refl refl refl refl
      recomputable not_approved
