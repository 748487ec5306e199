-- ===== src/Examples/Replays.antt =====
-- An audit of a log in which T registered the verdict `passed` on an honest run.
use custody.Base.{
  ℕ, ◌≡◌, refl, String, true, false, List, [], ◌∷◌, Option, none, some, inl, inr, contains,
}
use custody.Crypto.{hex, from_hex}
use custody.Statements.{
  Statement, signed, Policy, policy, verdict, contract, relay, receipt, observation, policy_payload,
  verdict_payload, VerdictFields,
}
use custody.Statements.Envelope.{statement_hash, payload}
use custody.Reconcile.Evidence.{PrivateEvidence}
use custody.Reconcile.Engine.{Engine, Verdict}
use custody.Reconcile.VerdictPayload.{verdict_fields}
use custody.Ts.Log.{Log, TreeHead, tree_head}
use custody.Ts.Anchor.{Checkpoint}
use custody.Audit.HeldReceipts.{AuditEntry, HeldAudit, no_receipts}
use custody.Audit.TreeCheck.{audit_leaves}
use custody.Audit.VerdictSignature.{verdict_signature}
use custody.Audit.Verdicts.{Comparison, is_verdict, private_for}
use custody.Audit.Replay.{Export, Inputs, Report, judged_subs, auditor_of, replay_audit}
use custody.Audit.Replay.Passed.{Rests, replay_audit-Rests}
use custody.Examples.{
  toy, toy_hash, toy_codec, toy_log_codec, user_contract, relay_statement, model_receipt,
  user_observation, request_commit, response_commit, forged_commit,
}
use custody.Examples.Logs.{empty_log}

abbrev the_policy : Policy
the_policy = record {
  profile = "itx-profile/0.1/policy";
  version = 1;
  ts_id = "log-1";
  ts_iss = "T";
  allowed_content_types = contract ∷ relay ∷ receipt ∷ observation ∷ verdict ∷ [];
  sub_pattern = "urn:itx:";
  trusted_keys =
      ("kU", record { iss = "U"; public_key = "01" })
      ∷ ("kR", record { iss = "R"; public_key = "02" })
      ∷ ("kM", record { iss = "M"; public_key = "03" })
      ∷ [];
  issuer_content_types =
      ("U", contract ∷ observation ∷ []) ∷ ("R", relay ∷ []) ∷ ("M", receipt ∷ []) ∷ [];
}

abbrev by_t : ℕ → String
by_t now = hex (toy_hash (9 ∷ now ∷ []))

abbrev policy_statement : Statement
policy_statement =
    signed "T" "urn:itx:policy:log-1" policy "kT" 900 (policy_payload the_policy) (by_t 900)

abbrev entry : ℕ → Statement → AuditEntry
entry i s = record { index = i; registered_at = 1300; statement = s }

abbrev evidence : List AuditEntry
evidence =
    entry 0 policy_statement
    ∷ entry 1 user_contract
    ∷ entry 2 relay_statement
    ∷ entry 3 model_receipt
    ∷ entry 4 user_observation
    ∷ []

abbrev secret : PrivateEvidence
secret = record {
  salt = request_commit;
  request_hash = response_commit;
  response_hash = none;
  expected_request_commits = [];
}

abbrev inputs : Inputs
inputs = record {
  anchor_records = [];
  private_by_sub = ("urn:itx:req:1", secret) ∷ [];
  expected_parties_by_sub = [];
  reference_model_hashes = ("m-1", forged_commit) ∷ [];
  private_by_hash = [];
  held_receipts = [];
}

-- The fields of T's verdict.
abbrev fields : VerdictFields
fields = record {
  profile = "itx-profile/0.1/verdict";
  attempt_id = "a-1";
  verification_status = "passed";
  established_assurance = "air-local";
  deployment_mode = "evaluation";
  completeness = "complete";
  policy_hash = statement_hash toy toy_codec policy_statement;
  checker_version = "itx-reconcile/0.1.0";
  trust_keys_version = "log-1/keys-v1";
  equations =
      ("E1", "pass")
      ∷ ("E2", "pass")
      ∷ ("E3", "pass")
      ∷ ("E4", "pass")
      ∷ ("E5", "pass")
      ∷ ("E6", "pass")
      ∷ ("E7", "pass")
      ∷ ("E8", "pass")
      ∷ ("E9", "pass")
      ∷ ("E10", "pass")
      ∷ ("E11", "pass")
      ∷ ("E12", "pass")
      ∷ [];
  codes = [];
  evidence =
      statement_hash toy toy_codec user_contract
      ∷ statement_hash toy toy_codec relay_statement
      ∷ statement_hash toy toy_codec model_receipt
      ∷ statement_hash toy toy_codec user_observation
      ∷ [];
  private_evidence_hash = none;
}

abbrev the_verdict : AuditEntry
the_verdict =
    entry 5 (signed "T" "urn:itx:req:1" verdict "kT" 2000 (verdict_payload fields) (by_t 2000))

abbrev entries : List AuditEntry
entries =
    entry 0 policy_statement
    ∷ entry 1 user_contract
    ∷ entry 2 relay_statement
    ∷ entry 3 model_receipt
    ∷ entry 4 user_observation
    ∷ the_verdict
    ∷ []

abbrev export : Export
export = record {
  log_id = "log-1";
  ts_iss = "T";
  ts_kid = "kT";
  ts_public_key = "09";
  policy_hash = some (statement_hash toy toy_codec policy_statement);
  head =
      tree_head toy toy_log_codec
        (record empty_log { leaves = audit_leaves toy toy_log_codec entries }) 3000;
  entries = entries;
}

abbrev no_tsa : Checkpoint → Option String
no_tsa c = none

abbrev no_bytes : PrivateEvidence → List ℕ
no_bytes p = []

abbrev the_report : Option Report
the_report = replay_audit toy toy_log_codec no_bytes no_tsa export inputs

abbrev comparison : Comparison
comparison = record {
  log_index = some 5;
  recomputed = verdict_signature fields false;
  t_verdict = some (verdict_signature fields false);
  matches = true;
}

abbrev no_held : HeldAudit
no_held = record {
  held = 0;
  state = record {
    included = 0;
    missing = [];
    unverifiable = [];
    after_snapshot = [];
    checkpoints = [];
    by_holder = [];
  };
  receipt_checkpoints = [];
  ok = true;
  scope = no_receipts;
}

abbrev report : Report
report = record {
  tree_recomputed_matches_head = true;
  head_signature_valid = true;
  policy_problems = [];
  anchors = [];
  held_receipts = no_held;
  verdicts_checked =
      record {
        sub = "urn:itx:req:1";
        historical_verdicts = comparison ∷ [];
        unauthenticated = [];
        matches = true;
      }
      ∷ [];
  ok = true;
}

audited : replay_audit toy toy_log_codec no_bytes no_tsa export inputs ≡ some report
unfolding replay_audit custody.Crypto.Decimal.number_text custody.Crypto.Decimal.decimal from_hex
    custody.Audit.Replay.read_policy custody.Audit.Replay.policy_entry
    custody.Statements.Envelope.same_type custody.Ts.Log.read_trusted
    custody.Ts.Log.verify_tree_head tree_head hex audit_leaves custody.Ts.Anchor.verify_tree
    custody.Audit.HeldReceipts.verify_held_receipts custody.Audit.HeldReceipts.check_items
    custody.Audit.Replay.check_subs custody.Audit.VerdictSignature.sorted judged_subs
    custody.Base.contains custody.Audit.VerdictSignature.insert_sorted
    custody.Audit.Verdicts.check_sub custody.Audit.Verdicts.verdicts_of
    custody.Audit.Verdicts.envelope_problem custody.Statements.Envelope.verify_with
    custody.Ts.Merkle.bytes_eq custody.Audit.Verdicts.compare_verdicts
    custody.Audit.Verdicts.compare_verdict custody.Audit.Verdicts.recompute
    custody.Reconcile.Engine.reconcile custody.Reconcile.Equations.evaluate_equations
    custody.Reconcile.Equations.eq1 custody.Reconcile.Engine.gather
    custody.Reconcile.Engine.use_presented custody.Reconcile.Engine.gather_entries
    custody.Audit.Verdicts.snapshot custody.Audit.Verdicts.evidence_of
    custody.Reconcile.Engine.gather_entry custody.Reconcile.Engine.is_valid custody.Base.lookup
    custody.Base.insert custody.Reconcile.Engine.authorized custody.Statements.Envelope.has_type
    custody.Reconcile.Engine.file_statement private_for custody.Crypto.commit_hex
    custody.Crypto.commit custody.Audit.TreeCheck.tree_ok custody.Audit.Verdicts.unauthenticated_of
    custody.Ts.Merkle.mth custody.Ts.Merkle.mth_fuel custody.Ts.Merkle.node_hash
    custody.Ts.Merkle.largest_pow2_lt custody.Ts.Merkle.grow_pow2 custody.Ts.Merkle.leaf_hash
    custody.Audit.TreeCheck.in_order statement_hash custody.Ts.Anchor.all_ok verdict_fields
    custody.Audit.VerdictSignature.same_signature custody.Reconcile.Engine.verdict_from
    verdict_signature custody.Reconcile.Engine.status custody.Reconcile.Engine.any_grave
    custody.Reconcile.Discrepancies.classify custody.Reconcile.Equations.results
    custody.Reconcile.Equations.eq2 custody.Reconcile.Equations.eq3 custody.Reconcile.Equations.eq4
    custody.Reconcile.Equations.judge_request custody.Reconcile.Equations.is_approved
    custody.Reconcile.Equations.eq5 custody.Reconcile.Equations.eq6
    custody.Audit.Replay.all_confirmed custody.Audit.VerdictSignature.has_all
    custody.Audit.VerdictSignature.same_dict custody.Audit.VerdictSignature.same_texts
    custody.Reconcile.Completeness.assess_completeness
    custody.Reconcile.Completeness.completeness_status custody.Reconcile.Completeness.missing
    custody.Reconcile.Completeness.missing_of custody.Reconcile.Engine.all_pass
    custody.Reconcile.Engine.any_failed custody.Reconcile.Engine.any_late
    custody.Reconcile.Engine.further_discrepancies custody.Reconcile.Engine.has_late
    custody.Reconcile.Equations.all_same custody.Reconcile.Equations.attempt_ids
    custody.Reconcile.Equations.eq10 custody.Reconcile.Equations.eq11
    custody.Reconcile.Equations.eq12 custody.Reconcile.Equations.eq7 custody.Reconcile.Equations.eq8
    custody.Reconcile.Equations.eq9 custody.Reconcile.Equations.is_identity_only
    custody.Reconcile.Equations.judge_route
audited = refl

key_read : from_hex "09" ≡ some (9 ∷ [])
unfolding from_hex custody.Crypto.digit_value custody.Crypto.is_space
key_read = refl

judged : contains (judged_subs entries) "urn:itx:req:1" ≡ true
unfolding contains judged_subs custody.Statements.Envelope.same_type
judged = refl

private_there :
    private_for toy toy_codec no_bytes
      (auditor_of toy toy_log_codec no_bytes no_tsa export inputs (9 ∷ []))
      "urn:itx:req:1"
      fields
    ≡ some secret
unfolding private_for custody.Base.lookup
private_there = refl

replay_audit_example :
    Rests toy toy_log_codec no_bytes no_tsa export inputs the_verdict secret (9 ∷ [])
unfolding custody.Statements.Envelope.same_type
replay_audit_example =
    replay_audit-Rests toy toy_log_codec no_bytes no_tsa export inputs (9 ∷ []) report the_verdict
      fields secret key_read audited refl (inr (inr (inr (inr (inr (inl refl)))))) refl judged refl
      refl private_there
