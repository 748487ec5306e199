-- ===== src/Audit/Replay.antt =====
-- `replay_audit` of itx/audit/replay.py: an exported log checked and every verdict in it judged again,
-- without trust in T.
pub mod Confirmed
pub mod Passed
use custody.Base.{
  ℕ, String, Bool, true, false, not, List, [], ◌∷◌, ◌++◌, Option, none, some, Dict, lookup, insert,
  contains, ◌≟◌, ◌&&◌, ◌||◌, if◌then◌else◌,
}
use Prim.Native.String
use text.Mathlib.Text.{starts_with}
use custody.Crypto.{Bytes, Primitives, from_hex}
use custody.Crypto.Decimal.{number_text}
use custody.Statements.{ContentType, Statement, policy, verdict, Payload, policy_payload, Policy}
use custody.Statements.Envelope.{sub, payload, content_type, same_type, statement_hash, verify_with}
use custody.Reconcile.Evidence.{PrivateEvidence, Party}
use custody.Reconcile.Engine.{Engine}
use custody.Ts.Log.{LogCodec, TreeHead, verify_tree_head, read_trusted, ts_content_types}
use custody.Ts.Anchor.{Checkpoint, AnchorCheck, verify_tree, all_ok}
use custody.Audit.HeldReceipts.{AuditEntry, HeldItem, HeldAudit, Snapshot, verify_held_receipts}
use custody.Audit.TreeCheck.{audit_leaves, tree_ok}
use custody.Audit.VerdictSignature.{sorted}
use custody.Audit.Verdicts.{Auditor, Checked, EnvelopeProblem, check_sub}

-- An exported log.
pub record Export : Type 0 where
  pub log_id : String
  pub ts_iss : String
  pub ts_kid : String
  pub ts_public_key : String
  pub policy_hash : Option String
  pub head : TreeHead
  pub entries : List AuditEntry

-- The arguments beside the export.
pub record Inputs : Type 0 where
  pub anchor_records : List Checkpoint
  pub private_by_sub : Dict PrivateEvidence
  pub expected_parties_by_sub : Dict (List Party)
  pub reference_model_hashes : Dict String
  pub private_by_hash : Dict PrivateEvidence
  pub held_receipts : List HeldItem

pub data PolicyProblem : Type 0 where
  no_policy policy_signature policy_hash_differs : PolicyProblem

-- What the auditor learns from the policy of entry zero.
pub record Trust : Type 0 where
  pub problems : List PolicyProblem
  pub engine : Engine

pub record Report : Type 0 where
  pub tree_recomputed_matches_head : Bool
  pub head_signature_valid : Bool
  pub policy_problems : List PolicyProblem
  pub anchors : List AnchorCheck
  pub held_receipts : HeldAudit
  pub verdicts_checked : List Checked
  pub ok : Bool

-- The first policy statement.
unfoldable pub policy_entry : List AuditEntry → Option Statement
policy_entry [] = none
policy_entry (e ∷ es) =
    let rest = policy_entry es in
    if same_type (content_type e.statement) policy then some e.statement else rest

abbrev policy_of : Payload → Option Policy
policy_of (policy_payload p) = some p
policy_of _ = none

abbrev problem_unless : Bool → PolicyProblem → List PolicyProblem
problem_unless true p = []
problem_unless false p = p ∷ []

abbrev has_text : Option String → String → Bool
has_text none t = false
has_text (some s) t = s ≟ t

-- The request of an entry is judged.
abbrev pub is_judged : AuditEntry → Bool
is_judged e =
    not (same_type (content_type e.statement) verdict)
    && (not (same_type (content_type e.statement) policy)
        && not (starts_with (sub e.statement) "urn:itx:req:session:"))

-- The requests to judge, each once.
unfoldable pub judged_subs : List AuditEntry → List String
judged_subs [] = []
judged_subs (e ∷ es) =
    let rest = judged_subs es in
    if is_judged e
    then (if contains rest (sub e.statement) then rest else sub e.statement ∷ rest)
    else rest

abbrev pub cons_checked : Option Checked → Option (List Checked) → Option (List Checked)
cons_checked (some c) (some cs) = some (c ∷ cs)
cons_checked _ _ = none

abbrev pub none_there : List (ℕ × EnvelopeProblem) → Bool
none_there [] = true
none_there (x ∷ xs) = false

abbrev pub no_problems : List PolicyProblem → Bool
no_problems [] = true
no_problems (x ∷ xs) = false

-- No mismatch and no verdict that is not T's.
unfoldable pub all_confirmed : List Checked → Bool
all_confirmed [] = true
all_confirmed (c ∷ cs) = c.matches && (none_there c.unauthenticated && all_confirmed cs)

module _ (prim : Primitives) (codec : LogCodec) (private_bytes : PrivateEvidence → Bytes)
    (verify_tsa : Checkpoint → Option String) where
  abbrev engine_with :
      Inputs → Dict (String × Bytes) → String → String → Dict (List ContentType) → Engine
  engine_with inputs trusted policy_hash version cts = record {
    trusted_keys = trusted;
    reference_model_hashes = inputs.reference_model_hashes;
    policy_hash = policy_hash;
    trust_keys_version = version;
    issuer_content_types = cts;
    late_threshold_ms = 1000;
  }

  abbrev trust_policy :
      Export → Inputs → Bytes → Statement → Policy → Option (Dict (String × Bytes)) → Option Trust
  trust_policy export inputs ts_pub stmt pol none = none
  trust_policy export inputs ts_pub stmt pol (some keys) =
      let hash = statement_hash prim codec.statements stmt in
      some record {
        problems =
            problem_unless (verify_with prim codec.statements stmt ts_pub) policy_signature
            ++ problem_unless (has_text export.policy_hash hash) policy_hash_differs;
        engine =
            engine_with inputs (insert export.ts_kid (export.ts_iss, ts_pub) keys) hash
              (String.◌++◌ export.log_id (String.◌++◌ "/keys-v" (number_text pol.version)))
              (insert export.ts_iss ts_content_types pol.issuer_content_types);
      }

  abbrev trust_payload : Export → Inputs → Bytes → Statement → Option Policy → Option Trust
  trust_payload export inputs ts_pub stmt none = none
  trust_payload export inputs ts_pub stmt (some pol) =
      trust_policy export inputs ts_pub stmt pol (read_trusted pol.trusted_keys)

  abbrev trust_entry : Export → Inputs → Bytes → Option Statement → Option Trust
  trust_entry export inputs ts_pub none = some record {
    problems = no_policy ∷ [];
    engine = engine_with inputs [] "" "" (insert export.ts_iss ts_content_types []);
  }
  trust_entry export inputs ts_pub (some stmt) =
      trust_payload export inputs ts_pub stmt (policy_of (payload stmt))

  -- The second check: the policy, and the engine that follows from it. `none` is an error that is
  -- raised, also in the definitions below.
  unfoldable pub read_policy : Export → Inputs → Bytes → Option Trust
  read_policy export inputs ts_pub = trust_entry export inputs ts_pub (policy_entry export.entries)

  unfoldable pub check_subs :
      Engine → Auditor → List AuditEntry → List String → Option (List Checked)
  check_subs engine a entries [] = some []
  check_subs engine a entries (s ∷ ss) =
      cons_checked (check_sub prim codec.statements private_bytes engine a entries s)
        (check_subs engine a entries ss)

  abbrev pub auditor_of : Export → Inputs → Bytes → Auditor
  auditor_of export inputs ts_pub = record {
    ts_iss = export.ts_iss;
    ts_kid = export.ts_kid;
    ts_pub = ts_pub;
    head_time = export.head.body.time;
    private_by_sub = inputs.private_by_sub;
    private_by_hash = inputs.private_by_hash;
    expected_parties_by_sub = inputs.expected_parties_by_sub;
  }

  -- The last step.
  abbrev pub report_of :
      Bool
      → Option Bool
      → Trust
      → Option (List AnchorCheck)
      → Option HeldAudit
      → Option (List Checked)
      → Option Report
  report_of intact (some head) trust (some anchors) (some held) (some checked) = some record {
    tree_recomputed_matches_head = intact;
    head_signature_valid = head;
    policy_problems = trust.problems;
    anchors = anchors;
    held_receipts = held;
    verdicts_checked = checked;
    ok =
        (intact && (head && no_problems trust.problems))
        && (all_ok anchors && (all_confirmed checked && held.ok));
  }
  report_of _ _ _ _ _ _ = none

  abbrev pub with_trust : Export → Inputs → Bytes → Option Trust → Option Report
  with_trust export inputs ts_pub none = none
  with_trust export inputs ts_pub (some trust) =
      let leaves = audit_leaves prim codec export.entries in
      let snap : Snapshot = record {
        leaves = leaves;
        entries = export.entries;
        ts_pub = ts_pub;
        log_id = export.log_id;
        head_time = some export.head.body.time;
      } in
      report_of (tree_ok prim codec export.entries export.head)
        (verify_tree_head prim codec export.head ts_pub) trust
        (verify_tree prim.sha256 verify_tsa leaves inputs.anchor_records)
        (verify_held_receipts prim codec verify_tsa snap inputs.held_receipts)
        (check_subs trust.engine (auditor_of export inputs ts_pub) export.entries
          (sorted (judged_subs export.entries)))

  abbrev pub with_key : Export → Inputs → Option Bytes → Option Report
  with_key export inputs none = none
  with_key export inputs (some ts_pub) =
      with_trust export inputs ts_pub (read_policy export inputs ts_pub)

  unfoldable pub replay_audit : Export → Inputs → Option Report
  replay_audit export inputs = with_key export inputs (from_hex export.ts_public_key)
