-- ===== src/Audit/Verdicts.antt =====
-- The fourth check of `replay_audit` of itx/audit/replay.py: every verdict of the log judged again.
use custody.Base.{
  ℕ, String, Bool, true, false, not, List, [], ◌∷◌, ◌++◌, Option, none, some, Dict, lookup, length,
  ltb, ◌≟◌, ◌&&◌, if◌then◌else◌,
}
use custody.Crypto.{Bytes, Primitives, hex}
use custody.Statements.{Statement, verdict, Payload, verdict_payload, VerdictFields}
use custody.Statements.Envelope.{
  Codec, sub, iss, kid, payload, issued_at, content_type, same_type, verify_with,
}
use custody.Reconcile.Evidence.{PrivateEvidence, Party, user, relay_party, model_operator}
use custody.Reconcile.Engine.{Engine, Entry, Verdict, gather, reconcile}
use custody.Reconcile.VerdictPayload.{verdict_fields}
use custody.Audit.HeldReceipts.{AuditEntry}
use custody.Audit.VerdictSignature.{Signature, verdict_signature, same_signature}

-- What the auditor is given beside the engine.
pub record Auditor : Type 0 where
  pub ts_iss : String
  pub ts_kid : String
  pub ts_pub : Bytes
  pub head_time : ℕ
  pub private_by_sub : Dict PrivateEvidence
  pub private_by_hash : Dict PrivateEvidence
  pub expected_parties_by_sub : Dict (List Party)

-- The problems of a verdict's envelope.
pub data EnvelopeProblem : Type 0 where
  other_issuer other_key bad_signature : EnvelopeProblem

-- One comparison of a verdict with its recomputation.
pub record Comparison : Type 0 where
  pub log_index : Option ℕ
  pub recomputed : Signature
  pub t_verdict : Option Signature
  pub matches : Bool

-- One entry of `verdicts_checked`.
pub record Checked : Type 0 where
  pub sub : String
  pub historical_verdicts : List Comparison
  pub unauthenticated : List (ℕ × EnvelopeProblem)
  pub matches : Bool

abbrev pub fields_of : Payload → Option VerdictFields
fields_of (verdict_payload v) = some v
fields_of _ = none

abbrev pub is_verdict : AuditEntry → Bool
is_verdict e = same_type (content_type e.statement) verdict

-- `evidence_entries`
unfoldable pub evidence_of : List AuditEntry → String → List AuditEntry
evidence_of [] s = []
evidence_of (e ∷ es) s =
    let rest = evidence_of es s in
    if sub e.statement ≟ s && not (is_verdict e) then e ∷ rest else rest

-- The entries before the cutoff, as `gather` reads them.
unfoldable pub snapshot : List AuditEntry → ℕ → List Entry
snapshot [] cutoff = []
snapshot (e ∷ es) cutoff =
    let rest = snapshot es cutoff in
    if ltb e.index cutoff
    then record {
      log_index = some e.index;
      registered_at = some e.registered_at;
      statement = e.statement;
    }
      ∷ rest
    else rest

abbrev pub expected_of : Auditor → String → List Party
expected_of a s = elim (lookup s a.expected_parties_by_sub) [
  | none ↦ user ∷ relay_party ∷ model_operator ∷ []
  | some ps ↦ ps
]

abbrev pub all_match : List Comparison → Bool
all_match [] = true
all_match (c ∷ cs) = c.matches && all_match cs

abbrev pub is_none : Option EnvelopeProblem → Bool
is_none none = true
is_none (some p) = false

abbrev pub is_missing : Option PrivateEvidence → Bool
is_missing none = true
is_missing (some p) = false

module _ (prim : Primitives) (codec : Codec) (private_bytes : PrivateEvidence → Bytes) where
  -- `_verdict_envelope_problem`
  unfoldable pub envelope_problem : Auditor → Statement → Option EnvelopeProblem
  envelope_problem a s =
      if not (iss s ≟ a.ts_iss)
      then some other_issuer
      else if not (kid s ≟ a.ts_kid)
      then some other_key
      else if not (verify_with prim codec s a.ts_pub)
      then some bad_signature
      else none

  -- The candidate, if its hash is the one that the verdict names.
  abbrev with_hash : String → Option PrivateEvidence → Option PrivateEvidence
  with_hash h none = none
  with_hash h (some p) = if hex (prim.sha256 (private_bytes p)) ≟ h then some p else none

  abbrev candidate : Auditor → String → Option PrivateEvidence → Option PrivateEvidence
  candidate a h p = elim (lookup h a.private_by_hash) [ none ↦ p | some q ↦ some q ]

  abbrev pub named_private :
      Auditor → Option String → Option PrivateEvidence → Option PrivateEvidence
  named_private a none p = p
  named_private a (some h) p = if h ≟ "" then p else with_hash h (candidate a h p)

  -- The private evidence against which a verdict is judged again.
  unfoldable pub private_for : Auditor → String → VerdictFields → Option PrivateEvidence
  private_for a s v = named_private a v.private_evidence_hash (lookup s a.private_by_sub)

  -- The engine's verdict on what stood in the log.
  unfoldable pub recompute :
      Engine → Auditor → List AuditEntry → String → Option PrivateEvidence → ℕ → ℕ → Option Verdict
  recompute engine a entries s priv cutoff time =
      reconcile prim codec engine
        (gather prim codec engine s (snapshot (evidence_of entries s) cutoff) priv time)
        (expected_of a s)

  abbrev pub compare_to : AuditEntry → VerdictFields → Bool → Option Verdict → Option Comparison
  compare_to e last partial none = none
  compare_to e last partial (some mine) =
      let theirs = verdict_signature last partial in
      let ours = verdict_signature (verdict_fields mine) partial in
      some record {
        log_index = some e.index;
        recomputed = ours;
        t_verdict = some theirs;
        matches = same_signature theirs ours;
      }

  abbrev pub compare_fields :
      Engine
      → Auditor
      → List AuditEntry
      → String
      → AuditEntry
      → Option VerdictFields
      → Option Comparison
  compare_fields engine a entries s e none = none
  compare_fields engine a entries s e (some last) =
      let priv = private_for a s last in
      compare_to e last (is_missing priv)
        (recompute engine a entries s priv e.index (issued_at e.statement))

  -- The comparison for a verdict of the log; `none` is a ValueError or a KeyError.
  unfoldable pub compare_verdict :
      Engine → Auditor → List AuditEntry → String → AuditEntry → Option Comparison
  compare_verdict engine a entries s e =
      compare_fields engine a entries s e (fields_of (payload e.statement))

  -- The comparison when T registered no verdict.
  abbrev compare_none : Bool → Option Verdict → Option Comparison
  compare_none partial none = none
  compare_none partial (some mine) = some record {
    log_index = none;
    recomputed = verdict_signature (verdict_fields mine) partial;
    t_verdict = none;
    matches = false;
  }

  -- `t_verdicts` of a request: the authenticated verdicts.
  unfoldable pub verdicts_of : Auditor → List AuditEntry → String → List AuditEntry
  verdicts_of a [] s = []
  verdicts_of a (e ∷ es) s =
      let rest = verdicts_of a es s in
      if (sub e.statement ≟ s && is_verdict e) && is_none (envelope_problem a e.statement)
      then e ∷ rest
      else rest

  abbrev pub problem_at : ℕ → Option EnvelopeProblem → List (ℕ × EnvelopeProblem)
  problem_at index none = []
  problem_at index (some p) = (index, p) ∷ []

  -- `unauthenticated_verdicts` of a request
  unfoldable pub unauthenticated_of :
      Auditor → List AuditEntry → String → List (ℕ × EnvelopeProblem)
  unauthenticated_of a [] s = []
  unauthenticated_of a (e ∷ es) s =
      let rest = unauthenticated_of a es s in
      if sub e.statement ≟ s && is_verdict e
      then problem_at e.index (envelope_problem a e.statement) ++ rest
      else rest

  abbrev pub cons_comparison :
      Option Comparison → Option (List Comparison) → Option (List Comparison)
  cons_comparison (some c) (some cs) = some (c ∷ cs)
  cons_comparison _ _ = none

  unfoldable pub compare_verdicts :
      Engine → Auditor → List AuditEntry → String → List AuditEntry → Option (List Comparison)
  compare_verdicts engine a entries s [] = some []
  compare_verdicts engine a entries s (e ∷ es) =
      cons_comparison (compare_verdict engine a entries s e)
        (compare_verdicts engine a entries s es)

  -- The comparisons of a request: of its verdicts, or the one without a verdict.
  abbrev pub comparisons :
      Engine → Auditor → List AuditEntry → String → List AuditEntry → Option (List Comparison)
  comparisons engine a entries s [] =
      let priv = lookup s a.private_by_sub in
      cons_comparison
        (compare_none (is_missing priv)
          (recompute engine a entries s priv (length entries) a.head_time))
        (some [])
  comparisons engine a entries s (e ∷ es) = compare_verdicts engine a entries s (e ∷ es)

  abbrev pub checked_of :
      Auditor → List AuditEntry → String → Option (List Comparison) → Option Checked
  checked_of a entries s none = none
  checked_of a entries s (some cs) = some record {
    sub = s;
    historical_verdicts = cs;
    unauthenticated = unauthenticated_of a entries s;
    matches = all_match cs;
  }

  -- The body of the loop over the requests.
  unfoldable pub check_sub : Engine → Auditor → List AuditEntry → String → Option Checked
  check_sub engine a entries s =
      checked_of a entries s (comparisons engine a entries s (verdicts_of a entries s))
