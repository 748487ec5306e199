-- ===== src/Audit/Replay/Passed.antt =====
-- What the verdicts `passed` of a log rest on, when an audit of it has no finding.
use custody.Base.{
  ◌≡◌, refl, ap, sym, ◌∙◌, String, Bool, true, false, List, Option, none, some, contains, arith,
  eq_iff,
}
use mathlib.Core.Path.{subst}
use custody.Crypto.{Bytes, Primitives, from_hex}
use custody.Statements.{verdict_payload, VerdictFields}
use custody.Statements.Envelope.{sub, payload, issued_at}
use custody.Reconcile.Evidence.{PrivateEvidence, EvidenceSet}
use custody.Reconcile.Engine.{
  Engine, Verdict, Status, passed, failed, insufficient_evidence, gather,
}
use custody.Reconcile.Engine.Verdicts.{EndToEnd, passed-EndToEnd}
use custody.Reconcile.VerdictPayload.{verdict_fields, status_text}
use custody.Ts.Log.{LogCodec}
use custody.Ts.Anchor.{Checkpoint, AnchorCheck}
use custody.Audit.HeldReceipts.{AuditEntry, HeldAudit}
use custody.Audit.VerdictSignature.{sorted, verdict_signature, same_signature}
use custody.Audit.Verdicts.{
  Auditor, Comparison, Checked, envelope_problem, is_verdict, compare_verdict, compare_to,
  private_for, recompute, snapshot, evidence_of, expected_of,
}
use custody.Audit.Replay.{
  Export, Inputs, Trust, Report, judged_subs, all_confirmed, auditor_of, report_of, with_trust,
  with_key, read_policy, replay_audit,
}
use custody.Audit.Replay.Confirmed.{
  In, Confirms, check_sub-Confirms, check_subs-contains, contains-sorted, some-injective,
}

-- The status text is that of one status.
status_text-passed : (s : Status) → status_text s ≡ "passed" → s ≡ passed
status_text-passed passed h = refl
status_text-passed failed h = absurd (ground (arith, eq_iff "failed" "passed"))
status_text-passed insufficient_evidence h =
    absurd (ground (arith, eq_iff "insufficient_evidence" "passed"))

same_signature-status :
    (v w : VerdictFields)
    → same_signature (verdict_signature v false) (verdict_signature w false) ≡ true
    → v.verification_status ≡ w.verification_status
unfolding same_signature verdict_signature
same_signature-status v w h = ground (arith, eq_iff v.verification_status w.verification_status)

module _ (prim : Primitives) (codec : LogCodec) (private_bytes : PrivateEvidence → Bytes) where
  -- The evidence on which the auditor judges a verdict again.
  abbrev pub evidence_before : Engine → List AuditEntry → AuditEntry → PrivateEvidence → EvidenceSet
  evidence_before engine entries e priv =
      gather prim codec.statements engine (sub e.statement)
        (snapshot (evidence_of entries (sub e.statement)) e.index) (some priv)
        (issued_at e.statement)

  compare_to-passed :
      (e : AuditEntry) (last : VerdictFields) (o : Option Verdict) (c : Comparison)
      → compare_to prim codec.statements private_bytes e last false o ≡ some c
      → c.matches ≡ true
      → last.verification_status ≡ "passed"
      → (mine : Verdict) × (o ≡ some mine) × (mine.verification_status ≡ passed)
  unfolding verdict_fields
  compare_to-passed e last none c h m p = cc
  compare_to-passed e last (some mine) c h m p =
      let q = ap (λ (x : Comparison). x.matches) (some-injective _ c h) ∙ m in
      (
        mine,
        refl,
        status_text-passed mine.verification_status
            (sym (same_signature-status last (verdict_fields mine) q) ∙ p),
      )

  compare_verdict-with :
      (engine : Engine) (a : Auditor) (entries : List AuditEntry) (e : AuditEntry)
      (last : VerdictFields) (priv : PrivateEvidence)
      → payload e.statement ≡ verdict_payload last
      → private_for prim codec.statements private_bytes a (sub e.statement) last ≡ some priv
      → compare_verdict prim codec.statements private_bytes engine a entries (sub e.statement) e
        ≡ compare_to prim codec.statements private_bytes e last false (
            recompute prim codec.statements private_bytes engine a entries
              (sub e.statement)
              (some priv)
              e.index
              (issued_at e.statement))
  unfolding compare_verdict
  compare_verdict-with engine a entries e last priv l q = rw l (rw q refl)

  Confirms-EndToEnd :
      (engine : Engine) (a : Auditor) (entries : List AuditEntry) (e : AuditEntry)
      (last : VerdictFields) (priv : PrivateEvidence)
      → Confirms prim codec private_bytes engine a entries (sub e.statement) e
      → payload e.statement ≡ verdict_payload last
      → last.verification_status ≡ "passed"
      → private_for prim codec.statements private_bytes a (sub e.statement) last ≡ some priv
      → EndToEnd prim (evidence_before engine entries e priv)
  unfolding recompute
  Confirms-EndToEnd engine a entries e last priv k l p q =
      let c = sym (compare_verdict-with engine a entries e last priv l q) ∙ k.compared in
      let (mine, r, s) = compare_to-passed e last _ k.comparison c k.same p in
      passed-EndToEnd prim codec.statements engine (evidence_before engine entries e priv)
        (expected_of a (sub e.statement)) mine r s

  module _ (verify_tsa : Checkpoint → Option String) where
    -- The verdict is T's, and the evidence for it stood in the log before it.
    pub record Rests (export : Export) (inputs : Inputs) (e : AuditEntry) (priv : PrivateEvidence)
        (ts_pub : Bytes) : Type 0 where
      pub trust : Trust
      pub read : read_policy prim codec private_bytes verify_tsa export inputs ts_pub ≡ some trust
      pub authentic :
          envelope_problem prim codec.statements private_bytes
            (auditor_of prim codec private_bytes verify_tsa export inputs ts_pub)
            e.statement
          ≡ none
      pub evidence : EndToEnd prim (evidence_before trust.engine export.entries e priv)

    report_of-checked :
        (intact : Bool) (head : Option Bool) (trust : Trust) (anchors : Option (List AnchorCheck))
        (held : Option HeldAudit) (checked : Option (List Checked)) (report : Report)
        → report_of prim codec private_bytes verify_tsa intact head trust anchors held checked
          ≡ some report
        → report.ok ≡ true
        → (cs : List Checked) × (checked ≡ some cs) × (all_confirmed cs ≡ true)
    report_of-checked intact (some h) trust (some an) (some he) (some cs) report e k =
        let q = ap (λ (x : Report). x.ok) (some-injective _ report e) ∙ k in
        (cs, refl, ground arith)
    report_of-checked intact none trust an he cs report e k = cc
    report_of-checked intact (some h) trust none he cs report e k = cc
    report_of-checked intact (some h) trust (some an) none cs report e k = cc
    report_of-checked intact (some h) trust (some an) (some he) none report e k = cc

    with_trust-Rests :
        (export : Export) (inputs : Inputs) (ts_pub : Bytes) (o : Option Trust) (report : Report)
        (e : AuditEntry) (last : VerdictFields) (priv : PrivateEvidence)
        → read_policy prim codec private_bytes verify_tsa export inputs ts_pub ≡ o
        → with_trust prim codec private_bytes verify_tsa export inputs ts_pub o ≡ some report
        → report.ok ≡ true
        → In e export.entries
        → is_verdict e ≡ true
        → contains (judged_subs export.entries) (sub e.statement) ≡ true
        → payload e.statement ≡ verdict_payload last
        → last.verification_status ≡ "passed"
        → private_for prim codec.statements private_bytes
            (auditor_of prim codec private_bytes verify_tsa export inputs ts_pub)
            (sub e.statement)
            last
          ≡ some priv
        → Rests export inputs e priv ts_pub
    with_trust-Rests export inputs ts_pub none report e last priv rp h k i v j l p q = cc
    with_trust-Rests export inputs ts_pub (some trust) report e last priv rp h k i v j l p q =
        let a = auditor_of prim codec private_bytes verify_tsa export inputs ts_pub in
        let (cs, ec, all) = report_of-checked _ _ trust _ _ _ report h k in
        let (c, es, m, n) =
          check_subs-contains prim codec private_bytes verify_tsa trust.engine a export.entries
            (sorted (judged_subs export.entries)) cs (sub e.statement) ec all
            (contains-sorted (sub e.statement) (judged_subs export.entries) j) in
        let confirmed =
          check_sub-Confirms prim codec private_bytes trust.engine a export.entries
            (sub e.statement) c e es m n i refl v in
        record {
          trust = trust;
          read = rp;
          authentic = confirmed.authentic;
          evidence = Confirms-EndToEnd trust.engine a export.entries e last priv confirmed l p q;
        }

    -- If `replay_audit` reports no finding for an export, then every verdict `passed` in it, for a
    -- request that some other statement is about and whose private evidence the auditor has, is in
    -- the envelope of T, and the evidence that stood in the log before it, judged with the keys of
    -- the log's policy, holds a contract, a receipt and an observation for which `EndToEnd` holds.
    -- T's own reconciliation is not trusted.
    pub replay_audit-Rests :
        (export : Export) (inputs : Inputs) (ts_pub : Bytes) (report : Report) (e : AuditEntry)
        (last : VerdictFields) (priv : PrivateEvidence)
        → from_hex export.ts_public_key ≡ some ts_pub
        → replay_audit prim codec private_bytes verify_tsa export inputs ≡ some report
        → report.ok ≡ true
        → In e export.entries
        → is_verdict e ≡ true
        → contains (judged_subs export.entries) (sub e.statement) ≡ true
        → payload e.statement ≡ verdict_payload last
        → last.verification_status ≡ "passed"
        → private_for prim codec.statements private_bytes
            (auditor_of prim codec private_bytes verify_tsa export inputs ts_pub)
            (sub e.statement)
            last
          ≡ some priv
        → Rests export inputs e priv ts_pub
    unfolding replay_audit
    replay_audit-Rests export inputs ts_pub report e last priv key h k i v j l p q =
        with_trust-Rests export inputs ts_pub _ report e last priv refl
          (subst (λ o. with_key prim codec private_bytes verify_tsa export inputs o ≡ some report)
            key h)
          k i v j l p q
