-- ===== src/Sim/ThirdParty.antt =====
-- itx/sim/parties/third_party.py: the third party T, which registers statements, reconciles and
-- signs verdicts. The timeline of `ctx.record` is left out, and `ctx.now()` is an argument.
pub mod Requests
pub mod Lookups
use custody.Base.{
  ℕ, String, Bool, true, false, not, List, [], ◌∷◌, ◌++◌, Option, none, some, map, Dict, lookup,
  insert, if◌then◌else◌,
}
use custody.Crypto.{Primitives}
use custody.Statements.{Statement, verdict, contract, VerdictFields, verdict_payload}
use custody.Statements.Envelope.{content_type, same_type, issue}
use custody.Reconcile.Evidence.{EvidenceSet, PrivateEvidence, Party, StatementRef}
use custody.Reconcile.Equations.{EqId, EqResult, Outcome, pass, fail, not_evaluable, Results}
use custody.Reconcile.VerdictPayload.{verdict_fields}
use custody.Reconcile.Engine.{
  Engine, Entry, Verdict, Status, passed, failed, insufficient_evidence, Assurance, no_assurance,
  air_local, gather, reconcile as engine_reconcile,
}
use custody.Ts.Log.{
  Log, LogCodec, LogEntry, KeyPair, Refusal, Registered, refused, accepted, RegistrationReceipt,
  register, statements_for, tree_head,
}
use custody.Ts.Service.{
  TransparencyService, Submitted, submit as service_submit, service_statements,
}
use custody.Ts.Anchor.{CheckpointAnchor, AnchorRecord, anchor}

pub record ThirdParty : Type 0 where
  pub iss : String
  pub key : KeyPair
  pub service : TransparencyService
  pub engine : Engine
  pub anchors : CheckpointAnchor
  pub private : Dict PrivateEvidence
  pub verdicts : Dict (List Statement)
  pub misjudge : Bool
  pub expected_parties : Dict (List Party)

-- `set_down`
unfoldable pub set_down : ThirdParty → Bool → ThirdParty
set_down t down = record t { service = record t.service { down = down } }

-- `none` is ServiceUnavailable.
unfoldable pub receive_private : ThirdParty → String → PrivateEvidence → Option ThirdParty
receive_private t sub ev =
    if t.service.down then none else some (record t { private = insert sub ev t.private })

-- The first contract among the entries.
unfoldable pub first_contract : List LogEntry → Option Statement
first_contract [] = none
first_contract (e ∷ es) =
    let rest = first_contract es in
    if same_type (content_type e.statement) contract then some e.statement else rest

-- The entries that are no verdicts, as `gather` reads them.
unfoldable pub evidence_entries : List LogEntry → List Entry
evidence_entries [] = []
evidence_entries (e ∷ es) =
    let rest = evidence_entries es in
    if same_type (content_type e.statement) verdict
    then rest
    else record {
      log_index = some e.index;
      registered_at = some e.registered_at;
      statement = e.statement;
    }
      ∷ rest

abbrev acquit : EqResult → EqResult
acquit r = elim r.outcome [ fail ↦ record r { outcome = pass } | _ ↦ r ]

abbrev local_if : Option Statement → Assurance
local_if none = no_assurance
local_if (some s) = air_local

-- The verdict of a T that misjudges: passed, with no discrepancy and no failed equation.
unfoldable pub misjudged : Verdict → Option Statement → Verdict
misjudged v receipt = record v {
  verification_status = passed;
  discrepancies = [];
  equations = λ e. acquit (v.equations e);
  established_assurance = local_if receipt;
}

-- What T makes of the engine's verdict.
abbrev pub reported : ThirdParty → EvidenceSet → Option Verdict → Option Verdict
reported t ev none = none
reported t ev (some v) = some (if t.misjudge then misjudged v ev.receipt else v)

-- What a request for a verdict comes to: T is down, E1 raised a ValueError, the log refused the
-- verdict, or there is a verdict, with its statement if it was registered.
pub data Judged : Type 0 where
  unavailable raised : Judged
  not_registered : List Refusal → Judged
  judged : Verdict → Option Statement → Judged

abbrev is_decisive : Status → Bool
is_decisive insufficient_evidence = false
is_decisive _ = true

-- `setdefault(sub, []).append(stmt)`
abbrev add_verdict : Dict (List Statement) → String → Statement → Dict (List Statement)
add_verdict d sub stmt = elim (lookup sub d) [
  | none ↦ insert sub (stmt ∷ []) d
  | some stmts ↦ insert sub (stmts ++ stmt ∷ []) d
]

abbrev pub with_log : ThirdParty → Log → ThirdParty
with_log t log = record t { service = record t.service { log = log } }

abbrev expecting : ThirdParty → String → List Party → ThirdParty
expecting t sub expected = record t { expected_parties = insert sub expected t.expected_parties }

-- After the log's answer; a refusal is raised.
abbrev kept : ThirdParty → String → Verdict → Statement → Log → Registered → ThirdParty × Judged
kept t sub v stmt log (refused reasons) = (with_log t log, not_registered reasons)
kept t sub v stmt log (accepted receipt) =
    (record (with_log t log) { verdicts = add_verdict t.verdicts sub stmt }, judged v (some stmt))

module _ (prim : Primitives) (codec : LogCodec) where
  unfoldable pub submit : ThirdParty → Statement → ℕ → ThirdParty × Submitted
  submit t stmt now =
      let (service, result) = service_submit prim codec t.service stmt now in
      (record t { service = service }, result)

  -- `none` is ServiceUnavailable, `some none` no contract.
  unfoldable pub lookup_contract : ThirdParty → String → ℕ → Option (Option Statement)
  lookup_contract t sub now = elim (service_statements prim codec t.service sub (some now)) [
    | none ↦ none
    | some entries ↦ some (first_contract entries)
  ]

  -- `reconcile`; `none` is the ValueError of the engine.
  unfoldable pub reconcile : ThirdParty → String → List Party → ℕ → Option Verdict
  reconcile t sub expected now =
      let entries = evidence_entries (statements_for t.service.log.entries sub (some now)) in
      let ev = gather prim codec.statements t.engine sub entries (lookup sub t.private) now in
      reported t ev (engine_reconcile prim codec.statements t.engine ev expected)

  -- The statement of a verdict.
  abbrev pub verdict_statement : ThirdParty → String → Verdict → ℕ → Statement
  verdict_statement t sub v now =
      issue prim codec.statements t.key.sign t.key.kid t.iss sub verdict
        (verdict_payload (verdict_fields v)) now

  -- `_register_verdict`
  unfoldable pub register_verdict : ThirdParty → String → Verdict → ℕ → ThirdParty × Judged
  register_verdict t sub v now =
      let stmt = verdict_statement t sub v now in
      let (log, result) = register prim codec t.service.log stmt now in kept t sub v stmt log result

  abbrev settle_verdict : ThirdParty → String → Option Verdict → ℕ → ThirdParty × Judged
  settle_verdict t sub none now = (t, raised)
  settle_verdict t sub (some v) now =
      let (t', result) = register_verdict t sub v now in
      if is_decisive v.verification_status then (t', result) else (t, judged v none)

  unfoldable pub request_verdict : ThirdParty → String → List Party → ℕ → ThirdParty × Judged
  request_verdict t sub expected now =
      let t' = expecting t sub expected in
      let answer = settle_verdict t' sub (reconcile t' sub expected now) now in
      if t.service.down then (t, unavailable) else answer

  abbrev final_verdict : ThirdParty → String → Option Verdict → ℕ → ThirdParty × Judged
  final_verdict t sub none now = (t, raised)
  final_verdict t sub (some v) now = register_verdict t sub v now

  -- `finalize` registers the verdict whatever its status.
  unfoldable pub finalize : ThirdParty → String → List Party → ℕ → ThirdParty × Judged
  finalize t sub expected now =
      let t' = expecting t sub expected in final_verdict t' sub (reconcile t' sub expected now) now

  unfoldable pub checkpoint : ThirdParty → ℕ → ThirdParty × AnchorRecord
  checkpoint t now =
      let (anchors, rec) = anchor t.anchors (tree_head prim codec t.service.log now) now in
      (record t { anchors = anchors }, rec)
