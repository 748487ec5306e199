-- ===== src/Sim/ModelOperator.antt =====
-- itx/sim/parties/model_operator.py: the model operator M, its check before the execution and its
-- receipts. The clock of the context is passed on; the timeline is left out. A mock model answers by
-- a function of its own.
pub mod Serving
use custody.Base.{
  ℕ, zero, suc, ◌+◌, ◌-◌, ◌/◌, ◌%◌, String, Bool, true, false, not, List, [], ◌∷◌, ◌++◌, Option,
  none, some, Dict, lookup, contains, ltb, ◌≟◌, ◌&&◌, if◌then◌else◌,
}
use Prim.Native.String
use custody.Crypto.{Primitives, nibble}
use custody.Crypto.Decimal.{number_text}
use custody.Statements.{Statement, Contract, Receipt, receipt, receipt_payload}
use custody.Statements.Envelope.{payload, issue}
use custody.Reconcile.Evidence.{contract_of}
use custody.Ts.Log.{LogCodec, KeyPair, Refusal}
use custody.Sim.ThirdParty.{ThirdParty, lookup_contract}
use custody.Sim.EvidenceQueue.{EvidenceQueue, Flushed, sent, refusal, statement, enqueue, flush}
use custody.Sim.PreExec.{
  PreExec, skipped, unavailable, failed, unverifiable, passed, pre_exec_text, pre_exec_check,
}
use custody.Sim.Messages.{Bodies, WireRequest, commit_body}

-- `SIGN_MS` of context.py
abbrev pub sign_ms : ℕ
sign_ms = 2

pub data Decision : Type 0 where
  served refused : Decision

abbrev pub decision_text : Decision → String
decision_text served = "served"
decision_text refused = "refused"

-- `f"{n:04d}"`
abbrev four_digits : ℕ → String
four_digits n =
    let zeros =
      if ltb n 10 then "000" else if ltb n 100 then "00" else if ltb n 1000 then "0" else "" in
    String.◌++◌ zeros (number_text n)

unfoldable pub cti_text : ℕ → String
cti_text n = String.◌++◌ "cti-" (four_digits n)

module _ (bodies : Bodies) where
  -- `MockModel`
  pub record MockModel : Type 0 where
    pub model_id : String
    pub version : String
    pub manifest_hash : String
    pub latency_ms : ℕ
    pub infer : bodies.Body → bodies.Body

  pub record ModelOperator : Type 0 where
    pub iss : String
    pub key : KeyPair
    pub models : Dict MockModel
    pub issue_receipts : Bool
    pub pre_exec_enforce : Bool
    pub collude : Bool
    pub queue : EvidenceQueue
    pub cti : ℕ

  -- The parties that `serve` changes, and the clock.
  pub record World : Type 0 where
    pub operator : ModelOperator
    pub third_party : ThirdParty
    pub now : ℕ

  -- `raised`: the KeyError of a model or a contract's field that is not there, the ValueError of a
  -- salt, or the RegistrationRefused of a flush.
  pub data Served : Type 0 where
    raised : Served
    answer : Option bodies.Body → Option Statement → Decision → Served

  -- The body of a receipt.
  pub record Execution : Type 0 where
    pub request_commit : Option String
    pub response_commit : Option String
    pub exec_ms : ℕ
    pub check : PreExec
    pub decision : Decision

  abbrev pub refusal_of : Option String → Execution
  refusal_of got = record {
    request_commit = got;
    response_commit = none;
    exec_ms = 0;
    check = failed;
    decision = refused;
  }

  abbrev pub execution_of : MockModel → PreExec → Option String → Option String → Execution
  execution_of model check got given = record {
    request_commit = got;
    response_commit = given;
    exec_ms = model.latency_ms;
    check = check;
    decision = served;
  }

  -- `_receipt`'s payload
  unfoldable pub receipt_fields : WireRequest bodies → String → MockModel → Execution → Receipt
  receipt_fields wire cti model x = record {
    profile = "itx-profile/0.1/receipt (AIR-02-like, evaluation only)";
    cti = cti;
    attempt_id = wire.attempt_id;
    request_commit = x.request_commit;
    response_commit = x.response_commit;
    model_id = model.model_id;
    model_version = model.version;
    model_hash = some model.manifest_hash;
    model_hash_scheme = "sha256-manifest";
    eat_nonce = wire.nonce;
    security_mode = "evaluation";
    attestation_kind = some "mock";
    execution_time_ms = x.exec_ms;
    pre_exec_check = pre_exec_text x.check;
    decision = decision_text x.decision;
  }

  abbrev pub with_cti : World → World
  with_cti w = record w { operator = record w.operator { cti = suc w.operator.cti } }

  abbrev pub later : World → ℕ → World
  later w ms = record w { now = w.now + ms }

  module _ (prim : Primitives) (codec : LogCodec) where
    abbrev after_flush :
        World → Statement → EvidenceQueue × ThirdParty × Flushed → World × Option (Option Statement)
    after_flush w stmt (q, t, sent n) =
        (record w { operator = record w.operator { queue = q }; third_party = t }, some (some stmt))
    after_flush w stmt (q, t, refusal rs) =
        (record w { operator = record w.operator { queue = q }; third_party = t }, none)

    -- The receipt of an execution, signed at the clock's time.
    abbrev pub signed_receipt :
        World → WireRequest bodies → String → MockModel → Execution → Statement
    signed_receipt w wire cti model x =
        issue prim codec.statements w.operator.key.sign w.operator.key.kid w.operator.iss wire.sub
          receipt (receipt_payload (receipt_fields wire cti model x)) w.now

    -- Nothing when M issues no receipts.
    abbrev given_if :
        Bool → World → World × Option (Option Statement) → World × Option (Option Statement)
    given_if true w out = out
    given_if false w out = (w, some none)

    -- `_receipt`; `none` is the RegistrationRefused of the flush.
    unfoldable pub give_receipt :
        World
        → WireRequest bodies
        → String
        → MockModel
        → Execution
        → World × Option (Option Statement)
    give_receipt w wire cti model x =
        let w' = later w sign_ms in
        let stmt = signed_receipt w' wire cti model x in
        let q = enqueue w.operator.queue wire.sub (statement stmt) w'.now in
        let out = after_flush w' stmt (flush prim codec q w.third_party w'.now) in
        given_if w.operator.issue_receipts w out

    abbrev finish :
        Option bodies.Body → Decision → World × Option (Option Statement) → World × Served
    finish response d (w, none) = (w, raised)
    finish response d (w, some stmt) = (w, answer response stmt d)

    -- The refusal of a request whose check failed.
    abbrev refuse : World → WireRequest bodies → MockModel → Option (Option String) → World × Served
    refuse w wire model none = (w, raised)
    refuse w wire model (some got) =
        let x = refusal_of got in
        finish none refused (give_receipt w wire (cti_text w.operator.cti) model x)

    abbrev reply :
        World
        → WireRequest bodies
        → MockModel
        → PreExec
        → bodies.Body
        → Option (Option String)
        → Option (Option String)
        → World × Served
    reply w wire model check response (some got) (some given) =
        let x = execution_of model check got given in
        finish (some response) served (give_receipt w wire (cti_text w.operator.cti) model x)
    reply w wire model check response _ _ = (w, raised)

    -- A colluding M withholds its receipt.
    abbrev withheld : Bool → World → bodies.Body → World × Served → World × Served
    withheld true w response out = (w, answer (some response) none served)
    withheld false w response out = out

    -- The execution of the model.
    abbrev execute : World → WireRequest bodies → MockModel → PreExec → World × Served
    execute w wire model check =
        let w' = later w model.latency_ms in
        let response = model.infer wire.body in
        let got = commit_body prim bodies wire.salt wire.body in
        let given = commit_body prim bodies wire.salt response in
        withheld w.operator.collude w' response (reply w' wire model check response got given)

    abbrev proceed : World → WireRequest bodies → MockModel → Option PreExec → World × Served
    proceed w wire model none = (w, raised)
    proceed w wire model (some failed) =
        refuse (with_cti w) wire model (commit_body prim bodies wire.salt wire.body)
    proceed w wire model (some check) = execute (with_cti w) wire model check

    abbrev with_model : World → WireRequest bodies → Option MockModel → World × Served
    with_model w wire none = (w, raised)
    with_model w wire (some model) =
        proceed w wire model
          (pre_exec_check bodies prim codec w.operator.pre_exec_enforce w.third_party wire w.now)

    unfoldable pub serve : World → String → WireRequest bodies → World × Served
    serve w upstream_model wire = with_model w wire (lookup upstream_model w.operator.models)

    abbrev forge :
        World
        → WireRequest bodies
        → Option MockModel
        → Option (Option String)
        → Option (Option String)
        → World × Option (Option Statement)
    forge w wire none got given = (w, none)
    forge w wire (some model) (some got) (some given) =
        let x = execution_of model skipped got given in
        let w' = with_cti w in
        give_receipt w' wire (String.◌++◌ "cti-forged-" (four_digits w'.operator.cti)) model x
    forge w wire (some model) _ _ = (with_cti w, none)

    -- `forge_receipt`: a receipt for a response that the model did not give.
    unfoldable pub forge_receipt :
        World → WireRequest bodies → String → bodies.Body → World × Option (Option Statement)
    forge_receipt w wire model_id response =
        forge w wire (lookup model_id w.operator.models)
          (commit_body prim bodies wire.salt wire.body) (commit_body prim bodies wire.salt response)
