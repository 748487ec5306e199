-- ===== src/Examples/Parties.antt =====
-- Runs of the parties: a queue that drops and delivers, a request for a verdict, an executed request.
use custody.Base.{
  ℕ, suc, ◌+◌, ◌≡◌, ◌≤◌, refl, String, true, false, List, [], ◌∷◌, ◌++◌, Option, none, some, length,
  replicate, arith,
}
use custody.Crypto.{hex}
use custody.Statements.{Statement, Contract, contract, contract_payload}
use custody.Reconcile.Engine.{Engine}
use custody.Enforce.UserGate.{Gate, Delivery, strict, protect, accept, decide, local_checks}
use custody.Ts.Log.{Log}
use custody.Ts.Service.{TransparencyService}
use custody.Sim.ThirdParty.{ThirdParty}
use custody.Sim.EvidenceQueue.{Evidence, statement, QueueItem, EvidenceQueue, enqueue, flush}
use custody.Sim.EvidenceQueue.Order.{
  Enqueued, enqueue-Enqueued, Call, put, flush_at, run_calls, run_calls-bounded,
}
use custody.Sim.EvidenceQueue.Delivery.{Flushes, flush-Flushes}
use custody.Sim.Messages.{Bodies, WireRequest, commit_body}
use custody.Sim.PreExec.{skipped}
use custody.Sim.ModelOperator.{
  signed_receipt, execution_of, MockModel, ModelOperator, World, Served, answer, served, serve,
}
use custody.Sim.Untampered.{IsUntampered, served_accept}
use custody.Examples.{
  toy, toy_hash-AreBytes, toy_key, toy_key-Works, toy_log_codec, the_contract, user_contract,
  model_receipt, nonce,
}
use custody.Examples.Logs.{empty_log}

-- A log that trusts the user's key.
abbrev pub trusting_log : Log
trusting_log = record empty_log {
  trusted = ("kU", ("U", 1 ∷ [])) ∷ [];
  issuer_content_types = ("U", contract ∷ []) ∷ [];
}

abbrev pub engine : Engine
engine = record {
  trusted_keys = ("kU", ("U", 1 ∷ [])) ∷ [];
  reference_model_hashes = [];
  policy_hash = "p";
  trust_keys_version = "1";
  issuer_content_types = ("U", contract ∷ []) ∷ [];
  late_threshold_ms = 1000;
}

abbrev pub third_party : ThirdParty
third_party = record {
  iss = "T";
  key = toy_key "kT" 9;
  service = record {
    log = trusting_log;
    base_delay_ms = 15;
    extra_delay_ms = 0;
    down = false;
    submissions = 0;
    refusals = 0;
  };
  engine = engine;
  anchors = record { records = [] };
  private = [];
  verdicts = [];
  misjudge = false;
  expected_parties = [];
}

abbrev pub down_party : ThirdParty
down_party = record third_party { service = record third_party.service { down = true } }

abbrev small_queue : EvidenceQueue
small_queue = record {
  owner = "U";
  capacity = 1;
  items = [];
  dropped = [];
  receipts = [];
  held = [];
}

abbrev full_queue : EvidenceQueue
full_queue = record small_queue {
  items = record { sub = "urn:itx:req:1"; payload = statement user_contract; enqueued_at = 5 } ∷ [];
}

abbrev the_calls : List Call
the_calls =
    put "urn:itx:req:1" (statement user_contract) 5
    ∷ flush_at down_party 6
    ∷ put "urn:itx:req:1" (statement model_receipt) 7
    ∷ flush_at third_party 8
    ∷ []

run_calls-bounded_example : length (run_calls toy toy_log_codec small_queue the_calls).items ≤ 1
run_calls-bounded_example = run_calls-bounded toy toy_log_codec small_queue the_calls (omega arith)

enqueue_example :
    Enqueued full_queue
      (record { sub = "urn:itx:req:1"; payload = statement model_receipt; enqueued_at = 7 })
      (enqueue full_queue "urn:itx:req:1" (statement model_receipt) 7)
enqueue_example = enqueue-Enqueued full_queue "urn:itx:req:1" (statement model_receipt) 7

flush_example :
    Flushes toy toy_log_codec full_queue third_party full_queue.items
      (flush toy toy_log_codec full_queue third_party 8).0
      (flush toy toy_log_codec full_queue third_party 8).1
      (flush toy toy_log_codec full_queue third_party 8).2
flush_example = flush-Flushes toy toy_log_codec full_queue third_party 8 (toy_key-Works "kT" 9, tt)

abbrev pub toy_bodies : Bodies
toy_bodies = record { Body = ℕ; canonical_json = λ n. n ∷ [] }

abbrev salt : String
salt = "0505050505050505050505050505050505050505050505050505050505050505"

abbrev pub wire : WireRequest toy_bodies
wire = record {
  sub = "urn:itx:req:1";
  attempt_id = "a-1";
  nonce = some nonce;
  salt = some salt;
  body = 7;
  requested_model = "m-1";
}

abbrev the_model : MockModel toy_bodies
the_model = record {
  model_id = "m-1";
  version = "1";
  manifest_hash = salt;
  latency_ms = 200;
  infer = λ n. n + 1;
}

abbrev the_operator : ModelOperator toy_bodies
the_operator = record {
  iss = "M";
  key = toy_key "kM" 3;
  models =
      (
        "m-1",
        record {
          model_id = "m-1";
          version = "1";
          manifest_hash = salt;
          latency_ms = 200;
          infer = λ n. n + 1;
        },
      )
      ∷ [];
  issue_receipts = true;
  pre_exec_enforce = false;
  collude = false;
  queue = small_queue;
  cti = 0;
}

abbrev world : World toy_bodies
world = record { operator = the_operator; third_party = down_party; now = 1000 }

abbrev after_serving : World toy_bodies × Served toy_bodies
after_serving = serve toy_bodies toy toy_log_codec world "m-1" wire

-- The receipt that M signs 202 ms later.
abbrev given : Statement
given =
    signed_receipt toy_bodies toy toy_log_codec (record world { now = 1202 }) wire "cti-0001"
      the_model (execution_of toy_bodies the_model skipped (some salt) (some salt))

serves :
    serve toy_bodies toy toy_log_codec world "m-1" wire
    ≡ (after_serving.0, answer (some 8) (some given) served)
unfolding serve custody.Base.lookup custody.Sim.PreExec.pre_exec_check commit_body
    custody.Crypto.commit_hex custody.Crypto.from_hex custody.Crypto.digit_value
    custody.Crypto.is_space hex custody.Crypto.nibble custody.Crypto.commit
    custody.Sim.ModelOperator.give_receipt flush custody.Sim.EvidenceQueue.flush_items enqueue
    custody.Sim.EvidenceQueue.saturate custody.Sim.EvidenceQueue.deliver
    custody.Sim.ThirdParty.submit custody.Ts.Service.submit custody.Sim.ModelOperator.cti_text
    custody.Crypto.Decimal.decimal custody.Crypto.Decimal.number_text
serves = refl

abbrev protecting : Gate
protecting = record {
  mode = protect;
  trusted_model_keys = ("kM", 3 ∷ []) ∷ [];
  reference_model_hashes = [];
  allow_tool_directives = false;
}

abbrev delivered : Delivery
delivered = record {
  contract = the_contract;
  received_commit = salt;
  tool_call = none;
  inline_receipt = some given;
  inline_relay = none;
  now = 1300;
  expected_request_commits = [];
}

commits : commit_body toy toy_bodies (some salt) 8 ≡ some (some salt)
unfolding commit_body custody.Crypto.commit_hex custody.Crypto.from_hex hex custody.Crypto.commit
commits = refl

accepts :
    (decide protecting
      (local_checks toy toy_log_codec.statements protecting delivered)
      1300
      1300
      none
      false).action
    ≡ accept
unfolding decide custody.Enforce.UserGate.some_check local_checks custody.Base.lookup
    custody.Statements.Envelope.issue custody.Statements.Envelope.verify_with hex
    custody.Crypto.from_hex custody.Ts.Merkle.bytes_eq custody.Sim.ModelOperator.receipt_fields
    custody.Enforce.UserGate.bind_request custody.Base.contains custody.Enforce.UserGate.route_check
accepts = refl

served_accept_example :
    IsUntampered toy_bodies toy toy_log_codec toy_hash-AreBytes wire world "m-1" delivered 8 8
served_accept_example =
    served_accept toy_bodies toy toy_log_codec toy_hash-AreBytes wire protecting delivered world
      after_serving.0 "m-1" 8 8 given served (some salt) 1300 1300 none false serves refl commits
      accepts
