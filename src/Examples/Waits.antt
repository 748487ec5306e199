-- ===== src/Examples/Waits.antt =====
-- Requests for a verdict, the wait for one, and M's check before the execution.
use custody.Base.{ℕ, ◌+◌, ◌≡◌, refl, true, false, List, [], ◌∷◌, Option, none, some, arith}
use custody.Statements.{contract}
use custody.Reconcile.Evidence.{Party, user, relay_party, model_operator}
use custody.Reconcile.Equations.{pass}
use custody.Enforce.UserGate.{strict}
use custody.Ts.Log.{Log, LogEntry}
use custody.Sim.ThirdParty.{ThirdParty, request_verdict}
use custody.Sim.ThirdParty.Requests.{Requested, request_verdict-Requested}
use custody.Sim.Waiting.{Pending, decide_attempt}
use custody.Sim.Waiting.Deadline.{InTime, decide_attempt-InTime}
use custody.Sim.Waiting.Acceptance.{Backed, decide_attempt-Backed}
use custody.Sim.PreExec.{pre_exec_check, passed}
use custody.Sim.PreExec.Matching.{Matches, pre_exec_check-passed}
use custody.Examples.{toy_hash-AreBytes, toy, toy_log_codec, user_contract}
use custody.Examples.Parties.{third_party, trusting_log, toy_bodies, wire}

abbrev parties : List Party
parties = user ∷ relay_party ∷ model_operator ∷ []

request_verdict_example :
    Requested toy toy_log_codec third_party "urn:itx:req:1" parties 2000
      (request_verdict toy toy_log_codec third_party "urn:itx:req:1" parties 2000)
request_verdict_example =
    request_verdict-Requested toy toy_log_codec third_party "urn:itx:req:1" parties 2000

abbrev pending : Pending
pending = record {
  gate = record {
    mode = strict;
    trusted_model_keys = [];
    reference_model_hashes = [];
    allow_tool_directives = false;
  };
  checks = λ k. pass;
  received_at = 1000;
  sub = "urn:itx:req:1";
  expected = parties;
  deadline = 2500;
}

in_time_example : InTime 1002 2500 (decide_attempt toy toy_log_codec 40 third_party pending 1002).1
in_time_example =
    decide_attempt-InTime toy toy_log_codec 40 third_party pending 1002 (omega arith) (omega arith)

decide_attempt-Backed_example :
    Backed toy toy_log_codec third_party pending
      (decide_attempt toy toy_log_codec 40 third_party pending 1002).1
decide_attempt-Backed_example =
    decide_attempt-Backed toy toy_log_codec 40 third_party pending 1002 refl refl

-- T has the user's contract.
abbrev informed : ThirdParty
informed = record third_party {
  service = record third_party.service {
    log = record trusting_log {
      entries =
          record { index = 0; statement = user_contract; registered_at = 900; leaf_hash = "" } ∷ [];
    };
  };
}

finds : pre_exec_check toy_bodies toy toy_log_codec true informed wire 1000 ≡ some passed
unfolding pre_exec_check custody.Sim.ThirdParty.lookup_contract
    custody.Ts.Service.service_statements custody.Sim.ThirdParty.first_contract
    custody.Ts.Log.statements_for custody.Statements.Envelope.same_type
    custody.Sim.PreExec.check_contract custody.Sim.Messages.commit_body custody.Crypto.commit_hex
    custody.Crypto.from_hex custody.Crypto.hex custody.Crypto.commit
    custody.Sim.PreExec.compare_commit custody.Base.contains
finds = refl

matches_example : Matches toy_bodies toy toy_log_codec toy_hash-AreBytes wire informed 1000
matches_example =
    pre_exec_check-passed toy_bodies toy toy_log_codec toy_hash-AreBytes wire true informed 1000
      finds
