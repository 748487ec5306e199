-- ===== src/Enforce/UserGate.antt =====
-- itx/enforce/user_gate.py: the local checks and the decision of the user's gate. The reasons, texts
-- for the screen, are left out. Times are milliseconds.
pub mod Decisions
pub mod Checks
use custody.Base.{
  ℕ, ◌-◌, String, Bool, true, false, not, List, [], ◌∷◌, Option, none, some, Dict, lookup, contains,
  ◌≟◌, ◌&&◌, ◌||◌, leb, ltb, if◌then◌else◌,
}
use custody.Crypto.{Bytes, Primitives}
use custody.Statements.{
  Statement, Contract, Receipt, Relay, Payload, contract_payload, relay_payload, receipt_payload,
  observation_payload, verdict_payload,
}
use custody.Statements.Envelope.{Codec, kid, payload, verify_with}
use custody.Reconcile.Evidence.{receipt_of, relay_of}
use custody.Reconcile.Equations.{Outcome, pass, fail, not_evaluable, matches_expected}

pub data Mode : Type 0 where
  observe protect strict : Mode

pub data Check : Type 0 where
  not_expired receipt_present receipt_signature nonce_match request_binding : Check
  response_binding attempt_match model_hash_reference route_allowed tool_policy : Check

abbrev pub all_checks : List Check
all_checks =
    not_expired ∷ receipt_present ∷ receipt_signature ∷ nonce_match ∷ request_binding
    ∷ response_binding ∷ attempt_match ∷ model_hash_reference ∷ route_allowed ∷ tool_policy ∷ []

-- `_REQUIRED_LOCAL_CHECKS`
abbrev pub required_checks : List Check
required_checks = receipt_present ∷ request_binding ∷ response_binding ∷ nonce_match ∷ []

-- The dictionary `checks`: each check has a result.
abbrev pub Checks : Type 0
Checks = Check → Outcome

pub record Gate : Type 0 where
  pub mode : Mode
  pub trusted_model_keys : Dict Bytes
  pub reference_model_hashes : Dict String
  pub allow_tool_directives : Bool

-- The arguments of `local_checks`. Of the response body only its tool call is read.
pub record Delivery : Type 0 where
  pub contract : Contract
  pub received_commit : String
  pub tool_call : Option String
  pub inline_receipt : Option Statement
  pub inline_relay : Option Statement
  pub now : ℕ
  pub expected_request_commits : Dict String

abbrev pub outcome : Bool → Outcome
outcome true = pass
outcome false = fail

-- `m.get(field) == text`
abbrev pub is_text : Option String → String → Bool
is_text none t = false
is_text (some s) t = s ≟ t

abbrev declares : Option Relay → Bool
declares none = false
declares (some r) = r.policy_decision ≟ "fallback"

abbrev relay_payload_of : Option Statement → Option Relay
relay_payload_of none = none
relay_payload_of (some s) = relay_of (payload s)

-- `_route_check`
unfoldable pub route_check : Contract → Option String → Option Statement → Outcome
route_check c none relay = not_evaluable
route_check c (some actual) relay =
    if actual ≟ c.requested_model
    then pass
    else if not (contains c.allowed_models actual) || c.fallback_policy ≟ "none"
    then fail
    else outcome (declares (relay_payload_of relay))

abbrev pub is_in : Option String → Contract → Dict String → Bool
is_in none c expected = false
is_in (some a) c expected =
    (contains c.allowed_request_transforms "identity" && c.req_commit ≟ a)
    || matches_expected c.allowed_request_transforms expected a

abbrev is_known : Dict String → String → Bool
is_known d t = elim (lookup t d) [ none ↦ false | some _ ↦ true ]

-- Some allowed transform is neither the identity nor one whose commit the user expects.
unfoldable pub has_unknown : List String → Dict String → Bool
has_unknown [] expected = false
has_unknown (t ∷ ts) expected =
    (not (t ≟ "identity") && not (is_known expected t)) || has_unknown ts expected

unfoldable pub bind_request : Option String → Contract → Dict String → Outcome
bind_request got c expected =
    if is_in got c expected
    then pass
    else if has_unknown c.allowed_request_transforms expected
    then not_evaluable
    else fail

abbrev check_hash : Option String → Option String → Outcome
check_hash got none = not_evaluable
check_hash got (some ref) = outcome (is_text got ref)

abbrev check_tool : Gate → Option String → Outcome
check_tool gate none = pass
check_tool gate (some call) = outcome gate.allow_tool_directives

-- The route when no verified receipt reports the model: what the relay reports.
abbrev relay_route : Contract → Option Statement → Outcome
relay_route c none = not_evaluable
relay_route c (some s) =
    route_check c (elim (relay_of (payload s)) [ none ↦ none | some r ↦ some r.upstream_model ])
      (some s)

-- The checks that do not need the receipt.
abbrev outer_checks : Gate → Delivery → (Check → Outcome) → Checks
outer_checks gate d inner not_expired = outcome (leb d.now d.contract.expires_at)
outer_checks gate d inner tool_policy = check_tool gate d.tool_call
outer_checks gate d inner k = inner k

abbrev without_receipt : Delivery → Checks
without_receipt d receipt_present = fail
without_receipt d route_allowed = relay_route d.contract d.inline_relay
without_receipt d k = not_evaluable

abbrev with_bad_signature : Delivery → Checks
with_bad_signature d receipt_present = pass
with_bad_signature d receipt_signature = fail
with_bad_signature d k = not_evaluable

abbrev with_receipt : Gate → Delivery → Receipt → Checks
with_receipt gate d m receipt_present = pass
with_receipt gate d m receipt_signature = pass
with_receipt gate d m nonce_match = outcome (is_text m.eat_nonce d.contract.nonce)
with_receipt gate d m request_binding =
    bind_request m.request_commit d.contract d.expected_request_commits
with_receipt gate d m response_binding = outcome (is_text m.response_commit d.received_commit)
with_receipt gate d m attempt_match = outcome (m.attempt_id ≟ d.contract.attempt_id)
with_receipt gate d m model_hash_reference =
    check_hash m.model_hash (lookup m.model_id gate.reference_model_hashes)
with_receipt gate d m route_allowed = route_check d.contract (some m.model_id) d.inline_relay
with_receipt gate d m k = not_evaluable

-- `get("attempt_id")` of a payload.
abbrev attempt_of : Payload → Option String
attempt_of (contract_payload c) = some c.attempt_id
attempt_of (relay_payload r) = some r.attempt_id
attempt_of (receipt_payload m) = some m.attempt_id
attempt_of (observation_payload o p) = some o.attempt_id
attempt_of (verdict_payload v) = some v.attempt_id
attempt_of _ = none

-- A verified statement whose payload is no receipt lacks every other field that is compared.
abbrev with_other_payload : Gate → Delivery → Payload → Checks
with_other_payload gate d p receipt_present = pass
with_other_payload gate d p receipt_signature = pass
with_other_payload gate d p request_binding =
    bind_request none d.contract d.expected_request_commits
with_other_payload gate d p attempt_match = outcome (is_text (attempt_of p) d.contract.attempt_id)
with_other_payload gate d p model_hash_reference =
    check_hash none (lookup "" gate.reference_model_hashes)
with_other_payload gate d p route_allowed = not_evaluable
with_other_payload gate d p k = fail

abbrev verified_checks : Gate → Delivery → Payload → Option Receipt → Checks
verified_checks gate d p none = with_other_payload gate d p
verified_checks gate d p (some m) = with_receipt gate d m

module _ (prim : Primitives) (codec : Codec) where
  abbrev pub signed_by_model : Gate → Statement → Bool
  signed_by_model gate s = elim (lookup (kid s) gate.trusted_model_keys) [
    | none ↦ false
    | some key ↦ verify_with prim codec s key
  ]

  abbrev receipt_checks : Gate → Delivery → Option Statement → Checks
  receipt_checks gate d none = without_receipt d
  receipt_checks gate d (some s) =
      if signed_by_model gate s
      then verified_checks gate d (payload s) (receipt_of (payload s))
      else with_bad_signature d

  unfoldable pub local_checks : Gate → Delivery → Checks
  local_checks gate d = outer_checks gate d (receipt_checks gate d d.inline_receipt)

pub data Action : Type 0 where
  accept accept_unverified quarantine reject reject_timeout : Action

pub record GateDecision : Type 0 where
  pub mode : Mode
  pub action : Action
  pub verdict_status : Option String
  pub received_at : ℕ
  pub decided_at : ℕ
  pub consumed_at : Option ℕ
  pub waited_ms : ℕ

abbrev is_outcome : Outcome → Outcome → Bool
is_outcome pass pass = true
is_outcome fail fail = true
is_outcome not_evaluable not_evaluable = true
is_outcome _ _ = false

-- Some check of the list has the outcome.
unfoldable pub some_check : Checks → Outcome → List Check → Bool
some_check checks x [] = false
some_check checks x (k ∷ ks) = is_outcome (checks k) x || some_check checks x ks

-- The final decision for checks that hold none that failed and no required one left open.
abbrev judge : Mode → Option String → Bool → Action
judge observe status deadline_hit = accept_unverified
judge protect status deadline_hit = accept
judge strict status deadline_hit =
    if is_text status "passed"
    then accept
    else if is_text status "failed"
    then reject
    else if deadline_hit
    then reject_timeout
    else reject

unfoldable pub choose : Mode → Checks → Option String → Bool → Action
choose observe checks status deadline_hit = accept_unverified
choose mode checks status deadline_hit =
    if some_check checks fail all_checks
    then quarantine
    else if some_check checks not_evaluable required_checks
    then quarantine
    else judge mode status deadline_hit

abbrev consumption : Action → ℕ → ℕ → Option ℕ
consumption accept received now = some now
consumption accept_unverified received now = some received
consumption _ received now = none

abbrev waiting : Mode → ℕ → ℕ → ℕ
waiting observe received now = 0
waiting _ received now = now - received

-- `now` is not before `received_at`, so the truncated difference is exact.
unfoldable pub decide : Gate → Checks → ℕ → ℕ → Option String → Bool → GateDecision
unfolding choose
decide gate checks received_at now status deadline_hit =
    let action = choose gate.mode checks status deadline_hit in
    record {
      mode = gate.mode;
      action = action;
      verdict_status = status;
      received_at = received_at;
      decided_at = now;
      consumed_at = consumption action received_at now;
      waited_ms = waiting gate.mode received_at now;
    }

-- `consumed_before_decision`
unfoldable pub consumed_before_decision : GateDecision → Bool
consumed_before_decision d = elim d.consumed_at [ none ↦ false | some t ↦ ltb t d.decided_at ]
