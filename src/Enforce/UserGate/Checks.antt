-- ===== src/Enforce/UserGate/Checks.antt =====
-- What an accepted response is known to be: the answer of a trusted model to the user's request.
use custody.Base.{
  ℕ, ◌≤◌, ◌≡◌, ◌≢◌, ◌⊎◌, inl, inr, refl, String, Bool, true, false, Option, none, some, lookup,
  arith, Bool-cases, Option-cases, eq_iff, leb→le,
}
use custody.Crypto.{Bytes, Primitives}
use custody.Statements.{
  Statement, Receipt, Payload, contract_payload, relay_payload, receipt_payload,
  observation_payload, manifest_payload, verdict_payload, policy_payload,
}
use custody.Statements.Envelope.{Codec, kid, payload, verify_with}
use custody.Reconcile.Evidence.{receipt_of}
use custody.Reconcile.Equations.{Outcome, pass, fail, not_evaluable}
use custody.Enforce.UserGate.{
  Mode, Check, Gate, Delivery, accept, decide, local_checks, receipt_checks, signed_by_model,
  with_receipt, verified_checks, check_tool, is_in, outcome, route_check, bind_request, not_expired,
  nonce_match, request_binding, response_binding, attempt_match, route_allowed, tool_policy,
}
use custody.Enforce.UserGate.Decisions.{IsCleared, accept-IsCleared, is_text→eq}

module _ (prim : Primitives) (codec : Codec) (gate : Gate) (d : Delivery) where
  -- The properties of an accepted response.
  pub record IsGenuine : Type 0 where
    pub receipt : Statement
    pub key : Bytes
    pub served : Receipt
    pub enclosed : d.inline_receipt ≡ some receipt
    pub trusted : lookup (kid receipt) gate.trusted_model_keys ≡ some key
    pub verified : verify_with prim codec receipt key ≡ true
    pub is_receipt : payload receipt ≡ receipt_payload served
    pub fresh : served.eat_nonce ≡ some d.contract.nonce
    pub request : is_in served.request_commit d.contract d.expected_request_commits ≡ true
    pub response : served.response_commit ≡ some d.received_commit
    pub same_attempt : served.attempt_id ≡ d.contract.attempt_id
    pub route : route_check d.contract (some served.model_id) d.inline_relay ≢ fail
    pub in_time : d.now ≤ d.contract.expires_at
    pub no_tool : (d.tool_call ≡ none) ⊎ (gate.allow_tool_directives ≡ true)

  outcome-pass : (b : Bool) → outcome b ≡ pass → b ≡ true
  outcome-pass true h = refl
  outcome-pass false h = cc

  outcome-ne-fail : (b : Bool) → outcome b ≢ fail → b ≡ true
  outcome-ne-fail true h = refl
  outcome-ne-fail false h = absurd (h refl)

  signed-key :
      (s : Statement)
      → signed_by_model prim codec gate s ≡ true
      → (key : Bytes) × (lookup (kid s) gate.trusted_model_keys ≡ some key)
        × (verify_with prim codec s key ≡ true)
  signed-key s h = elim (Option-cases (lookup (kid s) gate.trusted_model_keys)) [
    | inl unknown ↦ absurd (ground arith)
    | inr (key, known) ↦ (key, known, ground arith)
  ]

  verified-nonce :
      (p : Payload)
      → verified_checks gate d p (receipt_of p) nonce_match ≡ pass
      → (m : Receipt) × (p ≡ receipt_payload m)
  verified-nonce (receipt_payload m) h = (m, refl)
  verified-nonce (contract_payload c) h = cc
  verified-nonce (relay_payload r) h = cc
  verified-nonce (observation_payload o p) h = cc
  verified-nonce (manifest_payload m) h = cc
  verified-nonce (verdict_payload v) h = cc
  verified-nonce (policy_payload p) h = cc

  receipt_checks-at :
      (x : Option Statement) (s : Statement) (m : Receipt) (k : Check)
      → x ≡ some s
      → signed_by_model prim codec gate s ≡ true
      → payload s ≡ receipt_payload m
      → receipt_checks prim codec gate d x k ≡ with_receipt gate d m k
  receipt_checks-at x s m k e h p = rw (e, h, p) refl

  pass-ne-open : not_evaluable ≢ pass
  pass-ne-open h = cc h

  pass-outcome : (x : Outcome) (b : Bool) → x ≡ outcome b → x ≡ pass → b ≡ true
  pass-outcome x b e h = outcome-pass b (rw e at h)

  ne_fail-outcome : (x : Outcome) (b : Bool) → x ≡ outcome b → x ≢ fail → b ≡ true
  ne_fail-outcome x b e h = outcome-ne-fail b (rw e at h)

  receipt_checks-unsigned :
      (s : Statement)
      → signed_by_model prim codec gate s ≡ false
      → receipt_checks prim codec gate d (some s) nonce_match ≡ not_evaluable
  receipt_checks-unsigned s h = rw h refl

  receipt_checks-signed :
      (s : Statement)
      → signed_by_model prim codec gate s ≡ true
      → receipt_checks prim codec gate d (some s) nonce_match
        ≡ verified_checks gate d (payload s) (receipt_of (payload s)) nonce_match
  receipt_checks-signed s h = rw h refl

  -- Only a verified receipt has a nonce that can match.
  nonce-receipt :
      (x : Option Statement)
      → receipt_checks prim codec gate d x nonce_match ≡ pass
      → (s : Statement) × (m : Receipt) × (x ≡ some s)
        × (signed_by_model prim codec gate s ≡ true)
        × (payload s ≡ receipt_payload m)
  nonce-receipt none h = cc
  nonce-receipt (some s) h = elim (Bool-cases (signed_by_model prim codec gate s)) [
    | inr bad ↦ absurd (pass-ne-open (rw (receipt_checks-unsigned s bad) at h))
    | inl good ↦
        let (m, p) = verified-nonce (payload s) (rw (receipt_checks-signed s good) at h) in
        (s, m, refl, good, p)
  ]

  bind_request-pass :
      (got : Option String)
      → bind_request got d.contract d.expected_request_commits ≡ pass
      → is_in got d.contract d.expected_request_commits ≡ true
  unfolding bind_request
  bind_request-pass none h = ground arith
  bind_request-pass (some a) h = ground arith

  tool-cases :
      (t : Option String)
      → check_tool gate t ≢ fail
      → (t ≡ none) ⊎ (gate.allow_tool_directives ≡ true)
  tool-cases none h = inl refl
  tool-cases (some call) h = inr (outcome-ne-fail _ h)

  module _ (s : Statement) (m : Receipt) (enc : d.inline_receipt ≡ some s)
      (good : signed_by_model prim codec gate s ≡ true) (p : payload s ≡ receipt_payload m)
      (mode : Mode) (status : Option String)
      (ok : IsCleared mode (local_checks prim codec gate d) status) where
    at : (k : Check) → receipt_checks prim codec gate d d.inline_receipt k ≡ with_receipt gate d m k
    at k = receipt_checks-at d.inline_receipt s m k enc good p

    genuine-nonce : m.eat_nonce ≡ some d.contract.nonce
    unfolding local_checks
    genuine-nonce =
        is_text→eq m.eat_nonce d.contract.nonce (pass-outcome _ _ (at nonce_match) ok.nonce)

    genuine-request : is_in m.request_commit d.contract d.expected_request_commits ≡ true
    unfolding local_checks
    genuine-request = bind_request-pass m.request_commit (rw (at request_binding) at ok.request)

    genuine-response : m.response_commit ≡ some d.received_commit
    unfolding local_checks
    genuine-response =
        is_text→eq m.response_commit d.received_commit
          (pass-outcome _ _ (at response_binding) ok.response)

    genuine-attempt : m.attempt_id ≡ d.contract.attempt_id
    unfolding local_checks
    genuine-attempt =
        (eq_iff m.attempt_id d.contract.attempt_id).0
          (ne_fail-outcome _ _ (at attempt_match) (ok.none_failed attempt_match))

    genuine-route : route_check d.contract (some m.model_id) d.inline_relay ≢ fail
    unfolding local_checks
    genuine-route = rw (at route_allowed) at (ok.none_failed route_allowed)

    genuine-time : d.now ≤ d.contract.expires_at
    unfolding local_checks
    genuine-time = leb→le _ _ (outcome-ne-fail _ (ok.none_failed not_expired))

    genuine-tool : (d.tool_call ≡ none) ⊎ (gate.allow_tool_directives ≡ true)
    unfolding local_checks
    genuine-tool = tool-cases d.tool_call (ok.none_failed tool_policy)

    genuine : IsGenuine
    genuine =
        let (key, known, verified) = signed-key s good in
        record {
          receipt = s;
          key = key;
          served = m;
          enclosed = enc;
          trusted = known;
          verified = verified;
          is_receipt = p;
          fresh = genuine-nonce;
          request = genuine-request;
          response = genuine-response;
          same_attempt = genuine-attempt;
          route = genuine-route;
          in_time = genuine-time;
          no_tool = genuine-tool;
        }

  genuine-of :
      (mode : Mode) (status : Option String)
      → IsCleared mode (local_checks prim codec gate d) status
      → IsGenuine
  unfolding local_checks
  genuine-of mode status ok =
      let (s, m, enc, good, p) = nonce-receipt d.inline_receipt ok.nonce in
      genuine s m enc good p mode status ok

  -- If `decide` accepts a response on the results of `local_checks`, it came with a receipt that a
  -- trusted model key signed; the receipt answers this attempt and a request that the user
  -- approved, with the contract's nonce; its response commit is that of the response received; its
  -- route was not refused, the contract had not expired, and a tool call came only if the gate
  -- allows them.
  pub accept-IsGenuine :
      (received_at now : ℕ) (status : Option String) (hit : Bool)
      → (decide gate (local_checks prim codec gate d) received_at now status hit).action ≡ accept
      → IsGenuine
  accept-IsGenuine received_at now status hit h =
      genuine-of gate.mode status (accept-IsCleared gate _ received_at now status hit h)
