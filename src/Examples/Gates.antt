-- ===== src/Examples/Gates.antt =====
-- Decisions of the user's gate.
use custody.Base.{ℕ, ◌≡◌, ◌≢◌, refl, String, Bool, true, false, List, [], ◌∷◌, Option, none, some}
use custody.Statements.{Statement}
use custody.Reconcile.Equations.{fail}
use custody.Enforce.UserGate.{
  Gate, Delivery, Mode, strict, protect, observe, local_checks, decide, accept, Checks, not_expired,
  bind_request, route_check, choose, some_check,
}
use custody.Enforce.UserGate.Decisions.{IsCleared, accept-IsCleared}
use custody.Enforce.UserGate.Checks.{IsGenuine, accept-IsGenuine}
use custody.Examples.{
  toy, toy_codec, the_contract, model_receipt, relay_statement, response_commit, forged_commit,
}

abbrev gate : Mode → Gate
gate mode = record {
  mode = mode;
  trusted_model_keys = ("kM", 3 ∷ []) ∷ [];
  reference_model_hashes = ("m-1", forged_commit) ∷ [];
  allow_tool_directives = false;
}

-- What the user received, at a time.
abbrev delivery : ℕ → Delivery
delivery now = record {
  contract = the_contract;
  received_commit = response_commit;
  tool_call = none;
  inline_receipt = some model_receipt;
  inline_relay = some relay_statement;
  now = now;
  expected_request_commits = [];
}

abbrev in_time : Checks
in_time = local_checks toy toy_codec (gate strict) (delivery 1200)

abbrev too_late : Checks
too_late = local_checks toy toy_codec (gate protect) (delivery 6000)

accepted : (decide (gate strict) in_time 1200 1500 (some "passed") false).action ≡ accept
unfolding decide choose some_check local_checks custody.Base.lookup
    custody.Statements.Envelope.verify_with custody.Crypto.hex custody.Crypto.from_hex
    custody.Ts.Merkle.bytes_eq bind_request custody.Base.contains route_check
accepted = refl

genuine_example : IsGenuine toy toy_codec (gate strict) (delivery 1200)
genuine_example =
    accept-IsGenuine toy toy_codec (gate strict) (delivery 1200) 1200 1500 (some "passed") false
      accepted

cleared_example : IsCleared strict in_time (some "passed")
cleared_example = accept-IsCleared (gate strict) in_time 1200 1500 (some "passed") false accepted

protect-ne-observe : protect ≢ observe
protect-ne-observe p = cc p

expired : too_late not_expired ≡ fail
unfolding local_checks
expired = refl
