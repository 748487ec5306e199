-- ===== src/Sim/Waiting.antt =====
-- `_decide` of itx/sim/parties/user.py: how the user waits for a verdict. The loop runs on fuel, and
-- the clock of the context is an argument.
pub mod Acceptance
pub mod Deadline
use custody.Base.{
  ℕ, zero, suc, ◌+◌, String, Bool, true, false, List, Option, none, some, ltb, if◌then◌else◌,
}
use custody.Crypto.{Primitives}
use custody.Statements.{Statement}
use custody.Reconcile.Evidence.{Party}
use custody.Reconcile.Equations.{fail}
use custody.Reconcile.Engine.{Verdict}
use custody.Reconcile.VerdictPayload.{status_text}
use custody.Enforce.UserGate.{
  Gate, Mode, observe, protect, strict, Checks, GateDecision, decide, some_check, all_checks,
}
use custody.Ts.Log.{LogCodec}
use custody.Sim.ThirdParty.{
  ThirdParty, Judged, unavailable, raised, not_registered, judged, request_verdict,
}

-- `STRICT_POLL_MS` of context.py
abbrev pub strict_poll_ms : ℕ
strict_poll_ms = 50

-- What the wait comes to: an error of T, the verdict and the decision, or no fuel left.
pub data Waited : Type 0 where
  error no_fuel : Waited
  decided : Option Verdict → GateDecision → Waited

-- What a round does: it ends, or it goes on with the last verdict seen.
pub data Round : Type 0 where
  ends : Waited → Round
  goes_on : Option Verdict → Round

abbrev pub status_of : Option Verdict → Option String
status_of none = none
status_of (some v) = some (status_text v.verification_status)

-- The request being decided.
pub record Pending : Type 0 where
  pub gate : Gate
  pub checks : Checks
  pub received_at : ℕ
  pub sub : String
  pub expected : List Party
  pub deadline : ℕ

-- `gate.decide` with the status of a verdict
abbrev pub decide_on : Pending → ℕ → Option Verdict → Bool → GateDecision
decide_on p now v hit = decide p.gate p.checks p.received_at now (status_of v) hit

-- The `try` of a round.
abbrev pub round : Pending → ℕ → Option Verdict → Judged → Round
round p now seen unavailable = goes_on seen
round p now seen raised = ends error
round p now seen (not_registered rs) = ends error
round p now seen (judged v none) = goes_on (some v)
round p now seen (judged v (some stmt)) = ends (decided (some v) (decide_on p now (some v) false))

abbrev pub is_strict : Mode → Bool
is_strict strict = true
is_strict _ = false

module _ (prim : Primitives) (codec : LogCodec) where
  -- The rest of a round: the deadline, or the next round, which `next` gives.
  abbrev pub after_round :
      Pending
      → ℕ
      → (Option Verdict → ThirdParty × Waited)
      → ThirdParty
      → Round
      → ThirdParty × Waited
  after_round p now next t (ends w) = (t, w)
  after_round p now next t (goes_on seen) =
      if ltb p.deadline (now + strict_poll_ms)
      then (t, decided seen (decide_on p now seen true))
      else next seen

  -- The `while True` loop.
  unfoldable pub wait : ℕ → ThirdParty → Pending → ℕ → Option Verdict → ThirdParty × Waited
  wait zero t p now seen = (t, no_fuel)
  wait (suc fuel) t p now seen =
      let (t', answer) = request_verdict prim codec t p.sub p.expected now in
      after_round p now (λ seen'. wait fuel t' p (now + strict_poll_ms) seen') t'
        (round p now seen answer)

  -- `_decide` from the time `now` on.
  unfoldable pub decide_attempt : ℕ → ThirdParty → Pending → ℕ → ThirdParty × Waited
  decide_attempt fuel t p now =
      let at_once : ThirdParty × Waited = (t, decided none (decide_on p now none false)) in
      let waited = wait fuel t p now none in
      if is_strict p.gate.mode
      then (if some_check p.checks fail all_checks then at_once else waited)
      else at_once
