-- ===== src/Sim/Waiting/Deadline.antt =====
-- How long the wait lasts, and what it ends with.
use custody.Base.{
  ℕ, zero, suc, ◌+◌, ◌*◌, ◌≡◌, ◌≤◌, ◌<◌, ◌⊎◌, inl, inr, refl, Bool, true, false, Bool-cases, Option,
  none, some, ltb, arith,
}
use custody.Crypto.{Primitives}
use custody.Reconcile.Engine.{Verdict}
use custody.Enforce.UserGate.{decide, some_check, all_checks}
use custody.Reconcile.Equations.{fail}
use custody.Ts.Log.{LogCodec}
use custody.Sim.ThirdParty.{
  ThirdParty, Judged, unavailable, raised, not_registered, judged, request_verdict,
}
use custody.Sim.Waiting.{
  Waited, error, no_fuel, decided, Round, ends, goes_on, Pending, decide_on, round, after_round,
  wait, is_strict, decide_attempt, strict_poll_ms,
}

-- A result is there, and it was decided at the start or by the deadline.
abbrev pub InTime : ℕ → ℕ → Waited → Type 0
InTime now deadline error = Unit
InTime now deadline no_fuel = ⊥
InTime now deadline (decided v d) =
    (now ≤ d.decided_at) × ((d.decided_at ≡ now) ⊎ (d.decided_at ≤ deadline))

decide-decided_at :
    (p : Pending) (now : ℕ) (v : Option Verdict) (hit : Bool)
    → (decide_on p now v hit).decided_at ≡ now
unfolding decide
decide-decided_at p now v hit = refl

at_once-InTime :
    (p : Pending) (now deadline : ℕ) (v : Option Verdict) (hit : Bool)
    → InTime now deadline (decided v (decide_on p now v hit))
at_once-InTime p now deadline v hit =
    let e = decide-decided_at p now v hit in (omega (arith, e), inl e)

later-InTime :
    (now then_ deadline : ℕ) (w : Waited)
    → now ≤ then_
    → then_ ≤ deadline
    → InTime then_ deadline w
    → InTime now deadline w
later-InTime now then_ deadline error l r h = tt
later-InTime now then_ deadline no_fuel l r h = h
later-InTime now then_ deadline (decided v d) l r (a, inl e) =
    (omega (arith, a), inr (omega (arith, e)))
later-InTime now then_ deadline (decided v d) l r (a, inr e) = (omega (arith, a), inr e)

abbrev RoundInTime : ℕ → ℕ → Round → Type 0
RoundInTime now deadline (ends w) = InTime now deadline w
RoundInTime now deadline (goes_on seen) = Unit

round-InTime :
    (p : Pending) (now : ℕ) (seen : Option Verdict) (j : Judged)
    → RoundInTime now p.deadline (round p now seen j)
round-InTime p now seen unavailable = tt
round-InTime p now seen raised = tt
round-InTime p now seen (not_registered rs) = tt
round-InTime p now seen (judged v none) = tt
round-InTime p now seen (judged v (some stmt)) = at_once-InTime p now p.deadline (some v) false

module _ (prim : Primitives) (codec : LogCodec) where
  after_round-InTime :
      (p : Pending) (now : ℕ) (next : Option Verdict → ThirdParty × Waited) (t : ThirdParty)
      (r : Round)
      → RoundInTime now p.deadline r
      → (now + strict_poll_ms ≤ p.deadline
          → (seen : Option Verdict) → InTime (now + strict_poll_ms) p.deadline (next seen).1)
      → InTime now p.deadline (after_round prim codec p now next t r).1
  after_round-InTime p now next t (ends w) h ih = h
  after_round-InTime p now next t (goes_on seen) h ih =
      elim (Bool-cases (ltb p.deadline (now + strict_poll_ms))) [
        | inl over ↦ rw over (at_once-InTime p now p.deadline seen true)
        | inr more ↦
            let l : now + strict_poll_ms ≤ p.deadline = ground arith in
            rw more (
              later-InTime now (now + strict_poll_ms) p.deadline (next seen).1 (omega arith) l
                (ih l seen))
      ]

  wait-InTime :
      (fuel : ℕ) (t : ThirdParty) (p : Pending) (now : ℕ) (seen : Option Verdict)
      → 1 ≤ fuel
      → p.deadline < now + strict_poll_ms * fuel
      → InTime now p.deadline (wait prim codec fuel t p now seen).1
  unfolding wait
  wait-InTime zero t p now seen f l = absurd (omega arith)
  wait-InTime (suc fuel) t p now seen f l =
      let answer = request_verdict prim codec t p.sub p.expected now in
      after_round-InTime p now
        (λ seen'. wait prim codec fuel answer.0 p (now + strict_poll_ms) seen') answer.0
        (round p now seen answer.1) (round-InTime p now seen answer.1)
        (λ m seen'.
          wait-InTime fuel answer.0 p (now + strict_poll_ms) seen' (omega arith) (omega arith))

  -- The wait for a verdict ends: if there is at least one unit of fuel and the deadline lies before
  -- the start plus the polling interval times the fuel, the result is an error that T raised or a
  -- decision, never a lack of fuel, and it is decided at the start or no later than the deadline,
  -- whatever T answers.
  pub decide_attempt-InTime :
      (fuel : ℕ) (t : ThirdParty) (p : Pending) (now : ℕ)
      → 1 ≤ fuel
      → p.deadline < now + strict_poll_ms * fuel
      → InTime now p.deadline (decide_attempt prim codec fuel t p now).1
  unfolding decide_attempt
  decide_attempt-InTime fuel t p now f l =
      let at_once = at_once-InTime p now p.deadline none false in
      elim (Bool-cases (is_strict p.gate.mode)) [
        | inl waits ↦ rw waits (elim (Bool-cases (some_check p.checks fail all_checks)) [
          | inl bad ↦ rw bad at_once
          | inr good ↦ rw good (wait-InTime fuel t p now none f l)
        ])
        | inr e ↦ rw e at_once
      ]
