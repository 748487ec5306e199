-- ===== src/Sim/Waiting/Acceptance.antt =====
-- What a strict user's acceptance rests on, when T is honest.
use custody.Base.{
  some-injective, ℕ, zero, suc, ◌+◌, ◌≡◌, ◌≢◌, inl, inr, refl, ap, sym, ◌∙◌, Bool, true, false,
  Bool-cases, Option, none, some, ltb, arith, eq_iff,
}
use mathlib.Core.Path.{subst}
use custody.Crypto.{Primitives}
use custody.Reconcile.Engine.{Verdict, Status, passed, failed, insufficient_evidence}
use custody.Reconcile.Engine.Verdicts.{EndToEnd, passed-EndToEnd}
use custody.Reconcile.VerdictPayload.{status_text}
use custody.Reconcile.Equations.{fail}
use custody.Enforce.UserGate.{accept, strict, some_check, all_checks}
use custody.Enforce.UserGate.Decisions.{accept-IsCleared}
use custody.Ts.Log.{LogCodec}
use custody.Sim.ThirdParty.{
  ThirdParty, Judged, unavailable, raised, not_registered, judged, request_verdict,
}
use custody.Sim.ThirdParty.Requests.{
  evidence_for, Requested, request_verdict-Requested, reconcile-honest, Same, evidence_for-Same,
  Unchanged, request_verdict-Unchanged,
}
use custody.Sim.Waiting.{
  Waited, error, no_fuel, decided, Round, ends, goes_on, Pending, decide_on, round, after_round,
  wait, is_strict, decide_attempt, strict_poll_ms, status_of,
}

status_text-passed : (s : Status) → status_text s ≡ "passed" → s ≡ passed
status_text-passed passed h = refl
status_text-passed failed h = absurd (ground (arith, eq_iff "failed" "passed"))
status_text-passed insufficient_evidence h =
    absurd (ground (arith, eq_iff "insufficient_evidence" "passed"))

-- The previews seen so far were not decisive.
abbrev Seen : Option Verdict → Type 0
Seen none = Unit
Seen (some v) = v.verification_status ≡ insufficient_evidence

accept-passed :
    (p : Pending) (now : ℕ) (v : Option Verdict) (hit : Bool)
    → p.gate.mode ≡ strict
    → (decide_on p now v hit).action ≡ accept
    → (w : Verdict) × (v ≡ some w) × (w.verification_status ≡ passed)
accept-passed p now none hit m h =
    let c = accept-IsCleared p.gate p.checks p.received_at now none hit h in cc (c.verdict m)
accept-passed p now (some v) hit m h =
    let c = accept-IsCleared p.gate p.checks p.received_at now (status_of (some v)) hit h in
    (v, refl, status_text-passed v.verification_status (some-injective _ _ (c.verdict m)))

accept-unseen :
    (p : Pending) (now : ℕ) (seen : Option Verdict) (hit : Bool)
    → p.gate.mode ≡ strict
    → Seen seen
    → (decide_on p now seen hit).action ≢ accept
accept-unseen p now seen hit m h a =
    let (w, e, q) = accept-passed p now seen hit m a in
    let r : w.verification_status ≡ insufficient_evidence = subst Seen e h in cc (sym q ∙ r)

module _ (prim : Primitives) (codec : LogCodec) where
  -- When T judged an accepted response, the evidence was there.
  abbrev pub Backed : ThirdParty → Pending → Waited → Type 0
  Backed t p (decided v d) =
      d.action ≡ accept → (now : ℕ) × EndToEnd prim (evidence_for prim codec t p.sub now)
  Backed t p _ = Unit

  abbrev BackedRound : ThirdParty → Pending → Round → Type 0
  BackedRound t p (ends w) = Backed t p w
  BackedRound t p (goes_on seen) = Seen seen

  round-Backed :
      (t t' : ThirdParty) (p : Pending) (now : ℕ) (seen : Option Verdict) (j : Judged)
      → p.gate.mode ≡ strict
      → t.misjudge ≡ false
      → Seen seen
      → Requested prim codec t p.sub p.expected now (t', j)
      → BackedRound t p (round p now seen j)
  round-Backed t t' p now seen unavailable m h s r = s
  round-Backed t t' p now seen raised m h s r = tt
  round-Backed t t' p now seen (not_registered rs) m h s r = tt
  round-Backed t t' p now seen (judged v none) m h s r = r.1
  round-Backed t t' p now seen (judged v (some stmt)) m h s r = λ a.
      let (w, e, q) = accept-passed p now (some v) false m a in
      let q' : v.verification_status ≡ passed =
        ap (λ (x : Verdict). x.verification_status) (some-injective v w e) ∙ q in
      (
        now,
        passed-EndToEnd prim codec.statements t.engine (evidence_for prim codec t p.sub now)
            p.expected v (sym (reconcile-honest prim codec t p.sub p.expected now h) ∙ r.0) q',
      )

  Backed-Same :
      (t t' : ThirdParty) (p : Pending) (w : Waited)
      → Same prim codec t t'
      → Backed t' p w
      → Backed t p w
  Backed-Same t t' p error s b = tt
  Backed-Same t t' p no_fuel s b = tt
  Backed-Same t t' p (decided v d) s b = λ a.
      let (now, e) = b a in
      (now, subst (λ ev. EndToEnd prim ev) (evidence_for-Same prim codec t t' p.sub now s) e)

  Same-after :
      (t t' : ThirdParty) (p : Pending) (now : ℕ) (seen seen' : Option Verdict) (j : Judged)
      → Unchanged prim codec t (t', j)
      → round p now seen j ≡ goes_on seen'
      → Same prim codec t t'
  Same-after t t' p now seen seen' unavailable u e = u
  Same-after t t' p now seen seen' raised u e = u
  Same-after t t' p now seen seen' (not_registered rs) u e = cc
  Same-after t t' p now seen seen' (judged v none) u e = u
  Same-after t t' p now seen seen' (judged v (some stmt)) u e = cc

  after_round-Backed :
      (t : ThirdParty) (p : Pending) (now : ℕ) (next : Option Verdict → ThirdParty × Waited)
      (t' : ThirdParty) (r : Round)
      → p.gate.mode ≡ strict
      → BackedRound t p r
      → ((seen : Option Verdict) → r ≡ goes_on seen → Seen seen → Backed t p (next seen).1)
      → Backed t p (after_round prim codec p now next t' r).1
  after_round-Backed t p now next t' (ends w) m b ih = b
  after_round-Backed t p now next t' (goes_on seen) m b ih =
      elim (Bool-cases (ltb p.deadline (now + strict_poll_ms))) [
        | inl over ↦ rw over (λ a. absurd (accept-unseen p now seen true m b a))
        | inr more ↦ rw more (ih seen refl b)
      ]

  wait-Backed :
      (fuel : ℕ) (t : ThirdParty) (p : Pending) (now : ℕ) (seen : Option Verdict)
      → p.gate.mode ≡ strict
      → t.misjudge ≡ false
      → Seen seen
      → Backed t p (wait prim codec fuel t p now seen).1
  unfolding wait
  wait-Backed zero t p now seen m h s = tt
  wait-Backed (suc fuel) t p now seen m h s =
      let answer = request_verdict prim codec t p.sub p.expected now in
      let req = request_verdict-Requested prim codec t p.sub p.expected now in
      let u = request_verdict-Unchanged prim codec t p.sub p.expected now in
      after_round-Backed t p now
        (λ seen'. wait prim codec fuel answer.0 p (now + strict_poll_ms) seen') answer.0
        (round p now seen answer.1) m (round-Backed t answer.0 p now seen answer.1 m h s req)
        (λ seen' e s'.
          let same = Same-after t answer.0 p now seen seen' answer.1 u e in
          Backed-Same t answer.0 p _ same
            (wait-Backed fuel answer.0 p (now + strict_poll_ms) seen' m (same.3 ∙ h) s'))

  -- In strict mode, with a T that does not misjudge: when the wait for a verdict ends with an
  -- acceptance, at some time the evidence that T gathered from its log and the private evidence for
  -- the request held a contract, a receipt and an observation for which `EndToEnd` holds; a
  -- response whose verdict was only a preview, or never came, is not accepted.
  pub decide_attempt-Backed :
      (fuel : ℕ) (t : ThirdParty) (p : Pending) (now : ℕ)
      → p.gate.mode ≡ strict
      → t.misjudge ≡ false
      → Backed t p (decide_attempt prim codec fuel t p now).1
  unfolding decide_attempt
  decide_attempt-Backed fuel t p now m h =
      let waits : is_strict p.gate.mode ≡ true = ap is_strict m in
      rw waits (elim (Bool-cases (some_check p.checks fail all_checks)) [
        | inl bad ↦ rw bad (λ a. absurd (accept-unseen p now none false m tt a))
        | inr good ↦ rw good (wait-Backed fuel t p now none m h tt)
      ])
