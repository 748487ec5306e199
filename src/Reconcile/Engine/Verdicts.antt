-- ===== src/Reconcile/Engine/Verdicts.antt =====
-- What a verdict says of the evidence that it was computed from.
use custody.Base.{
  ◌≤◌, ◌≡◌, ◌⊎◌, none, Option, inl, inr, refl, ap, sym, ◌∙◌, String, true, false, List, some,
  lookup, arith, Option-cases,
}
use custody.Crypto.{Primitives, commit_hex}
use custody.Statements.{Contract, Relay, Receipt, Observation}
use custody.Statements.Envelope.{Codec}
use custody.Reconcile.Evidence.{EvidenceSet, PrivateEvidence, Party, c, r, m, o}
use custody.Reconcile.Equations.{
  e1, e4, e5, e8, e9, e10, e11, e12, Outcome, pass, fail, not_evaluable, Grade, EqResult, Results,
  eq1, actual_request, is_approved, is_identity_only, results, evaluate_equations, all_ids,
}
use custody.Reconcile.Equations.Meaning.{
  Routed, eq1-pass, eq4-pass, eq5-pass, eq8-pass, eq9-pass, eq10-pass, eq11-pass, eq12-pass,
}
use custody.Reconcile.Discrepancies.{Discrepancy}
use custody.Reconcile.Engine.{
  Engine, Verdict, passed, status, any_grave, any_failed, all_pass, required_for_pass, is_pass,
  verdict_from, reconcile,
}

-- The commit that E4 judges: the receipt's, or, if the receipt states none, what the relay says that
-- it passed on.
abbrev pub Reports : Receipt → Option Relay → String → Type 0
Reports served relay delivered =
    (served.request_commit ≡ some delivered)
    ⊎ ((served.request_commit ≡ none)
        × (r' : Relay) × (relay ≡ some r')
        × (delivered ≡ r'.out_commit))

actual_request-Reports :
    (served : Receipt) (stated : Option String) (relay : Option Relay) (delivered : String)
    (source : Grade)
    → served.request_commit ≡ stated
    → actual_request relay (some served) ≡ some (delivered, source)
    → Reports served relay delivered
actual_request-Reports served none none delivered source e h = absurd (ground arith)
actual_request-Reports served none (some r') delivered source e h = inr (e, r', refl, ground arith)
actual_request-Reports served (some rc) none delivered source e h = inl (ground arith)
actual_request-Reports served (some rc) (some r') delivered source e h = inl (ground arith)

-- What a passed verdict establishes of the path from the user to the model and back.
pub record EndToEnd (prim : Primitives) (ev : EvidenceSet) : Type 0 where
  pub agreed : Contract
  pub served : Receipt
  pub seen : Observation
  pub secret : PrivateEvidence
  pub has_agreed : c ev ≡ some agreed
  pub has_served : m ev ≡ some served
  pub has_seen : o ev ≡ some seen
  pub has_secret : ev.private ≡ some secret
  -- the contract commits to the user's request
  pub committed : commit_hex prim secret.salt secret.request_hash ≡ some agreed.req_commit
  -- the request commit that the receipt states, or else the relay, is an approved one
  pub delivered : String
  pub source : Grade
  pub has_delivered : actual_request (r ev) (m ev) ≡ some (delivered, source)
  pub reported : Reports served (r ev) delivered
  pub approved : is_approved agreed ev.private delivered ≡ true
  -- the nonce reached the model, and the relay reports no other
  pub fresh : served.eat_nonce ≡ some agreed.nonce
  pub relay_fresh : (r' : Relay) → r ev ≡ some r' → r'.nonce_forwarded ≡ some agreed.nonce
  -- the model was approved, and its artefact is the reference
  pub routed : Routed agreed (r ev) served.model_id
  pub artefact : String
  pub has_artefact : served.model_hash ≡ some artefact
  pub is_reference : lookup served.model_id ev.reference_model_hashes ≡ some artefact
  -- the response that the model signed is the one that the user received
  pub intact : served.response_commit ≡ some seen.resp_commit
  pub untransformed : is_identity_only agreed.allowed_response_transforms ≡ true
  -- all statements are about one attempt, and the answer came in time
  pub same_receipt : served.attempt_id ≡ agreed.attempt_id
  pub same_observation : seen.attempt_id ≡ agreed.attempt_id
  pub same_relay : (r' : Relay) → r ev ≡ some r' → r'.attempt_id ≡ agreed.attempt_id
  pub in_time : seen.received_at ≤ agreed.expires_at

status-passed :
    (eqs : Results) (ds : List Discrepancy)
    → status eqs ds ≡ passed
    → (any_grave ds ≡ false)
      × (any_failed eqs all_ids ≡ false)
      × (all_pass eqs required_for_pass ≡ true)
unfolding status
status-passed eqs ds h = (ground arith, ground arith, ground arith)

-- The required equations, one by one.
pub record RequiredPass (eqs : Results) : Type 0 where
  pub p1 : (eqs e1).outcome ≡ pass
  pub p4 : (eqs e4).outcome ≡ pass
  pub p5 : (eqs e5).outcome ≡ pass
  pub p8 : (eqs e8).outcome ≡ pass
  pub p9 : (eqs e9).outcome ≡ pass
  pub p10 : (eqs e10).outcome ≡ pass
  pub p11 : (eqs e11).outcome ≡ pass
  pub p12 : (eqs e12).outcome ≡ pass

is_pass→pass : (x : Outcome) → is_pass x ≡ true → x ≡ pass
is_pass→pass pass h = refl
is_pass→pass fail h = cc
is_pass→pass not_evaluable h = cc

all_pass-RequiredPass : (eqs : Results) → all_pass eqs required_for_pass ≡ true → RequiredPass eqs
unfolding all_pass
all_pass-RequiredPass eqs h = record {
  p1 = is_pass→pass _ (ground arith);
  p4 = is_pass→pass _ (ground arith);
  p5 = is_pass→pass _ (ground arith);
  p8 = is_pass→pass _ (ground arith);
  p9 = is_pass→pass _ (ground arith);
  p10 = is_pass→pass _ (ground arith);
  p11 = is_pass→pass _ (ground arith);
  p12 = is_pass→pass _ (ground arith);
}

module _ (prim : Primitives) (ev : EvidenceSet) where
  pub evaluate-results :
      (eqs : Results)
      → evaluate_equations prim ev ≡ some eqs
      → (r1 : EqResult) × (eq1 prim (c ev) ev.private ≡ some r1) × (results ev r1 ≡ eqs)
  unfolding evaluate_equations
  evaluate-results eqs h = elim (Option-cases (eq1 prim (c ev) ev.private)) [
    | inl e ↦ absurd (ground arith)
    | inr (r1, e) ↦ (r1, e, ground arith)
  ]

  RequiredPass-EndToEnd :
      (r1 : EqResult)
      → eq1 prim (c ev) ev.private ≡ some r1
      → RequiredPass (results ev r1)
      → EndToEnd prim ev
  unfolding results
  RequiredPass-EndToEnd r1 h p =
      let (agreed, secret, ca, ps, committed) = eq1-pass prim (c ev) ev.private r1 h p.p1 in
      let (served, seen, ms, os, intact, ident) = eq10-pass (c ev) (r ev) (m ev) (o ev) p.p10 in
      let (delivered, source, has, ok, decl) =
        eq4-pass agreed (r ev) (m ev) ev.private (rw ca at p.p4) in
      let (fresh, relay_fresh) = eq5-pass agreed (r ev) served (rw (ca, ms) at p.p5) in
      let routed = eq8-pass agreed (r ev) served (rw (ca, ms) at p.p8) in
      let (art, ha, ref) = eq9-pass ev.reference_model_hashes served (rw ms at p.p9) in
      let (sr, so, srel) = eq11-pass agreed (r ev) served seen (rw (ca, ms, os) at p.p11) in
      let time = eq12-pass agreed seen (rw (ca, os) at p.p12) in
      record {
        agreed = agreed;
        served = served;
        seen = seen;
        secret = secret;
        has_agreed = ca;
        has_served = ms;
        has_seen = os;
        has_secret = ps;
        committed = committed;
        delivered = delivered;
        source = source;
        has_delivered = has;
        reported =
            actual_request-Reports served served.request_commit (r ev) delivered source refl
              (rw ms at has);
        approved = ok;
        fresh = fresh;
        relay_fresh = relay_fresh;
        routed = routed;
        artefact = art;
        has_artefact = ha;
        is_reference = ref;
        intact = intact;
        untransformed = rw ca at ident;
        same_receipt = sr;
        same_observation = so;
        same_relay = srel;
        in_time = time;
      }

module _ (prim : Primitives) (codec : Codec) (engine : Engine) (ev : EvidenceSet)
    (expected : List Party) where
  pub reconcile-verdict_from :
      (v : Verdict)
      → reconcile prim codec engine ev expected ≡ some v
      → (eqs : Results) × (evaluate_equations prim ev ≡ some eqs)
        × (v ≡ verdict_from prim codec engine ev expected eqs)
  unfolding reconcile
  reconcile-verdict_from v h = elim (Option-cases (evaluate_equations prim ev)) [
    | inl e ↦ absurd (ground arith)
    | inr (eqs, e) ↦ (eqs, e, ground arith)
  ]

  -- If `reconcile` returns a verdict with the status `passed`, the evidence holds a contract, a
  -- receipt and an observation for which `EndToEnd` holds: the contract's request commit opens with
  -- the user's salt and request hash; the request commit that the receipt states, or, if the
  -- receipt states none, the one that the relay says it passed on, is an approved one, that of the
  -- request or of an allowed transform; the model signed the response that the user received and
  -- the contract's nonce, the route and the model's hash are approved, the attempt ids agree, and
  -- the response came no later than the contract's expiry.
  pub passed-EndToEnd :
      (v : Verdict)
      → reconcile prim codec engine ev expected ≡ some v
      → v.verification_status ≡ passed
      → EndToEnd prim ev
  unfolding verdict_from
  passed-EndToEnd v h k =
      let (eqs, he, hv) = reconcile-verdict_from v h in
      let (r1, h1, hr) = evaluate-results prim ev eqs he in
      let s = ap (λ (x : Verdict). x.verification_status) (sym hv) ∙ k in
      RequiredPass-EndToEnd prim ev r1 h1
        (rw hr (all_pass-RequiredPass eqs (status-passed eqs _ s).2))
