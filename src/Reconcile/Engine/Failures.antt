-- ===== src/Reconcile/Engine/Failures.antt =====
-- A failed equation fails the verdict and is reported with its attribution.
use custody.Base.{
  ◌≡◌, ◌≢◌, ◌⊎◌, inl, inr, refl, ap, sym, ◌∙◌, String, Bool, true, false, List, [], ◌∷◌, Option,
  none, some, eq_iff, arith,
}
use custody.Crypto.{Primitives}
use custody.Statements.{Contract, Relay, Receipt, Observation}
use custody.Statements.Envelope.{Codec}
use custody.Reconcile.Evidence.{EvidenceSet, PrivateEvidence, Party, present_parties, c, r, m, o}
use custody.Reconcile.Equations.{
  EqId, e1, e4, e10, fail, EqResult, Results, all_ids, eq4, eq10, results, is_identity_only,
  is_approved, all_recomputable, judge_request, externally_corroborable,
}
use custody.Reconcile.Discrepancies.{
  Discrepancy, classify, classify_from, check_order, explain, when_failed, has_model_operator,
  resp_unapproved, req_unapproved, violation, relay_only,
}
use custody.Reconcile.Discrepancies.Classification.{Among, Among-append_left, Among-append_right}
use custody.Reconcile.Engine.{Engine, Verdict, failed, status, any_failed, verdict_from, reconcile}
use custody.Reconcile.Engine.Verdicts.{reconcile-verdict_from, evaluate-results}

abbrev ElemId : EqId → List EqId → Type 0
ElemId e [] = ⊥
ElemId e (x ∷ xs) = (x ≡ e) ⊎ ElemId e xs

in_check_order : (e : EqId) → ElemId e check_order
in_check_order e1 = ground arith
in_check_order _ = ground arith

in_all_ids : (e : EqId) → ElemId e all_ids
in_all_ids e1 = ground arith
in_all_ids _ = ground arith

classify_from-Among :
    (eqs : Results) (has_m : Bool) (e : EqId) (d : Discrepancy) (es : List EqId)
    → (eqs e).outcome ≡ fail
    → Among d (explain eqs has_m e)
    → ElemId e es
    → Among d (classify_from eqs has_m es)
unfolding classify_from
classify_from-Among eqs has_m e d [] f a h = absurd h
classify_from-Among eqs has_m e d (x ∷ es) f a (inl p) =
    Among-append_left d (when_failed (eqs x).outcome (explain eqs has_m x))
      (classify_from eqs has_m es) (rw (p, f) a)
classify_from-Among eqs has_m e d (x ∷ es) f a (inr h) =
    Among-append_right d (when_failed (eqs x).outcome (explain eqs has_m x)) _
      (classify_from-Among eqs has_m e d es f a h)

any_failed-true :
    (eqs : Results) (e : EqId) (es : List EqId)
    → (eqs e).outcome ≡ fail
    → ElemId e es
    → any_failed eqs es ≡ true
unfolding any_failed
any_failed-true eqs e [] f h = absurd h
any_failed-true eqs e (x ∷ es) f (inl p) = rw (p, f) refl
any_failed-true eqs e (x ∷ es) f (inr h) = ground (arith, any_failed-true eqs e es f h)

status-failed :
    (eqs : Results) (ds : List Discrepancy) (e : EqId)
    → (eqs e).outcome ≡ fail
    → status eqs ds ≡ failed
unfolding status
status-failed eqs ds e f = ground (arith, any_failed-true eqs e all_ids f (in_all_ids e))

-- E10 fails on a changed response, whatever the relay declares.
eq10_differs :
    (agreed : Contract) (r : Option Relay) (served : Receipt) (seen : Observation) (sent : String)
    → is_identity_only agreed.allowed_response_transforms ≡ true
    → served.response_commit ≡ some sent
    → sent ≢ seen.resp_commit
    → (eq10 (some agreed) r (some served) (some seen)).outcome ≡ fail
unfolding eq10
eq10_differs agreed r served seen sent ident hs ne = ground (arith, eq_iff sent seen.resp_commit)

-- E4 fails on a request that no approved transform yields, on the model's word.
eq4_differs :
    (agreed : Contract) (r : Option Relay) (served : Receipt) (secret : PrivateEvidence)
    (got : String)
    → served.request_commit ≡ some got
    → all_recomputable agreed.allowed_request_transforms ≡ true
    → is_approved agreed (some secret) got ≡ false
    → ((eq4 (some agreed) r (some served) (some secret)).outcome ≡ fail)
      × ((eq4 (some agreed) r (some served) (some secret)).grade ≡ externally_corroborable)
unfolding eq4 judge_request
eq4_differs agreed none served secret got hg rec n = (ground arith, ground arith)
eq4_differs agreed (some r) served secret got hg rec n = (ground arith, ground arith)

module _ (prim : Primitives) (codec : Codec) (engine : Engine) (ev : EvidenceSet)
    (expected : List Party) (v : Verdict)
    (judged : reconcile prim codec engine ev expected ≡ some v) where
  -- Whichever equation of a verdict fails, the verdict's status is `failed`, and its discrepancies
  -- hold each one that explains that equation.
  pub fail-failed :
      (e : EqId) (d : Discrepancy)
      → (v.equations e).outcome ≡ fail
      → Among d (explain v.equations (has_model_operator (present_parties ev)) e)
      → (v.verification_status ≡ failed) × Among d v.discrepancies
  unfolding verdict_from classify
  fail-failed e d f a =
      let (eqs, he, hv) = reconcile-verdict_from prim codec engine ev expected v judged in
      let same : v.equations ≡ eqs = ap (λ (x : Verdict). x.equations) hv in
      (
        ap (λ (x : Verdict). x.verification_status) hv ∙ status-failed eqs _ e (rw same at f),
        rw hv (
            Among-append_left d _ _ (
              classify_from-Among eqs _ e d check_order (rw same at f) (rw same at a)
                (in_check_order e))),
      )

  equation_is : (e : EqId) → e ≢ e1 → (r1 : EqResult) × (v.equations e ≡ results ev r1 e)
  unfolding verdict_from
  equation_is e n =
      let (eqs, he, hv) = reconcile-verdict_from prim codec engine ev expected v judged in
      let (r1, h1, hr) = evaluate-results prim ev eqs he in
      (r1, ap (λ (x : Verdict). x.equations e) hv ∙ ap (λ (f : Results). f e) (sym hr))

  -- When the model signed another response than the one the user received, under a contract that
  -- allows no response transform, the verdict is `failed` and holds the discrepancy for a changed
  -- response, which names the relay.
  pub changed_response-failed :
      (agreed : Contract) (served : Receipt) (seen : Observation) (sent : String)
      → c ev ≡ some agreed
      → m ev ≡ some served
      → o ev ≡ some seen
      → is_identity_only agreed.allowed_response_transforms ≡ true
      → served.response_commit ≡ some sent
      → sent ≢ seen.resp_commit
      → (v.verification_status ≡ failed)
        × Among
            (record {
              code = resp_unapproved;
              severity = violation;
              equations = e10 ∷ [];
              attribution = relay_only;
            })
            v.discrepancies
  unfolding explain results
  changed_response-failed agreed served seen sent ca ms os ident hs ne =
      let (r1, same) = equation_is e10 (λ p. cc p) in
      fail-failed e10 _
        (ap (λ (x : EqResult). x.outcome) same
          ∙ rw (ca, ms, os) (eq10_differs agreed (r ev) served seen sent ident hs ne))
        (inl refl)

  -- When the model signed a request that no approved transform yields, the user's private evidence
  -- is there, and every transform of the contract can be recomputed, the verdict is `failed` and
  -- holds the discrepancy for a changed request, which names the relay.
  pub changed_request-failed :
      (agreed : Contract) (served : Receipt) (secret : PrivateEvidence) (got : String)
      → c ev ≡ some agreed
      → m ev ≡ some served
      → ev.private ≡ some secret
      → served.request_commit ≡ some got
      → all_recomputable agreed.allowed_request_transforms ≡ true
      → is_approved agreed (some secret) got ≡ false
      → (v.verification_status ≡ failed)
        × Among
            (record {
              code = req_unapproved;
              severity = violation;
              equations = e4 ∷ [];
              attribution = relay_only;
            })
            v.discrepancies
  unfolding explain results
  changed_request-failed agreed served secret got ca ms ps hg rec no_match =
      let (r1, same) = equation_is e4 (λ p. cc p) in
      let (f, g) = eq4_differs agreed (r ev) served secret got hg rec no_match in
      let graded : (v.equations e4).grade ≡ externally_corroborable =
        ap (λ (x : EqResult). x.grade) same ∙ grade_of g in
      fail-failed e4 _ (ap (λ (x : EqResult). x.outcome) same ∙ rw (ca, ms, ps) f)
        (inl (rw graded refl))
    where
      grade_of :
          (eq4 (some agreed) (r ev) (some served) (some secret)).grade ≡ externally_corroborable
          → (eq4 (c ev) (r ev) (m ev) ev.private).grade ≡ externally_corroborable
      grade_of g = rw (ca, ms, ps) g
