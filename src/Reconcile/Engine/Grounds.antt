-- ===== src/Reconcile/Engine/Grounds.antt =====
-- What a failed verdict rests on.
use custody.Base.{
  ◌≡◌, ◌≢◌, ◌⊎◌, inl, inr, refl, sym, ap, ◌∙◌, Bool, true, false, List, [], ◌∷◌, ◌++◌, map, some,
  arith, Bool-cases,
}
use custody.Crypto.{Primitives}
use custody.Statements.Envelope.{Codec}
use custody.Reconcile.Evidence.{EvidenceSet, StatementRef, Party, presented, present_parties, c}
use custody.Reconcile.Equations.{EqId, Outcome, pass, fail, not_evaluable, Results, all_ids}
use custody.Reconcile.Discrepancies.{
  Discrepancy, classify, classify_from, explain, when_failed, observed, gap as gap_code, late,
  no_attribution, has_model_operator, check_order,
}
use custody.Reconcile.Completeness.{CompletenessStatus, assess_completeness}
use custody.Reconcile.Engine.{
  Engine, Verdict, reconcile, verdict_from, status, failed, any_grave, any_failed, is_grave,
  is_fail, all_pass, required_for_pass, further_discrepancies, presented_differs, bad_signature,
  bad_issuer, one_if, plain, is_gap, has_late, client_time,
}
use custody.Reconcile.Engine.Verdicts.{reconcile-verdict_from}

-- Some equation failed.
abbrev pub SomeFails : Results → Type 0
SomeFails eqs = (e : EqId) × ((eqs e).outcome ≡ fail)

is_fail-fail : (x : Outcome) → is_fail x ≡ true → x ≡ fail
is_fail-fail fail h = refl
is_fail-fail pass h = cc
is_fail-fail not_evaluable h = cc

any_failed-SomeFails : (eqs : Results) (es : List EqId) → any_failed eqs es ≡ true → SomeFails eqs
unfolding any_failed
any_failed-SomeFails eqs [] h = cc
any_failed-SomeFails eqs (e ∷ es) h = elim (Bool-cases (is_fail (eqs e).outcome)) [
  | inl f ↦ (e, is_fail-fail (eqs e).outcome f)
  | inr n ↦ any_failed-SomeFails eqs es (ground arith)
]

any_grave-append :
    (xs ys : List Discrepancy)
    → any_grave (xs ++ ys) ≡ true
    → (any_grave xs ≡ true) ⊎ (any_grave ys ≡ true)
unfolding any_grave
any_grave-append [] ys h = inr h
any_grave-append (x ∷ xs) ys h = elim (Bool-cases (is_grave x.severity)) [
  | inl g ↦ inl (ground arith)
  | inr n ↦ elim (any_grave-append xs ys (ground arith)) [
    | inl a ↦ inl (ground arith)
    | inr b ↦ inr b
  ]
]

when_failed-fail :
    (x : Outcome) (ds : List Discrepancy) → any_grave (when_failed x ds) ≡ true → x ≡ fail
unfolding any_grave
when_failed-fail fail ds h = refl
when_failed-fail pass ds h = cc
when_failed-fail not_evaluable ds h = cc

classify_from-SomeFails :
    (eqs : Results) (has_m : Bool) (es : List EqId)
    → any_grave (classify_from eqs has_m es) ≡ true
    → SomeFails eqs
unfolding classify_from any_grave
classify_from-SomeFails eqs has_m [] h = cc
classify_from-SomeFails eqs has_m (e ∷ es) h =
    elim (any_grave-append (when_failed (eqs e).outcome (explain eqs has_m e)) _ h) [
      | inl a ↦ (e, when_failed-fail (eqs e).outcome _ a)
      | inr b ↦ classify_from-SomeFails eqs has_m es b
    ]

map-nonempty :
    (f : StatementRef → Discrepancy) (refs : List StatementRef)
    → any_grave (map f refs) ≡ true
    → refs ≢ []
unfolding any_grave
map-nonempty f [] h = absurd (cc h)
map-nonempty f (x ∷ refs) h = λ p. cc p

one_if-true : (b : Bool) (d : Discrepancy) → any_grave (one_if b d) ≡ true → b ≡ true
unfolding any_grave
one_if-true true d h = refl
one_if-true false d h = cc

one_if-grave :
    (b : Bool) (d : Discrepancy) → any_grave (one_if b d) ≡ true → is_grave d.severity ≡ true
unfolding any_grave
one_if-grave true d h = ground arith
one_if-grave false d h = cc

observed-not_grave : is_grave observed ≢ true
observed-not_grave h = cc h

status-failed_cases :
    (eqs : Results) (ds : List Discrepancy)
    → status eqs ds ≡ failed
    → (any_grave ds ≡ true) ⊎ SomeFails eqs
unfolding status
status-failed_cases eqs ds h = elim (Bool-cases (any_grave ds)) [
  | inl g ↦ inl g
  | inr n ↦ elim (Bool-cases (any_failed eqs all_ids)) [
    | inl f ↦ inr (any_failed-SomeFails eqs all_ids f)
    | inr n' ↦ elim (Bool-cases (all_pass eqs required_for_pass)) [
      | inl a ↦ absurd (cc (rw (n, n', a) at h))
      | inr a ↦ absurd (cc (rw (n, n', a) at h))
    ]
  ]
]

module _ (prim : Primitives) (codec : Codec) (ev : EvidenceSet) where
  -- The grounds on which a verdict may fail.
  abbrev pub Grounds : Results → Type 0
  Grounds eqs =
      SomeFails eqs
      ⊎ ((ev.invalid_signatures ≢ [])
          ⊎ ((ev.unauthorized_issuers ≢ [])
              ⊎ (presented_differs prim codec ev.receipt_source ev.receipt (presented ev) ≡ true)))

  further-Grounds :
      (engine : Engine) (completeness : CompletenessStatus) (eqs : Results)
      → any_grave (further_discrepancies prim codec engine ev completeness) ≡ true
      → Grounds eqs
  unfolding further_discrepancies
  further-Grounds engine completeness eqs h = elim (any_grave-append _ _ h) [
    | inl a ↦ inr (inl (map-nonempty bad_signature ev.invalid_signatures a))
    | inr h1 ↦ elim (any_grave-append _ _ h1) [
      | inl a ↦ inr (inr (inl (map-nonempty bad_issuer ev.unauthorized_issuers a)))
      | inr h2 ↦ elim (any_grave-append _ _ h2) [
        | inl a ↦ inr (inr (inr (one_if-true _ _ a)))
        | inr h3 ↦ elim (any_grave-append _ _ h3) [
          | inl a ↦ absurd (
              observed-not_grave
                (one_if-grave (is_gap completeness) (plain gap_code observed no_attribution) a))
          | inr a ↦ absurd (
              observed-not_grave (
                one_if-grave (has_late engine.late_threshold_ms (client_time (c ev)) ev.refs)
                  (plain late observed no_attribution) a))
        ]
      ]
    ]
  ]

  verdict_from-Grounds :
      (engine : Engine) (expected : List Party) (eqs : Results)
      → (verdict_from prim codec engine ev expected eqs).verification_status ≡ failed
      → Grounds eqs
  unfolding verdict_from classify
  verdict_from-Grounds engine expected eqs h = elim (status-failed_cases eqs _ h) [
    | inr s ↦ inl s
    | inl g ↦
        elim (any_grave-append (classify eqs (present_parties ev))
          (further_discrepancies prim codec engine ev (assess_completeness ev expected).status) g) [
            | inl a ↦ inl (
                classify_from-SomeFails eqs (has_model_operator (present_parties ev)) check_order a)
            | inr b ↦ further-Grounds engine (assess_completeness ev expected).status eqs b
          ]
  ]

  -- When a verdict is `failed`, one of its equations failed, or the evidence lists an invalid
  -- signature or an issuer without the right to the type, or the receipt that the user was shown
  -- differs from the registered one.
  pub failed-Grounds :
      (engine : Engine) (expected : List Party) (v : Verdict)
      → reconcile prim codec engine ev expected ≡ some v
      → v.verification_status ≡ failed
      → Grounds v.equations
  unfolding verdict_from
  failed-Grounds engine expected v h k =
      let (eqs, he, hv) = reconcile-verdict_from prim codec engine ev expected v h in
      rw hv (
        verdict_from-Grounds engine expected eqs
          (ap (λ (x : Verdict). x.verification_status) (sym hv) ∙ k))
