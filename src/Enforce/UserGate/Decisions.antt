-- ===== src/Enforce/UserGate/Decisions.antt =====
-- When the gate lets a response through, and when it is consumed.
use custody.Base.{
  ℕ, ◌≡◌, ◌≢◌, ◌⊎◌, inl, inr, refl, String, Bool, true, false, List, [], ◌∷◌, Option, none, some,
  arith, eq_iff, ltb,
}
use custody.Reconcile.Equations.{Outcome, pass, fail, not_evaluable}
use custody.Enforce.UserGate.{
  Mode, observe, protect, strict, Check, Checks, Gate, Action, accept, accept_unverified,
  quarantine, decide, choose, some_check, all_checks, required_checks, judge, is_outcome, is_text,
  consumed_before_decision, consumption, not_expired, receipt_present, nonce_match, request_binding,
  response_binding,
}

abbrev ElemCheck : Check → List Check → Type 0
ElemCheck k [] = ⊥
ElemCheck k (x ∷ xs) = (x ≡ k) ⊎ ElemCheck k xs

in_all_checks : (k : Check) → ElemCheck k all_checks
in_all_checks not_expired = ground arith
in_all_checks _ = ground arith

some_check-false :
    (checks : Checks) (x : Outcome) (k : Check) (ks : List Check)
    → some_check checks x ks ≡ false
    → ElemCheck k ks
    → is_outcome (checks k) x ≡ false
unfolding some_check
some_check-false checks x k [] h e = absurd e
some_check-false checks x k (y ∷ ks) h (inl p) = rw (← p) (ground arith)
some_check-false checks x k (y ∷ ks) h (inr e) = some_check-false checks x k ks (ground arith) e

some_check-true :
    (checks : Checks) (k : Check) (ks : List Check)
    → checks k ≡ fail
    → ElemCheck k ks
    → some_check checks fail ks ≡ true
unfolding some_check
some_check-true checks k [] h e = absurd e
some_check-true checks k (y ∷ ks) h (inl p) = rw (p, h) refl
some_check-true checks k (y ∷ ks) h (inr e) = ground (arith, some_check-true checks k ks h e)

is_outcome-fail : (x : Outcome) → is_outcome x fail ≡ false → x ≢ fail
is_outcome-fail pass h p = cc p
is_outcome-fail fail h p = cc h
is_outcome-fail not_evaluable h p = cc p

pass_of : (x : Outcome) → x ≢ fail → is_outcome x not_evaluable ≡ false → x ≡ pass
pass_of pass n h = refl
pass_of fail n h = absurd (n refl)
pass_of not_evaluable n h = cc

-- What an acceptance rests on.
pub record IsCleared (mode : Mode) (checks : Checks) (status : Option String) : Type 0 where
  pub none_failed : (k : Check) → checks k ≢ fail
  pub present : checks receipt_present ≡ pass
  pub request : checks request_binding ≡ pass
  pub response : checks response_binding ≡ pass
  pub nonce : checks nonce_match ≡ pass
  pub verdict : mode ≡ strict → status ≡ some "passed"

pub is_text→eq : (a : Option String) (t : String) → is_text a t ≡ true → a ≡ some t
is_text→eq none t h = cc
is_text→eq (some s) t h = ground (arith, eq_iff s t)

judge-strict :
    (status : Option String) (hit : Bool)
    → judge strict status hit ≡ accept
    → status ≡ some "passed"
judge-strict status hit h = is_text→eq status "passed" (ground arith)

cleared :
    (mode : Mode) (checks : Checks) (status : Option String)
    → some_check checks fail all_checks ≡ false
    → some_check checks not_evaluable required_checks ≡ false
    → (mode ≡ strict → status ≡ some "passed")
    → IsCleared mode checks status
cleared mode checks status f n v =
    let no_fail : (k : Check) → checks k ≢ fail = λ k.
      is_outcome-fail (checks k) (some_check-false checks fail k all_checks f (in_all_checks k)) in
    record {
      none_failed = no_fail;
      present =
          pass_of _ (no_fail receipt_present)
            (some_check-false checks not_evaluable receipt_present required_checks n (inl refl));
      request = pass_of _ (no_fail request_binding) (
          some_check-false checks not_evaluable request_binding required_checks n (inr (inl refl)));
      response = pass_of _ (no_fail response_binding) (
          some_check-false checks not_evaluable response_binding required_checks n
            (inr (inr (inl refl))));
      nonce = pass_of _ (no_fail nonce_match) (
          some_check-false checks not_evaluable nonce_match required_checks n
            (inr (inr (inr (inl refl)))));
      verdict = v;
    }

choose-IsCleared :
    (mode : Mode) (checks : Checks) (status : Option String) (hit : Bool)
    → choose mode checks status hit ≡ accept
    → IsCleared mode checks status
unfolding choose
choose-IsCleared observe checks status hit h = cc
choose-IsCleared protect checks status hit h =
    cleared protect checks status (ground arith) (ground arith) (λ p. cc p)
choose-IsCleared strict checks status hit h =
    cleared strict checks status (ground arith) (ground arith)
      (λ p. judge-strict status hit (ground arith))

module _ (gate : Gate) (checks : Checks) (received_at now : ℕ) (status : Option String)
    (hit : Bool) where
  -- If `decide` accepts, no check failed, the required checks passed, and in strict mode the third
  -- party's verdict is `passed`.
  pub accept-IsCleared :
      (decide gate checks received_at now status hit).action ≡ accept
      → IsCleared gate.mode checks status
  unfolding decide
  accept-IsCleared h = choose-IsCleared gate.mode checks status hit h

choose-quarantine :
    (mode : Mode) (checks : Checks) (k : Check) (status : Option String) (hit : Bool)
    → mode ≢ observe
    → checks k ≡ fail
    → choose mode checks status hit ≡ quarantine
unfolding choose
choose-quarantine observe checks k status hit n h = absurd (n refl)
choose-quarantine protect checks k status hit n h =
    ground (arith, some_check-true checks k all_checks h (in_all_checks k))
choose-quarantine strict checks k status hit n h =
    ground (arith, some_check-true checks k all_checks h (in_all_checks k))

module _ (gate : Gate) (checks : Checks) (received_at now : ℕ) where
  -- Outside observe mode a failed check quarantines the response, whatever the third party says and
  -- whether or not its deadline passed.
  pub fail-quarantine :
      (k : Check) (status : Option String) (hit : Bool)
      → gate.mode ≢ observe
      → checks k ≡ fail
      → (decide gate checks received_at now status hit).action ≡ quarantine
  unfolding decide
  fail-quarantine k status hit n h = choose-quarantine gate.mode checks k status hit n h

  -- In protect mode the action does not depend on the third party: any two answers or outages lead
  -- to the same action.
  pub protect_without_verdict :
      (status status' : Option String) (hit hit' : Bool)
      → gate.mode ≡ protect
      → (decide gate checks received_at now status hit).action
        ≡ (decide gate checks received_at now status' hit').action
  unfolding decide
  protect_without_verdict status status' hit hit' h = rw h refl

consumption-lt :
    (action : Action) (received now : ℕ)
    → action ≢ accept_unverified
    → elim (consumption action received now) [ none ↦ false | some t ↦ ltb t now ] ≡ false
consumption-lt accept received now n = ground arith
consumption-lt accept_unverified received now n = absurd (n refl)
consumption-lt _ received now n = refl

choose-ne-unverified :
    (mode : Mode) (checks : Checks) (status : Option String) (hit : Bool)
    → mode ≢ observe
    → choose mode checks status hit ≢ accept_unverified
unfolding choose
choose-ne-unverified observe checks status hit n = absurd (n refl)
choose-ne-unverified protect checks status hit n = λ p. ground arith
choose-ne-unverified strict checks status hit n = λ p. ground arith

-- Outside observe mode no response is consumed before its decision.
pub decide-not_consumed_before :
    (gate : Gate) (checks : Checks) (received_at now : ℕ) (status : Option String) (hit : Bool)
    → gate.mode ≢ observe
    → consumed_before_decision (decide gate checks received_at now status hit) ≡ false
unfolding decide consumed_before_decision
decide-not_consumed_before gate checks received_at now status hit n =
    consumption-lt (choose gate.mode checks status hit) received_at now
      (choose-ne-unverified gate.mode checks status hit n)
