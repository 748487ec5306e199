-- ===== src/Reconcile/Equations/Meaning.antt =====
-- What each equation that a verdict requires says of the statements when it passes.
use custody.Base.{
  ◌≤◌, ◌≡◌, ◌≢◌, inl, inr, refl, String, true, false, Option, none, some, Dict, lookup, contains,
  ◌≟◌, eq_iff, arith, Bool-cases, Option-cases,
}
use custody.Crypto.{Primitives, commit_hex}
use custody.Statements.{Contract, Relay, Receipt, Observation}
use custody.Reconcile.Evidence.{PrivateEvidence}
use custody.Reconcile.Equations.{
  pass, Grade, EqResult, eq1, eq4, eq5, eq8, eq9, eq10, eq11, eq12, actual_request, judge_request,
  is_approved, declared_allowed, is_identity_only, response_transforms, judge_route, attempt_ids,
  all_same, both_equal,
}

pub eq1-pass :
    (prim : Primitives) (c : Option Contract) (p : Option PrivateEvidence) (res : EqResult)
    → eq1 prim c p ≡ some res
    → res.outcome ≡ pass
    → (c' : Contract) × (p' : PrivateEvidence) × (c ≡ some c')
      × (p ≡ some p')
      × (commit_hex prim p'.salt p'.request_hash ≡ some c'.req_commit)
unfolding eq1
eq1-pass prim none p res h k = absurd (ground arith)
eq1-pass prim (some c) none res h k = absurd (ground arith)
eq1-pass prim (some c) (some p) res h k =
    elim (Option-cases (commit_hex prim p.salt p.request_hash)) [
      | inl e ↦ absurd (ground arith)
      | inr (x, e) ↦ (c, p, refl, refl, ground (arith, eq_iff c.req_commit x))
    ]

pub eq4-pass :
    (c : Contract) (r : Option Relay) (m : Option Receipt) (p : Option PrivateEvidence)
    → (eq4 (some c) r m p).outcome ≡ pass
    → (a : String) × (g : Grade) × (actual_request r m ≡ some (a, g))
      × (is_approved c p a ≡ true)
      × (declared_allowed c.allowed_request_transforms r ≡ true)
unfolding eq4 judge_request
eq4-pass c r m p h = elim (Option-cases (actual_request r m)) [
  | inl e ↦ absurd (ground arith)
  | inr ((a, g), e) ↦ (a, g, e, ground arith, ground arith)
]

both_equal→eq : (a : Option String) (b : String) → both_equal a (some b) ≡ true → a ≡ some b
both_equal→eq none b h = cc
both_equal→eq (some a) b h = ground (arith, eq_iff a b)

pub eq5-pass :
    (c : Contract) (r : Option Relay) (m : Receipt)
    → (eq5 (some c) r (some m)).outcome ≡ pass
    → (m.eat_nonce ≡ some c.nonce)
      × ((r' : Relay) → r ≡ some r' → r'.nonce_forwarded ≡ some c.nonce)
unfolding eq5
eq5-pass c none m h = (ground (arith, both_equal→eq m.eat_nonce c.nonce), λ r' e. cc e)
eq5-pass c (some r) m h = (
  ground (arith, both_equal→eq m.eat_nonce c.nonce),
  λ r' e. ground (arith, both_equal→eq r.nonce_forwarded c.nonce),
)

-- The model was the requested one, or a fallback that the contract allows and the relay declared.
pub data Routed (c : Contract) (r : Option Relay) (actual : String) : Type 0 where
  as_requested : actual ≡ c.requested_model → Routed c r actual
  approved_fallback :
      {r' : Relay}
      → contains c.allowed_models actual ≡ true
      → c.fallback_policy ≢ "none"
      → r ≡ some r'
      → r'.policy_decision ≡ "fallback"
      → Routed c r actual

fallback-pass :
    (c : Contract) (r : Option Relay) (m : Receipt)
    → (m.model_id ≟ c.requested_model) ≡ false
    → (eq8 (some c) r (some m)).outcome ≡ pass
    → Routed c r m.model_id
unfolding eq8 judge_route
fallback-pass c none m n h = absurd (ground arith)
fallback-pass c (some r) m n h =
    approved_fallback {r' = r} (ground arith) (λ e. ground (arith, eq_iff c.fallback_policy "none"))
      refl (ground (arith, eq_iff r.policy_decision "fallback"))

pub eq8-pass :
    (c : Contract) (r : Option Relay) (m : Receipt)
    → (eq8 (some c) r (some m)).outcome ≡ pass
    → Routed c r m.model_id
eq8-pass c r m h = elim (Bool-cases (m.model_id ≟ c.requested_model)) [
  | inl same ↦ as_requested ((eq_iff m.model_id c.requested_model).0 same)
  | inr other ↦ fallback-pass c r m other h
]

pub eq9-pass :
    (refs : Dict String) (m : Receipt)
    → (eq9 refs (some m)).outcome ≡ pass
    → (h : String) × (m.model_hash ≡ some h) × (lookup m.model_id refs ≡ some h)
unfolding eq9
eq9-pass refs m h = elim (Option-cases (lookup m.model_id refs)) [
  | inl e ↦ absurd (ground arith)
  | inr (x, e) ↦ (x, ground (arith, both_equal→eq m.model_hash x), e)
]

pub eq10-pass :
    (c : Option Contract) (r : Option Relay) (m : Option Receipt) (o : Option Observation)
    → (eq10 c r m o).outcome ≡ pass
    → (m' : Receipt) × (o' : Observation) × (m ≡ some m')
      × (o ≡ some o')
      × (m'.response_commit ≡ some o'.resp_commit)
      × (is_identity_only (response_transforms c) ≡ true)
unfolding eq10
eq10-pass c r none o h = absurd (ground arith)
eq10-pass c r (some m) none h = absurd (ground arith)
eq10-pass c r (some m) (some o) h = elim (Option-cases m.response_commit) [
  | inl e ↦ absurd (ground arith)
  | inr (x, e) ↦ (m, o, refl, refl, ground (arith, eq_iff x o.resp_commit), ground arith)
]

pub eq11-pass :
    (c : Contract) (r : Option Relay) (m : Receipt) (o : Observation)
    → (eq11 (some c) r (some m) (some o)).outcome ≡ pass
    → (m.attempt_id ≡ c.attempt_id)
      × (o.attempt_id ≡ c.attempt_id)
      × ((r' : Relay) → r ≡ some r' → r'.attempt_id ≡ c.attempt_id)
unfolding eq11 attempt_ids all_same
eq11-pass c none m o h = (
  ground (arith, eq_iff m.attempt_id c.attempt_id),
  ground (arith, eq_iff o.attempt_id c.attempt_id),
  λ r' e. cc e,
)
eq11-pass c (some r) m o h = (
  ground (arith, eq_iff m.attempt_id c.attempt_id),
  ground (arith, eq_iff o.attempt_id c.attempt_id),
  λ r' e. ground (arith, eq_iff r.attempt_id c.attempt_id),
)

pub eq12-pass :
    (c : Contract) (o : Observation)
    → (eq12 (some c) (some o)).outcome ≡ pass
    → o.received_at ≤ c.expires_at
unfolding eq12
eq12-pass c o h = ground arith
