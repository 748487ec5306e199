-- ===== src/Reconcile/Equations.antt =====
-- itx/reconcile/equations.py: the equations E1 to E12. Of a result the fields that later code reads
-- are kept: the outcome, the trust grade and the route kind; the texts for the screen are left out.
-- Each equation is a function of the payloads that it compares.
pub mod Meaning
use custody.Base.{
  ℕ, String, Bool, true, false, not, List, [], ◌∷◌, ◌++◌, Option, none, some, Dict, lookup,
  contains, ◌≟◌, ◌&&◌, ◌||◌, if◌then◌else◌, leb,
}
use custody.Crypto.{Primitives, commit_hex}
use custody.Statements.{Contract, Relay, Receipt, Observation}
use custody.Reconcile.Evidence.{EvidenceSet, PrivateEvidence, c, r, m, o}

pub data Outcome : Type 0 where
  pass fail not_evaluable : Outcome

-- `G_EXT`, `G_SELF` and `G_SALT`
pub data Grade : Type 0 where
  externally_corroborable self_asserted third_party_salted : Grade

pub data RouteKind : Type 0 where
  no_kind declared_unapproved undeclared fallback_forbidden fallback_undeclared_unknown : RouteKind
  declared_approved_fallback undeclared_fallback : RouteKind

pub record EqResult : Type 0 where
  pub outcome : Outcome
  pub grade : Grade
  pub route_kind : RouteKind

pub data EqId : Type 0 where
  e1 e2 e3 e4 e5 e6 e7 e8 e9 e10 e11 e12 : EqId

abbrev pub all_ids : List EqId
all_ids = e1 ∷ e2 ∷ e3 ∷ e4 ∷ e5 ∷ e6 ∷ e7 ∷ e8 ∷ e9 ∷ e10 ∷ e11 ∷ e12 ∷ []

abbrev pub verdict_of : Bool → Outcome
verdict_of true = pass
verdict_of false = fail

abbrev pub result : Outcome → Grade → EqResult
result out g = record { outcome = out; grade = g; route_kind = no_kind }

-- `_na`
abbrev pub na : Grade → EqResult
na g = result not_evaluable g

-- `a is not None and b is not None and a == b`
abbrev pub both_equal : Option String → Option String → Bool
both_equal (some a) (some b) = a ≟ b
both_equal _ _ = false

-- `_cmp`
abbrev pub cmp : Option String → Option String → Grade → EqResult
cmp a b g = result (verdict_of (both_equal a b)) g

-- `IDENTITY` and the registry of request transforms of transforms.py
abbrev pub identity : String
identity = "identity"

abbrev pub public_formatter_v1 : String
public_formatter_v1 = "public-formatter-v1"

unfoldable pub is_recomputable_request_transform : String → Bool
is_recomputable_request_transform name = contains (identity ∷ public_formatter_v1 ∷ []) name

-- `none` is the ValueError of a salt or hash that is not 32 bytes of hexadecimal text.
unfoldable pub eq1 : Primitives → Option Contract → Option PrivateEvidence → Option EqResult
eq1 prim none p = some (na third_party_salted)
eq1 prim (some c) none = some (na third_party_salted)
eq1 prim (some c) (some p) = elim (commit_hex prim p.salt p.request_hash) [
  | none ↦ none
  | some expected ↦ some (cmp (some c.req_commit) (some expected) third_party_salted)
]

unfoldable pub eq2 : Option Contract → Option Relay → EqResult
eq2 (some c) (some r) = cmp (some r.in_commit) (some c.req_commit) externally_corroborable
eq2 _ _ = na externally_corroborable

abbrev against : String → Option String → EqResult
against a none = na externally_corroborable
against a (some b) = cmp (some a) (some b) externally_corroborable

unfoldable pub eq3 : Option Relay → Option Receipt → EqResult
eq3 (some r) (some m) = against r.out_commit m.request_commit
eq3 _ _ = na externally_corroborable

-- The commit that E4 takes for the request that the model operator received: the receipt's, or, if
-- it states none, the relay's own word. The grade says which.
abbrev pub actual_request : Option Relay → Option Receipt → Option (String × Grade)
actual_request (some r) none = some (r.out_commit, self_asserted)
actual_request none none = none
actual_request none (some m) = elim m.request_commit [
  | none ↦ none
  | some a ↦ some (a, externally_corroborable)
]
actual_request (some r) (some m) = elim m.request_commit [
  | none ↦ some (r.out_commit, self_asserted)
  | some a ↦ some (a, externally_corroborable)
]

-- An expected commit of an allowed transform is `actual`.
unfoldable pub matches_expected : List String → Dict String → String → Bool
matches_expected allowed [] actual = false
matches_expected allowed ((tid, cm) ∷ d) actual =
    (contains allowed tid && cm ≟ actual) || matches_expected allowed d actual

abbrev pub expected_of : Option PrivateEvidence → Dict String
expected_of none = []
expected_of (some p) = p.expected_request_commits

abbrev has_key : Option String → Bool
has_key none = false
has_key (some _) = true

-- Some approved transform yields `actual`: the dictionary `approved` starts with the contract's own
-- commit for the identity, which a commit that the user expects for the identity replaces.
unfoldable pub is_approved : Contract → Option PrivateEvidence → String → Bool
is_approved c p actual =
    (contains c.allowed_request_transforms identity
      && (not (has_key (lookup identity (expected_of p))) && c.req_commit ≟ actual))
    || matches_expected c.allowed_request_transforms (expected_of p) actual

unfoldable pub all_recomputable : List String → Bool
all_recomputable [] = true
all_recomputable (t ∷ ts) = is_recomputable_request_transform t && all_recomputable ts

unfoldable pub only_identity : List String → Bool
only_identity [] = true
only_identity (t ∷ ts) = t ≟ identity && only_identity ts

abbrev pub declared_allowed : List String → Option Relay → Bool
declared_allowed allowed none = true
declared_allowed allowed (some r) = contains allowed r.request_transform_id

abbrev lacks_private : Option PrivateEvidence → Bool
lacks_private none = true
lacks_private (some p) = false

unfoldable pub judge_request :
    Contract → Option Relay → Option PrivateEvidence → Option (String × Grade) → EqResult
judge_request c r p none = na externally_corroborable
judge_request c r p (some (actual, g)) =
    if declared_allowed c.allowed_request_transforms r
    then (if is_approved c p actual
        then result pass g
        else if all_recomputable c.allowed_request_transforms
        then (if lacks_private p && not (only_identity c.allowed_request_transforms)
            then na third_party_salted
            else result fail g)
        else result not_evaluable g)
    else result fail g

-- `_eval_request_transform`
unfoldable pub eq4 :
    Option Contract → Option Relay → Option Receipt → Option PrivateEvidence → EqResult
eq4 none r m p = na externally_corroborable
eq4 (some c) r m p = judge_request c r p (actual_request r m)

abbrev nonce_reported : Option (Option String) → String → Bool
nonce_reported none n = true
nonce_reported (some v) n = both_equal v (some n)

unfoldable pub eq5 : Option Contract → Option Relay → Option Receipt → EqResult
eq5 none r m = na externally_corroborable
eq5 (some c) none none = na externally_corroborable
eq5 (some c) (some r) none =
    result (verdict_of (both_equal r.nonce_forwarded (some c.nonce))) externally_corroborable
eq5 (some c) none (some m) =
    result (verdict_of (both_equal m.eat_nonce (some c.nonce))) externally_corroborable
eq5 (some c) (some r) (some m) =
    result
      (verdict_of
        (both_equal m.eat_nonce (some c.nonce) && both_equal r.nonce_forwarded (some c.nonce)))
      externally_corroborable

abbrev both_there : Option String → Option String → EqResult
both_there (some a) (some b) = cmp (some a) (some b) externally_corroborable
both_there _ _ = na externally_corroborable

unfoldable pub eq6 : Option Relay → Option Receipt → EqResult
eq6 (some r) (some m) = both_there m.response_commit r.resp_in_commit
eq6 _ _ = na externally_corroborable

unfoldable pub eq7 : Option Relay → Option Observation → EqResult
eq7 (some r) (some o) = both_there r.resp_out_commit (some o.resp_commit)
eq7 _ _ = na externally_corroborable

-- The model that served, and whose word that is.
abbrev pub actual_model : Option Relay → Option Receipt → Option (String × Grade)
actual_model r (some m) = some (m.model_id, externally_corroborable)
actual_model (some r) none = some (r.upstream_model, self_asserted)
actual_model none none = none

abbrev pub declares_fallback : Option Relay → Bool
declares_fallback none = false
declares_fallback (some r) = r.policy_decision ≟ "fallback"

abbrev pub routed : Outcome → Grade → RouteKind → EqResult
routed out g k = record { outcome = out; grade = g; route_kind = k }

abbrev judge_fallback : Option Relay → Grade → EqResult
judge_fallback none g = routed not_evaluable g fallback_undeclared_unknown
judge_fallback (some r) g =
    if r.policy_decision ≟ "fallback"
    then routed pass g declared_approved_fallback
    else routed fail g undeclared_fallback

unfoldable pub judge_route : Contract → Option Relay → Option (String × Grade) → EqResult
judge_route c r none = na externally_corroborable
judge_route c r (some (actual, g)) =
    if actual ≟ c.requested_model
    then result pass g
    else if contains c.allowed_models actual
    then (if c.fallback_policy ≟ "none"
        then routed fail g fallback_forbidden
        else judge_fallback r g)
    else routed fail g (if declares_fallback r then declared_unapproved else undeclared)

-- `_eval_route`
unfoldable pub eq8 : Option Contract → Option Relay → Option Receipt → EqResult
eq8 none r m = na externally_corroborable
eq8 (some c) r m = judge_route c r (actual_model r m)

abbrev against_reference : Option String → Option String → EqResult
against_reference model_hash none = na externally_corroborable
against_reference model_hash (some ref) = cmp model_hash (some ref) externally_corroborable

unfoldable pub eq9 : Dict String → Option Receipt → EqResult
eq9 refs none = na externally_corroborable
eq9 refs (some m) = against_reference m.model_hash (lookup m.model_id refs)

abbrev pub response_transforms : Option Contract → List String
response_transforms none = identity ∷ []
response_transforms (some c) = c.allowed_response_transforms

abbrev pub response_declared_allowed : List String → Option Relay → Bool
response_declared_allowed allowed none = true
response_declared_allowed allowed (some r) = contains allowed r.response_transform_id

-- `allowed == [IDENTITY]`
unfoldable pub is_identity_only : List String → Bool
is_identity_only [] = false
is_identity_only (t ∷ []) = t ≟ identity
is_identity_only (t ∷ u ∷ ts) = false

abbrev judge_response : List String → Option Relay → Option String → String → EqResult
judge_response allowed r none received = na externally_corroborable
judge_response allowed r (some sent) received =
    if response_declared_allowed allowed r
    then (if is_identity_only allowed
        then result (verdict_of (sent ≟ received)) externally_corroborable
        else na externally_corroborable)
    else result fail externally_corroborable

-- `_eval_end_to_end_response`
unfoldable pub eq10 :
    Option Contract → Option Relay → Option Receipt → Option Observation → EqResult
eq10 c r (some m) (some o) =
    judge_response (response_transforms c) r m.response_commit o.resp_commit
eq10 c r _ _ = na externally_corroborable

abbrev attempt : {A : Type 0} → (A → String) → Option A → List String
attempt f none = []
attempt f (some a) = f a ∷ []

-- `ids.values()`
unfoldable pub attempt_ids :
    Option Contract → Option Relay → Option Receipt → Option Observation → List String
attempt_ids c r m o =
    attempt (λ (x : Contract). x.attempt_id) c
    ++ (attempt (λ (x : Relay). x.attempt_id) r
        ++ (attempt (λ (x : Receipt). x.attempt_id) m
            ++ attempt (λ (x : Observation). x.attempt_id) o))

unfoldable pub all_same : String → List String → Bool
all_same a [] = true
all_same a (x ∷ xs) = x ≟ a && all_same a xs

abbrev judge_attempts : List String → EqResult
judge_attempts [] = na externally_corroborable
judge_attempts (x ∷ []) = na externally_corroborable
judge_attempts (x ∷ y ∷ xs) = result (verdict_of (all_same x (y ∷ xs))) externally_corroborable

unfoldable pub eq11 :
    Option Contract → Option Relay → Option Receipt → Option Observation → EqResult
eq11 c r m o = judge_attempts (attempt_ids c r m o)

unfoldable pub eq12 : Option Contract → Option Observation → EqResult
eq12 (some c) (some o) = result (verdict_of (leb o.received_at c.expires_at)) self_asserted
eq12 _ _ = na self_asserted

-- The dictionary of results.
abbrev pub Results : Type 0
Results = EqId → EqResult

unfoldable pub results : EvidenceSet → EqResult → Results
results ev r1 e1 = r1
results ev r1 e2 = eq2 (c ev) (r ev)
results ev r1 e3 = eq3 (r ev) (m ev)
results ev r1 e4 = eq4 (c ev) (r ev) (m ev) ev.private
results ev r1 e5 = eq5 (c ev) (r ev) (m ev)
results ev r1 e6 = eq6 (r ev) (m ev)
results ev r1 e7 = eq7 (r ev) (o ev)
results ev r1 e8 = eq8 (c ev) (r ev) (m ev)
results ev r1 e9 = eq9 ev.reference_model_hashes (m ev)
results ev r1 e10 = eq10 (c ev) (r ev) (m ev) (o ev)
results ev r1 e11 = eq11 (c ev) (r ev) (m ev) (o ev)
results ev r1 e12 = eq12 (c ev) (o ev)

unfoldable pub evaluate_equations : Primitives → EvidenceSet → Option Results
evaluate_equations prim ev = elim (eq1 prim (c ev) ev.private) [
  | none ↦ none
  | some r1 ↦ some (results ev r1)
]
