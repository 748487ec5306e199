-- ===== src/Reconcile/Discrepancies.antt =====
-- itx/reconcile/discrepancy.py: the discrepancy codes and their attribution.
pub mod Classification
use custody.Base.{String, Bool, true, false, List, [], ◌∷◌, ◌++◌, Option}
use custody.Reconcile.Evidence.{Party, user, relay_party, model_operator}
use custody.Reconcile.Equations.{
  EqId, e1, e2, e3, e4, e5, e6, e7, e8, e9, e10, e11, e12, EqResult, Outcome, pass, fail,
  not_evaluable, Grade, self_asserted, externally_corroborable, third_party_salted, RouteKind,
  undeclared_fallback, Results,
}

pub data Severity : Type 0 where
  violation contradiction observed : Severity

pub data Code : Type 0 where
  user_self req_contradict req_unapproved nonce resp_contradict resp_unapproved : Code
  route_unapproved route_undeclared model_art attempt_mismatch expired sig_invalid : Code
  issuer_unauthorized receipt_presented_differs gap late : Code

-- To whom a discrepancy is attributed. `relay_self_reported` is the attribution to the relay that
-- rests on the relay's own word.
pub data Attribution : Type 0 where
  user_bundle user_or_relay relay_or_model relay_only relay_self_reported : Attribution
  relay_or_user model_or_relay relay_or_policy no_attribution : Attribution
  issuer : String → Attribution

pub record Discrepancy : Type 0 where
  pub code : Code
  pub severity : Severity
  pub equations : List EqId
  pub attribution : Attribution

abbrev pub entry : Code → Severity → EqId → Attribution → List Discrepancy
entry cd sv e a = record { code = cd; severity = sv; equations = e ∷ []; attribution = a } ∷ []

abbrev pub when_failed : Outcome → List Discrepancy → List Discrepancy
when_failed fail ds = ds
when_failed _ ds = []

abbrev by_grade : Grade → Attribution
by_grade self_asserted = relay_self_reported
by_grade _ = relay_only

abbrev by_presence : Bool → Attribution
by_presence true = relay_only
by_presence false = relay_self_reported

abbrev route_code : RouteKind → Code
route_code undeclared_fallback = route_undeclared
route_code _ = route_unapproved

abbrev is_model_operator : Party → Bool
is_model_operator model_operator = true
is_model_operator _ = false

-- `"M" in present_parties`
unfoldable pub has_model_operator : List Party → Bool
has_model_operator [] = false
has_model_operator (model_operator ∷ ps) = true
has_model_operator (p ∷ ps) = has_model_operator ps

-- What a failed equation becomes.
unfoldable pub explain : Results → Bool → EqId → List Discrepancy
explain eqs has_m e1 = entry user_self contradiction e1 user_bundle
explain eqs has_m e2 = entry req_contradict contradiction e2 user_or_relay
explain eqs has_m e3 = entry req_contradict contradiction e3 relay_or_model
explain eqs has_m e4 = entry req_unapproved violation e4 (by_grade (eqs e4).grade)
explain eqs has_m e5 = entry nonce violation e5 (by_presence has_m)
explain eqs has_m e6 = entry resp_contradict contradiction e6 relay_or_model
explain eqs has_m e7 = entry resp_contradict contradiction e7 relay_or_user
explain eqs has_m e8 = entry (route_code (eqs e8).route_kind) violation e8 relay_only
explain eqs has_m e9 = entry model_art violation e9 model_or_relay
explain eqs has_m e10 = entry resp_unapproved violation e10 relay_only
explain eqs has_m e11 = entry attempt_mismatch violation e11 relay_only
explain eqs has_m e12 = entry expired violation e12 relay_or_policy

-- The order of the `if` statements of `classify`.
abbrev pub check_order : List EqId
check_order = e1 ∷ e2 ∷ e3 ∷ e4 ∷ e5 ∷ e6 ∷ e7 ∷ e10 ∷ e8 ∷ e9 ∷ e11 ∷ e12 ∷ []

unfoldable pub classify_from : Results → Bool → List EqId → List Discrepancy
unfolding explain
classify_from eqs has_m [] = []
classify_from eqs has_m (e ∷ es) =
    when_failed (eqs e).outcome (explain eqs has_m e) ++ classify_from eqs has_m es

unfoldable pub classify : Results → List Party → List Discrepancy
unfolding classify_from has_model_operator
classify eqs present = classify_from eqs (has_model_operator present) check_order
