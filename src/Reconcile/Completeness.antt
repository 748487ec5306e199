-- ===== src/Reconcile/Completeness.antt =====
-- itx/reconcile/completeness.py: whether the evidence agreed on was registered.
use custody.Base.{
  Bool, true, false, List, [], ◌∷◌, ◌++◌, Option, none, some, ◌≟◌, ◌&&◌, if◌then◌else◌,
}
use custody.Statements.{Relay, Receipt}
use custody.Reconcile.Evidence.{
  EvidenceSet, Party, user, relay_party, model_operator, present_parties, r, m,
}

-- The pieces of evidence, named after their party.
pub data Piece : Type 0 where
  user_contract user_observation relay_statement model_receipt : Piece

pub data CompletenessStatus : Type 0 where
  complete gap not_observable : CompletenessStatus

abbrev pub missing_piece : {A : Type 0} → Option A → Piece → List Piece
missing_piece none p = p ∷ []
missing_piece (some _) p = []

-- The pieces that are expected of a party and are not there.
unfoldable pub missing_of : EvidenceSet → Party → List Piece
missing_of ev user =
    missing_piece ev.contract user_contract ++ missing_piece ev.observation user_observation
missing_of ev relay_party = missing_piece ev.relay relay_statement
missing_of ev model_operator = missing_piece ev.receipt model_receipt

unfoldable pub missing : EvidenceSet → List Party → List Piece
missing ev [] = []
missing ev (p ∷ ps) = missing_of ev p ++ missing ev ps

unfoldable pub relay_refused : Option Relay → Bool
relay_refused none = false
relay_refused (some r) = r.policy_decision ≟ "refused"

unfoldable pub receipt_refused : Option Receipt → Bool
receipt_refused none = false
receipt_refused (some m) = m.decision ≟ "refused"

-- `set(missing) <= {"M.receipt", "U.observation"}`
unfoldable pub after_relay : List Piece → Bool
after_relay [] = true
after_relay (model_receipt ∷ ps) = after_relay ps
after_relay (user_observation ∷ ps) = after_relay ps
after_relay (_ ∷ ps) = false

-- `set(missing) <= {"U.observation"}`
unfoldable pub after_model : List Piece → Bool
after_model [] = true
after_model (user_observation ∷ ps) = after_model ps
after_model (_ ∷ ps) = false

unfoldable pub completeness_status : Bool → Bool → List Piece → CompletenessStatus
completeness_status relay_no model_no [] = complete
completeness_status relay_no model_no (p ∷ ps) =
    if relay_no && after_relay (p ∷ ps)
    then not_observable
    else if model_no && after_model (p ∷ ps)
    then not_observable
    else gap

pub record Assessment : Type 0 where
  pub status : CompletenessStatus
  pub expected_parties : List Party
  pub present : List Party
  pub missing_pieces : List Piece
  pub relay_no : Bool
  pub model_no : Bool

unfoldable pub assess_completeness : EvidenceSet → List Party → Assessment
assess_completeness ev expected = record {
  status =
      completeness_status (relay_refused (r ev)) (receipt_refused (m ev)) (missing ev expected);
  expected_parties = expected;
  present = present_parties ev;
  missing_pieces = missing ev expected;
  relay_no = relay_refused (r ev);
  model_no = receipt_refused (m ev);
}
