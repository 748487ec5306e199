-- ===== src/Reconcile/Evidence.antt =====
-- itx/reconcile/evidence.py: what the engine judges.
use custody.Base.{ℕ, String, Bool, List, [], ◌∷◌, ◌++◌, Option, none, some, Dict}
use custody.Statements.{
  ContentType, Statement, Payload, Presented, absent, contract_payload, relay_payload,
  receipt_payload, observation_payload, Contract, Relay, Receipt, Observation,
}
use custody.Statements.Envelope.{payload}

pub record PrivateEvidence : Type 0 where
  pub salt : String
  pub request_hash : String
  pub response_hash : Option String
  pub expected_request_commits : Dict String

-- The fixed reference to a statement that a verdict rests on.
pub record StatementRef : Type 0 where
  pub content_type : ContentType
  pub iss : String
  pub kid : String
  pub statement_hash : String
  pub log_index : Option ℕ
  pub registered_at : Option ℕ
  pub signature_valid : Bool

pub data ReceiptSource : Type 0 where
  registered presented_to_user no_source : ReceiptSource

pub record EvidenceSet : Type 0 where
  pub sub : String
  pub contract : Option Statement
  pub relay : Option Statement
  pub receipt : Option Statement
  pub observation : Option Statement
  pub manifest : Option Statement
  pub private : Option PrivateEvidence
  pub reference_model_hashes : Dict String
  pub refs : List StatementRef
  pub invalid_signatures : List StatementRef
  pub unauthorized_issuers : List StatementRef
  pub receipt_source : ReceiptSource
  pub now : ℕ

-- The parties that sign evidence.
pub data Party : Type 0 where
  user relay_party model_operator : Party

abbrev pub contract_of : Payload → Option Contract
contract_of (contract_payload c) = some c
contract_of _ = none

abbrev pub relay_of : Payload → Option Relay
relay_of (relay_payload r) = some r
relay_of _ = none

abbrev pub receipt_of : Payload → Option Receipt
receipt_of (receipt_payload m) = some m
receipt_of _ = none

abbrev pub observation_of : Payload → Option Observation
observation_of (observation_payload o p) = some o
observation_of _ = none

-- `get("presented_receipt")`
abbrev pub presented_of : Payload → Presented
presented_of (observation_payload o p) = p
presented_of _ = absent

-- The payload of a statement that is there, read as the profile of its type, which `validate_payload`
-- checks at the registration. A payload of another profile is outside the model: it reads as absent,
-- where the accessors return it and the use of a missing key raises a KeyError.
abbrev pub read : {A : Type 0} → (Payload → Option A) → Option Statement → Option A
read f none = none
read f (some s) = f (payload s)

-- The accessors `c`, `r`, `m`, `o` of the evidence set.
abbrev pub c : EvidenceSet → Option Contract
c ev = read contract_of ev.contract

abbrev pub r : EvidenceSet → Option Relay
r ev = read relay_of ev.relay

abbrev pub m : EvidenceSet → Option Receipt
m ev = read receipt_of ev.receipt

abbrev pub o : EvidenceSet → Option Observation
o ev = read observation_of ev.observation

abbrev pub presented : EvidenceSet → Presented
presented ev = elim ev.observation [ none ↦ absent | some s ↦ presented_of (payload s) ]

abbrev is_there : {A : Type 0} → Option A → List Party → List Party
is_there none ps = []
is_there (some _) ps = ps

abbrev either_there : {A B : Type 0} → Option A → Option B → List Party → List Party
either_there none none ps = []
either_there _ _ ps = ps

unfoldable pub present_parties : EvidenceSet → List Party
present_parties ev =
    either_there ev.contract ev.observation (user ∷ [])
    ++ (is_there ev.relay (relay_party ∷ []) ++ is_there ev.receipt (model_operator ∷ []))
