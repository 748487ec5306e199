-- ===== src/Runtime/Enrollment/Documents.antt =====
-- The documents of a deployment: cards, proposals, endorsements and the bundle of an epoch with the
-- epochs before it.
use custody.Base.{ℕ, String, Bool, List, Option, Dict}
use custody.Ts.Log.{TreeHead}

pub record CardBody : Type 0 where
  pub profile : String
  pub role : String
  pub iss : String
  pub kid : String
  pub public_key : String
  pub endpoint : Option String
  pub created_at : ℕ
  pub expires_at : ℕ
  pub tls_ca : Option String
  pub tls_certificate : Option String

pub record Card : Type 0 where
  pub body : CardBody
  pub signature : String

pub record Proposal : Type 0 where
  pub profile : String
  pub deployment_id : String
  pub epoch : ℕ
  pub previous_hash : Option String
  pub previous_checkpoint : Option TreeHead
  pub created_at : ℕ
  pub expires_at : ℕ
  pub cards : Dict Card
  pub model_id : String
  pub model_hash : String
  pub model_kind : String
  pub model_name : Option String
  pub pre_exec : Bool
  pub strict_timeout_ms : ℕ
  pub max_log_entries : ℕ
  pub retention_days : ℕ

pub record EndorsementBody : Type 0 where
  pub profile : String
  pub role : String
  pub deployment_hash : String

pub record Endorsement : Type 0 where
  pub body : EndorsementBody
  pub signature : String
  pub previous_signature : Option String

-- A bundle without and with a previous one.
pub data Bundle : Type 0 where
  first : Proposal → List Endorsement → Bundle
  successor : Proposal → List Endorsement → Bundle → Bundle

abbrev pub proposal_of : Bundle → Proposal
proposal_of (first p es) = p
proposal_of (successor p es previous) = p

abbrev pub endorsements_of : Bundle → List Endorsement
endorsements_of (first p es) = es
endorsements_of (successor p es previous) = es
