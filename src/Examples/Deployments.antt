-- ===== src/Examples/Deployments.antt =====
-- A deployment of two epochs that all operators endorsed.
use custody.Base.{ℕ, ◌≡◌, refl, String, true, false, List, [], ◌∷◌, Option, none, some}
use custody.Crypto.{hex}
use custody.Ts.Log.{TreeHead}
use custody.Runtime.Enrollment.{Outside, fingerprint}
use custody.Runtime.Enrollment.Documents.{Card, Proposal, Endorsement, Bundle, first, successor}
use custody.Runtime.Enrollment.Deployments.{verify_deployment}
use custody.Runtime.Enrollment.Chains.{Chained, verify_deployment-Chained}
use custody.Runtime.Enrollment.Endorsements.{Unanimous, verify_deployment-Unanimous}
use custody.Examples.{toy, toy_hash, toy_log_codec}

abbrev outside : Outside
outside = record {
  card_bytes = λ b. 1 ∷ [];
  proposal_bytes = λ (p : Proposal). p.epoch ∷ [];
  endorsement_bytes = λ b. 2 ∷ [];
  serves_tls = λ b. true;
}

-- The card of a role with the public key `n`.
abbrev card : String → String → ℕ → String → Option String → Card
card role iss n key ca = record {
  body = record {
    profile = "itx-operator-card/1";
    role = role;
    iss = iss;
    kid = role;
    public_key = key;
    endpoint = none;
    created_at = 1;
    expires_at = 90;
    tls_ca = ca;
    tls_certificate = none;
  };
  signature = hex (toy_hash (n ∷ 1 ∷ []));
}

abbrev model_hash : String
model_hash = "0505050505050505050505050505050505050505050505050505050505050505"

abbrev proposal : ℕ → Option String → Option TreeHead → Proposal
proposal epoch previous checkpoint = record {
  profile = "itx-deployment/1";
  deployment_id = "d";
  epoch = epoch;
  previous_hash = previous;
  previous_checkpoint = checkpoint;
  created_at = 2;
  expires_at = 80;
  cards =
      ("U", card "U" "urn:itx:party:u" 1 "01" none)
      ∷ ("R", card "R" "urn:itx:party:r" 2 "02" (some "ca-r"))
      ∷ ("M", card "M" "urn:itx:party:m" 3 "03" (some "ca-m"))
      ∷ ("T", card "T" "urn:itx:party:t" 9 "09" (some "ca-t"))
      ∷ [];
  model_id = "m";
  model_hash = model_hash;
  model_kind = "deterministic_mock";
  model_name = none;
  pre_exec = false;
  strict_timeout_ms = 2500;
  max_log_entries = 100;
  retention_days = 30;
}

-- The operator with the public key `n` signs with it, and with the same key of the epoch before.
abbrev endorsement : Proposal → String → ℕ → Endorsement
endorsement p role n = record {
  body = record {
    profile = "itx-deployment-endorsement/1";
    role = role;
    deployment_hash = fingerprint toy toy_log_codec outside p;
  };
  signature = hex (toy_hash (n ∷ 2 ∷ []));
  previous_signature = some (hex (toy_hash (n ∷ 2 ∷ [])));
}

abbrev endorsements : Proposal → List Endorsement
endorsements p =
    endorsement p "U" 1 ∷ endorsement p "R" 2 ∷ endorsement p "M" 3 ∷ endorsement p "T" 9 ∷ []

abbrev first_proposal : Proposal
first_proposal = proposal 1 none none

abbrev checkpoint : TreeHead
checkpoint = record {
  body = record { log_id = "epoch-d-1"; tree_size = 4; root_hash = "r"; time = 5; ts_kid = "T" };
  signature = hex (toy_hash (9 ∷ 4 ∷ []));
}

abbrev second_proposal : Proposal
second_proposal =
    proposal 2 (some (fingerprint toy toy_log_codec outside first_proposal)) (some checkpoint)

abbrev bundle : Bundle
bundle =
    successor second_proposal (endorsements second_proposal)
      (first first_proposal (endorsements first_proposal))

abbrev accepted_hash : String
accepted_hash = "0200000000000000000000000000000000000000000000000000000000000000"

accepts : verify_deployment toy toy_log_codec outside 0 bundle ≡ some accepted_hash
unfolding verify_deployment custody.Runtime.Enrollment.proposal_ok custody.Runtime.Enrollment.subset
    custody.Base.contains custody.Runtime.Enrollment.verify_cards
    custody.Runtime.Enrollment.verify_card custody.Runtime.Enrollment.signed_with
    custody.Crypto.from_hex hex custody.Ts.Merkle.bytes_eq custody.Runtime.Enrollment.distinct
    custody.Runtime.Enrollment.service_authorities custody.Runtime.Enrollment.model_agreed
    custody.Runtime.Enrollment.starts custody.Runtime.Enrollment.Deployments.endorsed
    custody.Runtime.Enrollment.Deployments.receive
    custody.Runtime.Enrollment.Deployments.endorsement_ok fingerprint custody.Base.lookup
    custody.Runtime.Enrollment.follows custody.Runtime.Enrollment.verify_checkpoint
    custody.Runtime.Enrollment.log_id_of custody.Crypto.Decimal.number_text
    custody.Crypto.Decimal.decimal custody.Ts.Log.verify_tree_head
accepts = refl

verify_deployment-Chained_example : Chained toy toy_log_codec outside 0 bundle
verify_deployment-Chained_example =
    verify_deployment-Chained toy toy_log_codec outside bundle accepted_hash accepts

verify_deployment-Unanimous_example : Unanimous toy toy_log_codec outside bundle
verify_deployment-Unanimous_example =
    verify_deployment-Unanimous toy toy_log_codec outside bundle accepted_hash accepts
