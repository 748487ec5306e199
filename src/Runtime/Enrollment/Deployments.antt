-- ===== src/Runtime/Enrollment/Deployments.antt =====
-- `verify_deployment` and `configuration` of itx/runtime/enrollment.py: a deployment is accepted when
-- each of its operators endorsed it, with the previous epoch's key as well, and its history holds.
use custody.Base.{
  ℕ, suc, String, Bool, true, false, not, List, [], ◌∷◌, Option, none, some, lookup, contains, leb,
  ◌≟◌, ◌&&◌, if◌then◌else◌,
}
use custody.Crypto.{Primitives}
use custody.Ts.Log.{LogCodec, TreeHead}
use custody.Runtime.Enrollment.{
  Outside, signed_with, fingerprint, proposal_ok, follows, starts, subset, keys,
}
use custody.Runtime.Enrollment.Documents.{
  Card, Proposal, EndorsementBody, Endorsement, Bundle, first, successor, proposal_of,
}

-- `endorsement["previous_signature"] or "00"`
abbrev pub previous_or_zero : Option String → String
previous_or_zero none = "00"
previous_or_zero (some s) = if s ≟ "" then "00" else s

-- One entry of `deployment_history`.
pub record Generation : Type 0 where
  pub epoch : ℕ
  pub deployment_hash : String
  pub previous_hash : Option String
  pub previous_checkpoint : Option TreeHead

module _ (prim : Primitives) (codec : LogCodec) (outside : Outside) where
  -- The message that an operator signs.
  abbrev pub expected_body : Proposal → String → EndorsementBody
  expected_body p role = record {
    profile = "itx-deployment-endorsement/1";
    role = role;
    deployment_hash = fingerprint prim codec outside p;
  }

  -- The card of a role signed the message.
  abbrev pub signed_by_card : Option Card → Proposal → String → String → Bool
  signed_by_card none p role signature = false
  signed_by_card (some card) p role signature =
      signed_with prim codec outside card.body.public_key
        (outside.endorsement_bytes (expected_body p role)) signature

  abbrev pub rotation_ok : Option Proposal → Proposal → Endorsement → Bool
  rotation_ok none p e = true
  rotation_ok (some old) p e =
      signed_by_card (lookup e.body.role old.cards) p e.body.role
        (previous_or_zero e.previous_signature)

  -- One round of the loop over the endorsements.
  unfoldable pub endorsement_ok : Proposal → Option Proposal → List String → Endorsement → Bool
  endorsement_ok p old received e =
      (not (contains received e.body.role)
        && (e.body.profile ≟ "itx-deployment-endorsement/1"
            && e.body.deployment_hash ≟ fingerprint prim codec outside p))
      && (signed_by_card (lookup e.body.role p.cards) p e.body.role e.signature
          && rotation_ok old p e)

  -- The roles received; `none` is a ValueError.
  unfoldable pub receive :
      Proposal → Option Proposal → List String → List Endorsement → Option (List String)
  receive p old received [] = some received
  receive p old received (e ∷ es) =
      let rest = receive p old (e.body.role ∷ received) es in
      if endorsement_ok p old received e then rest else none

  abbrev pub all_received : Proposal → Option (List String) → Bool
  all_received p none = false
  all_received p (some received) = subset received (keys p.cards) && subset (keys p.cards) received

  unfoldable pub endorsed : Proposal → Option Proposal → List Endorsement → Bool
  endorsed p old es = all_received p (receive p old [] es)

  abbrev pub succeeds : Option String → Bool
  succeeds none = false
  succeeds (some h) = true

  -- `verify_deployment`: the fingerprint of the deployment.
  unfoldable pub verify_deployment : ℕ → Bundle → Option String
  verify_deployment depth (first p es) =
      if leb depth 32
        && (proposal_ok prim codec outside p && (starts prim codec outside p && endorsed p none es))
      then some (fingerprint prim codec outside p)
      else none
  verify_deployment depth (successor p es previous) =
      let before = verify_deployment (suc depth) previous in
      let old = proposal_of previous in
      if leb depth 32
        && (proposal_ok prim codec outside p
            && (succeeds before && (follows prim codec outside p old && endorsed p (some old) es)))
      then some (fingerprint prim codec outside p)
      else none

  abbrev pub generation : Proposal → Generation
  generation p = record {
    epoch = p.epoch;
    deployment_hash = fingerprint prim codec outside p;
    previous_hash = p.previous_hash;
    previous_checkpoint = p.previous_checkpoint;
  }

  -- `deployment_history` of `configuration`, the latest epoch first.
  unfoldable pub deployment_history : Bundle → List Generation
  deployment_history (first p es) = generation p ∷ []
  deployment_history (successor p es previous) = generation p ∷ deployment_history previous
