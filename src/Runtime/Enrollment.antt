-- ===== src/Runtime/Enrollment.antt =====
-- itx/runtime/enrollment.py: the public cards of the operators, and deployments that every operator
-- endorses, each epoch on top of the one before. Every error is a ValueError or a KeyError, and is
-- `false` or `none`. Files are left out; a dictionary of cards has no key twice.
pub mod Documents
pub mod Deployments
pub mod Chains
pub mod Endorsements
use custody.Base.{
  ℕ, suc, ◌+◌, String, Bool, true, false, not, List, [], ◌∷◌, ◌++◌, Option, none, some, Dict,
  lookup, contains, length, map, ltb, leb, ◌==◌, ◌≟◌, ◌&&◌, ◌||◌, if◌then◌else◌,
}
use Prim.Native.String
use custody.Crypto.{Bytes, Primitives, hex, from_hex}
use custody.Crypto.Decimal.{number_text}
use custody.Ts.Log.{LogCodec, TreeHead, verify_tree_head, signature_bytes}
use custody.Runtime.Enrollment.Documents.{
  CardBody, Card, Proposal, EndorsementBody, Endorsement, Bundle, first, successor, proposal_of,
}

-- The serialisations of the JSON library, and the checks of the certificate library.
pub record Outside : Type 0 where
  pub card_bytes : CardBody → Bytes
  pub proposal_bytes : Proposal → Bytes
  pub endorsement_bytes : EndorsementBody → Bytes
  -- The endpoint, the certificates and their lifetimes are those of a service.
  pub serves_tls : CardBody → Bool

-- `ROLES` and the roles that must take part
abbrev pub all_roles : List String
all_roles = "U" ∷ "R" ∷ "M" ∷ "T" ∷ "W" ∷ []

abbrev pub needed_roles : List String
needed_roles = "U" ∷ "R" ∷ "M" ∷ "T" ∷ []

-- `"urn:itx:party:" + role.lower()` of a role
abbrev party_of : String → String
party_of role =
    if role ≟ "U"
    then "urn:itx:party:u"
    else if role ≟ "R"
    then "urn:itx:party:r"
    else if role ≟ "M"
    then "urn:itx:party:m"
    else if role ≟ "T"
    then "urn:itx:party:t"
    else "urn:itx:party:w"

-- `MODEL_ID` and the text that `MODEL_HASH` hashes
abbrev mock_model_id : String
mock_model_id = "itx-reference-v1"

abbrev mock_model_text : Bytes
mock_model_text =
    105 ∷ 116 ∷ 120 ∷ 32 ∷ 100 ∷ 101 ∷ 116 ∷ 101 ∷ 114 ∷ 109 ∷ 105 ∷ 110 ∷ 105 ∷ 115 ∷ 116 ∷ 105
    ∷ 99 ∷ 32 ∷ 116 ∷ 101 ∷ 120 ∷ 116 ∷ 32 ∷ 114 ∷ 101 ∷ 102 ∷ 101 ∷ 114 ∷ 101 ∷ 110 ∷ 99 ∷ 101 ∷ 32
    ∷ 109 ∷ 111 ∷ 100 ∷ 101 ∷ 108 ∷ 32 ∷ 118 ∷ 49 ∷ []

abbrev pub keys {ℓ} : {V : Type ℓ} → Dict V → List String
keys [] = []
keys ((k, v) ∷ d) = k ∷ keys d

-- `set(xs) <= set(ys)`
unfoldable pub subset : List String → List String → Bool
subset [] ys = true
subset (x ∷ xs) ys = contains ys x && subset xs ys

-- `len(set(xs)) == len(xs)`
unfoldable pub distinct : List String → Bool
distinct [] = true
distinct (x ∷ xs) = not (contains xs x) && distinct xs

abbrev absent {ℓ} : {A : Type ℓ} → Option A → Bool
absent none = true
absent (some a) = false

-- `not text` of a text that may be null is false.
abbrev given : Option String → Bool
given none = false
given (some t) = not (t ≟ "")

abbrev or_empty : Option String → String
or_empty none = ""
or_empty (some t) = t

-- `value == text`
abbrev pub is_text : Option String → String → Bool
is_text none t = false
is_text (some s) t = s ≟ t

abbrev is_true : Option Bool → Bool
is_true none = false
is_true (some b) = b

-- `low <= value <= high`
abbrev between : ℕ → ℕ → ℕ → Bool
between low value high = leb low value && leb value high

-- The TLS authorities of the services.
unfoldable pub service_authorities : Dict Card → List String
service_authorities [] = []
service_authorities ((r, c) ∷ d) =
    let rest = service_authorities d in if r ≟ "U" then rest else or_empty c.body.tls_ca ∷ rest

abbrev public_keys : Dict Card → List String
public_keys [] = []
public_keys ((r, c) ∷ d) = c.body.public_key ∷ public_keys d

module _ (prim : Primitives) (codec : LogCodec) (outside : Outside) where
  -- `verify(bytes.fromhex(key), message, bytes.fromhex(signature))`
  unfoldable pub signed_with : String → Bytes → String → Bool
  signed_with key message signature = elim (from_hex key) [
    | none ↦ false
    | some k ↦ elim (from_hex signature) [ none ↦ false | some s ↦ prim.verify k message s ]
  ]

  unfoldable pub fingerprint : Proposal → String
  fingerprint p = hex (prim.sha256 (outside.proposal_bytes p))

  -- `verify_card`
  unfoldable pub verify_card : Card → Bool
  verify_card card =
      let b = card.body in
      (b.profile ≟ "itx-operator-card/1" && contains all_roles b.role)
      && ((b.iss ≟ party_of b.role
            && signed_with b.public_key (outside.card_bytes b) card.signature)
          && (ltb b.created_at b.expires_at
              && (if b.role ≟ "U"
                  then absent b.endpoint && (absent b.tls_ca && absent b.tls_certificate)
                  else outside.serves_tls b)))

  -- The loop over the cards.
  unfoldable pub verify_cards : ℕ → Dict Card → Bool
  verify_cards expires_at [] = true
  verify_cards expires_at ((role, card) ∷ d) =
      (verify_card card && (card.body.role ≟ role && leb expires_at card.body.expires_at))
      && verify_cards expires_at d

  abbrev is_hash : String → Bool
  is_hash t = elim (from_hex t) [ none ↦ false | some b ↦ length b == 32 ]

  -- The agreement on the model.
  unfoldable pub model_agreed : Proposal → Bool
  model_agreed p =
      (not (p.model_id ≟ "") && is_hash p.model_hash)
      && (p.model_kind ≟ "deterministic_mock"
          || (p.model_kind ≟ "ollama"
              && (given p.model_name
                  && (not (p.model_id ≟ mock_model_id)
                      && not (p.model_hash ≟ hex (prim.sha256 mock_model_text))))))

  -- The checks of a proposal on its own.
  unfoldable pub proposal_ok : Proposal → Bool
  proposal_ok p =
      (p.profile ≟ "itx-deployment/1" && leb 1 p.epoch)
      && ((subset needed_roles (keys p.cards) && subset (keys p.cards) all_roles)
          && ((ltb p.created_at p.expires_at && between 100 p.strict_timeout_ms 10000)
              && ((between 1 p.max_log_entries 100000 && between 1 p.retention_days 3650)
                  && (verify_cards p.expires_at p.cards
                      && ((distinct (public_keys p.cards) && distinct (service_authorities p.cards))
                          && model_agreed p)))))

  -- `log_id` of `configuration`
  unfoldable pub log_id_of : Proposal → String
  log_id_of p =
      String.◌++◌ "epoch-" (String.◌++◌ p.deployment_id (String.◌++◌ "-" (number_text p.epoch)))

  abbrev head_ok : Proposal → Option Card → TreeHead → Bool
  head_ok p none head = false
  head_ok p (some t) head =
      (head.body.log_id ≟ log_id_of p && head.body.ts_kid ≟ t.body.kid)
      && (between 1 head.body.tree_size 100000 && (elim (from_hex t.body.public_key) [
        | none ↦ false
        | some key ↦ is_true (verify_tree_head prim codec head key)
      ]))

  -- `verify_head` of itx/runtime/auditing.py against the configuration of a deployment
  unfoldable pub verify_checkpoint : Proposal → Option TreeHead → Bool
  verify_checkpoint p none = false
  verify_checkpoint p (some head) = head_ok p (lookup "T" p.cards) head

  -- The proposal goes on from the one before.
  unfoldable pub follows : Proposal → Proposal → Bool
  follows p old =
      (is_text p.previous_hash (fingerprint old) && p.epoch == suc old.epoch)
      && ((p.deployment_id ≟ old.deployment_id
            && (subset (keys p.cards) (keys old.cards) && subset (keys old.cards) (keys p.cards)))
          && verify_checkpoint old p.previous_checkpoint)

  unfoldable pub starts : Proposal → Bool
  starts p = not (given p.previous_hash) && p.epoch == 1
