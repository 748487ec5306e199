-- ===== src/Reconcile/Engine/Gathering.antt =====
-- Only authentic statements of authorised issuers become evidence.
use custody.Base.{
  ℕ, ◌≡◌, refl, String, true, List, [], ◌∷◌, Option, none, some, lookup, eq_iff, arith, Bool-cases,
  inl, inr,
}
use custody.Crypto.{Bytes, Primitives}
use custody.Statements.{
  ContentType, contract, relay, receipt, observation, manifest, verdict, policy, other, Statement,
  Presented, absent, malformed, copy,
}
use custody.Statements.Envelope.{Codec, content_type, kid, iss, verify_with, same_type}
use custody.Reconcile.Evidence.{EvidenceSet, PrivateEvidence, StatementRef, presented}
use custody.Reconcile.Engine.{
  Engine, Entry, authorized, is_valid, key_verifies, file_statement, gather_entry, gather_entries,
  use_presented, take_presented, is_usable, fill_receipt, no_receipt, gather,
}

module _ (prim : Primitives) (codec : Codec) (engine : Engine) where
  -- The statement has the content type, verifies with a trusted key of its issuer, and its issuer
  -- may issue that type.
  pub record IsAuthentic (ct : ContentType) (s : Statement) : Type 0 where
    pub typed : content_type s ≡ ct
    pub key : Bytes
    pub bound : lookup (kid s) engine.trusted_keys ≡ some (iss s, key)
    pub verified : verify_with prim codec s key ≡ true
    pub role : authorized engine (iss s) ct ≡ true

  abbrev pub IfThere : ContentType → Option Statement → Type 0
  IfThere ct none = Unit
  IfThere ct (some s) = IsAuthentic ct s

  pub record IsSound (ev : EvidenceSet) : Type 0 where
    pub contract : IfThere contract ev.contract
    pub relay : IfThere relay ev.relay
    pub receipt : IfThere receipt ev.receipt
    pub observation : IfThere observation ev.observation
    pub manifest : IfThere manifest ev.manifest

  key_verifies-true :
      (k : Option (String × Bytes)) (s : Statement)
      → key_verifies prim codec k s ≡ true
      → (key : Bytes) × (k ≡ some (iss s, key)) × (verify_with prim codec s key ≡ true)
  key_verifies-true none s h = cc
  key_verifies-true (some (i, key)) s h = (key, ground (arith, eq_iff i (iss s)), ground arith)

  authentic :
      (ct : ContentType) (s : Statement)
      → content_type s ≡ ct
      → is_valid prim codec engine s ≡ true
      → authorized engine (iss s) (content_type s) ≡ true
      → IsAuthentic ct s
  unfolding is_valid
  authentic ct s t v a =
      let (key, b, w) = key_verifies-true (lookup (kid s) engine.trusted_keys) s v in
      record { typed = t; key = key; bound = b; verified = w; role = rw t at a }

  file_statement-IsSound :
      (ev : EvidenceSet) (ref : StatementRef) (s : Statement) (ct : ContentType)
      → IsSound ev
      → IsAuthentic ct s
      → IsSound (file_statement ev ref s ct)
  unfolding file_statement
  file_statement-IsSound ev ref s contract h a = record {
    contract = a;
    relay = h.relay;
    receipt = h.receipt;
    observation = h.observation;
    manifest = h.manifest;
  }
  file_statement-IsSound ev ref s relay h a = record {
    contract = h.contract;
    relay = a;
    receipt = h.receipt;
    observation = h.observation;
    manifest = h.manifest;
  }
  file_statement-IsSound ev ref s receipt h a = record {
    contract = h.contract;
    relay = h.relay;
    receipt = a;
    observation = h.observation;
    manifest = h.manifest;
  }
  file_statement-IsSound ev ref s observation h a = record {
    contract = h.contract;
    relay = h.relay;
    receipt = h.receipt;
    observation = a;
    manifest = h.manifest;
  }
  file_statement-IsSound ev ref s manifest h a = record {
    contract = h.contract;
    relay = h.relay;
    receipt = h.receipt;
    observation = h.observation;
    manifest = a;
  }
  file_statement-IsSound ev ref s verdict h a = h
  file_statement-IsSound ev ref s policy h a = h
  file_statement-IsSound ev ref s (other _) h a = h

  same_evidence :
      (ev ev' : EvidenceSet)
      → ev'.contract ≡ ev.contract
      → ev'.relay ≡ ev.relay
      → ev'.receipt ≡ ev.receipt
      → ev'.observation ≡ ev.observation
      → ev'.manifest ≡ ev.manifest
      → IsSound ev
      → IsSound ev'
  same_evidence ev ev' a b c d e h = record {
    contract = rw a h.contract;
    relay = rw b h.relay;
    receipt = rw c h.receipt;
    observation = rw d h.observation;
    manifest = rw e h.manifest;
  }

  gather_entry-IsSound :
      (ev : EvidenceSet) (e : Entry) → IsSound ev → IsSound (gather_entry prim codec engine ev e)
  unfolding gather_entry
  gather_entry-IsSound ev e h = elim (Bool-cases (is_valid prim codec engine e.statement)) [
    | inr bad ↦ rw bad (same_evidence ev _ refl refl refl refl refl h)
    | inl ok ↦ elim (Bool-cases (authorized engine (iss e.statement) (content_type e.statement))) [
      | inr stranger ↦ rw (ok, stranger) (same_evidence ev _ refl refl refl refl refl h)
      | inl role ↦
          rw (ok, role)
            (file_statement-IsSound ev _ e.statement (content_type e.statement) h
              (authentic (content_type e.statement) e.statement refl ok role))
    ]
  ]

  gather_entries-IsSound :
      (ev : EvidenceSet) (es : List Entry)
      → IsSound ev
      → IsSound (gather_entries prim codec engine ev es)
  unfolding gather_entries
  gather_entries-IsSound ev [] h = h
  gather_entries-IsSound ev (e ∷ es) h =
      gather_entries-IsSound (gather_entry prim codec engine ev e) es (gather_entry-IsSound ev e h)

  same_type→eq : (t : ContentType) → same_type t receipt ≡ true → t ≡ receipt
  unfolding same_type
  same_type→eq receipt h = refl
  same_type→eq contract h = cc
  same_type→eq _ h = cc

  with_receipt :
      (ev ev' : EvidenceSet) (s : Statement)
      → ev'.contract ≡ ev.contract
      → ev'.relay ≡ ev.relay
      → ev'.receipt ≡ some s
      → ev'.observation ≡ ev.observation
      → ev'.manifest ≡ ev.manifest
      → IsAuthentic receipt s
      → IsSound ev
      → IsSound ev'
  with_receipt ev ev' s a b c d e auth h = record {
    contract = rw a h.contract;
    relay = rw b h.relay;
    receipt = rw c auth;
    observation = rw d h.observation;
    manifest = rw e h.manifest;
  }

  take_presented-IsSound :
      (ev : EvidenceSet) (p : Presented)
      → IsSound ev
      → IsSound (take_presented prim codec engine ev p)
  take_presented-IsSound ev absent h = h
  take_presented-IsSound ev malformed h = h
  take_presented-IsSound ev (copy s) h = elim (Bool-cases (is_usable prim codec engine s)) [
    | inr unusable ↦ rw unusable h
    | inl ok ↦
        let t : content_type s ≡ receipt = same_type→eq (content_type s) (ground arith) in
        rw ok (
          with_receipt ev _ s refl refl refl refl refl
            (authentic receipt s t (ground arith) (ground arith)) h)
  ]

  no_receipt-IsSound :
      (ev : EvidenceSet) (x : Option Statement) → IsSound ev → IsSound (no_receipt prim codec ev x)
  no_receipt-IsSound ev none h = same_evidence ev _ refl refl refl refl refl h
  no_receipt-IsSound ev (some s) h = h

  fill_receipt-IsSound :
      (ev : EvidenceSet) (x : Option Statement)
      → IsSound ev
      → IsSound (fill_receipt prim codec engine ev x)
  fill_receipt-IsSound ev (some s) h = h
  fill_receipt-IsSound ev none h =
      no_receipt-IsSound _ _ (take_presented-IsSound ev (presented ev) h)

  -- Whatever entries the log holds and whatever receipt the user was shown, each statement that
  -- `gather` puts into the evidence has the type of its place, a trusted key bound to its issuer
  -- verifies it, and the issuer may issue that type.
  pub gather-IsSound :
      (sub : String) (es : List Entry) (private : Option PrivateEvidence) (now : ℕ)
      → IsSound (gather prim codec engine sub es private now)
  unfolding gather use_presented
  gather-IsSound sub es private now = fill_receipt-IsSound _ _ (
      gather_entries-IsSound _ es
        (record { contract = tt; relay = tt; receipt = tt; observation = tt; manifest = tt }))
