-- ===== src/Sim/PreExec/Matching.antt =====
-- What a check that passed found.
use custody.Base.{
  ℕ, ◌≡◌, ◌⊎◌, refl, ap, String, Bool, true, false, Bool-cases, Option, none, some, contains, inl,
  inr, arith, eq_iff,
}
use custody.Crypto.{Bytes, Primitives}
use custody.Ts.Merkle.Digests.{AreBytes}
use custody.Ts.Merkle.Soundness.{Collision}
use custody.Sim.Messages.Commits.{commit_body-injective}
use custody.Sim.ThirdParty.Lookups.{FirstShown, lookup_contract-FirstShown}
use custody.Statements.{Statement, Contract}
use custody.Statements.Envelope.{payload}
use custody.Reconcile.Evidence.{contract_of}
use custody.Ts.Log.{LogCodec}
use custody.Sim.ThirdParty.{ThirdParty, lookup_contract}
use custody.Sim.Messages.{Bodies, WireRequest, commit_body}
use custody.Sim.PreExec.{
  passed, same_nonce, compare_commit, compare_got, compare_salted, check_contract, check_payload,
  check_found, pre_exec_check,
}

module _ (bodies : Bodies) (prim : Primitives) (codec : LogCodec)
    (hash_bytes : (b : Bytes) → AreBytes (prim.sha256 b)) (wire : WireRequest bodies) where
  -- What a check that passed shows: T is up, and the first contract for the request that its log
  -- shows at the time has the nonce received, allows the request unchanged and commits to the body
  -- received; every body that opens the contract's commit is serialised like the one received, or
  -- SHA-256 has a collision.
  pub record Matches (t : ThirdParty) (now : ℕ) : Type 0 where
    pub stmt : Statement
    pub agreed : Contract
    pub up : t.service.down ≡ false
    pub found : FirstShown wire.sub now t.service.log.entries stmt
    pub is_contract : contract_of (payload stmt) ≡ some agreed
    pub nonce : wire.nonce ≡ some agreed.nonce
    pub unchanged : contains agreed.allowed_request_transforms "identity" ≡ true
    pub commit : commit_body prim bodies wire.salt wire.body ≡ some (some agreed.req_commit)
    pub genuine :
        (salt : Option String) (sent : bodies.Body)
        → commit_body prim bodies salt sent ≡ some (some agreed.req_commit)
        → (bodies.canonical_json sent ≡ bodies.canonical_json wire.body) ⊎ Collision prim.sha256

  abbrev Agrees : Contract → Type 0
  Agrees c =
      (wire.nonce ≡ some c.nonce)
      × (contains c.allowed_request_transforms "identity" ≡ true)
      × (commit_body prim bodies wire.salt wire.body ≡ some (some c.req_commit))

  same_nonce→eq : (n : Option String) (t : String) → same_nonce n t ≡ true → n ≡ some t
  same_nonce→eq none t h = cc
  same_nonce→eq (some n) t h = ground (arith, eq_iff n t)

  compare_commit-passed :
      (c : Contract) (got : Option String)
      → compare_commit c got ≡ passed
      → (contains c.allowed_request_transforms "identity" ≡ true) × (got ≡ some c.req_commit)
  unfolding compare_commit
  compare_commit-passed c none h = ground arith
  compare_commit-passed c (some g) h = ground (arith, eq_iff g c.req_commit)

  abbrev Compared : Contract → Option (Option String) → Type 0
  Compared c got =
      (contains c.allowed_request_transforms "identity" ≡ true) × (got ≡ some (some c.req_commit))

  compare_got-passed :
      (c : Contract) (got : Option (Option String))
      → compare_got bodies prim codec c got ≡ some passed
      → Compared c got
  compare_got-passed c none h = cc
  compare_got-passed c (some got) h =
      let r = compare_commit-passed c got (ground arith) in (r.0, ap some r.1)

  compare_salted-passed :
      (c : Contract) (salt : Option String)
      → wire.salt ≡ salt
      → compare_salted bodies prim codec c salt wire ≡ some passed
      → Compared c (commit_body prim bodies salt wire.body)
  compare_salted-passed c none p h = cc
  compare_salted-passed c (some salt) p h = compare_got-passed c _ h

  check_contract-passed :
      (c : Contract) → check_contract bodies prim codec c wire ≡ some passed → Agrees c
  unfolding check_contract
  check_contract-passed c h = elim (Bool-cases (same_nonce wire.nonce c.nonce)) [
    | inl same ↦
        let r = compare_salted-passed c wire.salt refl (ground arith) in
        (same_nonce→eq wire.nonce c.nonce same, r.0, r.1)
    | inr other ↦ absurd (ground arith)
  ]

  check_payload-passed :
      (o : Option Contract)
      → check_payload bodies prim codec o wire ≡ some passed
      → (c : Contract) × (o ≡ some c) × Agrees c
  check_payload-passed none h = cc
  check_payload-passed (some c) h = (c, refl, check_contract-passed c h)

  check_found-passed :
      (t : ThirdParty) (now : ℕ) (o : Option (Option Statement))
      → lookup_contract prim codec t wire.sub now ≡ o
      → check_found bodies prim codec o wire ≡ some passed
      → Matches t now
  check_found-passed t now none p h = cc
  check_found-passed t now (some none) p h = cc
  check_found-passed t now (some (some stmt)) p h =
      let (c, e, a) = check_payload-passed (contract_of (payload stmt)) h in
      let (up, shown) = lookup_contract-FirstShown prim codec t wire.sub now stmt p in
      record {
        stmt = stmt;
        agreed = c;
        up = up;
        found = shown;
        is_contract = e;
        nonce = a.0;
        unchanged = a.1;
        commit = a.2;
        genuine = λ salt sent k.
            commit_body-injective prim hash_bytes bodies salt wire.salt sent wire.body c.req_commit
              k a.2;
      }

  -- If the model operator's check before the execution passes, T is up, and the first contract for
  -- the request among the entries that T's log shows at that time allows the request unchanged, has
  -- the nonce received and commits to the body received; every body that opens that commit, with
  -- whatever salt, is serialised like the body received, or SHA-256 has a collision. SHA-256
  -- returns bytes.
  pub pre_exec_check-passed :
      (enforce : Bool) (t : ThirdParty) (now : ℕ)
      → pre_exec_check bodies prim codec enforce t wire now ≡ some passed
      → Matches t now
  unfolding pre_exec_check
  pre_exec_check-passed true t now h = check_found-passed t now _ refl h
  pre_exec_check-passed false t now h = cc
