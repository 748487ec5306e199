-- ===== src/Sim/Untampered.antt =====
-- M and the user's gate together, whatever the relay between them did.
use custody.Base.{
  some-injective, ℕ, ◌≡◌, ◌⊎◌, ap, sym, ◌∙◌, String, Bool, true, Option, some, inl, inr, lookup,
}
use mathlib.Core.Path.{subst}
use custody.Crypto.{Bytes, Primitives}
use custody.Statements.{Statement, Receipt, receipt_payload}
use custody.Statements.Envelope.{payload}
use custody.Reconcile.Evidence.{read, receipt_of}
use custody.Ts.Log.{LogCodec}
use custody.Ts.Merkle.Soundness.{Collision}
use custody.Ts.Merkle.Digests.{AreBytes}
use custody.Enforce.UserGate.{Gate, Delivery, accept, decide, local_checks, is_in}
use custody.Enforce.UserGate.Checks.{accept-IsGenuine}
use custody.Sim.Messages.{Bodies, WireRequest, commit_body}
use custody.Sim.Messages.Commits.{commit_body-injective}
use custody.Sim.PreExec.{PreExec, pre_exec_check}
use custody.Sim.ModelOperator.{MockModel, World, Decision, answer, serve, served}
use custody.Sim.ModelOperator.Serving.{Answered, States, serve-Answered}

module _ (bodies : Bodies) (prim : Primitives) (codec : LogCodec)
    (hash_bytes : (b : Bytes) → AreBytes (prim.sha256 b)) (wire : WireRequest bodies) where
  -- The request that the model got and the response that the user got are the user's and the
  -- model's.
  pub record IsUntampered (w : World bodies) (upstream : String) (d : Delivery)
      (response received : bodies.Body) : Type 0 where
    pub used : MockModel bodies
    pub chosen : lookup upstream w.operator.models ≡ some used
    pub ran : response ≡ used.infer wire.body
    pub same_response :
        (bodies.canonical_json received ≡ bodies.canonical_json response) ⊎ Collision prim.sha256
    pub got : Option String
    pub committed : commit_body prim bodies wire.salt wire.body ≡ some got
    pub approved : is_in got d.contract d.expected_request_commits ≡ true
    pub fresh : wire.nonce ≡ some d.contract.nonce
    pub same_attempt : wire.attempt_id ≡ d.contract.attempt_id

  -- What the receipt that the gate read says.
  abbrev said : Option Statement → Option Receipt
  said o = read receipt_of o

  served_receipt :
      (check : Option PreExec) (model : Option (MockModel bodies)) (w' : World bodies)
      (response : bodies.Body) (stmt : Statement) (decision : Decision)
      → Answered bodies prim codec wire check model
          (w', answer (some response) (some stmt) decision)
      → (used : MockModel bodies) × (got given : Option String) × (m : Receipt) × (model
          ≡ some used)
        × (response ≡ used.infer wire.body)
        × (commit_body prim bodies wire.salt wire.body ≡ some got)
        × (commit_body prim bodies wire.salt response ≡ some given)
        × (payload stmt ≡ receipt_payload m)
        × States bodies prim codec wire got given served m
  served_receipt check model w' response stmt decision (done, used, c, u, n, e, f, inl nothing) = cc
  served_receipt check model w' response stmt decision
        (done, used, c, u, n, e, f, inr (got, given, p, q, (m, z, st))) =
      (used, got, given, m, u, e, p, q, z, st)

  -- The model operator answered a request that reached it as `wire` with a response and a receipt,
  -- and whatever the relay did, the user's gate accepts what arrived with that receipt. Then the
  -- response is what the model that was asked for made of the request it got; the body received is
  -- serialised like that response, or SHA-256 has a collision; the commit of the request it got is
  -- one that the user approved; and the nonce and the attempt id are those of the contract. SHA-256
  -- returns bytes, and the received commit is of the body received, whatever its salt.
  pub served_accept :
      (gate : Gate) (d : Delivery) (w w' : World bodies) (upstream : String)
      (response received : bodies.Body) (stmt : Statement) (decision : Decision)
      (salt : Option String) (received_at now : ℕ) (status : Option String) (hit : Bool)
      → serve bodies prim codec w upstream wire ≡ (w', answer (some response) (some stmt) decision)
      → d.inline_receipt ≡ some stmt
      → commit_body prim bodies salt received ≡ some (some d.received_commit)
      → (decide gate (local_checks prim codec.statements gate d) received_at now status hit).action
        ≡ accept
      → IsUntampered w upstream d response received
  served_accept gate d w w' upstream response received stmt decision salt received_at now status hit
        s i r a =
      let check =
        pre_exec_check bodies prim codec w.operator.pre_exec_enforce w.third_party wire w.now in
      let model = lookup upstream w.operator.models in
      let answered =
        subst (λ x. Answered bodies prim codec wire check model x) s
          (serve-Answered bodies prim codec wire w upstream) in
      let (used, got, given, m, u, e, p, q, z, st) =
        served_receipt check model w' response stmt decision answered in
      let g = accept-IsGenuine prim codec.statements gate d received_at now status hit a in
      let same : m ≡ g.served = some-injective m g.served (
        sym (ap receipt_of z)
        ∙ sym (ap said i)
        ∙ ap said g.enclosed
        ∙ ap receipt_of g.is_receipt) in
      let given_is : given ≡ some d.received_commit =
        sym st.1 ∙ ap (λ (x : Receipt). x.response_commit) same ∙ g.response in
      record {
        used = used;
        chosen = u;
        ran = e;
        same_response =
            commit_body-injective prim hash_bytes bodies salt wire.salt received response
              d.received_commit r (q ∙ ap some given_is);
        got = got;
        committed = p;
        approved =
            subst (λ x. is_in x d.contract d.expected_request_commits ≡ true)
              (sym (ap (λ (x : Receipt). x.request_commit) same) ∙ st.0) g.request;
        fresh = sym st.3 ∙ ap (λ (x : Receipt). x.eat_nonce) same ∙ g.fresh;
        same_attempt = sym st.4 ∙ ap (λ (x : Receipt). x.attempt_id) same ∙ g.same_attempt;
      }
