-- ===== src/Sim/ModelOperator/Serving.antt =====
-- What M executes, and what its receipt says of it.
use custody.Base.{
  ◌≡◌, ◌≢◌, ◌⊎◌, refl, String, Bool, true, false, Option, none, some, lookup, inl, inr,
}
use custody.Crypto.{Primitives}
use custody.Statements.{Statement, Receipt, receipt_payload}
use custody.Statements.Envelope.{payload, issue}
use custody.Ts.Log.{LogCodec}
use custody.Sim.ThirdParty.{ThirdParty}
use custody.Sim.EvidenceQueue.{EvidenceQueue, Flushed, sent, refusal, enqueue, flush, statement}
use custody.Sim.Messages.{Bodies, WireRequest, commit_body}
use custody.Sim.PreExec.{
  PreExec, skipped, unavailable, failed, unverifiable, passed, pre_exec_check,
}
use custody.Sim.ModelOperator.{
  PreExec, skipped, unavailable, failed, unverifiable, passed, Decision, served, refused,
  decision_text, MockModel, World, Served, raised, answer, Execution, receipt_fields,
  pre_exec_check, serve, give_receipt, signed_receipt, after_flush, later, sign_ms, finish, refuse,
  reply, execute, proceed, with_model, with_cti, refusal_of, execution_of, cti_text, given_if,
  withheld,
}

module _ (bodies : Bodies) (prim : Primitives) (codec : LogCodec) (wire : WireRequest bodies) where
  -- What a receipt states of the request, the response and the decision.
  abbrev pub States : Option String → Option String → Decision → Receipt → Type 0
  States got given d m =
      (m.request_commit ≡ got)
      × (m.response_commit ≡ given)
      × (m.decision ≡ decision_text d)
      × (m.eat_nonce ≡ wire.nonce)
      × (m.attempt_id ≡ wire.attempt_id)

  -- A receipt that was given states it.
  abbrev pub Reports : Option String → Option String → Decision → Option Statement → Type 0
  Reports got given d none = Unit
  Reports got given d (some stmt) =
      (m : Receipt) × (payload stmt ≡ receipt_payload m) × States got given d m

  abbrev Given : Execution bodies → Option (Option Statement) → Type 0
  Given x none = Unit
  Given x (some r) = Reports x.request_commit x.response_commit x.decision r

  after_flush-Given :
      (w : World bodies) (cti : String) (model : MockModel bodies) (x : Execution bodies)
      (out : EvidenceQueue × ThirdParty × Flushed)
      → Given x
          (after_flush bodies prim codec w
            (signed_receipt bodies prim codec w wire cti model x)
            out).1
  unfolding issue receipt_fields
  after_flush-Given w cti model x (q, t, sent n) = (_, refl, (refl, refl, refl, refl, refl))
  after_flush-Given w cti model x (q, t, refusal rs) = tt

  given_if-Given :
      (b : Bool) (w : World bodies) (x : Execution bodies)
      (out : World bodies × Option (Option Statement))
      → Given x out.1
      → Given x (given_if bodies prim codec b w out).1
  given_if-Given true w x out h = h
  given_if-Given false w x out h = tt

  give_receipt-Given :
      (w : World bodies) (cti : String) (model : MockModel bodies) (x : Execution bodies)
      → Given x (give_receipt bodies prim codec w wire cti model x).1
  unfolding give_receipt
  give_receipt-Given w cti model x =
      let w' = later bodies w sign_ms in
      given_if-Given w.operator.issue_receipts w x _ (
        after_flush-Given w' cti model x (
          flush prim codec
            (enqueue w.operator.queue wire.sub
              (statement (signed_receipt bodies prim codec w' wire cti model x)) w'.now)
            w.third_party w'.now))

  -- What an answer of M shows: a refused request was not executed; an executed one is answered with
  -- what the model made of it, after a check that did not fail; the receipt says so.
  abbrev pub Answered :
      Option PreExec → Option (MockModel bodies) → World bodies × Served bodies → Type 0
  Answered check model (w', raised) = Unit
  Answered check model (w', answer none r d) =
      (check ≡ some failed)
      × (d ≡ refused)
      × ((got : Option String) × (commit_body prim bodies wire.salt wire.body ≡ some got)
          × Reports got none refused r)
  Answered check model (w', answer (some response) r d) =
      (done : PreExec) × (used : MockModel bodies) × (check ≡ some done)
      × (model ≡ some used)
      × (done ≢ failed)
      × (response ≡ used.infer wire.body)
      × (d ≡ served)
      × ((r ≡ none)
          ⊎ ((got given : Option String) × (commit_body prim bodies wire.salt wire.body ≡ some got)
              × (commit_body prim bodies wire.salt response ≡ some given)
              × Reports got given served r))

  finish-refused :
      (model : Option (MockModel bodies)) (got : Option String)
      (out : World bodies × Option (Option Statement))
      → commit_body prim bodies wire.salt wire.body ≡ some got
      → Given (refusal_of bodies got) out.1
      → Answered (some failed) model (finish bodies prim codec none refused out)
  finish-refused model got (w', none) p g = tt
  finish-refused model got (w', some r) p g = (refl, refl, (got, p, g))

  finish-served :
      (used : MockModel bodies) (done : PreExec) (got given : Option String)
      (out : World bodies × Option (Option Statement))
      → done ≢ failed
      → commit_body prim bodies wire.salt wire.body ≡ some got
      → commit_body prim bodies wire.salt (used.infer wire.body) ≡ some given
      → Given (execution_of bodies used done got given) out.1
      → Answered
          (some done)
          (some used)
          (finish bodies prim codec (some (used.infer wire.body)) served out)
  finish-served used done got given (w', none) n p q g = tt
  finish-served used done got given (w', some r) n p q g =
      (done, used, refl, refl, n, refl, refl, inr (got, given, p, q, g))

  refuse-Answered :
      (model : Option (MockModel bodies)) (w : World bodies) (used : MockModel bodies)
      (o : Option (Option String))
      → commit_body prim bodies wire.salt wire.body ≡ o
      → Answered (some failed) model (refuse bodies prim codec w wire used o)
  refuse-Answered model w used none p = tt
  refuse-Answered model w used (some got) p =
      let x = refusal_of bodies got in
      let cti = cti_text w.operator.cti in
      finish-refused model got (give_receipt bodies prim codec w wire cti used x) p
        (give_receipt-Given w cti used x)

  reply-Answered :
      (w : World bodies) (used : MockModel bodies) (done : PreExec)
      (got given : Option (Option String))
      → done ≢ failed
      → commit_body prim bodies wire.salt wire.body ≡ got
      → commit_body prim bodies wire.salt (used.infer wire.body) ≡ given
      → Answered
          (some done)
          (some used)
          (reply bodies prim codec w wire used done (used.infer wire.body) got given)
  reply-Answered w used done none given n p q = tt
  reply-Answered w used done (some got) none n p q = tt
  reply-Answered w used done (some got) (some given) n p q =
      let x = execution_of bodies used done got given in
      let cti = cti_text w.operator.cti in
      finish-served used done got given (give_receipt bodies prim codec w wire cti used x) n p q
        (give_receipt-Given w cti used x)

  withheld-Answered :
      (b : Bool) (w : World bodies) (used : MockModel bodies) (done : PreExec)
      (out : World bodies × Served bodies)
      → done ≢ failed
      → Answered (some done) (some used) out
      → Answered (some done) (some used) (withheld bodies prim codec b w (used.infer wire.body) out)
  withheld-Answered true w used done out n h = (done, used, refl, refl, n, refl, refl, inl refl)
  withheld-Answered false w used done out n h = h

  execute-Answered :
      (w : World bodies) (used : MockModel bodies) (done : PreExec)
      → done ≢ failed
      → Answered (some done) (some used) (execute bodies prim codec w wire used done)
  execute-Answered w used done n =
      withheld-Answered w.operator.collude (later bodies w used.latency_ms) used done _ n
        (reply-Answered (later bodies w used.latency_ms) used done _ _ n refl refl)

  proceed-Answered :
      (w : World bodies) (used : MockModel bodies) (o : Option PreExec)
      → Answered o (some used) (proceed bodies prim codec w wire used o)
  proceed-Answered w used none = tt
  proceed-Answered w used (some failed) =
      refuse-Answered (some used) (with_cti bodies w) used _ refl
  proceed-Answered w used (some skipped) =
      execute-Answered (with_cti bodies w) used skipped (λ p. cc p)
  proceed-Answered w used (some unavailable) =
      execute-Answered (with_cti bodies w) used unavailable (λ p. cc p)
  proceed-Answered w used (some unverifiable) =
      execute-Answered (with_cti bodies w) used unverifiable (λ p. cc p)
  proceed-Answered w used (some passed) =
      execute-Answered (with_cti bodies w) used passed (λ p. cc p)

  with_model-Answered :
      (w : World bodies) (o : Option (MockModel bodies))
      → Answered
          (pre_exec_check bodies prim codec w.operator.pre_exec_enforce w.third_party wire w.now)
          o
          (with_model bodies prim codec w wire o)
  with_model-Answered w none = tt
  with_model-Answered w (some used) = proceed-Answered w used _

  pub serve-Answered :
      (w : World bodies) (upstream : String)
      → Answered
          (pre_exec_check bodies prim codec w.operator.pre_exec_enforce w.third_party wire w.now)
          (lookup upstream w.operator.models)
          (serve bodies prim codec w upstream wire)
  unfolding serve
  serve-Answered w upstream = with_model-Answered w (lookup upstream w.operator.models)
