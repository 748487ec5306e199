-- ===== src/Sim/ThirdParty/Requests.antt =====
-- What a request for a verdict does to T's log, and what a registered verdict rests on.
use custody.Base.{
  ℕ, ◌≡◌, ◌≢◌, refl, sym, ◌∙◌, String, true, false, Bool-cases, List, [], ◌∷◌, ◌++◌, Option, none,
  some, lookup, inl, inr, ap,
}
use custody.Crypto.{Primitives}
use custody.Statements.{Statement}
use custody.Reconcile.Evidence.{EvidenceSet, Party}
use custody.Reconcile.Engine.{
  Verdict, Status, passed, failed, insufficient_evidence, gather, reconcile as engine_reconcile,
}
use custody.Reconcile.Engine.Verdicts.{EndToEnd, passed-EndToEnd}
use custody.Ts.Log.{
  Log, LogCodec, LogEntry, Registered, refused, accepted, register, check_policy, statements_for,
}
use custody.Ts.Log.Registration.{Grows, register-Grows, IsAuthorized}
use custody.Ts.Service.{TransparencyService}
use custody.Sim.ThirdParty.{
  ThirdParty, Judged, unavailable, raised, not_registered, judged, reconcile, request_verdict,
  verdict_statement, settle_verdict, register_verdict, kept, evidence_entries, reported, expecting,
  is_decisive,
}

module _ (prim : Primitives) (codec : LogCodec) where
  -- The evidence that T judges.
  abbrev pub evidence_for : ThirdParty → String → ℕ → EvidenceSet
  evidence_for t sub now =
      gather prim codec.statements t.engine sub
        (evidence_entries (statements_for t.service.log.entries sub (some now)))
        (lookup sub t.private) now

  -- The log gained one entry, the authorised statement of the verdict.
  pub record Registers (t : ThirdParty) (v : Verdict) (stmt : Statement) (log : Log) : Type 0 where
    pub entry : LogEntry
    pub appended : log.entries ≡ t.service.log.entries ++ entry ∷ []
    pub holds : entry.statement ≡ stmt
    pub authorized : IsAuthorized prim codec t.service.log stmt

  abbrev pub Requested : ThirdParty → String → List Party → ℕ → ThirdParty × Judged → Type 0
  Requested t sub expected now (t', unavailable) = (t.service.down ≡ true) × (t' ≡ t)
  Requested t sub expected now (t', raised) =
      (reconcile prim codec t sub expected now ≡ none) × (t'.service ≡ t.service)
  Requested t sub expected now (t', not_registered rs) =
      (v : Verdict) × (reconcile prim codec t sub expected now ≡ some v)
      × (rs ≡ check_policy prim codec t.service.log (verdict_statement prim codec t sub v now))
      × (t'.service.log ≡ t.service.log)
  Requested t sub expected now (t', judged v none) =
      (reconcile prim codec t sub expected now ≡ some v)
      × (v.verification_status ≡ insufficient_evidence)
      × (t'.service ≡ t.service)
  Requested t sub expected now (t', judged v (some stmt)) =
      (reconcile prim codec t sub expected now ≡ some v)
      × (v.verification_status ≢ insufficient_evidence)
      × (stmt ≡ verdict_statement prim codec t sub v now)
      × Registers t v stmt t'.service.log

  kept-Requested :
      (t : ThirdParty) (sub : String) (expected : List Party) (now : ℕ) (v : Verdict) (log : Log)
      (r : Registered)
      → reconcile prim codec t sub expected now ≡ some v
      → v.verification_status ≢ insufficient_evidence
      → Grows prim codec t.service.log (verdict_statement prim codec t sub v now) now (log, r)
      → Requested t sub expected now (kept t sub v (verdict_statement prim codec t sub v now) log r)
  kept-Requested t sub expected now v log (refused rs) p n g = (v, p, g.1, g.0)
  kept-Requested t sub expected now v log (accepted rc) p n g =
      (p, n, refl, record { entry = g.0; appended = g.1; holds = g.3; authorized = g.5 })

  decisive : (s : Status) → is_decisive s ≡ true → s ≢ insufficient_evidence
  decisive passed h p = cc p
  decisive failed h p = cc p
  decisive insufficient_evidence h p = cc h

  indecisive : (s : Status) → is_decisive s ≡ false → s ≡ insufficient_evidence
  indecisive passed h = cc
  indecisive failed h = cc
  indecisive insufficient_evidence h = refl

  settle_verdict-Requested :
      (t : ThirdParty) (sub : String) (expected : List Party) (now : ℕ) (o : Option Verdict)
      → reconcile prim codec t sub expected now ≡ o
      → Requested t sub expected now (settle_verdict prim codec t sub o now)
  unfolding register_verdict
  settle_verdict-Requested t sub expected now none p = (p, refl)
  settle_verdict-Requested t sub expected now (some v) p =
      elim (Bool-cases (is_decisive v.verification_status)) [
        | inl yes_ ↦
            let stmt = verdict_statement prim codec t sub v now in
            rw yes_ (
              kept-Requested t sub expected now v (register prim codec t.service.log stmt now).0
                (register prim codec t.service.log stmt now).1 p
                (decisive v.verification_status yes_)
                (register-Grows prim codec t.service.log stmt now))
        | inr no_ ↦ rw no_ (p, indecisive v.verification_status no_, refl)
      ]

  abbrev settled : ThirdParty → String → List Party → ℕ → ThirdParty × Judged
  settled t sub expected now =
      settle_verdict prim codec (expecting t sub expected) sub
        (reconcile prim codec (expecting t sub expected) sub expected now) now

  request_verdict-down :
      (t : ThirdParty) (sub : String) (expected : List Party) (now : ℕ)
      → t.service.down ≡ true
      → request_verdict prim codec t sub expected now ≡ (t, unavailable)
  unfolding request_verdict
  request_verdict-down t sub expected now out = rw out refl

  request_verdict-up :
      (t : ThirdParty) (sub : String) (expected : List Party) (now : ℕ)
      → t.service.down ≡ false
      → request_verdict prim codec t sub expected now ≡ settled t sub expected now
  unfolding request_verdict
  request_verdict-up t sub expected now up = rw up refl

  Requested-expecting :
      (t : ThirdParty) (sub : String) (expected : List Party) (now : ℕ) (r : ThirdParty × Judged)
      → t.service.down ≡ false
      → Requested (expecting t sub expected) sub expected now r
      → Requested t sub expected now r
  unfolding reconcile
  Requested-expecting t sub expected now (t', unavailable) up (out, e) = cc
  Requested-expecting t sub expected now (t', raised) up h = h
  Requested-expecting t sub expected now (t', not_registered rs) up h = h
  Requested-expecting t sub expected now (t', judged v none) up h = h
  Requested-expecting t sub expected now (t', judged v (some stmt)) up h = (
    h.0,
    h.1,
    h.2,
    record {
      entry = h.3.entry;
      appended = h.3.appended;
      holds = h.3.holds;
      authorized = h.3.authorized;
    },
  )

  -- Every outcome of a request for a verdict: T is down and unchanged; the engine raised an error
  -- and the service is as it was; the verdict is not decisive, is returned without a statement, and
  -- the service is as it was; the verdict is decisive and the log gained exactly one entry, which
  -- holds its statement signed for this request, and that statement is authorised; or the log's
  -- policy refused that statement and the log is as it was.
  pub request_verdict-Requested :
      (t : ThirdParty) (sub : String) (expected : List Party) (now : ℕ)
      → Requested t sub expected now (request_verdict prim codec t sub expected now)
  request_verdict-Requested t sub expected now = elim (Bool-cases t.service.down) [
    | inl out ↦ rw (request_verdict-down t sub expected now out) (out, refl)
    | inr up ↦
        let t' = expecting t sub expected in
        rw (request_verdict-up t sub expected now up) (
          Requested-expecting t sub expected now (settled t sub expected now) up (
            settle_verdict-Requested t' sub expected now (reconcile prim codec t' sub expected now)
              refl))
  ]

  reported-honest :
      (t : ThirdParty) (ev : EvidenceSet) (o : Option Verdict)
      → t.misjudge ≡ false
      → reported t ev o ≡ o
  reported-honest t ev none m = refl
  reported-honest t ev (some v) m = rw m refl

  -- An honest T's verdict is the engine's.
  pub reconcile-honest :
      (t : ThirdParty) (sub : String) (expected : List Party) (now : ℕ)
      → t.misjudge ≡ false
      → reconcile prim codec t sub expected now
        ≡ engine_reconcile prim codec.statements t.engine (evidence_for t sub now) expected
  unfolding reconcile
  reconcile-honest t sub expected now m = reported-honest t (evidence_for t sub now) _ m

  abbrev pub PassedSoundly : ThirdParty → String → ℕ → ThirdParty × Judged → Type 0
  PassedSoundly t sub now (t', judged v (some stmt)) =
      v.verification_status ≡ passed → EndToEnd prim (evidence_for t sub now)
  PassedSoundly t sub now (t', _) = t'.service.log ≡ t.service.log

  -- An honest T that registers the verdict `passed` had the evidence for it; whatever it does not
  -- register leaves the log as it was.
  PassedSoundly-Requested :
      (t : ThirdParty) (sub : String) (expected : List Party) (now : ℕ) (r : ThirdParty × Judged)
      → t.misjudge ≡ false
      → Requested t sub expected now r
      → PassedSoundly t sub now r
  PassedSoundly-Requested t sub expected now (t', unavailable) m h =
      ap (λ (x : ThirdParty). x.service.log) h.1
  PassedSoundly-Requested t sub expected now (t', raised) m h =
      ap (λ (x : TransparencyService). x.log) h.1
  PassedSoundly-Requested t sub expected now (t', not_registered rs) m h = h.3
  PassedSoundly-Requested t sub expected now (t', judged v none) m h =
      ap (λ (x : TransparencyService). x.log) h.2
  PassedSoundly-Requested t sub expected now (t', judged v (some stmt)) m h = λ p.
      passed-EndToEnd prim codec.statements t.engine (evidence_for t sub now) expected v
        (sym (reconcile-honest t sub expected now m) ∙ h.0) p

  pub request_verdict-PassedSoundly :
      (t : ThirdParty) (sub : String) (expected : List Party) (now : ℕ)
      → t.misjudge ≡ false
      → PassedSoundly t sub now (request_verdict prim codec t sub expected now)
  request_verdict-PassedSoundly t sub expected now m =
      PassedSoundly-Requested t sub expected now (request_verdict prim codec t sub expected now) m
        (request_verdict-Requested t sub expected now)

  -- The two are the same for every verdict to come.
  abbrev pub Same : ThirdParty → ThirdParty → Type 0
  Same t t' =
      (t'.service ≡ t.service)
      × (t'.engine ≡ t.engine)
      × (t'.private ≡ t.private)
      × (t'.misjudge ≡ t.misjudge)

  pub evidence_for-Same :
      (t t' : ThirdParty) (sub : String) (now : ℕ)
      → Same t t'
      → evidence_for t' sub now ≡ evidence_for t sub now
  evidence_for-Same t t' sub now (a, b, c, d) = rw (a, b, c) refl

  abbrev pub Unchanged : ThirdParty → ThirdParty × Judged → Type 0
  Unchanged t (t', judged v (some stmt)) = Unit
  Unchanged t (t', not_registered rs) = Unit
  Unchanged t (t', _) = Same t t'

  kept-Unchanged :
      (t : ThirdParty) (sub : String) (v : Verdict) (stmt : Statement) (log : Log) (r : Registered)
      → Unchanged t (kept t sub v stmt log r)
  kept-Unchanged t sub v stmt log (refused rs) = tt
  kept-Unchanged t sub v stmt log (accepted rc) = tt

  settle_verdict-Unchanged :
      (t : ThirdParty) (sub : String) (o : Option Verdict) (now : ℕ)
      → Unchanged t (settle_verdict prim codec t sub o now)
  unfolding register_verdict
  settle_verdict-Unchanged t sub none now = (refl, refl, refl, refl)
  settle_verdict-Unchanged t sub (some v) now =
      elim (Bool-cases (is_decisive v.verification_status)) [
        | inl decides ↦ rw decides (kept-Unchanged t sub v _ _ _)
        | inr waits ↦ rw waits (refl, refl, refl, refl)
      ]

  Unchanged-expecting :
      (t : ThirdParty) (sub : String) (expected : List Party) (r : ThirdParty × Judged)
      → Unchanged (expecting t sub expected) r
      → Unchanged t r
  Unchanged-expecting t sub expected (t', unavailable) h = h
  Unchanged-expecting t sub expected (t', raised) h = h
  Unchanged-expecting t sub expected (t', not_registered rs) h = h
  Unchanged-expecting t sub expected (t', judged v none) h = h
  Unchanged-expecting t sub expected (t', judged v (some stmt)) h = h

  -- A request that leads to no registration changes nothing that a later one reads.
  pub request_verdict-Unchanged :
      (t : ThirdParty) (sub : String) (expected : List Party) (now : ℕ)
      → Unchanged t (request_verdict prim codec t sub expected now)
  request_verdict-Unchanged t sub expected now = elim (Bool-cases t.service.down) [
    | inl out ↦ rw (request_verdict-down t sub expected now out) (refl, refl, refl, refl)
    | inr up ↦ rw (request_verdict-up t sub expected now up) (
        Unchanged-expecting t sub expected (settled t sub expected now)
          (settle_verdict-Unchanged (expecting t sub expected) sub _ now))
  ]
