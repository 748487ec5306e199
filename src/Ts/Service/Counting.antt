-- ===== src/Ts/Service/Counting.antt =====
-- What the counters of the service count.
use custody.Base.{
  ℕ, ◌+◌, ◌≡◌, refl, ap, true, false, List, [], ◌∷◌, arith, length, length-append, Bool-cases, inl,
  inr,
}
use custody.Crypto.{Primitives}
use custody.Statements.{Statement}
use custody.Ts.Log.{Log, LogCodec, LogEntry, Registered, refused, accepted, register}
use custody.Ts.Log.Registration.{Grows, register-Grows}
use custody.Ts.Service.{
  TransparencyService, Submitted, unavailable, submit, counted, total_delay_ms,
}

module _ (prim : Primitives) (codec : LogCodec) where
  -- The service after a sequence of submissions.
  abbrev pub submit_all : TransparencyService → List (Statement × ℕ) → TransparencyService
  submit_all s [] = s
  submit_all s ((stmt, now) ∷ rest) = submit_all (submit prim codec s stmt now).0 rest

  counted-balanced :
      (s : TransparencyService) (stmt : Statement) (now : ℕ) (log : Log) (r : Registered)
      → Grows prim codec s.log stmt now (log, r)
      → length (counted s log r).0.log.entries + (counted s log r).0.refusals + s.submissions
        ≡ length s.log.entries + s.refusals + (counted s log r).0.submissions
  counted-balanced s stmt now log (refused rs) (same, _) =
      omega (arith, ap (λ (l : Log). length l.entries) same)
  counted-balanced s stmt now log (accepted rc) (e, grown, _, _, _, _) =
      omega (arith, ap (length {A = LogEntry}) grown, length-append s.log.entries (e ∷ []))

  abbrev pub settled : TransparencyService → Statement → ℕ → TransparencyService × Submitted
  settled s stmt now =
      counted s (register prim codec s.log stmt (now + total_delay_ms s)).0
        (register prim codec s.log stmt (now + total_delay_ms s)).1

  pub submit-down :
      (s : TransparencyService) (stmt : Statement) (now : ℕ)
      → s.down ≡ true
      → submit prim codec s stmt now ≡ (s, unavailable)
  unfolding submit
  submit-down s stmt now h = rw h refl

  pub submit-up :
      (s : TransparencyService) (stmt : Statement) (now : ℕ)
      → s.down ≡ false
      → submit prim codec s stmt now ≡ settled s stmt now
  unfolding submit
  submit-up s stmt now h = rw h refl

  submit-balanced :
      (s : TransparencyService) (stmt : Statement) (now : ℕ)
      → length (submit prim codec s stmt now).0.log.entries
          + (submit prim codec s stmt now).0.refusals
          + s.submissions
        ≡ length s.log.entries + s.refusals + (submit prim codec s stmt now).0.submissions
  submit-balanced s stmt now = elim (Bool-cases s.down) [
    | inl out ↦ rw (submit-down s stmt now out) refl
    | inr up ↦ rw (submit-up s stmt now up) (
        counted-balanced s stmt (now + total_delay_ms s)
          (register prim codec s.log stmt (now + total_delay_ms s)).0
          (register prim codec s.log stmt (now + total_delay_ms s)).1
          (register-Grows prim codec s.log stmt (now + total_delay_ms s)))
  ]

  -- Over any sequence of submissions, whether or not the service is down, the new log entries and
  -- the new refusals together are as many as the new submissions counted.
  pub submit_all-balanced :
      (s : TransparencyService) (xs : List (Statement × ℕ))
      → length (submit_all s xs).log.entries + (submit_all s xs).refusals + s.submissions
        ≡ length s.log.entries + s.refusals + (submit_all s xs).submissions
  submit_all-balanced s [] = refl
  submit_all-balanced s ((stmt, now) ∷ rest) =
      omega (
        arith,
        submit-balanced s stmt now,
        submit_all-balanced (submit prim codec s stmt now).0 rest,
      )
