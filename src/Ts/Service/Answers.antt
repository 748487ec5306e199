-- ===== src/Ts/Service/Answers.antt =====
-- What `submit` answers, and what that says of the service and of the log.
use custody.Base.{
  ℕ, ◌+◌, ◌≡◌, ◌≢◌, refl, true, false, [], Bool-cases, List-cases, inl, inr, All, All-append,
}
use custody.Crypto.{Primitives}
use custody.Statements.{Statement}
use custody.Ts.Log.{
  Log, LogCodec, Registered, refused, accepted, check_policy, register, append, verify_receipt,
  valid,
}
use custody.Ts.Merkle.{leaf_hash}
use custody.Ts.Merkle.Digests.{AreBytes}
use custody.Ts.Log.Registration.{Grows, register-Grows}
use custody.Ts.Log.Receipts.{Works, Vouches, register-verify_receipt}
use custody.Ts.Service.{
  TransparencyService, Submitted, unavailable, answered, submit, counted, total_delay_ms,
}
use custody.Ts.Service.Counting.{submit-down, submit-up}

module _ (prim : Primitives) (codec : LogCodec) where
  -- The key of the log signs, and its leaves are bytes.
  abbrev pub Sound : TransparencyService → Type 0
  Sound s = Works prim s.log.key × All AreBytes s.log.leaves

  abbrev pub Answers : TransparencyService → Statement → TransparencyService × Submitted → Type 0
  Answers s stmt (s', unavailable) = (s.down ≡ true) × (s' ≡ s)
  Answers s stmt (s', answered (refused rs)) =
      (s.down ≡ false)
      × (s'.down ≡ false)
      × (s'.log ≡ s.log)
      × (rs ≡ check_policy prim codec s.log stmt)
      × (rs ≢ [])
  Answers s stmt (s', answered (accepted rc)) =
      (s.down ≡ false)
      × (s'.down ≡ false)
      × (s'.log.key ≡ s.log.key)
      × Sound s'
      × (verify_receipt prim codec rc stmt s.log.key.public_key ≡ valid)

  register-key :
      (log : Log) (s : Statement) (now : ℕ) → (register prim codec log s now).0.key ≡ log.key
  unfolding register append
  register-key log s now = elim (List-cases (check_policy prim codec log s)) [
    | inl e ↦ rw e refl
    | inr (r, rs, e) ↦ rw e refl
  ]

  register-bytes :
      (log log' : Log) (s : Statement) (now : ℕ) (rc : Registered)
      → Grows prim codec log s now (log', rc)
      → Works prim log.key
      → All AreBytes log.leaves
      → All AreBytes log'.leaves
  register-bytes log log' s now (refused rs) g w b = rw g.0 b
  register-bytes log log' s now (accepted rc) g w b =
      rw g.2 (All-append AreBytes log.leaves _ b (unfold leaf_hash in w.hash_bytes _, tt))

  counted-Answers :
      (s : TransparencyService) (stmt : Statement) (now : ℕ) (log : Log) (rc : Registered)
      → s.down ≡ false
      → log.key ≡ s.log.key
      → Sound s
      → Grows prim codec s.log stmt now (log, rc)
      → Vouches prim codec s.log stmt rc
      → Answers s stmt (counted s log rc)
  counted-Answers s stmt now log (refused rs) up k (w, b) g v = (up, up, g.0, g.1, v)
  counted-Answers s stmt now log (accepted rc) up k (w, b) g v =
      (up, up, k, (rw k w, register-bytes s.log log stmt now (accepted rc) g w b), v)

  pub submit-Answers :
      (s : TransparencyService) (stmt : Statement) (now : ℕ)
      → Sound s
      → Answers s stmt (submit prim codec s stmt now)
  submit-Answers s stmt now sound = elim (Bool-cases s.down) [
    | inl out ↦ rw (submit-down prim codec s stmt now out) (out, refl)
    | inr up ↦
        let at = now + total_delay_ms s in
        let out = register prim codec s.log stmt at in
        rw (submit-up prim codec s stmt now up) (
          counted-Answers s stmt at out.0 out.1 up (register-key s.log stmt at) sound
            (register-Grows prim codec s.log stmt at)
            (register-verify_receipt prim codec s.log stmt at sound.0 sound.1))
  ]
