-- ===== src/Runtime/Witness/Receipts.antt =====
-- The receipts of the witness, checked with the identity that the trust pins.
use custody.Base.{
  ℕ, ◌≡◌, ◌≤◌, inl, inr, sym, ap, ◌∙◌, String, true, ◌≟◌, List, Option, none, some, arith, eq_iff,
  some-injective,
}
use mathlib.Core.Path.{subst}
use custody.Crypto.{Primitives, from_hex}
use custody.Crypto.HexLaws.{from_hex-hex}
use custody.Ts.Log.{LogCodec, TreeHead}
use custody.Ts.Log.Receipts.{Works}
use custody.Runtime.Witness.{
  WitnessReceipt, WitnessBody, Canonical, Config, Store, Clock, Request, Identity, Answer, status,
  witnessed, refused, unreachable, verify_head, verify_witness_receipt, signed_by, new_receipt,
  signed_receipt, handle,
}
use custody.Runtime.Witness.Ledger.{Fits, Entered, Handled, handle-Handled}

module _ (prim : Primitives) (codec : LogCodec) (canonical : Canonical) (config : Config) where
  -- The trust pins the key that the witness signs with.
  pub record IsPinned (w : Identity) : Type 0 where
    pub pinned : config.trust.w ≡ some w
    pub same_kid : w.kid ≡ config.key.kid
    pub same_key : from_hex w.public_key ≡ some config.key.public_key
    pub works : Works prim config.key

  abbrev pub IsVerified : WitnessReceipt → Type 0
  IsVerified r = verify_witness_receipt prim codec canonical r config.trust ≡ true

  abbrev pub IsSigned : Store → Type 0
  IsSigned store = (r : WitnessReceipt) → store.latest ≡ some r → IsVerified r

  abbrev pub Passes : Answer → Type 0
  Passes (witnessed r) = IsVerified r
  Passes (status o) = (r : WitnessReceipt) → o ≡ some r → IsVerified r
  Passes (refused why) = Unit
  Passes unreachable = Unit

  module _ (w : Identity) (p : IsPinned w) where
    signed_receipt-signed_by :
        (body : WitnessBody)
        → signed_by prim codec canonical w (signed_receipt prim codec canonical config body) ≡ true
    unfolding signed_by
    signed_receipt-signed_by body =
        let message = canonical.body_bytes body in
        let e = from_hex-hex (config.key.sign message) (p.works.signature_bytes message) in
        ground (arith, p.same_key, e, p.works.verifies message)

    Fits-positive :
        (o : Option WitnessReceipt) (head : TreeHead) (sequence : ℕ) (previous : Option String)
        → Fits prim codec canonical o head sequence previous
        → 1 ≤ sequence
    Fits-positive none head sequence previous (e, _) = omega arith
    Fits-positive (some old) head sequence previous fits = omega (arith, fits.0)

    new_receipt-IsVerified :
        (clock : Clock) (head : TreeHead) (sequence : ℕ) (previous : Option String)
        → verify_head prim codec canonical head config.trust ≡ true
        → 1 ≤ sequence
        → IsVerified (new_receipt prim codec canonical config clock head sequence previous)
    unfolding verify_witness_receipt
    new_receipt-IsVerified clock head sequence previous verified positive =
        let r = new_receipt prim codec canonical config clock head sequence previous in
        let signed = signed_receipt-signed_by r.body in
        let kid : (config.key.kid ≟ w.kid) ≡ true =
          ground (arith, eq_iff config.key.kid w.kid, p.same_kid) in
        let policy : (config.trust.policy_hash ≟ config.trust.policy_hash) ≡ true =
          ground (arith, eq_iff config.trust.policy_hash config.trust.policy_hash) in
        rw p.pinned (ground (arith, kid, policy, signed))

    Entered-IsVerified :
        (clock : Clock) (store st : Store) (r : WitnessReceipt)
        → Entered prim codec canonical config clock store st r
        → IsVerified r
    Entered-IsVerified clock store st r e = subst IsVerified (sym e.made) (
        new_receipt-IsVerified clock e.head e.sequence e.previous e.verified
          (Fits-positive store.latest e.head e.sequence e.previous e.fits))

    Handled-Passes :
        (clock : Clock) (store st : Store) (answer : Answer)
        → Handled prim codec canonical config clock store (st, answer)
        → IsSigned store
        → Passes answer × IsSigned st
    Handled-Passes clock store st (witnessed r) (inl (same, last)) h =
        (h r last, subst IsSigned (sym same) h)
    Handled-Passes clock store st (witnessed r) (inr e) h =
        let verified = Entered-IsVerified clock store st r e in
        let latest = ap (λ (s : Store). s.latest) e.saved in
        (verified, λ q l. subst IsVerified (some-injective r q (sym latest ∙ l)) verified)
    Handled-Passes clock store st (status o) (same, shown) h =
        (λ r e. h r (sym shown ∙ e), subst IsSigned (sym same) h)
    Handled-Passes clock store st (refused why) same h = (tt, subst IsSigned (sym same) h)
    Handled-Passes clock store st unreachable same h = (tt, subst IsSigned (sym same) h)

    -- If the trust pins the key that the witness signs with and the latest receipt in the store
    -- passes `verify_witness_receipt`, then so does every receipt that `handle` returns, and the
    -- latest one afterwards.
    pub handle-Passes :
        (consistency : ℕ → ℕ → Option (List String)) (clock : Clock) (store : Store)
        (request : Request)
        → IsSigned store
        → let (st, answer) = handle prim codec canonical consistency config clock store request in
          Passes answer × IsSigned st
    handle-Passes consistency clock store request h =
        let (st, answer) = handle prim codec canonical consistency config clock store request in
        Handled-Passes clock store st answer
          (handle-Handled prim codec canonical consistency config clock store request) h
