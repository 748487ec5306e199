-- ===== src/Runtime/Witness/Linked.antt =====
-- The ledger of the witness as a chain of receipts.
use custody.Base.{
  some-injective, ℕ, suc, ◌≡◌, ◌<◌, inl, inr, refl, sym, ap, ◌∙◌, String, true, List, Option, none,
  some, ◌==◌, arith, if-intro,
}
use mathlib.Core.Path.{subst}
use custody.Crypto.{Primitives}
use custody.Ts.Log.{LogCodec, TreeHead}
use custody.Runtime.Witness.{
  WitnessReceipt, Canonical, Config, Store, Clock, Request, Answer, status, witnessed, refused,
  unreachable, verify_head, fingerprint, save, new_receipt, extends, handle,
}
use custody.Runtime.Witness.Ledger.{size, Fits, Handled, handle-Handled}

-- The number of the latest receipt, 0 before the first.
abbrev pub last : Option WitnessReceipt → ℕ
last none = 0
last (some r) = r.body.sequence

module _ (prim : Primitives) (codec : LogCodec) (canonical : Canonical) (config : Config) where
  -- A receipt is the first, or names the one before it and its tree extends that one's.
  abbrev pub Follows : WitnessReceipt → Option WitnessReceipt → Type 0
  Follows r none = (r.body.sequence ≡ 1) × (r.body.previous_receipt_hash ≡ none)
  Follows r (some q) =
      (r.body.previous_receipt_hash ≡ some (fingerprint prim codec canonical q))
      × (size q.body.head < size r.body.head)
      × (proof : List String) × (extends prim codec canonical q.body.head r.body.head proof ≡ true)

  -- A stored receipt in its place.
  abbrev pub Placed : Store → ℕ → WitnessReceipt → Type 0
  Placed store n r =
      (r.body.sequence ≡ suc n)
      × (verify_head prim codec canonical r.body.head config.trust ≡ true)
      × Follows r (store.receipts n)

  pub record IsLedger (store : Store) : Type 0 where
    pub newest : store.latest ≡ store.receipts (last store.latest)
    pub empty : store.receipts 0 ≡ none
    pub later : (n : ℕ) → last store.latest < n → store.receipts n ≡ none
    pub placed : (n : ℕ) (r : WitnessReceipt) → store.receipts (suc n) ≡ some r → Placed store n r

  module _ (clock : Clock) (head : TreeHead) (sequence : ℕ) (previous : Option String) where
    abbrev added : WitnessReceipt
    added = new_receipt prim codec canonical config clock head sequence previous

    abbrev after : Store → Store
    after store = save prim codec canonical added sequence store

    pub Fits-last :
        (o : Option WitnessReceipt)
        → Fits prim codec canonical o head sequence previous
        → sequence ≡ suc (last o)
    Fits-last none (first, _) = first
    Fits-last (some old) fits = fits.0

    Fits-Follows :
        (o : Option WitnessReceipt)
        → Fits prim codec canonical o head sequence previous
        → Follows added o
    Fits-Follows none fits = fits
    Fits-Follows (some old) (_, rest, grows, proof, e) = (rest, grows, proof, e)

    -- A place before the new one is as it was.
    before : (store : Store) (n : ℕ) → n < sequence → store.receipts n ≡ (after store).receipts n
    before store n l =
        if-intro (λ o. store.receipts n ≡ o) (n == sequence) (λ e. absurd (ground arith))
          (λ _. refl)

    added-Placed :
        (store : Store) (n : ℕ)
        → suc n ≡ sequence
        → verify_head prim codec canonical head config.trust ≡ true
        → Fits prim codec canonical store.latest head sequence previous
        → IsLedger store
        → Placed (after store) n added
    added-Placed store n here verified fits h =
        let next = Fits-last store.latest fits in
        let same : n ≡ last store.latest = omega arith in
        let latest = h.newest ∙ ap store.receipts (sym same) ∙ before store n (omega arith) in
        (sym here, verified, subst (Follows added) latest (Fits-Follows store.latest fits))

    kept-Placed :
        (store : Store) (n : ℕ) (r : WitnessReceipt)
        → Fits prim codec canonical store.latest head sequence previous
        → IsLedger store
        → store.receipts (suc n) ≡ some r
        → Placed (after store) n r
    kept-Placed store n r fits h e =
        let next = Fits-last store.latest fits in
        let (numbered, verified, follows) = h.placed n r e in
        let kept = before store n (ground (arith, h.later (suc n))) in
        (numbered, verified, subst (Follows r) kept follows)

    save-Placed :
        (store : Store)
        → verify_head prim codec canonical head config.trust ≡ true
        → Fits prim codec canonical store.latest head sequence previous
        → IsLedger store
        → (n : ℕ) (r : WitnessReceipt) → (after store).receipts (suc n) ≡ some r
        → Placed (after store) n r
    save-Placed store verified fits h n r =
        if-intro (λ o. o ≡ some r → Placed (after store) n r) (suc n == sequence)
          (λ here e.
            subst (Placed (after store) n) (some-injective _ _ e)
              (added-Placed store n (ground arith) verified fits h))
          (λ elsewhere e. kept-Placed store n r fits h e)

    save-IsLedger :
        (store : Store)
        → verify_head prim codec canonical head config.trust ≡ true
        → Fits prim codec canonical store.latest head sequence previous
        → IsLedger store
        → IsLedger (after store)
    save-IsLedger store verified fits h =
        let next = Fits-last store.latest fits in
        record {
          newest = ground arith;
          empty = ground (arith, h.empty);
          later = λ n l. ground (arith, h.later n);
          placed = save-Placed store verified fits h;
        }

  Handled-IsLedger :
      (clock : Clock) (store st : Store) (answer : Answer)
      → Handled prim codec canonical config clock store (st, answer)
      → IsLedger store
      → IsLedger st
  Handled-IsLedger clock store st (witnessed r) (inl (same, _)) h = subst IsLedger (sym same) h
  Handled-IsLedger clock store st (witnessed r) (inr e) h =
      let saved = ap (λ x. save prim codec canonical x e.sequence store) e.made in
      subst IsLedger (sym (e.saved ∙ saved))
        (save-IsLedger clock e.head e.sequence e.previous store e.verified e.fits h)
  Handled-IsLedger clock store st (status o) (same, _) h = subst IsLedger (sym same) h
  Handled-IsLedger clock store st (refused why) same h = subst IsLedger (sym same) h
  Handled-IsLedger clock store st unreachable same h = subst IsLedger (sym same) h

  -- `handle` keeps the ledger of the witness: the latest receipt is stored under its number and
  -- none above it; each stored receipt carries its number and a head that `verify_head` accepts,
  -- and is the first or names the fingerprint of the receipt before it, whose tree is smaller and
  -- joined to its own by a consistency proof.
  pub handle-IsLedger :
      (consistency : ℕ → ℕ → Option (List String)) (clock : Clock) (store : Store)
      (request : Request)
      → IsLedger store
      → IsLedger (handle prim codec canonical consistency config clock store request).0
  handle-IsLedger consistency clock store request h =
      let (st, answer) = handle prim codec canonical consistency config clock store request in
      Handled-IsLedger clock store st answer
        (handle-Handled prim codec canonical consistency config clock store request) h
