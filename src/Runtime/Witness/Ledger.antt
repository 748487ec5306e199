-- ===== src/Runtime/Witness/Ledger.antt =====
-- The ledger of the witness: what `handle` does to the store on every branch.
use custody.Base.{
  ℕ, suc, ◌≡◌, ◌<◌, ◌⊎◌, inl, inr, refl, sym, String, true, not, List, Option, none, some, ltb,
  ◌==◌, ◌≟◌, arith, if-intro,
}
use mathlib.Core.Path.{subst}
use custody.Crypto.{Primitives}
use custody.Ts.Log.{LogCodec, TreeHead}
use custody.Runtime.Witness.{
  WitnessReceipt, Canonical, Config, Store, Clock, Request, witness_status, witness, other, Answer,
  status, witnessed, refused, unreachable, verify_head, fingerprint, save, new_receipt, enter,
  capacity, is_recent, extends, check_history, compare_latest, handle,
}

abbrev pub size : TreeHead → ℕ
size head = head.body.tree_size

module _ (prim : Primitives) (codec : LogCodec) (canonical : Canonical) where
  -- How a new receipt follows the latest one.
  abbrev pub Fits : Option WitnessReceipt → TreeHead → ℕ → Option String → Type 0
  Fits none head sequence previous = (sequence ≡ 1) × (previous ≡ none)
  Fits (some old) head sequence previous =
      (sequence ≡ suc old.body.sequence)
      × (previous ≡ some (fingerprint prim codec canonical old))
      × (size old.body.head < size head)
      × (proof : List String) × (extends prim codec canonical old.body.head head proof ≡ true)

  -- A receipt that is new in the store.
  pub record Entered (config : Config) (clock : Clock) (store st : Store) (r : WitnessReceipt)
      : Type 0 where
    pub head : TreeHead
    pub sequence : ℕ
    pub previous : Option String
    pub verified : verify_head prim codec canonical head config.trust ≡ true
    pub made : r ≡ new_receipt prim codec canonical config clock head sequence previous
    pub saved : st ≡ save prim codec canonical r sequence store
    pub fits : Fits store.latest head sequence previous

  -- The latest receipt answers for its own size and root.
  abbrev pub Repeats : Store → Store → WitnessReceipt → Type 0
  Repeats store st r = (st ≡ store) × (store.latest ≡ some r)

  abbrev pub Handled : Config → Clock → Store → Store × Answer → Type 0
  Handled config clock store (st, witnessed r) =
      Repeats store st r ⊎ Entered config clock store st r
  Handled config clock store (st, status o) = (st ≡ store) × (o ≡ store.latest)
  Handled config clock store (st, refused why) = st ≡ store
  Handled config clock store (st, unreachable) = st ≡ store

  module _ (config : Config) (clock : Clock) (store : Store) (head : TreeHead) where
    enter-Handled :
        (sequence : ℕ) (previous : Option String)
        → verify_head prim codec canonical head config.trust ≡ true
        → Fits store.latest head sequence previous
        → Handled config clock store
            (enter prim codec canonical config clock store head sequence previous)
    enter-Handled sequence previous verified fits =
        let receipt = new_receipt prim codec canonical config clock head sequence previous in
        if-intro (Handled config clock store) (ltb (capacity config.max_log_entries) sequence)
          {y = (save prim codec canonical receipt sequence store, witnessed receipt)} (λ _. refl)
          (λ _. inr (record {
            head = head;
            sequence = sequence;
            previous = previous;
            verified = verified;
            made = refl;
            saved = refl;
            fits = fits;
          }))

    check_history-Handled :
        (old : WitnessReceipt) (answer : Option (List String))
        → verify_head prim codec canonical head config.trust ≡ true
        → store.latest ≡ some old
        → size old.body.head < size head
        → Handled config clock store
            (check_history prim codec canonical config clock store old head answer)
    check_history-Handled old none verified last grows = refl
    check_history-Handled old (some proof) verified last grows =
        if-intro (Handled config clock store) _
          (λ e.
            enter-Handled (suc old.body.sequence) (some (fingerprint prim codec canonical old))
              verified
              (subst
                (λ o.
                  Fits o head (suc old.body.sequence) (some (fingerprint prim codec canonical old)))
                (sym last) (refl, refl, grows, proof, e)))
          (λ _. refl)

    module _ (consistency : ℕ → ℕ → Option (List String)) where
      compare_latest-Handled :
          (o : Option WitnessReceipt)
          → verify_head prim codec canonical head config.trust ≡ true
          → store.latest ≡ o
          → Handled config clock store
              (compare_latest prim codec canonical consistency config clock store head o)
      compare_latest-Handled none verified last =
          enter-Handled 1 none verified (subst (λ o. Fits o head 1 none) (sym last) (refl, refl))
      compare_latest-Handled (some old) verified last =
          if-intro (Handled config clock store) (ltb (size head) (size old.body.head)) (λ _. refl)
            (λ longer.
              if-intro (Handled config clock store) (size head == size old.body.head)
                (λ same.
                  if-intro (Handled config clock store)
                    (not (head.body.root_hash ≟ old.body.head.body.root_hash)) (λ _. refl)
                    (λ _. inl (refl, last)))
                (λ other. check_history-Handled old _ verified last (ground arith)))

  pub handle-Handled :
      (consistency : ℕ → ℕ → Option (List String)) (config : Config) (clock : Clock) (store : Store)
      (request : Request)
      → Handled config clock store
          (handle prim codec canonical consistency config clock store request)
  unfolding handle
  handle-Handled consistency config clock store witness_status = (refl, refl)
  handle-Handled consistency config clock store other = refl
  handle-Handled consistency config clock store (witness head) =
      let verified = verify_head prim codec canonical head config.trust in
      let recent = is_recent prim codec canonical consistency clock.checked head in
      if-intro (Handled config clock store) (not verified) (λ _. refl)
        (λ checked.
          if-intro (Handled config clock store) (not recent) (λ _. refl)
            (λ recent.
              compare_latest-Handled config clock store head consistency store.latest (ground arith)
                refl))
