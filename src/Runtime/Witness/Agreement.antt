-- ===== src/Runtime/Witness/Agreement.antt =====
-- What an answer of the witness shows of its request and of its store.
use custody.Base.{
  ℕ, suc, ◌≡◌, inl, inr, refl, sym, String, true, not, ◌≟◌, ◌==◌, ltb, List, Option, none, some,
  arith, eq_iff, if-intro,
}
use mathlib.Core.Path.{subst}
use custody.Crypto.{Primitives}
use custody.Ts.Log.{LogCodec, TreeHead}
use custody.Runtime.Witness.{
  WitnessReceipt, Canonical, Config, Store, Clock, Request, Answer, status, witness, witnessed,
  refused, unreachable, verify_head, fingerprint, save, check_history, compare_latest, is_recent,
  handle, enter, new_receipt, capacity, extends,
}
use custody.Runtime.Witness.Ledger.{size, Entered, Handled, handle-Handled}
use custody.Runtime.Witness.Views.{root}
use custody.Runtime.Witness.Linked.{IsLedger, Fits-last}

module _ (prim : Primitives) (codec : LogCodec) (canonical : Canonical) (config : Config) where
  -- A receipt in an answer is about the head of the request.
  abbrev pub Shows : TreeHead → Store × Answer → Type 0
  Shows head (st, witnessed r) =
      (verify_head prim codec canonical head config.trust ≡ true)
      × (size r.body.head ≡ size head)
      × (root r.body.head ≡ root head)
  Shows head (st, status o) = Unit
  Shows head (st, refused why) = Unit
  Shows head (st, unreachable) = Unit

  module _ (clock : Clock) (store : Store) (head : TreeHead) where
    enter-Shows :
        (sequence : ℕ) (previous : Option String)
        → verify_head prim codec canonical head config.trust ≡ true
        → Shows head (enter prim codec canonical config clock store head sequence previous)
    enter-Shows sequence previous verified =
        let r = new_receipt prim codec canonical config clock head sequence previous in
        if-intro (Shows head) (ltb (capacity config.max_log_entries) sequence)
          {y = (save prim codec canonical r sequence store, witnessed r)} (λ _. tt)
          (λ _. (verified, refl, refl))

    check_history-Shows :
        (old : WitnessReceipt) (answer : Option (List String))
        → verify_head prim codec canonical head config.trust ≡ true
        → Shows head (check_history prim codec canonical config clock store old head answer)
    check_history-Shows old none verified = tt
    check_history-Shows old (some proof) verified =
        if-intro (Shows head) (extends prim codec canonical old.body.head head proof)
          (λ _.
            enter-Shows (suc old.body.sequence) (some (fingerprint prim codec canonical old))
              verified)
          (λ _. tt)

    module _ (consistency : ℕ → ℕ → Option (List String)) where
      compare_latest-Shows :
          (o : Option WitnessReceipt)
          → verify_head prim codec canonical head config.trust ≡ true
          → Shows head (compare_latest prim codec canonical consistency config clock store head o)
      compare_latest-Shows none verified = enter-Shows 1 none verified
      compare_latest-Shows (some old) verified =
          let different = not (root head ≟ root old.body.head) in
          if-intro (Shows head) (ltb (size head) (size old.body.head)) (λ _. tt)
            (λ longer.
              if-intro (Shows head) (size head == size old.body.head)
                (λ same.
                  if-intro (Shows head) different (λ _. tt)
                    (λ e. (
                      verified,
                      ground arith,
                      ground (arith, eq_iff (root head) (root old.body.head)),
                    )))
                (λ other. check_history-Shows old _ verified))

      pub handle-Shows :
          Shows head (handle prim codec canonical consistency config clock store (witness head))
      unfolding handle
      handle-Shows =
          let verified = verify_head prim codec canonical head config.trust in
          let recent = is_recent prim codec canonical consistency clock.checked head in
          if-intro (Shows head) (not verified) (λ _. tt)
            (λ checked.
              if-intro (Shows head) (not recent) (λ _. tt)
                (λ _. compare_latest-Shows store.latest (ground arith)))

  -- What `handle` has answered with is the latest receipt, and the others are still there.
  abbrev pub Stored : Store → Store × Answer → Type 0
  Stored store (st, witnessed r) =
      (st.latest ≡ some r)
      × ((n : ℕ) (q : WitnessReceipt) → store.receipts n ≡ some q → st.receipts n ≡ some q)
  Stored store (st, status o) = Unit
  Stored store (st, refused why) = Unit
  Stored store (st, unreachable) = Unit

  Entered-Stored :
      (clock : Clock) (store st : Store) (r : WitnessReceipt)
      → IsLedger prim codec canonical config store
      → Entered prim codec canonical config clock store st r
      → Stored store (st, witnessed r)
  Entered-Stored clock store st r h e =
      let next =
        Fits-last prim codec canonical config clock e.head e.sequence e.previous store.latest
          e.fits in
      subst (λ (s : Store). Stored store (s, witnessed r)) (sym e.saved)
        (
          refl,
          λ n q k.
              if-intro (λ o. o ≡ some q) (n == e.sequence)
                (λ here. absurd (ground (arith, h.later n))) (λ _. k),
        )

  Handled-Stored :
      (clock : Clock) (store st : Store) (answer : Answer)
      → IsLedger prim codec canonical config store
      → Handled prim codec canonical config clock store (st, answer)
      → Stored store (st, answer)
  Handled-Stored clock store st (witnessed r) h (inl (same, latest)) =
      subst (λ (s : Store). Stored store (s, witnessed r)) (sym same) (latest, λ n q k. k)
  Handled-Stored clock store st (witnessed r) h (inr e) = Entered-Stored clock store st r h e
  Handled-Stored clock store st (status o) h e = tt
  Handled-Stored clock store st (refused why) h e = tt
  Handled-Stored clock store st unreachable h e = tt

  pub handle-Stored :
      (consistency : ℕ → ℕ → Option (List String)) (clock : Clock) (store : Store)
      (request : Request)
      → IsLedger prim codec canonical config store
      → Stored store (handle prim codec canonical consistency config clock store request)
  handle-Stored consistency clock store request h =
      let (st, answer) = handle prim codec canonical consistency config clock store request in
      Handled-Stored clock store st answer h
        (handle-Handled prim codec canonical consistency config clock store request)
