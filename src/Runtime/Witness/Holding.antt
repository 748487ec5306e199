-- ===== src/Runtime/Witness/Holding.antt =====
-- The agent's tests on the answers of the witness.
use custody.Base.{
  ℕ, suc, ◌≡◌, ◌≤◌, refl, sym, ap, ◌∙◌, String, Bool, true, false, List, Option, none, some, arith,
  eq_iff, some-injective,
}
use mathlib.Core.Path.{subst}
use custody.Crypto.{Primitives}
use custody.Ts.Log.{LogCodec, TreeHead}
use custody.Runtime.Witness.{
  WitnessReceipt, Canonical, Config, Store, Clock, Identity, Answer, witness, witnessed, status,
  refused, unreachable, verify_head, verify_pinned, verify_witness_receipt, fingerprint, handle,
}
use custody.Runtime.Witness.Ledger.{size}
use custody.Runtime.Witness.Views.{root}
use custody.Runtime.Witness.Linked.{last, IsLedger, Follows, handle-IsLedger}
use custody.Runtime.Witness.Receipts.{IsPinned, IsVerified, IsSigned, Passes, handle-Passes}
use custody.Runtime.Witness.Agreement.{Shows, Stored, handle-Shows, handle-Stored}
use custody.Runtime.Witness.Client.{
  fetch, Rows, Problem, previous_of, same_checkpoint, refuse_if, names, check_previous,
  check_receipt, held, agent_witness, put_row, hold, rollback_or_equivocation, chain_conflict,
  invalid_receipt, different_checkpoint,
}

refuse_if-none :
    (b : Bool) (p : Problem) (rest : Option Problem)
    → b ≡ false
    → rest ≡ none
    → refuse_if b p rest ≡ none
refuse_if-none true p rest e h = cc
refuse_if-none false p rest e h = h

names-some : (o : Option String) (t : String) → o ≡ some t → names o t ≡ true
names-some none t e = cc
names-some (some s) t e = ground (arith, eq_iff s t)

module _ (prim : Primitives) (codec : LogCodec) (canonical : Canonical) (config : Config) where
  abbrev print : WitnessReceipt → String
  print r = fingerprint prim codec canonical r

  -- The ledger stores the receipt under its number.
  abbrev pub IsStored : Store → Option WitnessReceipt → Type 0
  IsStored store none = Unit
  IsStored store (some q) = store.receipts q.body.sequence ≡ some q

  verify_head-log_id :
      (head : TreeHead)
      → verify_head prim codec canonical head config.trust ≡ true
      → head.body.log_id ≡ config.trust.log_id
  unfolding verify_head
  verify_head-log_id head h = ground (arith, eq_iff head.body.log_id config.trust.log_id)

  verify_pinned-head :
      (o : Option Identity) (r : WitnessReceipt)
      → verify_pinned prim codec canonical config.trust o r ≡ true
      → verify_head prim codec canonical r.body.head config.trust ≡ true
  verify_pinned-head none r h = cc
  verify_pinned-head (some w) r h = ground arith

  IsVerified-head :
      (r : WitnessReceipt)
      → IsVerified prim codec canonical config r
      → verify_head prim codec canonical r.body.head config.trust ≡ true
  unfolding verify_witness_receipt
  IsVerified-head r h = verify_pinned-head config.trust.w r h

  -- A receipt that is the latest of a ledger passes the tests against an earlier one of it.
  check_previous-none :
      (q r : WitnessReceipt)
      → q.body.sequence ≤ r.body.sequence
      → (r.body.sequence ≡ q.body.sequence → print r ≡ print q)
      → (r.body.sequence ≡ suc q.body.sequence → r.body.previous_receipt_hash ≡ some (print q))
      → check_previous prim codec canonical (some q) r ≡ none
  check_previous-none q r le same next =
      let known : (r.body.sequence ≡ suc q.body.sequence)
          → names r.body.previous_receipt_hash (print q) ≡ true =
        λ e. names-some r.body.previous_receipt_hash (print q) (next e) in
      refuse_if-none _ rollback_or_equivocation _ (ground (arith, eq_iff (print r) (print q), same))
        (refuse_if-none _ chain_conflict none (ground (arith, known)) refl)

  newest-IsStored :
      (st : Store) (r : WitnessReceipt)
      → IsLedger prim codec canonical config st
      → st.latest ≡ some r
      → IsStored st (some r)
  newest-IsStored st r h latest = sym (h.newest ∙ ap (λ o. st.receipts (last o)) latest) ∙ latest

  latest-passes :
      (st : Store) (r : WitnessReceipt) (o : Option WitnessReceipt)
      → IsLedger prim codec canonical config st
      → st.latest ≡ some r
      → IsStored st o
      → check_previous prim codec canonical o r ≡ none
  latest-passes st r none h latest stored = refl
  latest-passes st r (some q) h latest stored =
      let newest = newest-IsStored st r h latest in
      let above : last st.latest ≡ r.body.sequence = ap last latest in
      check_previous-none q r (ground (arith, h.later q.body.sequence))
        (λ e. ap print (some-injective r q (sym newest ∙ (ap st.receipts e ∙ stored))))
        (λ e.
          (subst (Follows prim codec canonical config r) stored
            (h.placed q.body.sequence r (ap st.receipts (sym e) ∙ newest)).2).0)

  same_checkpoint-true :
      (a b : TreeHead)
      → a.body.log_id ≡ b.body.log_id
      → size a ≡ size b
      → root a ≡ root b
      → same_checkpoint a b ≡ true
  same_checkpoint-true a b e f g =
      ground (arith, eq_iff a.body.log_id b.body.log_id, eq_iff (root a) (root b))

  check_receipt-none :
      (rows : Rows) (head : TreeHead) (r : WitnessReceipt)
      → IsVerified prim codec canonical config r
      → same_checkpoint r.body.head head ≡ true
      → check_previous prim codec canonical (previous_of rows) r ≡ none
      → check_receipt prim codec canonical config.trust rows head r ≡ none
  unfolding check_receipt
  check_receipt-none rows head r verified same fresh =
      refuse_if-none _ invalid_receipt _ (ground (arith, verified))
        (refuse_if-none _ different_checkpoint _ (ground (arith, same)) fresh)

  agent_witness-held :
      (w : Identity) (rows : Rows) (head : TreeHead) (r : WitnessReceipt)
      → config.trust.w ≡ some w
      → check_receipt prim codec canonical config.trust rows head r ≡ none
      → agent_witness prim codec canonical config.trust rows (some head) (λ _. some r)
        ≡ (put_row r.body.sequence r rows, held r (print r))
  unfolding agent_witness
  agent_witness-held w rows head r pinned fresh =
      ap (λ o. fetch prim codec canonical config.trust rows o (some head) (λ _. some r)) pinned
      ∙ ap (hold prim codec canonical rows r) fresh

  -- The witness answers the request with the receipt and keeps it, and the agent holds it.
  abbrev pub Holds : Rows → TreeHead → Store × Answer → Type 0
  Holds rows head (st, witnessed r) =
      (agent_witness prim codec canonical config.trust rows (some head) (λ _. some r)
        ≡ (put_row r.body.sequence r rows, held r (print r)))
      × IsStored st (some r)
  Holds rows head (st, status o) = Unit
  Holds rows head (st, refused why) = Unit
  Holds rows head (st, unreachable) = Unit

  Stored-IsStored :
      (store st : Store) (r : WitnessReceipt) (o : Option WitnessReceipt)
      → Stored prim codec canonical config store (st, witnessed r)
      → IsStored store o
      → IsStored st o
  Stored-IsStored store st r none stored before = tt
  Stored-IsStored store st r (some q) stored before = stored.1 q.body.sequence q before

  module _ (w : Identity) (p : IsPinned prim codec canonical config w) where
    answered-Holds :
        (store st : Store) (rows : Rows) (head : TreeHead) (answer : Answer)
        → IsLedger prim codec canonical config st
        → Passes prim codec canonical config answer
        → Shows prim codec canonical config head (st, answer)
        → Stored prim codec canonical config store (st, answer)
        → IsStored store (previous_of rows)
        → Holds rows head (st, answer)
    answered-Holds store st rows head (witnessed r) h verified (known, sizes, roots) stored before =
        let earlier = Stored-IsStored store st r (previous_of rows) stored before in
        let fresh = latest-passes st r (previous_of rows) h stored.0 earlier in
        let ours = verify_head-log_id r.body.head (IsVerified-head r verified) in
        let ids = ours ∙ sym (verify_head-log_id head known) in
        let same = same_checkpoint-true r.body.head head ids sizes roots in
        (
          agent_witness-held w rows head r p.pinned
              (check_receipt-none rows head r verified same fresh),
          newest-IsStored st r h stored.0,
        )
    answered-Holds store st rows head (status o) h passes shows stored before = tt
    answered-Holds store st rows head (refused why) h passes shows stored before = tt
    answered-Holds store st rows head unreachable h passes shows stored before = tt

    -- If the trust pins the witness's key, the ledger is well formed, its latest receipt verifies,
    -- and the agent's newest row, if it has any, is stored in the ledger, then a receipt with which
    -- `handle` answers the agent's head passes every test of `Agent.witness`: the agent stores it
    -- and returns it with its fingerprint, and the ledger stores it under its number.
    pub handle-Holds :
        (consistency : ℕ → ℕ → Option (List String)) (clock : Clock) (store : Store) (rows : Rows)
        (head : TreeHead)
        → IsLedger prim codec canonical config store
        → IsSigned prim codec canonical config store
        → IsStored store (previous_of rows)
        → Holds rows head
            (handle prim codec canonical consistency config clock store (witness head))
    handle-Holds consistency clock store rows head h signed before =
        let (st, answer) =
          handle prim codec canonical consistency config clock store (witness head) in
        answered-Holds store st rows head answer
          (handle-IsLedger prim codec canonical config consistency clock store (witness head) h)
          (handle-Passes prim codec canonical config w p consistency clock store (witness head)
            signed).0
          (handle-Shows prim codec canonical config clock store head consistency)
          (handle-Stored prim codec canonical config consistency clock store (witness head) h)
          before
