-- ===== src/Runtime/Witness/Client.antt =====
-- `witness` of itx/runtime/agent.py: the user's agent gets a receipt of the witness and compares it
-- with the one that it holds.
-- The answers of the peers T and W are given, `none` for a call that raised; the rows of the store
-- under `witness:` are a list, the largest number first, as `items` orders the padded numbers.
use custody.Base.{
  ℕ, suc, String, Bool, true, false, not, List, [], ◌∷◌, Option, none, some, ltb, ◌==◌, ◌≟◌, ◌&&◌,
  ◌||◌, if◌then◌else◌,
}
use custody.Crypto.{Primitives}
use custody.Ts.Log.{LogCodec, TreeHead}
use custody.Runtime.Witness.{
  WitnessReceipt, Canonical, Identity, Trust, verify_witness_receipt, fingerprint,
}

abbrev pub Rows : Type 0
Rows = List (ℕ × WitnessReceipt)

-- `put` of a row
unfoldable pub put_row : ℕ → WitnessReceipt → Rows → Rows
put_row n r [] = (n, r) ∷ []
put_row n r ((m, q) ∷ rows) =
    let rest = put_row n r rows in
    if n == m then (n, r) ∷ rows else if ltb m n then (n, r) ∷ (m, q) ∷ rows else (m, q) ∷ rest

-- `rows[0][1]`
abbrev pub previous_of : Rows → Option WitnessReceipt
previous_of [] = none
previous_of ((n, r) ∷ rows) = some r

pub data Problem : Type 0 where
  no_witness invalid_receipt different_checkpoint rollback_or_equivocation : Problem
  chain_conflict : Problem

pub data Outcome : Type 0 where
  -- The receipt with its `anchor_digest`.
  held : WitnessReceipt → String → Outcome
  problem : Problem → Outcome
  unreachable : Outcome

-- `b["head"]` and `head` agree on the three fields.
abbrev pub same_checkpoint : TreeHead → TreeHead → Bool
same_checkpoint a b =
    a.body.log_id ≟ b.body.log_id
    && (a.body.tree_size == b.body.tree_size && a.body.root_hash ≟ b.body.root_hash)

abbrev pub names : Option String → String → Bool
names none t = false
names (some s) t = s ≟ t

abbrev pub refuse_if : Bool → Problem → Option Problem → Option Problem
refuse_if true p rest = some p
refuse_if false p rest = rest

module _ (prim : Primitives) (codec : LogCodec) (canonical : Canonical) where
  -- The tests against the previous receipt.
  abbrev pub check_previous : Option WitnessReceipt → WitnessReceipt → Option Problem
  check_previous none r = none
  check_previous (some q) r =
      let known = fingerprint prim codec canonical q in
      refuse_if
        (ltb r.body.sequence q.body.sequence
          || (r.body.sequence == q.body.sequence
              && not (fingerprint prim codec canonical r ≟ known)))
        rollback_or_equivocation
        (refuse_if
          (r.body.sequence == suc q.body.sequence && not (names r.body.previous_receipt_hash known))
          chain_conflict none)

  unfoldable pub check_receipt : Trust → Rows → TreeHead → WitnessReceipt → Option Problem
  check_receipt trust rows head r =
      refuse_if (not (verify_witness_receipt prim codec canonical r trust)) invalid_receipt (
        refuse_if (not (same_checkpoint r.body.head head)) different_checkpoint
          (check_previous (previous_of rows) r))

  abbrev pub hold : Rows → WitnessReceipt → Option Problem → Rows × Outcome
  hold rows r none = (put_row r.body.sequence r rows, held r (fingerprint prim codec canonical r))
  hold rows r (some p) = (rows, problem p)

  abbrev pub receive : Trust → Rows → TreeHead → Option WitnessReceipt → Rows × Outcome
  receive trust rows head none = (rows, unreachable)
  receive trust rows head (some r) = hold rows r (check_receipt trust rows head r)

  abbrev pub fetch :
      Trust
      → Rows
      → Option Identity
      → Option TreeHead
      → (TreeHead → Option WitnessReceipt)
      → Rows × Outcome
  fetch trust rows none head ask = (rows, problem no_witness)
  fetch trust rows (some w) none ask = (rows, unreachable)
  fetch trust rows (some w) (some head) ask = receive trust rows head (ask head)

  -- `Agent.witness`, with the answer of T for its head and of W for a head
  unfoldable pub agent_witness :
      Trust → Rows → Option TreeHead → (TreeHead → Option WitnessReceipt) → Rows × Outcome
  agent_witness trust rows head ask = fetch trust rows trust.w head ask
