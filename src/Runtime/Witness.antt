-- ===== src/Runtime/Witness.antt =====
-- itx/runtime/witness.py and `verify_head` of itx/runtime/auditing.py: the witness, which signs the
-- checkpoints of the log in a ledger of its own.
-- A document of JSON is a record, so the tests of its set of keys hold; the key `receipt:{sequence}`
-- of the store is the sequence number. The peer T answers by a function, and the clock is read
-- once before the tests and once for the receipt. The operation `health` is left out.
pub mod Ledger
pub mod Linked
pub mod Views
pub mod Runs
pub mod Receipts
pub mod Client
pub mod Agreement
pub mod Holding
use custody.Base.{
  ℕ, suc, ◌+◌, String, Bool, true, false, not, List, Option, none, some, ltb, leb, ◌==◌, ◌≟◌, ◌&&◌,
  if◌then◌else◌,
}
use custody.Crypto.{Bytes, Primitives, hex, from_hex}
use custody.Ts.Log.{LogCodec, KeyPair, TreeHead, verify_tree_head, proof_bytes}
use custody.Ts.Consistency.{verify_consistency}

pub record WitnessBody : Type 0 where
  pub profile : String
  pub kid : String
  pub head : TreeHead
  pub policy_hash : String
  pub observed_at : ℕ
  pub sequence : ℕ
  pub previous_receipt_hash : Option String

pub record WitnessReceipt : Type 0 where
  pub body : WitnessBody
  pub signature : String

pub record Identity : Type 0 where
  pub kid : String
  pub public_key : String

-- What the checks read of the result of `trust_from_config`.
pub record Trust : Type 0 where
  pub log_id : String
  pub policy_hash : String
  pub t : Identity
  pub w : Option Identity

-- `canonical_json` of the JSON library
pub record Canonical : Type 0 where
  pub body_bytes : WitnessBody → Bytes
  pub receipt_bytes : WitnessReceipt → Bytes

-- What the witness reads of its configuration, and its key.
pub record Config : Type 0 where
  pub key : KeyPair
  pub trust : Trust
  pub max_log_entries : Option ℕ

-- The store.
pub record Store : Type 0 where
  pub latest : Option WitnessReceipt
  pub receipts : ℕ → Option WitnessReceipt

-- `now_ms()`
pub record Clock : Type 0 where
  pub checked : ℕ
  pub observed : ℕ

pub data Request : Type 0 where
  witness_status : Request
  witness : TreeHead → Request
  other : Request

-- The ValueErrors of `handle`.
pub data Refusal : Type 0 where
  unsupported unverified_head stale_or_future rollback conflicting_roots : Refusal
  history_conflict capacity_reached : Refusal

pub data Answer : Type 0 where
  status : Option WitnessReceipt → Answer
  witnessed : WitnessReceipt → Answer
  refused : Refusal → Answer
  -- The call of the peer T raised.
  unreachable : Answer

abbrev max_audit_entries : ℕ
max_audit_entries = 100000

-- `config.get("max_log_entries", 100000)`
abbrev pub capacity : Option ℕ → ℕ
capacity none = 100000
capacity (some n) = n

-- A ValueError counts as false.
abbrev holds : Option Bool → Bool
holds none = false
holds (some b) = b

module _ (prim : Primitives) (codec : LogCodec) (canonical : Canonical) where
  -- `verify_head`; false is the ValueError
  unfoldable pub verify_head : TreeHead → Trust → Bool
  verify_head head trust =
      (head.body.log_id ≟ trust.log_id && head.body.ts_kid ≟ trust.t.kid)
      && ((leb 1 head.body.tree_size && leb head.body.tree_size max_audit_entries)
          && elim (from_hex trust.t.public_key) [
            | none ↦ false
            | some k ↦ holds (verify_tree_head prim codec head k)
          ])

  -- `verify(bytes.fromhex(w["public_key"]), canonical_json(body), bytes.fromhex(signature))`
  unfoldable pub signed_by : Identity → WitnessReceipt → Bool
  signed_by w receipt = elim (from_hex w.public_key) [
    | none ↦ false
    | some k ↦ elim (from_hex receipt.signature) [
      | none ↦ false
      | some s ↦ prim.verify k (canonical.body_bytes receipt.body) s
    ]
  ]

  -- `verify_witness_receipt` with the pinned identity of W; false is the ValueError
  abbrev pub verify_pinned : Trust → Option Identity → WitnessReceipt → Bool
  verify_pinned trust none receipt = false
  verify_pinned trust (some w) receipt =
      let body = receipt.body in
      ((body.profile ≟ "itx-witness-receipt/1" && body.kid ≟ w.kid)
        && ((body.policy_hash ≟ trust.policy_hash && leb 1 body.sequence) && signed_by w receipt))
      && verify_head body.head trust

  unfoldable pub verify_witness_receipt : WitnessReceipt → Trust → Bool
  verify_witness_receipt receipt trust = verify_pinned trust trust.w receipt

  -- `auditing.fingerprint`
  unfoldable pub fingerprint : WitnessReceipt → String
  fingerprint receipt = hex (prim.sha256 (canonical.receipt_bytes receipt))

  -- The two writes, which commit together.
  abbrev pub save : WitnessReceipt → ℕ → Store → Store
  save receipt sequence store = record {
    latest = some receipt;
    receipts = λ n. if n == sequence then some receipt else store.receipts n;
  }

  abbrev pub signed_receipt : Config → WitnessBody → WitnessReceipt
  signed_receipt config body = record {
    body = body;
    signature = hex (config.key.sign (canonical.body_bytes body));
  }

  abbrev pub new_receipt : Config → Clock → TreeHead → ℕ → Option String → WitnessReceipt
  new_receipt config clock head sequence previous = signed_receipt config (record {
    profile = "itx-witness-receipt/1";
    kid = config.key.kid;
    head = head;
    policy_hash = config.trust.policy_hash;
    observed_at = clock.observed;
    sequence = sequence;
    previous_receipt_hash = previous;
  })

  -- From the computation of the sequence number on.
  abbrev pub enter : Config → Clock → Store → TreeHead → ℕ → Option String → Store × Answer
  enter config clock store head sequence previous =
      let receipt = new_receipt config clock head sequence previous in
      if ltb (capacity config.max_log_entries) sequence
      then (store, refused capacity_reached)
      else (save receipt sequence store, witnessed receipt)

  -- `verify_consistency` of two sizes with the roots and the proof as bytes; `none` is a ValueError.
  abbrev pub extends_from : ℕ → ℕ → Option Bytes → Option Bytes → Option (List Bytes) → Bool
  extends_from first second none second_root proof = false
  extends_from first second (some r) none proof = false
  extends_from first second (some r) (some s) none = false
  extends_from first second (some r) (some s) (some p) =
      verify_consistency prim.sha256 first second r s p

  unfoldable pub extends : TreeHead → TreeHead → List String → Bool
  extends before head proof =
      extends_from before.body.tree_size head.body.tree_size (from_hex before.body.root_hash)
        (from_hex head.body.root_hash) (proof_bytes proof)

  abbrev pub check_history :
      Config → Clock → Store → WitnessReceipt → TreeHead → Option (List String) → Store × Answer
  check_history config clock store old head none = (store, unreachable)
  check_history config clock store old head (some proof) =
      if extends old.body.head head proof
      then enter config clock store head (suc old.body.sequence) (some (fingerprint old))
      else (store, refused history_conflict)

  module _ (consistency : ℕ → ℕ → Option (List String)) where
    -- The tests of a checkpoint against the last receipt.
    abbrev pub compare_latest :
        Config → Clock → Store → TreeHead → Option WitnessReceipt → Store × Answer
    compare_latest config clock store head none = enter config clock store head 1 none
    compare_latest config clock store head (some old) =
        let before = old.body.head.body in
        let proof = consistency before.tree_size head.body.tree_size in
        if ltb head.body.tree_size before.tree_size
        then (store, refused rollback)
        else if head.body.tree_size == before.tree_size
        then (if not (head.body.root_hash ≟ before.root_hash)
            then (store, refused conflicting_roots)
            else (store, witnessed old))
        else check_history config clock store old head proof

    -- `now_ms() - 300000 <= head["time"] <= now_ms() + 5000`
    abbrev pub is_recent : ℕ → TreeHead → Bool
    is_recent now head = leb now (head.body.time + 300000) && leb head.body.time (now + 5000)

    unfoldable pub handle : Config → Clock → Store → Request → Store × Answer
    handle config clock store witness_status = (store, status store.latest)
    handle config clock store other = (store, refused unsupported)
    handle config clock store (witness head) =
        if not (verify_head head config.trust)
        then (store, refused unverified_head)
        else if not (is_recent clock.checked head)
        then (store, refused stale_or_future)
        else compare_latest config clock store head store.latest
