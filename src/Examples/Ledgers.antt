-- ===== src/Examples/Ledgers.antt =====
-- A run of the witness: two checkpoints of one log, and a question for its status in between.
use custody.Base.{ℕ, ◌≡◌, ◌≤◌, refl, String, List, [], ◌∷◌, Option, none, some, map}
use custody.Crypto.{Bytes, hex, from_hex}
use custody.Ts.Log.{Log, TreeHead, tree_head}
use custody.Ts.Consistency.{consistency_proof}
use custody.Runtime.Witness.{
  WitnessReceipt, WitnessBody, Canonical, Config, Store, Clock, Identity, Trust, Answer, witnessed,
  witness_status, witness, new_receipt, fingerprint, handle,
}
use custody.Runtime.Witness.Ledger.{size}
use custody.Runtime.Witness.Linked.{IsLedger, handle-IsLedger}
use custody.Runtime.Witness.Views.{root, view, Refines, handle-Refines}
use custody.Runtime.Witness.Runs.{Event, respond, run, run-no_split}
use custody.Runtime.Witness.Receipts.{IsPinned, Passes, IsSigned, handle-Passes}
use custody.Runtime.Witness.Holding.{Holds, handle-Holds}
use custody.Examples.{toy, toy_hash, toy_log_codec, toy_key, toy_key-Works}
use custody.Examples.Logs.{empty_log}

abbrev canonical : Canonical
canonical = record {
  body_bytes = λ (b : WitnessBody). b.sequence ∷ [];
  receipt_bytes = λ (r : WitnessReceipt). r.body.sequence ∷ [];
}

abbrev the_witness : Identity
the_witness = record { kid = "kW"; public_key = "07" }

abbrev config : Config
config = record {
  key = toy_key "kW" 7;
  trust = record {
    log_id = "log-1";
    policy_hash = "p";
    t = record { kid = "kT"; public_key = "09" };
    w = some the_witness;
  };
  max_log_entries = none;
}

abbrev leaves : List Bytes
leaves = toy_hash (1 ∷ []) ∷ toy_hash (2 ∷ []) ∷ []

abbrev head_of : List Bytes → TreeHead
head_of ls =
    let log : Log = record empty_log { leaves = ls } in tree_head toy toy_log_codec log 900000

abbrev one_leaf : TreeHead
one_leaf = head_of (toy_hash (1 ∷ []) ∷ [])

abbrev clock : Clock
clock = record { checked = 900100; observed = 900200 }

abbrev history : ℕ → ℕ → Option (List String)
history first second = some (map hex (consistency_proof toy_hash leaves first second))

abbrev event : TreeHead → Event
event head = record { clock = clock; consistency = history; request = witness head }

abbrev asked : Event
asked = record { clock = clock; consistency = history; request = witness_status }

abbrev no_receipts : Store
no_receipts = record { latest = none; receipts = λ _. none }

abbrev first_receipt : WitnessReceipt
first_receipt = new_receipt toy toy_log_codec canonical config clock one_leaf 1 none

abbrev second_receipt : WitnessReceipt
second_receipt =
    new_receipt toy toy_log_codec canonical config clock (head_of leaves) 2
      (some (fingerprint toy toy_log_codec canonical first_receipt))

no_receipts-IsLedger : IsLedger toy toy_log_codec canonical config no_receipts
no_receipts-IsLedger = record {
  newest = refl;
  empty = refl;
  later = λ n l. refl;
  placed = λ n r e. cc e;
}

first_witnessed :
    (respond toy toy_log_codec canonical config no_receipts (event one_leaf)).1
    ≡ witnessed first_receipt
unfolding handle from_hex hex custody.Runtime.Witness.verify_head tree_head
    custody.Ts.Log.verify_tree_head custody.Ts.Merkle.bytes_eq
first_witnessed = refl

second_witnessed :
    (respond toy toy_log_codec canonical config
      (run toy toy_log_codec canonical config
        (respond toy toy_log_codec canonical config no_receipts (event one_leaf)).0
        (asked ∷ []))
      (event (head_of leaves))).1
    ≡ witnessed second_receipt
unfolding handle from_hex hex custody.Runtime.Witness.verify_head tree_head
    custody.Ts.Log.verify_tree_head custody.Ts.Merkle.bytes_eq custody.Runtime.Witness.extends
    custody.Ts.Merkle.mth custody.Ts.Merkle.mth_fuel custody.Ts.Merkle.node_hash
    custody.Ts.Merkle.largest_pow2_lt custody.Ts.Merkle.grow_pow2 custody.Ts.Log.proof_bytes
    consistency_proof custody.Ts.Consistency.consistency_path custody.Ts.Consistency.subproof
    custody.Ts.Consistency.verify_consistency custody.Ts.Consistency.is_pow2
    custody.Ts.Consistency.land custody.Ts.Consistency.fold_consistency custody.Crypto.digit_value
    custody.Crypto.is_space custody.Crypto.nibble fingerprint custody.Ts.Consistency.strip_odd
    custody.Ts.Merkle.strip
second_witnessed = refl

handle-IsLedger_example :
    IsLedger toy toy_log_codec canonical config
      (handle toy toy_log_codec canonical history config clock no_receipts (witness one_leaf)).0
handle-IsLedger_example =
    handle-IsLedger toy toy_log_codec canonical config history clock no_receipts (witness one_leaf)
      no_receipts-IsLedger

handle-Refines_example :
    let (st, answer) =
      handle toy toy_log_codec canonical history config clock no_receipts (witness one_leaf) in
    Refines toy toy_log_codec canonical (view none) answer (view st.latest)
handle-Refines_example =
    handle-Refines toy toy_log_codec canonical history config clock no_receipts (witness one_leaf)

run-no_split_example :
    (size first_receipt.body.head ≤ size second_receipt.body.head)
    × (size first_receipt.body.head ≡ size second_receipt.body.head
        → root first_receipt.body.head ≡ root second_receipt.body.head)
run-no_split_example =
    run-no_split toy toy_log_codec canonical config no_receipts (event one_leaf) (asked ∷ [])
      (event (head_of leaves)) first_receipt second_receipt first_witnessed second_witnessed

config-IsPinned : IsPinned toy toy_log_codec canonical config the_witness
unfolding from_hex
config-IsPinned = record {
  pinned = refl;
  same_kid = refl;
  same_key = refl;
  works = toy_key-Works "kW" 7;
}

handle-Passes_example :
    let (st, answer) =
      handle toy toy_log_codec canonical history config clock no_receipts (witness one_leaf) in
    Passes toy toy_log_codec canonical config answer
    × IsSigned toy toy_log_codec canonical config st
handle-Passes_example =
    handle-Passes toy toy_log_codec canonical config the_witness config-IsPinned history clock
      no_receipts (witness one_leaf) (λ r e. cc e)

abbrev after_first : Store
after_first =
    (handle toy toy_log_codec canonical history config clock no_receipts (witness one_leaf)).0

first_stored : after_first.receipts 1 ≡ some first_receipt
unfolding handle from_hex hex custody.Runtime.Witness.verify_head tree_head
    custody.Ts.Log.verify_tree_head custody.Ts.Merkle.bytes_eq
first_stored = refl

after_first-IsLedger : IsLedger toy toy_log_codec canonical config after_first
after_first-IsLedger =
    handle-IsLedger toy toy_log_codec canonical config history clock no_receipts (witness one_leaf)
      no_receipts-IsLedger

after_first-IsSigned : IsSigned toy toy_log_codec canonical config after_first
after_first-IsSigned =
    (handle-Passes toy toy_log_codec canonical config the_witness config-IsPinned history clock
      no_receipts (witness one_leaf) (λ r e. cc e)).1

-- The agent holds the first receipt, and asks with a larger head.
handle-Holds_example :
    Holds toy toy_log_codec canonical config ((1, first_receipt) ∷ []) (head_of leaves) (
      handle toy toy_log_codec canonical history config clock after_first
        (witness (head_of leaves)))
handle-Holds_example =
    handle-Holds toy toy_log_codec canonical config the_witness config-IsPinned history clock
      after_first ((1, first_receipt) ∷ []) (head_of leaves) after_first-IsLedger
      after_first-IsSigned first_stored
