-- ===== src/Examples/Audits.antt =====
-- Audits of held receipts, under a hash without collision resistance.
use custody.Base.{
  ℕ, ◌≡◌, ◌≢◌, ◌⊎◌, refl, String, Bool, true, false, List, [], ◌∷◌, Option, none, some, replicate,
  get_elem?, arith, insert, lookup,
}
use custody.Crypto.{Bytes, hex, from_hex, digit_value, is_space, nibble}
use custody.Ts.Merkle.{
  bytes_eq, leaf_hash, grow_pow2, inclusion_path, inclusion_path_fuel, largest_pow2_lt, mth,
  mth_fuel, node_hash, strip,
}
use custody.Ts.Consistency.{
  root_at, consistency_path, consistency_proof, fold_consistency, is_pow2, land, strip_odd,
  subproof, verify_consistency,
}
use custody.Audit.HeldReceipts.{
  check_items, check_item, is_later, check_leaf, add_checkpoint, find_leaf,
}
use custody.Ts.Anchor.{verify_tree, check_record, all_ok}
use custody.Ts.Log.{make_receipt, signature_bytes, rebuild, entry_leaves}
use custody.Statements.{Statement, signed, contract, contract_payload}
use custody.Statements.Envelope.{sub}
use custody.Ts.Merkle.Soundness.{Collision}
use custody.Ts.Log.{Log, register, drop_sub, RegistrationReceipt, Registered, accepted, append}
use custody.Ts.Anchor.{Checkpoint}
use custody.Audit.HeldReceipts.{
  Snapshot, HeldItem, HeldAudit, AuditEntry, export_entries, verify_held_receipts, is_included,
  no_receipts,
}
use custody.Ts.Log.{tree_head}
use custody.Ts.Log.Registration.{IsConsistent}
use custody.Audit.TreeCheck.{tree_ok, tree_ok-export_entries, tree_ok-drop_sub}
use custody.Audit.HeldReceipts.Accounted.{IsCheckable, audit_ok-included}
use custody.Audit.HeldReceipts.Dropped.{IsOf, audit_ok-keeps, drop_sub-detected, append-IsCheckable}
use custody.Examples.{toy, toy_hash, toy_log_codec, toy_key-Works, user_contract, the_contract}
use custody.Examples.Logs.{empty_log}

abbrev no_tsa : Checkpoint → Option String
no_tsa c = none

-- The log with the user's contract, and its receipt.
abbrev receipt : RegistrationReceipt
receipt = (append toy toy_log_codec empty_log user_contract 1100).1

registered : (register toy toy_log_codec empty_log user_contract 1100).1 ≡ accepted receipt
unfolding register custody.Ts.Log.check_policy custody.Statements.Envelope.has_type
    custody.Statements.Envelope.same_type custody.Ts.Log.check_key custody.Base.lookup
    custody.Statements.Envelope.verify_with custody.Crypto.hex custody.Crypto.from_hex
    custody.Ts.Merkle.bytes_eq custody.Statements.Schemas.validate_payload
    custody.Statements.Schemas.is_hex custody.Base.contains
registered = refl

abbrev log : Log
log = (append toy toy_log_codec empty_log user_contract 1100).0

abbrev snapshot_of : Log → Snapshot
snapshot_of l = record {
  leaves = l.leaves;
  entries = export_entries l.entries;
  ts_pub = 9 ∷ [];
  log_id = "log-1";
  head_time = some 2000;
}

abbrev held : List HeldItem
held = record { holder = some "U"; receipt = some receipt } ∷ []

abbrev item : HeldItem
item = record { holder = some "U"; receipt = some receipt }

-- The request of a statement that keeps its leaf bytes, which are its time.
abbrev impostor : Statement
impostor = signed "U" "urn:itx:req:2" contract "kU" 1000 (contract_payload the_contract) ""

abbrev forged_log : Log
forged_log = (append toy toy_log_codec log impostor 1200).0

abbrev dropped_log : Log
dropped_log = drop_sub toy toy_log_codec forged_log "urn:itx:req:1"

is_of : (l : Log) → IsOf empty_log 1100 (snapshot_of l)
is_of l = record {
  same_key = refl;
  same_id = refl;
  head = 2000;
  timed = refl;
  recent = omega arith;
}

abbrev audit_of : Option HeldAudit → HeldAudit
audit_of (some a) = a
audit_of none = record {
  held = 0;
  state = record {
    included = 0;
    missing = [];
    unverifiable = [];
    after_snapshot = [];
    checkpoints = [];
    by_holder = [];
  };
  receipt_checkpoints = [];
  ok = false;
  scope = no_receipts;
}

abbrev audit_on : Log → HeldAudit
audit_on l = audit_of (verify_held_receipts toy toy_log_codec no_tsa (snapshot_of l) held)

audit_of-some : (x : Option HeldAudit) → (audit_of x).ok ≡ true → x ≡ some (audit_of x)
audit_of-some none h = cc
audit_of-some (some a) h = refl

audit_ok : (audit_on log).ok ≡ true
unfolding verify_held_receipts check_items check_item is_later append make_receipt signature_bytes
    hex from_hex verify_tree bytes_eq check_leaf is_included export_entries leaf_hash add_checkpoint
    check_record root_at find_leaf insert lookup digit_value is_space nibble all_ok consistency_path
    consistency_proof fold_consistency is_pow2 land strip_odd subproof verify_consistency grow_pow2
    inclusion_path inclusion_path_fuel largest_pow2_lt mth mth_fuel node_hash strip
audit_ok = refl

dropped_ok : (audit_on dropped_log).ok ≡ true
unfolding verify_held_receipts check_items check_item is_later append make_receipt signature_bytes
    hex from_hex verify_tree bytes_eq check_leaf is_included export_entries leaf_hash add_checkpoint
    check_record root_at find_leaf insert lookup digit_value is_space nibble all_ok consistency_path
    consistency_proof fold_consistency is_pow2 land strip_odd subproof verify_consistency grow_pow2
    inclusion_path inclusion_path_fuel largest_pow2_lt mth mth_fuel node_hash strip drop_sub rebuild
    entry_leaves
dropped_ok = refl

audited : verify_held_receipts toy toy_log_codec no_tsa (snapshot_of log) held ≡ some (audit_on log)
audited = audit_of-some _ audit_ok

dropped_audited :
    verify_held_receipts toy toy_log_codec no_tsa (snapshot_of dropped_log) held
    ≡ some (audit_on dropped_log)
dropped_audited = audit_of-some _ dropped_ok

checkable : IsCheckable toy toy_log_codec (snapshot_of log) receipt
checkable =
    append-IsCheckable toy toy_log_codec empty_log user_contract 1100 (snapshot_of log)
      (toy_key-Works "kT" 9) (is_of log)

included_example :
    is_included toy toy_log_codec receipt
      (get_elem? (snapshot_of log).entries receipt.body.leaf_index)
    ≡ true
included_example =
    audit_ok-included toy toy_log_codec no_tsa (snapshot_of log) held (audit_on log) 0 item receipt
      audited audit_ok refl refl checkable

keeps_example :
    ((e : AuditEntry) × (get_elem? (snapshot_of log).entries receipt.body.leaf_index ≡ some e)
      × (toy_log_codec.statements.leaf_bytes e.statement
          ≡ toy_log_codec.statements.leaf_bytes user_contract))
    ⊎ Collision toy_hash
keeps_example =
    audit_ok-keeps toy toy_log_codec no_tsa empty_log user_contract 1100 receipt (snapshot_of log)
      held (audit_on log) 0 item (toy_key-Works "kT" 9) registered (is_of log) refl refl audited
      audit_ok

detected_example :
    ((x : Statement) × (sub x ≢ sub user_contract)
      × (toy_log_codec.statements.leaf_bytes x ≡ toy_log_codec.statements.leaf_bytes user_contract))
    ⊎ Collision toy_hash
detected_example =
    drop_sub-detected toy toy_log_codec no_tsa empty_log user_contract 1100 receipt
      (snapshot_of dropped_log) held (audit_on dropped_log) 0 item forged_log (toy_key-Works "kT" 9)
      registered (is_of dropped_log) refl refl refl dropped_audited dropped_ok

log-IsConsistent : IsConsistent toy toy_log_codec log
unfolding append entry_leaves leaf_hash
log-IsConsistent = record { leaves = refl; numbered = (refl, refl, tt) }

tree_ok-export_entries_example :
    tree_ok toy toy_log_codec (export_entries log.entries) (tree_head toy toy_log_codec log 2000)
    ≡ true
tree_ok-export_entries_example = tree_ok-export_entries toy toy_log_codec log 2000 log-IsConsistent

tree_ok-drop_sub_example :
    tree_ok toy toy_log_codec
      (export_entries dropped_log.entries)
      (tree_head toy toy_log_codec dropped_log 2000)
    ≡ true
tree_ok-drop_sub_example = tree_ok-drop_sub toy toy_log_codec forged_log "urn:itx:req:1" 2000
