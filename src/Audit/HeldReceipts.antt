-- ===== src/Audit/HeldReceipts.antt =====
-- `verify_held_receipts` of itx/audit/replay.py: the registration receipts that submitters kept,
-- against an exported log. Of a held item its holder and its receipt are read; the texts of the
-- report are left out.
pub mod Accounted
pub mod Dropped
use custody.Base.{
  ℕ, zero, suc, ◌+◌, ltb, leb, ◌==◌, ◌≟◌, Bool, true, false, not, ◌&&◌, ◌||◌, String, List, [], ◌∷◌,
  ◌++◌, Option, none, some, length, get_elem?, map, Dict, lookup, insert, if◌then◌else◌,
}
use custody.Crypto.{Bytes, Primitives, hex}
use custody.Statements.{Statement}
use custody.Ts.Merkle.{leaf_hash}
use custody.Ts.Log.{Log, LogCodec, LogEntry, RegistrationReceipt, signature_bytes}
use custody.Ts.Anchor.{Checkpoint, AnchorCheck, verify_tree, all_ok}

-- `_Entry`
pub record AuditEntry : Type 0 where
  pub index : ℕ
  pub registered_at : ℕ
  pub statement : Statement

-- The entries of `TransparencyLog.export`.
unfoldable pub export_entries : List LogEntry → List AuditEntry
export_entries [] = []
export_entries (e ∷ es) =
    record { index = e.index; registered_at = e.registered_at; statement = e.statement }
    ∷ export_entries es

-- A held item; `none` is a receipt that lacks a field.
pub record HeldItem : Type 0 where
  pub holder : Option String
  pub receipt : Option RegistrationReceipt

pub data MissingReason : Type 0 where
  moved : ℕ → MissingReason
  out_of_log replaced : MissingReason

pub record Tally : Type 0 where
  pub held : ℕ
  pub included : ℕ
  pub missing : ℕ
  pub unverifiable : ℕ
  pub after_snapshot : ℕ

-- The variables of the loop.
pub record AuditState : Type 0 where
  pub included : ℕ
  pub missing : List (RegistrationReceipt × MissingReason)
  pub unverifiable : List HeldItem
  pub after_snapshot : List RegistrationReceipt
  pub checkpoints : List Checkpoint
  pub by_holder : Dict Tally

pub data Scope : Type 0 where
  no_receipts all_parties submitter_receipts : Scope

pub record HeldAudit : Type 0 where
  pub held : ℕ
  pub state : AuditState
  pub receipt_checkpoints : List AnchorCheck
  pub ok : Bool
  pub scope : Scope

-- What an auditor compares the receipts with.
pub record Snapshot : Type 0 where
  pub leaves : List Bytes
  pub entries : List AuditEntry
  pub ts_pub : Bytes
  pub log_id : String
  pub head_time : Option ℕ

-- `item.get("holder") or "U"`
abbrev holder_of : Option String → String
holder_of none = "U"
holder_of (some h) = if h ≟ "" then "U" else h

abbrev no_tally : Tally
no_tally = record { held = 0; included = 0; missing = 0; unverifiable = 0; after_snapshot = 0 }

abbrev tally_of : Option Tally → Tally
tally_of none = no_tally
tally_of (some t) = t

-- The tally of a holder, changed.
abbrev count : Dict Tally → String → (Tally → Tally) → Dict Tally
count d h f = insert h (f (tally_of (lookup h d))) d

abbrev one_held : Tally → Tally
one_held t = record t { held = t.held + 1 }

abbrev one_included : Tally → Tally
one_included t = record t { included = t.included + 1 }

abbrev one_missing : Tally → Tally
one_missing t = record t { missing = t.missing + 1 }

abbrev one_unverifiable : Tally → Tally
one_unverifiable t = record t { unverifiable = t.unverifiable + 1 }

abbrev one_later : Tally → Tally
one_later t = record t { after_snapshot = t.after_snapshot + 1 }

-- `checkpoints.setdefault`, in the order of the tree sizes in which they are used.
unfoldable pub add_checkpoint : Checkpoint → List Checkpoint → List Checkpoint
add_checkpoint c [] = c ∷ []
add_checkpoint c (x ∷ xs) =
    let rest = add_checkpoint c xs in
    if c.tree_size == x.tree_size
    then x ∷ xs
    else if ltb c.tree_size x.tree_size
    then c ∷ x ∷ xs
    else x ∷ rest

abbrev checkpoint_of : RegistrationReceipt → Checkpoint
checkpoint_of rc = record {
  tree_size = rc.body.tree_size;
  root_hash = rc.body.root_hash;
  anchored_at = rc.body.registered_at;
  witness = none;
  tsr_file = none;
}

-- The receipt was registered behind the head of the snapshot.
unfoldable pub is_later : Snapshot → RegistrationReceipt → Option ℕ → Bool
is_later snap rc none = false
is_later snap rc (some t) =
    ltb t rc.body.registered_at && ltb (length snap.leaves) rc.body.tree_size

abbrev later : AuditState → String → RegistrationReceipt → AuditState
later st h rc = record st {
  after_snapshot = st.after_snapshot ++ rc ∷ [];
  by_holder = count st.by_holder h one_later;
}

abbrev unverified : AuditState → String → HeldItem → AuditState
unverified st h item = record st {
  unverifiable = st.unverifiable ++ item ∷ [];
  by_holder = count st.by_holder h one_unverifiable;
}

abbrev present : AuditState → String → AuditState
present st h = record st {
  included = st.included + 1;
  by_holder = count st.by_holder h one_included;
}

abbrev absent_from : AuditState → String → RegistrationReceipt → MissingReason → AuditState
absent_from st h rc why = record st {
  missing = st.missing ++ (rc, why) ∷ [];
  by_holder = count st.by_holder h one_missing;
}

-- Why a leaf is not in its place: `elsewhere` is the index where it stands now.
abbrev reason_of : Option ℕ → Option AuditEntry → MissingReason
reason_of (some i) entry = moved i
reason_of none none = out_of_log
reason_of none (some e) = replaced

module _ (prim : Primitives) (codec : LogCodec) where
  abbrev pub leaf_hex : Statement → String
  leaf_hex s = hex (leaf_hash prim.sha256 (codec.statements.leaf_bytes s))

  unfoldable pub find_leaf : List AuditEntry → String → Option ℕ
  find_leaf [] lh = none
  find_leaf (e ∷ es) lh =
      let rest = find_leaf es lh in if leaf_hex e.statement ≟ lh then some e.index else rest

  -- The leaf of the receipt stands in its place.
  unfoldable pub is_included : RegistrationReceipt → Option AuditEntry → Bool
  is_included rc none = false
  is_included rc (some e) = leaf_hex e.statement ≟ rc.body.leaf_hash

  -- The rest of the loop's body for a receipt that T signed.
  unfoldable pub check_leaf : Snapshot → AuditState → String → RegistrationReceipt → AuditState
  check_leaf snap st0 h rc =
      let st = record st0 { checkpoints = add_checkpoint (checkpoint_of rc) st0.checkpoints } in
      let entry = get_elem? snap.entries rc.body.leaf_index in
      if is_included rc entry
      then present st h
      else absent_from st h rc (reason_of (find_leaf snap.entries rc.body.leaf_hash) entry)

  abbrev check_signature :
      Snapshot
      → AuditState
      → String
      → HeldItem
      → RegistrationReceipt
      → Option Bytes
      → Option AuditState
  check_signature snap st h item rc none = none
  check_signature snap st h item rc (some sig) = some (
      if prim.verify snap.ts_pub (codec.signed_bytes rc.body) sig
      then check_leaf snap st h rc
      else unverified st h item)

  abbrev check_receipt :
      Snapshot → AuditState → String → HeldItem → Option RegistrationReceipt → Option AuditState
  check_receipt snap st h item none = some (unverified st h item)
  check_receipt snap st h item (some rc) =
      if is_later snap rc snap.head_time
      then some (later st h rc)
      else if not (rc.body.log_id ≟ snap.log_id)
      then some (unverified st h item)
      else check_signature snap st h item rc (signature_bytes rc.signature)

  -- The body of the loop; `none` is the ValueError of a signature that is not hexadecimal.
  unfoldable pub check_item : Snapshot → AuditState → HeldItem → Option AuditState
  check_item snap st item =
      let h = holder_of item.holder in
      check_receipt snap (record st { by_holder = count st.by_holder h one_held }) h item
        item.receipt

  unfoldable pub check_items : Snapshot → Option AuditState → List HeldItem → Option AuditState
  check_items snap none items = none
  check_items snap (some st) [] = some st
  check_items snap (some st) (x ∷ xs) = check_items snap (check_item snap st x) xs

abbrev has_holder : Dict Tally → String → Bool
has_holder d h = elim (lookup h d) [ none ↦ false | some t ↦ true ]

abbrev scope_of : List HeldItem → Dict Tally → Scope
scope_of [] d = no_receipts
scope_of (x ∷ xs) d =
    if has_holder d "U" && (has_holder d "R" && has_holder d "M")
    then all_parties
    else submitter_receipts

abbrev none_missing : List (RegistrationReceipt × MissingReason) → Bool
none_missing [] = true
none_missing (x ∷ xs) = false

module _ (prim : Primitives) (codec : LogCodec) (verify_tsa : Checkpoint → Option String) where
  abbrev report : List HeldItem → AuditState → Option (List AnchorCheck) → Option HeldAudit
  report held st none = none
  report held st (some checks) = some record {
    held = length held;
    state = st;
    receipt_checkpoints = checks;
    ok = none_missing st.missing && all_ok checks;
    scope = scope_of held st.by_holder;
  }

  abbrev conclude : Snapshot → List HeldItem → Option AuditState → Option HeldAudit
  conclude snap held none = none
  conclude snap held (some st) =
      report held st (verify_tree prim.sha256 verify_tsa snap.leaves st.checkpoints)

  unfoldable pub verify_held_receipts : Snapshot → List HeldItem → Option HeldAudit
  verify_held_receipts snap held =
      let start : AuditState = record {
        included = 0;
        missing = [];
        unverifiable = [];
        after_snapshot = [];
        checkpoints = [];
        by_holder = [];
      } in
      conclude snap held (check_items prim codec snap (some start) held)
