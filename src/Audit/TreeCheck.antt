-- ===== src/Audit/TreeCheck.antt =====
-- The first check of `replay_audit` of itx/audit/replay.py: the tree computed again from an export.
use custody.Base.{
  ℕ, suc, ◌+◌, ◌==◌, ◌≟◌, ◌≡◌, refl, ap, sym, ◌∙◌, Bool, true, ◌&&◌, String, List, [], ◌∷◌, arith,
  length, eq_iff,
}
use native.Mathlib.Numerals.{add-one}
use custody.Crypto.{Bytes, Primitives, hex}
use custody.Ts.Merkle.{mth, leaf_hash}
use custody.Ts.Log.{Log, LogCodec, LogEntry, TreeHead, tree_head, entry_leaves, drop_sub}
use custody.Ts.Log.Registration.{IsConsistent, Numbered, leaf_of, drop_sub-IsConsistent}
use custody.Audit.HeldReceipts.{AuditEntry, export_entries}

-- `all(e.index == position for position, e in enumerate(entries))`
unfoldable pub in_order : ℕ → List AuditEntry → Bool
in_order position [] = true
in_order position (e ∷ es) = e.index == position && in_order (position + 1) es

module _ (prim : Primitives) (codec : LogCodec) where
  -- The leaves of the tree that the auditor builds.
  unfoldable pub audit_leaves : List AuditEntry → List Bytes
  audit_leaves [] = []
  audit_leaves (e ∷ es) =
      leaf_hash prim.sha256 (codec.statements.leaf_bytes e.statement) ∷ audit_leaves es

  -- `tree_ok`
  unfoldable pub tree_ok : List AuditEntry → TreeHead → Bool
  tree_ok entries head =
      hex (mth prim.sha256 (audit_leaves entries)) ≟ head.body.root_hash
      && (length (audit_leaves entries) == head.body.tree_size && in_order 0 entries)

  audit_leaves-export_entries :
      (es : List LogEntry) → audit_leaves (export_entries es) ≡ entry_leaves prim codec es
  unfolding audit_leaves export_entries entry_leaves
  audit_leaves-export_entries [] = refl
  audit_leaves-export_entries (e ∷ es) =
      ap (λ l. leaf_of prim codec e.statement ∷ l) (audit_leaves-export_entries es)

  in_order-export_entries :
      (n : ℕ) (es : List LogEntry)
      → Numbered (leaf_of prim codec) n es
      → in_order n (export_entries es) ≡ true
  unfolding in_order export_entries
  in_order-export_entries n [] h = refl
  in_order-export_entries n (e ∷ es) h =
      rw add-one (ground (arith, h.0, in_order-export_entries (suc n) es h.2))

  -- The export of a log passes the auditor's check of the tree against the log's head, if the log
  -- is consistent: the tree has the leaves of the entries, each entry stores the hash of its leaf,
  -- and the entries are numbered from 0.
  pub tree_ok-export_entries :
      (log : Log) (now : ℕ)
      → IsConsistent prim codec log
      → tree_ok (export_entries log.entries) (tree_head prim codec log now) ≡ true
  unfolding tree_ok tree_head
  tree_ok-export_entries log now c =
      let same : audit_leaves (export_entries log.entries) ≡ log.leaves =
        audit_leaves-export_entries log.entries ∙ sym c.leaves in
      rw (same, in_order-export_entries 0 log.entries c.numbered)
        (ground
          (arith, eq_iff (hex (mth prim.sha256 log.leaves)) (hex (mth prim.sha256 log.leaves))))

  -- The export of a log from which `drop_sub` left out a request passes the auditor's check of the
  -- tree against the head that the operator signs again, whatever the log and the request.
  pub tree_ok-drop_sub :
      (log : Log) (s : String) (now : ℕ)
      → tree_ok
          (export_entries (drop_sub prim codec log s).entries)
          (tree_head prim codec (drop_sub prim codec log s) now)
        ≡ true
  tree_ok-drop_sub log s now =
      tree_ok-export_entries (drop_sub prim codec log s) now
        (drop_sub-IsConsistent prim codec log s)
