-- ===== src/Audit/HeldReceipts/Accounted.antt =====
-- An audit that is in order accounts for every receipt that it can verify.
use custody.Base.{
  ℕ, zero, suc, ◌≡◌, inl, inr, refl, ap, ◌∙◌, Bool, true, false, ◌≟◌, String, List, [], ◌∷◌, Option,
  none, some, arith, get_elem?, Bool-cases, eq_iff, append-eq-nil,
}
use custody.Crypto.{Bytes, Primitives}
use custody.Ts.Log.{LogCodec, RegistrationReceipt, signature_bytes}
use custody.Ts.Anchor.{Checkpoint, AnchorCheck}
use custody.Audit.HeldReceipts.{
  Snapshot, HeldItem, HeldAudit, AuditState, MissingReason, is_later, is_included, check_leaf,
  check_item, check_items, check_receipt, check_signature, verify_held_receipts, conclude, report,
  none_missing,
}

-- A receipt that the audit can check: T signed it for this log, and it is not later than the head.
pub record IsCheckable (prim : Primitives) (codec : LogCodec) (snap : Snapshot)
    (rc : RegistrationReceipt) : Type 0 where
  pub not_later : is_later snap rc snap.head_time ≡ false
  pub same_log : rc.body.log_id ≡ snap.log_id
  pub signature : Bytes
  pub readable : signature_bytes rc.signature ≡ some signature
  pub verified : prim.verify snap.ts_pub (codec.signed_bytes rc.body) signature ≡ true

missing_at : Option AuditState → List (RegistrationReceipt × MissingReason)
missing_at none = []
missing_at (some st) = st.missing

is_ok : Option HeldAudit → Bool
is_ok none = false
is_ok (some a) = a.ok

receipt_at : Option HeldItem → Option RegistrationReceipt
receipt_at none = none
receipt_at (some item) = item.receipt

module _ (prim : Primitives) (codec : LogCodec) (snap : Snapshot) where
  check_leaf-included :
      (st : AuditState) (h : String) (rc : RegistrationReceipt)
      → (check_leaf prim codec snap st h rc).missing ≡ []
      → (is_included prim codec rc (get_elem? snap.entries rc.body.leaf_index) ≡ true)
        × (st.missing ≡ [])
  unfolding check_leaf
  check_leaf-included st h rc e =
      elim (Bool-cases (is_included prim codec rc (get_elem? snap.entries rc.body.leaf_index))) [
        | inl found ↦ (found, rw found at e)
        | inr lost ↦ absurd (cc (append-eq-nil st.missing _ (rw lost at e)).1)
      ]

  check_signature-missing :
      (st st' : AuditState) (h : String) (item : HeldItem) (rc : RegistrationReceipt)
      (x : Option Bytes)
      → check_signature prim codec snap st h item rc x ≡ some st'
      → st'.missing ≡ []
      → st.missing ≡ []
  unfolding missing_at
  check_signature-missing st st' h item rc none e m = cc
  check_signature-missing st st' h item rc (some sig) e m =
      elim (Bool-cases (prim.verify snap.ts_pub (codec.signed_bytes rc.body) sig)) [
        | inl good ↦ (check_leaf-included st h rc (ap missing_at (rw good at e) ∙ m)).1
        | inr bad ↦ ap missing_at (rw bad at e) ∙ m
      ]

  check_receipt-missing :
      (st st' : AuditState) (h : String) (item : HeldItem) (x : Option RegistrationReceipt)
      → check_receipt prim codec snap st h item x ≡ some st'
      → st'.missing ≡ []
      → st.missing ≡ []
  unfolding missing_at
  check_receipt-missing st st' h item none e m = ap missing_at e ∙ m
  check_receipt-missing st st' h item (some rc) e m =
      elim (Bool-cases (is_later snap rc snap.head_time)) [
        | inl late ↦ ap missing_at (rw late at e) ∙ m
        | inr due ↦ elim (Bool-cases (rc.body.log_id ≟ snap.log_id)) [
          | inr other ↦ ap missing_at (rw (due, other) at e) ∙ m
          | inl same ↦
              check_signature-missing st st' h item rc (signature_bytes rc.signature)
                (rw (due, same) at e) m
        ]
      ]

  -- Checking an item adds to the missing receipts and removes none.
  check_item-missing :
      (st st' : AuditState) (item : HeldItem)
      → check_item prim codec snap st item ≡ some st'
      → st'.missing ≡ []
      → st.missing ≡ []
  unfolding check_item
  check_item-missing st st' item e m = check_receipt-missing _ st' _ item item.receipt e m

  check_receipt-included :
      (st st' : AuditState) (h : String) (item : HeldItem) (rc : RegistrationReceipt)
      (x : Option RegistrationReceipt)
      → IsCheckable prim codec snap rc
      → x ≡ some rc
      → check_receipt prim codec snap st h item x ≡ some st'
      → st'.missing ≡ []
      → is_included prim codec rc (get_elem? snap.entries rc.body.leaf_index) ≡ true
  unfolding missing_at
  check_receipt-included st st' h item rc x c r e m =
      let same : (rc.body.log_id ≟ snap.log_id) ≡ true =
        (eq_iff rc.body.log_id snap.log_id).1 c.same_log in
      (check_leaf-included st h rc
        (ap missing_at (rw (r, c.not_later, same, c.readable, c.verified) at e) ∙ m)).0

  check_items-some :
      (x : Option AuditState) (items : List HeldItem) (st' : AuditState)
      → check_items prim codec snap x items ≡ some st'
      → (st : AuditState) × (x ≡ some st)
  unfolding check_items
  check_items-some none items st' e = cc
  check_items-some (some st) items st' e = (st, refl)

  check_items-at :
      (x : Option AuditState) (items : List HeldItem) (st st' : AuditState)
      → x ≡ some st
      → check_items prim codec snap x items ≡ some st'
      → check_items prim codec snap (some st) items ≡ some st'
  check_items-at x items st st' f e = rw f at e

  check_items-missing :
      (items : List HeldItem) (st st' : AuditState)
      → check_items prim codec snap (some st) items ≡ some st'
      → st'.missing ≡ []
      → st.missing ≡ []
  unfolding check_items missing_at
  check_items-missing [] st st' e m = ap missing_at e ∙ m
  check_items-missing (x ∷ items) st st' e m =
      let (st1, f) = check_items-some _ items st' e in
      check_item-missing st st1 x f
        (check_items-missing items st1 st' (check_items-at _ items st1 st' f e) m)

  check_items-included :
      (items : List HeldItem) (st st' : AuditState) (i : ℕ) (item : HeldItem)
      (rc : RegistrationReceipt)
      → check_items prim codec snap (some st) items ≡ some st'
      → st'.missing ≡ []
      → get_elem? items i ≡ some item
      → item.receipt ≡ some rc
      → IsCheckable prim codec snap rc
      → is_included prim codec rc (get_elem? snap.entries rc.body.leaf_index) ≡ true
  unfolding check_items check_item receipt_at
  check_items-included [] st st' i item rc e m g r c = cc
  check_items-included (x ∷ items) st st' zero item rc e m g r c =
      let (st1, f) = check_items-some _ items st' e in
      let same : x.receipt ≡ some rc = ap receipt_at g ∙ r in
      check_receipt-included _ st1 _ x rc x.receipt c same f
        (check_items-missing items st1 st' (check_items-at _ items st1 st' f e) m)
  check_items-included (x ∷ items) st st' (suc i) item rc e m g r c =
      let (st1, f) = check_items-some _ items st' e in
      check_items-included items st1 st' i item rc (check_items-at _ items st1 st' f e) m g r c

module _ (prim : Primitives) (codec : LogCodec) (tsa : Checkpoint → Option String) where
  none_missing-eq :
      (xs : List (RegistrationReceipt × MissingReason)) → none_missing xs ≡ true → xs ≡ []
  none_missing-eq [] h = refl
  none_missing-eq (x ∷ xs) h = cc

  report-ok :
      (held : List HeldItem) (st : AuditState) (x : Option (List AnchorCheck)) (a : HeldAudit)
      → report prim codec tsa held st x ≡ some a
      → a.ok ≡ true
      → st.missing ≡ []
  unfolding is_ok
  report-ok held st none a e k = cc
  report-ok held st (some checks) a e k = none_missing-eq st.missing (ground (arith, ap is_ok e))

  conclude-ok :
      (snap : Snapshot) (held : List HeldItem) (x : Option AuditState) (a : HeldAudit)
      → conclude prim codec tsa snap held x ≡ some a
      → a.ok ≡ true
      → (st : AuditState) × (x ≡ some st) × (st.missing ≡ [])
  conclude-ok snap held none a e k = cc
  conclude-ok snap held (some st) a e k = (st, refl, report-ok held st _ a e k)

  -- When the audit of the held receipts is in order, each receipt that the log's key signed for
  -- this log, and that is not later than the snapshot, has its leaf at its index among the entries.
  pub audit_ok-included :
      (snap : Snapshot) (held : List HeldItem) (a : HeldAudit) (i : ℕ) (item : HeldItem)
      (rc : RegistrationReceipt)
      → verify_held_receipts prim codec tsa snap held ≡ some a
      → a.ok ≡ true
      → get_elem? held i ≡ some item
      → item.receipt ≡ some rc
      → IsCheckable prim codec snap rc
      → is_included prim codec rc (get_elem? snap.entries rc.body.leaf_index) ≡ true
  unfolding verify_held_receipts
  audit_ok-included snap held a i item rc e k g r c =
      let (st, f, m) = conclude-ok snap held _ a e k in
      check_items-included prim codec snap held _ st i item rc f m g r c
