-- ===== src/Audit/HeldReceipts/Dropped.antt =====
-- What an operator cannot hide from the holder of a receipt.
use custody.Base.{
  ℕ, zero, suc, ◌+◌, ◌≤◌, ◌≡◌, ◌≢◌, ◌⊎◌, inl, inr, refl, sym, ap, ◌∙◌, true, false, ◌≟◌, String,
  List, [], ◌∷◌, Option, none, some, arith, get_elem?, Bool-cases, eq_iff, Bytes-discrete,
  List-cases,
}
use custody.Crypto.{Bytes, Primitives}
use custody.Crypto.HexLaws.{hex-injective}
use custody.Statements.{Statement}
use custody.Statements.Envelope.{sub}
use custody.Ts.Merkle.{leaf_hash}
use custody.Ts.Merkle.Soundness.{Collision}
use custody.Ts.Merkle.Digests.{AreBytes}
use custody.Ts.Log.{
  Log, LogCodec, LogEntry, RegistrationReceipt, Registered, Refusal, refused, accepted, register,
  append, make_receipt, check_policy, rebuild, drop_sub,
}
use custody.Ts.Log.Receipts.{Works, signature_bytes-hex}
use custody.Ts.Anchor.{Checkpoint}
use custody.Audit.HeldReceipts.{
  Snapshot, HeldItem, HeldAudit, AuditEntry, export_entries, is_later, is_included,
  verify_held_receipts, leaf_hex,
}
use custody.Audit.HeldReceipts.Accounted.{IsCheckable, audit_ok-included}

-- The snapshot is one of this log, not older than the registration time.
pub record IsOf (log : Log) (registered_at : ℕ) (snap : Snapshot) : Type 0 where
  pub same_key : snap.ts_pub ≡ log.key.public_key
  pub same_id : snap.log_id ≡ log.log_id
  pub head : ℕ
  pub timed : snap.head_time ≡ some head
  pub recent : registered_at ≤ head

receipt_of : Registered → Option RegistrationReceipt
receipt_of (refused rs) = none
receipt_of (accepted rc) = some rc

statement_at : Option AuditEntry → Option Statement
statement_at none = none
statement_at (some e) = some e.statement

sub_at : Option LogEntry → Option String
sub_at none = none
sub_at (some l) = some (sub l.statement)

ne-sub : (a b : String) → (a ≟ b) ≡ false → a ≢ b
ne-sub a b h e = cc ((eq_iff a b).1 e)

statement-inj : (a b : Statement) → some a ≡ some b → a ≡ b
statement-inj a b h = ground (arith, h)

sub-inj : (a b : String) → some a ≡ some b → a ≡ b
sub-inj a b h = ground (arith, h)

some-inj : (a b : RegistrationReceipt) → some a ≡ some b → a ≡ b
some-inj a b h = ground (arith, h)

none-ne-some : (a : RegistrationReceipt) → some a ≢ none
none-ne-some a h = cc h

module _ (prim : Primitives) (codec : LogCodec) where
  register-taken :
      (log : Log) (s : Statement) (now : ℕ)
      → check_policy prim codec log s ≡ []
      → (register prim codec log s now).1 ≡ accepted (append prim codec log s now).1
  unfolding register
  register-taken log s now e = rw e refl

  register-refused :
      (log : Log) (s : Statement) (now : ℕ) (r : Refusal) (rs : List Refusal)
      → check_policy prim codec log s ≡ r ∷ rs
      → (register prim codec log s now).1 ≡ refused (r ∷ rs)
  unfolding register
  register-refused log s now r rs e = rw e refl

  -- An accepted registration returns the receipt of the entry that it appends.
  accepted-append :
      (log : Log) (s : Statement) (now : ℕ) (rc : RegistrationReceipt)
      → (register prim codec log s now).1 ≡ accepted rc
      → rc ≡ (append prim codec log s now).1
  unfolding receipt_of
  accepted-append log s now rc h = elim (List-cases (check_policy prim codec log s)) [
    | inl e ↦ some-inj _ _ (ap receipt_of (sym h ∙ register-taken log s now e))
    | inr (r, rs, e) ↦
        absurd (none-ne-some rc (ap receipt_of (sym h ∙ register-refused log s now r rs e)))
  ]

  pub append-IsCheckable :
      (log : Log) (s : Statement) (now : ℕ) (snap : Snapshot)
      → Works prim log.key
      → IsOf log now snap
      → IsCheckable prim codec snap (append prim codec log s now).1
  unfolding append make_receipt is_later
  append-IsCheckable log s now snap w o =
      let m = codec.signed_bytes (append prim codec log s now).1.body in
      record {
        not_later = rw o.timed (ground (arith, o.recent));
        same_log = sym o.same_id;
        signature = log.key.sign m;
        readable =
            signature_bytes-hex (log.key.sign m) (w.signature_bytes m) (w.signature_nonempty m);
        verified = rw o.same_key (w.verifies m);
      }

  append-leaf :
      (log : Log) (s : Statement) (now : ℕ)
      → (append prim codec log s now).1.body.leaf_hash ≡ leaf_hex prim codec s
  unfolding append make_receipt
  append-leaf log s now = refl

  included-entry :
      (rc : RegistrationReceipt) (x : Option AuditEntry)
      → is_included prim codec rc x ≡ true
      → (e : AuditEntry) × (x ≡ some e) × (leaf_hex prim codec e.statement ≡ rc.body.leaf_hash)
  unfolding is_included
  included-entry rc none h = cc
  included-entry rc (some e) h = (e, refl, (eq_iff _ _).0 h)

  leaf-bytes :
      (a b : Statement)
      → ((m : Bytes) → AreBytes (prim.sha256 m))
      → leaf_hex prim codec a ≡ leaf_hex prim codec b
      → (codec.statements.leaf_bytes a ≡ codec.statements.leaf_bytes b) ⊎ Collision prim.sha256
  unfolding leaf_hash
  leaf-bytes a b outputs h =
      let x = codec.statements.leaf_bytes a in
      let y = codec.statements.leaf_bytes b in
      elim (Bytes-discrete x y) [
        | yes same ↦ inl same
        | no other ↦ inr (
          0 ∷ x,
          0 ∷ y,
          (λ p. other (ground (arith, p))),
          hex-injective _ _ (outputs _) (outputs _) h,
        )
      ]

  export-entry :
      (es : List LogEntry) (i : ℕ) (e : AuditEntry)
      → get_elem? (export_entries es) i ≡ some e
      → (l : LogEntry) × (get_elem? es i ≡ some l) × (l.statement ≡ e.statement)
  unfolding export_entries statement_at
  export-entry [] i e h = cc
  export-entry (x ∷ es) zero e h = (x, refl, statement-inj _ _ (ap statement_at h))
  export-entry (x ∷ es) (suc i) e h = export-entry es i e h

  -- No entry that is kept belongs to the request that was left out.
  rebuild-sub :
      (s : String) (n i : ℕ) (es : List LogEntry) (l : LogEntry)
      → get_elem? (rebuild prim codec s n es) i ≡ some l
      → sub l.statement ≢ s
  unfolding rebuild sub_at
  rebuild-sub s n i [] l h = absurd (cc h)
  rebuild-sub s n zero (x ∷ es) l h = elim (Bool-cases (sub x.statement ≟ s)) [
    | inl dropped ↦ rebuild-sub s n zero es l (rw dropped at h)
    | inr kept ↦
        λ same. ne-sub (sub x.statement) s kept (sub-inj _ _ (ap sub_at (rw kept at h)) ∙ same)
  ]
  rebuild-sub s n (suc i) (x ∷ es) l h = elim (Bool-cases (sub x.statement ≟ s)) [
    | inl dropped ↦ rebuild-sub s n (suc i) es l (rw dropped at h)
    | inr kept ↦ rebuild-sub s (n + 1) i es l (rw kept at h)
  ]

  module _ (tsa : Checkpoint → Option String) (log : Log) (s : Statement) (now : ℕ)
      (rc : RegistrationReceipt) (snap : Snapshot) (held : List HeldItem) (a : HeldAudit) (i : ℕ)
      (item : HeldItem) where
    -- A statement was registered and its receipt is held. When the audit of the held receipts is in
    -- order for a snapshot of that log, with its key and not older than the registration, the entry
    -- at the receipt's index has the leaf bytes of that statement, or the hash has a collision. The
    -- key's signatures verify, and hashes and signatures consist of bytes.
    pub audit_ok-keeps :
        Works prim log.key
        → (register prim codec log s now).1 ≡ accepted rc
        → IsOf log now snap
        → get_elem? held i ≡ some item
        → item.receipt ≡ some rc
        → verify_held_receipts prim codec tsa snap held ≡ some a
        → a.ok ≡ true
        → ((e : AuditEntry) × (get_elem? snap.entries rc.body.leaf_index ≡ some e)
            × (codec.statements.leaf_bytes e.statement ≡ codec.statements.leaf_bytes s))
          ⊎ Collision prim.sha256
    audit_ok-keeps w h o g r v k =
        let same = accepted-append log s now rc h in
        let checkable : IsCheckable prim codec snap rc =
          rw same (append-IsCheckable log s now snap w o) in
        let found = audit_ok-included prim codec tsa snap held a i item rc v k g r checkable in
        let (e, at, leaf) = included-entry rc _ found in
        let leaf' =
          leaf ∙ ap (λ (x : RegistrationReceipt). x.body.leaf_hash) same ∙ append-leaf log s now in
        elim (leaf-bytes e.statement s w.hash_bytes leaf') [
          | inl equal ↦ inl (e, at, equal)
          | inr collision ↦ inr collision
        ]

    -- A statement was registered and its receipt is held. When the entries of a later snapshot of
    -- that log, with its key and not older than the registration, are those that `drop_sub` leaves
    -- of whatever log for the statement's request, and the audit of the held receipts is in order,
    -- then the hash has a collision or a statement of another request has the same leaf bytes. The
    -- key's signatures verify, and hashes and signatures consist of bytes.
    pub drop_sub-detected :
        (later : Log)
        → Works prim log.key
        → (register prim codec log s now).1 ≡ accepted rc
        → IsOf log now snap
        → snap.entries ≡ export_entries (drop_sub prim codec later (sub s)).entries
        → get_elem? held i ≡ some item
        → item.receipt ≡ some rc
        → verify_held_receipts prim codec tsa snap held ≡ some a
        → a.ok ≡ true
        → ((x : Statement) × (sub x ≢ sub s)
            × (codec.statements.leaf_bytes x ≡ codec.statements.leaf_bytes s))
          ⊎ Collision prim.sha256
    unfolding drop_sub
    drop_sub-detected later w h o x g r v k = elim (audit_ok-keeps w h o g r v k) [
      | inr collision ↦ inr collision
      | inl (e, at, equal) ↦
          let (l, found, st) = export-entry _ _ e (rw x at at) in
          inl (
            e.statement,
            (λ p. rebuild-sub (sub s) 0 _ later.entries l found (ap sub st ∙ p)),
            equal,
          )
    ]
