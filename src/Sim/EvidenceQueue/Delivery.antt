-- ===== src/Sim/EvidenceQueue/Delivery.antt =====
-- What a flush delivers: in which order, when it stops, and which receipts the queue then holds.
use custody.Base.{
  ℕ, suc, ◌≡◌, ◌≢◌, ◌⊎◌, refl, ap, sym, ◌∙◌, String, Bool-cases, List, [], ◌∷◌, ◌++◌, none, some,
  length, insert, true, false, inl, inr,
}
use mathlib.Core.Path.{subst}
use mathlib.Core.List.{append-nil, append_assoc}
use custody.Crypto.{Primitives}
use custody.Statements.{Statement}
use custody.Statements.Envelope.{statement_hash}
use custody.Ts.Log.{
  RegistrationReceipt, LogCodec, KeyPair, refused, accepted, check_policy, verify_receipt, valid,
}
use custody.Ts.Service.{
  TransparencyService, Submitted, unavailable, answered, submit as service_submit,
}
use custody.Ts.Service.Answers.{Sound, Answers, submit-Answers}
use custody.Reconcile.Evidence.{PrivateEvidence}
use custody.Sim.ThirdParty.{ThirdParty, submit, receive_private}
use custody.Sim.EvidenceQueue.{
  Evidence, statement, private, QueueItem, HeldReceipt, EvidenceQueue, Flushed, sent, refusal,
  one_more, Delivered, stopped, raised, delivered, after_submit, deliver_private, deliver,
  keep_receipt, flush, flush_items, after_delivery,
}

module _ (prim : Primitives) (codec : LogCodec) where
  -- The held receipt is of the statement, and verifies under T's key.
  abbrev pub Proves : KeyPair → QueueItem → Statement → HeldReceipt → Type 0
  Proves key x s h =
      (verify_receipt prim codec h.receipt s key.public_key ≡ valid)
      × (h.statement_hash ≡ statement_hash prim codec.statements s)
      × (h.sub ≡ x.sub)

  -- The receipt gained for one item, when it is a statement.
  abbrev pub Gained : KeyPair → QueueItem → Evidence → List HeldReceipt → Type 0
  Gained key x (statement s) hs = (h : HeldReceipt) × (hs ≡ h ∷ []) × Proves key x s h
  Gained key x (private p) hs = hs ≡ []

  -- The receipts gained for a sequence of items: one for each statement, in order.
  abbrev pub AllGained : KeyPair → List QueueItem → List HeldReceipt → Type 0
  AllGained key [] hs = hs ≡ []
  AllGained key (x ∷ xs) hs =
      (first rest : List HeldReceipt) × (hs ≡ first ++ rest)
      × Gained key x x.payload first
      × AllGained key xs rest

  record Keeps (key : KeyPair) (q : EvidenceQueue) (x : QueueItem) (e : Evidence)
      (q' : EvidenceQueue) : Type 0 where
    new : List HeldReceipt
    held : q'.held ≡ q.held ++ new
    gained : Gained key x e new
    capacity : q'.capacity ≡ q.capacity
    dropped : q'.dropped ≡ q.dropped

  abbrev Fares : EvidenceQueue → ThirdParty → QueueItem → Evidence → ThirdParty × Delivered → Type 0
  Fares q t x e (t', stopped) = (t.service.down ≡ true) × (t' ≡ t)
  Fares q t x e (t', raised rs) =
      (s : Statement) × (e ≡ statement s)
      × (rs ≡ check_policy prim codec t'.service.log s)
      × (rs ≢ [])
  Fares q t x e (t', delivered q') =
      (t.service.down ≡ false)
      × (t'.service.down ≡ false)
      × (t'.service.log.key ≡ t.service.log.key)
      × Sound prim codec t'.service
      × Keeps t.service.log.key q x e q'

  keep_receipt-Keeps :
      (key : KeyPair) (q : EvidenceQueue) (x : QueueItem) (s : Statement) (rc : RegistrationReceipt)
      → verify_receipt prim codec rc s key.public_key ≡ valid
      → Keeps key q x (statement s) (keep_receipt prim codec q x s rc)
  unfolding keep_receipt
  keep_receipt-Keeps key q x s rc v = record {
    new = _;
    held = refl;
    gained = (_, refl, (v, refl, refl));
    capacity = refl;
    dropped = refl;
  }

  submitted-Fares :
      (q : EvidenceQueue) (t : ThirdParty) (x : QueueItem) (s : Statement)
      (service : TransparencyService) (result : Submitted)
      → Answers prim codec t.service s (service, result)
      → Fares q t x
          (statement s)
          (record t { service = service }, after_submit prim codec q x s result)
  submitted-Fares q t x s service unavailable a = (a.0, ap (λ v. record t { service = v }) a.1)
  submitted-Fares q t x s service (answered (refused rs)) a = (s, refl, rw a.2 a.3, a.4)
  submitted-Fares q t x s service (answered (accepted rc)) a =
      (a.0, a.1, a.2, a.3, keep_receipt-Keeps t.service.log.key q x s rc a.4)

  receive_private-down :
      (t : ThirdParty) (sub : String) (p : PrivateEvidence)
      → t.service.down ≡ true
      → receive_private t sub p ≡ none
  unfolding receive_private
  receive_private-down t sub p out = rw out refl

  receive_private-up :
      (t : ThirdParty) (sub : String) (p : PrivateEvidence)
      → t.service.down ≡ false
      → receive_private t sub p ≡ some (record t { private = insert sub p t.private })
  unfolding receive_private
  receive_private-up t sub p up = rw up refl

  delivered_private-Fares :
      (q : EvidenceQueue) (t : ThirdParty) (x : QueueItem) (p : PrivateEvidence)
      → Sound prim codec t.service
      → Fares q t x (private p) (deliver_private prim codec q t (receive_private t x.sub p))
  delivered_private-Fares q t x p sound = elim (Bool-cases t.service.down) [
    | inl out ↦ rw (receive_private-down t x.sub p out) (out, refl)
    | inr up ↦ rw (receive_private-up t x.sub p up) (
      up,
      up,
      refl,
      sound,
      record {
        new = [];
        held = sym (append-nil q.held);
        gained = refl;
        capacity = refl;
        dropped = refl;
      },
    )
  ]

  deliver-Fares :
      (q : EvidenceQueue) (t : ThirdParty) (x : QueueItem) (e : Evidence) (now : ℕ)
      → Sound prim codec t.service
      → Fares q t x e (deliver prim codec q t x e now)
  unfolding deliver submit
  deliver-Fares q t x (statement s) now sound =
      let out = service_submit prim codec t.service s now in
      submitted-Fares q t x s out.0 out.1 (submit-Answers prim codec t.service s now sound)
  deliver-Fares q t x (private p) now sound = delivered_private-Fares q t x p sound

  -- How a flush ends: all was sent; or T is down and nothing was; or the log's policy refuses the
  -- statement that is now the oldest.
  abbrev pub Ends : ThirdParty → ThirdParty → List QueueItem → List QueueItem → Flushed → Type 0
  Ends t t' taken left (sent n) =
      (n ≡ length taken) × ((left ≡ []) ⊎ ((t.service.down ≡ true) × (taken ≡ [])))
  Ends t t' taken left (refusal rs) =
      (x : QueueItem) × (rest : List QueueItem) × (s : Statement) × (left ≡ x ∷ rest)
      × (x.payload ≡ statement s)
      × (rs ≡ check_policy prim codec t'.service.log s)
      × (rs ≢ [])

  pub record Flushes (q : EvidenceQueue) (t : ThirdParty) (xs : List QueueItem) (q' : EvidenceQueue)
      (t' : ThirdParty) (result : Flushed) : Type 0 where
    pub taken : List QueueItem
    pub order : xs ≡ taken ++ q'.items
    pub new : List HeldReceipt
    pub held : q'.held ≡ q.held ++ new
    pub gained : AllGained t.service.log.key taken new
    pub capacity : q'.capacity ≡ q.capacity
    pub dropped : q'.dropped ≡ q.dropped
    pub ends : Ends t t' taken q'.items result

  Ends-one_more :
      (t t' t'' : ThirdParty) (x : QueueItem) (taken left : List QueueItem) (r : Flushed)
      → t'.service.down ≡ false
      → Ends t' t'' taken left r
      → Ends t t'' (x ∷ taken) left (one_more r)
  Ends-one_more t t' t'' x taken left (sent n) up (c, inl e) = (ap suc c, inl e)
  Ends-one_more t t' t'' x taken left (sent n) up (c, inr (out, e)) = cc
  Ends-one_more t t' t'' x taken left (refusal rs) up e = e

  stays :
      (q : EvidenceQueue) (t t' : ThirdParty) (xs : List QueueItem) (result : Flushed)
      → Ends t t' [] xs result
      → Flushes q t xs (record q { items = xs }) t' result
  stays q t t' xs result e = record {
    taken = [];
    order = refl;
    new = [];
    held = sym (append-nil q.held);
    gained = refl;
    capacity = refl;
    dropped = refl;
    ends = e;
  }

  then-Flushes :
      (q q' q'' : EvidenceQueue) (t t' t'' : ThirdParty) (x : QueueItem) (xs : List QueueItem)
      (result : Flushed)
      → Fares q t x x.payload (t', delivered q')
      → Flushes q' t' xs q'' t'' result
      → Flushes q t (x ∷ xs) q'' t'' (one_more result)
  then-Flushes q q' q'' t t' t'' x xs result (up, up', key, sound, k) f = record {
    taken = x ∷ f.taken;
    order = ap (λ l. x ∷ l) f.order;
    new = k.new ++ f.new;
    held = f.held ∙ ap (λ l. l ++ f.new) k.held ∙ append_assoc q.held k.new f.new;
    gained =
        (k.new, f.new, refl, k.gained, subst (λ key. AllGained key f.taken f.new) key f.gained);
    capacity = f.capacity ∙ k.capacity;
    dropped = f.dropped ∙ k.dropped;
    ends = Ends-one_more t t' t'' x f.taken q''.items result up' f.ends;
  }

  after_delivery-Flushes :
      (q : EvidenceQueue) (t : ThirdParty) (x : QueueItem) (xs : List QueueItem)
      (next : EvidenceQueue → ThirdParty → EvidenceQueue × ThirdParty × Flushed)
      (out : ThirdParty × Delivered)
      → ((q' : EvidenceQueue) (t' : ThirdParty)
          → Sound prim codec t'.service
          → Flushes q' t' xs (next q' t').0 (next q' t').1 (next q' t').2)
      → Fares q t x x.payload out
      → Flushes q t
          (x ∷ xs)
          (after_delivery prim codec q (x ∷ xs) next out).0
          (after_delivery prim codec q (x ∷ xs) next out).1
          (after_delivery prim codec q (x ∷ xs) next out).2
  after_delivery-Flushes q t x xs next (t', stopped) ih f =
      stays q t t' (x ∷ xs) (sent 0) (refl, inr (f.0, refl))
  after_delivery-Flushes q t x xs next (t', raised rs) ih f =
      stays q t t' (x ∷ xs) (refusal rs) (x, xs, f.0, refl, f.1, f.2, f.3)
  after_delivery-Flushes q t x xs next (t', delivered q') ih f =
      then-Flushes q q' (next q' t').0 t t' (next q' t').1 x xs (next q' t').2 f (ih q' t' f.3)

  flush_items-Flushes :
      (q : EvidenceQueue) (t : ThirdParty) (xs : List QueueItem) (now : ℕ)
      → Sound prim codec t.service
      → Flushes q t xs
          (flush_items prim codec q t xs now).0
          (flush_items prim codec q t xs now).1
          (flush_items prim codec q t xs now).2
  unfolding flush_items
  flush_items-Flushes q t [] now sound = stays q t t [] (sent 0) (refl, inl refl)
  flush_items-Flushes q t (x ∷ xs) now sound =
      after_delivery-Flushes q t x xs (λ q' t'. flush_items prim codec q' t' xs now)
        (deliver prim codec q t x x.payload now) (λ q' t' s. flush_items-Flushes q' t' xs now s)
        (deliver-Fares q t x x.payload now sound)

  -- A flush sends the oldest items in order and leaves the others in order, and drops none. It ends
  -- with an empty queue, or T is down and nothing was sent, or the policy of the log refuses the
  -- statement that is then the oldest. The queue gains one receipt for each statement that was
  -- sent, in order, and each verifies for its statement under the log's public key. The key's
  -- signatures verify, and hashes, signatures and leaves consist of bytes.
  pub flush-Flushes :
      (q : EvidenceQueue) (t : ThirdParty) (now : ℕ)
      → Sound prim codec t.service
      → Flushes q t q.items
          (flush prim codec q t now).0
          (flush prim codec q t now).1
          (flush prim codec q t now).2
  unfolding flush
  flush-Flushes q t now sound = flush_items-Flushes q t q.items now sound
