-- ===== src/Sim/EvidenceQueue.antt =====
-- itx/sim/parties/evidence.py: a party's bounded queue of evidence for T, and its retries. A queued
-- item holds a statement or private evidence, which is its `kind` and `payload`.
pub mod Delivery
pub mod Order
use custody.Base.{
  ℕ, suc, ◌+◌, String, List, [], ◌∷◌, ◌++◌, Option, none, some, Dict, insert, length, ltb,
  if◌then◌else◌,
}
use custody.Crypto.{Primitives}
use custody.Statements.{Statement, ContentType}
use custody.Statements.Envelope.{content_type, statement_hash}
use custody.Reconcile.Evidence.{PrivateEvidence}
use custody.Ts.Log.{LogCodec, Refusal, refused, accepted, RegistrationReceipt}
use custody.Ts.Service.{Submitted, unavailable, answered}
use custody.Sim.ThirdParty.{ThirdParty, submit, receive_private}

pub data Evidence : Type 0 where
  statement : Statement → Evidence
  private : PrivateEvidence → Evidence

pub record QueueItem : Type 0 where
  pub sub : String
  pub payload : Evidence
  pub enqueued_at : ℕ

-- What is recorded of a dropped item: its content type when it is a statement.
pub record Dropped : Type 0 where
  pub sub : String
  pub content_type : Option ContentType
  pub enqueued_at : ℕ

-- An entry of `held`.
pub record HeldReceipt : Type 0 where
  pub receipt : RegistrationReceipt
  pub statement_hash : String
  pub sub : String
  pub content_type : ContentType
  pub holder : String

pub record EvidenceQueue : Type 0 where
  pub owner : String
  pub capacity : ℕ
  pub items : List QueueItem
  pub dropped : List Dropped
  pub receipts : Dict RegistrationReceipt
  pub held : List HeldReceipt

abbrev type_of : Evidence → Option ContentType
type_of (statement s) = some (content_type s)
type_of (private p) = none

abbrev pub dropped_info : QueueItem → Dropped
dropped_info x = record {
  sub = x.sub;
  content_type = type_of x.payload;
  enqueued_at = x.enqueued_at;
}

-- The loop that drops the oldest items: what is dropped, and what is left.
unfoldable pub saturate : ℕ → List QueueItem → List Dropped × List QueueItem
saturate capacity [] = ([], [])
saturate capacity (x ∷ xs) =
    let (lost, rest) = saturate capacity xs in
    if ltb capacity (suc (length xs)) then (dropped_info x ∷ lost, rest) else ([], x ∷ xs)

unfoldable pub enqueue : EvidenceQueue → String → Evidence → ℕ → EvidenceQueue
enqueue q sub payload now =
    let item : QueueItem = record { sub = sub; payload = payload; enqueued_at = now } in
    let (lost, rest) = saturate q.capacity (q.items ++ item ∷ []) in
    record q { items = rest; dropped = q.dropped ++ lost }

-- What `flush` comes to: the number sent, or the RegistrationRefused that it lets pass.
pub data Flushed : Type 0 where
  sent : ℕ → Flushed
  refusal : List Refusal → Flushed

-- One more was sent.
abbrev pub one_more : Flushed → Flushed
one_more (sent n) = sent (suc n)
one_more (refusal rs) = refusal rs

-- How the head of the queue fared.
pub data Delivered : Type 0 where
  stopped : Delivered
  raised : List Refusal → Delivered
  delivered : EvidenceQueue → Delivered

module _ (prim : Primitives) (codec : LogCodec) where
  -- The receipt is kept under the hash of the statement, and among the held ones.
  unfoldable pub keep_receipt :
      EvidenceQueue → QueueItem → Statement → RegistrationReceipt → EvidenceQueue
  keep_receipt q x s rc =
      let hash = statement_hash prim codec.statements s in
      let item : HeldReceipt = record {
        receipt = rc;
        statement_hash = hash;
        sub = x.sub;
        content_type = content_type s;
        holder = q.owner;
      } in
      record q { receipts = insert hash rc q.receipts; held = q.held ++ item ∷ [] }

  abbrev pub after_submit : EvidenceQueue → QueueItem → Statement → Submitted → Delivered
  after_submit q x s unavailable = stopped
  after_submit q x s (answered (refused rs)) = raised rs
  after_submit q x s (answered (accepted rc)) = delivered (keep_receipt q x s rc)

  abbrev pub deliver_private :
      EvidenceQueue → ThirdParty → Option ThirdParty → ThirdParty × Delivered
  deliver_private q t none = (t, stopped)
  deliver_private q t (some t') = (t', delivered q)

  -- The body of the `try`.
  unfoldable pub deliver :
      EvidenceQueue → ThirdParty → QueueItem → Evidence → ℕ → ThirdParty × Delivered
  deliver q t x (statement s) now =
      let (t', result) = submit prim codec t s now in (t', after_submit q x s result)
  deliver q t x (private p) now = deliver_private q t (receive_private t x.sub p)

  -- What follows the delivery of the first item; `next` is the rest of the loop.
  abbrev pub after_delivery :
      EvidenceQueue
      → List QueueItem
      → (EvidenceQueue → ThirdParty → EvidenceQueue × ThirdParty × Flushed)
      → ThirdParty × Delivered
      → EvidenceQueue × ThirdParty × Flushed
  after_delivery q xs next (t', stopped) = (record q { items = xs }, t', sent 0)
  after_delivery q xs next (t', raised rs) = (record q { items = xs }, t', refusal rs)
  after_delivery q xs next (t', delivered q') =
      let (q'', t'', result) = next q' t' in (q'', t'', one_more result)

  -- The loop over the items of a queue whose own items are set at the end.
  unfoldable pub flush_items :
      EvidenceQueue → ThirdParty → List QueueItem → ℕ → EvidenceQueue × ThirdParty × Flushed
  flush_items q t [] now = (record q { items = [] }, t, sent 0)
  flush_items q t (x ∷ xs) now =
      after_delivery q (x ∷ xs) (λ q' t'. flush_items q' t' xs now) (deliver q t x x.payload now)

  unfoldable pub flush : EvidenceQueue → ThirdParty → ℕ → EvidenceQueue × ThirdParty × Flushed
  flush q t now = flush_items q t q.items now
