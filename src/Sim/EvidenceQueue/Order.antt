-- ===== src/Sim/EvidenceQueue/Order.antt =====
-- What the queue keeps and what it loses.
use custody.Base.{
  ℕ, Option, none, some, suc, ◌-◌, ◌≤◌, drop, sym, ◌∙◌, ◌≡◌, refl, ap, String, List, [], ◌∷◌, ◌++◌,
  length, length-append, map, ltb, Bool-cases, inl, inr, arith, true,
}
use custody.Crypto.{Primitives}
use custody.Statements.{Statement}
use custody.Ts.Log.{LogCodec, refused, accepted}
use custody.Ts.Service.{Submitted, unavailable, answered}
use custody.Sim.ThirdParty.{ThirdParty, submit, receive_private}
use custody.Sim.EvidenceQueue.{
  Evidence, QueueItem, Dropped, EvidenceQueue, Flushed, dropped_info, saturate, enqueue, flush,
  flush_items, Delivered, stopped, raised, delivered, deliver, deliver_private, after_submit,
  after_delivery, keep_receipt, statement, private,
}

-- The items are cut in two, those that are lost and those that are left.
record IsCut (capacity : ℕ) (items : List QueueItem) (lost : List Dropped) (left : List QueueItem)
    : Type 0 where
  old : List QueueItem
  split : items ≡ old ++ left
  recorded : lost ≡ map dropped_info old
  fits : length left ≤ capacity
  no_more : (1 ≤ length old) → length left ≡ capacity

-- The room left when nothing older is lost.
full-length :
    {capacity : ℕ} {xs left : List QueueItem} {lost : List Dropped}
    (c : IsCut capacity xs lost left)
    → ltb capacity (suc (length xs)) ≡ true
    → length left ≡ capacity
full-length {capacity} {xs} {left} c full =
    ground (arith, c.fits, c.no_more, ap (length {A = QueueItem}) c.split, length-append c.old left)

drop_one :
    (capacity : ℕ) (x : QueueItem) (xs : List QueueItem) {lost : List Dropped}
    {left : List QueueItem}
    → ltb capacity (suc (length xs)) ≡ true
    → IsCut capacity xs lost left
    → IsCut capacity (x ∷ xs) (dropped_info x ∷ lost) left
drop_one capacity x xs full c = record {
  old = x ∷ c.old;
  split = ap (λ l. x ∷ l) c.split;
  recorded = ap (λ l. dropped_info x ∷ l) c.recorded;
  fits = c.fits;
  no_more = λ h. full-length c full;
}

saturate-IsCut :
    (capacity : ℕ) (items : List QueueItem)
    → IsCut capacity items (saturate capacity items).0 (saturate capacity items).1
unfolding saturate
saturate-IsCut capacity [] = record {
  old = [];
  split = refl;
  recorded = refl;
  fits = omega arith;
  no_more = λ h. absurd (omega arith);
}
saturate-IsCut capacity (x ∷ xs) = elim (Bool-cases (ltb capacity (suc (length xs)))) [
  | inl full ↦ rw full (drop_one capacity x xs full (saturate-IsCut capacity xs))
  | inr room ↦ rw room (record {
    old = [];
    split = refl;
    recorded = refl;
    fits = ground arith;
    no_more = λ h. absurd (omega arith);
  })
]

drop-append : (old left : List QueueItem) → drop (length old) (old ++ left) ≡ left
drop-append [] left = refl
drop-append (x ∷ old) left = drop-append old left

-- What is left are the most recent items.
left-drop :
    {capacity n : ℕ} {items left : List QueueItem} {lost : List Dropped}
    (c : IsCut capacity items lost left)
    → length items ≡ n
    → left ≡ drop (n - capacity) items
left-drop {capacity} {n} {items} {left} c e =
    let count : length c.old ≡ n - capacity =
      ground
        (arith, c.fits, c.no_more, ap (length {A = QueueItem}) c.split, length-append c.old left) in
    sym (drop-append c.old left)
    ∙ ap (λ l. drop (length c.old) l) (sym c.split)
    ∙ ap (λ k. drop k items) count

-- What `enqueue` does: the item comes last, and the items that do not fit are lost and recorded, the
-- oldest first.
pub record Enqueued (q : EvidenceQueue) (item : QueueItem) (q' : EvidenceQueue) : Type 0 where
  pub lost : List QueueItem
  pub order : q.items ++ item ∷ [] ≡ lost ++ q'.items
  pub recorded : q'.dropped ≡ q.dropped ++ map dropped_info lost
  pub recent : q'.items ≡ drop (suc (length q.items) - q.capacity) (q.items ++ item ∷ [])
  pub bounded : length q'.items ≤ q.capacity
  pub capacity : q'.capacity ≡ q.capacity
  pub delivered_kept : q'.held ≡ q.held

-- `enqueue` leaves the last items of the queue with the new one at the end, as many as the capacity
-- allows; the items lost are the oldest, each is recorded as dropped in order, and nothing else
-- changes in the capacity and the held receipts.
pub enqueue-Enqueued :
    (q : EvidenceQueue) (sub : String) (payload : Evidence) (now : ℕ)
    → Enqueued q
        (record { sub = sub; payload = payload; enqueued_at = now })
        (enqueue q sub payload now)
unfolding enqueue
enqueue-Enqueued q sub payload now =
    let item : QueueItem = record { sub = sub; payload = payload; enqueued_at = now } in
    let cut = saturate-IsCut q.capacity (q.items ++ item ∷ []) in
    record {
      lost = cut.old;
      order = cut.split;
      recorded = ap (λ l. q.dropped ++ l) cut.recorded;
      recent = left-drop cut (omega (arith, length-append q.items (item ∷ [])));
      bounded = cut.fits;
      capacity = refl;
      delivered_kept = refl;
    }

-- What one call of the queue does; T is whatever it is then.
pub data Call : Type 0 where
  put : String → Evidence → ℕ → Call
  flush_at : ThirdParty → ℕ → Call

module _ (prim : Primitives) (codec : LogCodec) where
  abbrev pub run_calls : EvidenceQueue → List Call → EvidenceQueue
  run_calls q [] = q
  run_calls q (put sub payload now ∷ calls) = run_calls (enqueue q sub payload now) calls
  run_calls q (flush_at t now ∷ calls) = run_calls (flush prim codec q t now).0 calls

  abbrev Shrinks : ℕ → ℕ → EvidenceQueue → Type 0
  Shrinks capacity n q = (q.capacity ≡ capacity) × (length q.items ≤ n)

  abbrev Keeps : EvidenceQueue → ThirdParty × Delivered → Type 0
  Keeps q (t, delivered q') = q'.capacity ≡ q.capacity
  Keeps q (t, _) = Unit

  after_submit-Keeps :
      (q : EvidenceQueue) (t : ThirdParty) (x : QueueItem) (s : Statement) (r : Submitted)
      → Keeps q (t, after_submit prim codec q x s r)
  unfolding keep_receipt
  after_submit-Keeps q t x s unavailable = tt
  after_submit-Keeps q t x s (answered (refused rs)) = tt
  after_submit-Keeps q t x s (answered (accepted rc)) = refl

  deliver_private-Keeps :
      (q : EvidenceQueue) (t : ThirdParty) (o : Option ThirdParty)
      → Keeps q (deliver_private prim codec q t o)
  deliver_private-Keeps q t none = tt
  deliver_private-Keeps q t (some t') = refl

  deliver-Keeps :
      (q : EvidenceQueue) (t : ThirdParty) (x : QueueItem) (e : Evidence) (now : ℕ)
      → Keeps q (deliver prim codec q t x e now)
  unfolding deliver
  deliver-Keeps q t x (statement s) now =
      let out = submit prim codec t s now in after_submit-Keeps q out.0 x s out.1
  deliver-Keeps q t x (private p) now = deliver_private-Keeps q t (receive_private t x.sub p)

  after_delivery-Shrinks :
      (q : EvidenceQueue) (x : QueueItem) (xs : List QueueItem)
      (next : EvidenceQueue → ThirdParty → EvidenceQueue × ThirdParty × Flushed)
      (out : ThirdParty × Delivered)
      → ((q' : EvidenceQueue) (t' : ThirdParty) → Shrinks q'.capacity (length xs) (next q' t').0)
      → Keeps q out
      → Shrinks q.capacity (length (x ∷ xs)) (after_delivery prim codec q (x ∷ xs) next out).0
  after_delivery-Shrinks q x xs next (t', stopped) ih k = (refl, omega arith)
  after_delivery-Shrinks q x xs next (t', raised rs) ih k = (refl, omega arith)
  after_delivery-Shrinks q x xs next (t', delivered q') ih k =
      let i = ih q' t' in (i.0 ∙ k, omega (arith, i.1))

  flush_items-Shrinks :
      (q : EvidenceQueue) (t : ThirdParty) (xs : List QueueItem) (now : ℕ)
      → Shrinks q.capacity (length xs) (flush_items prim codec q t xs now).0
  unfolding flush_items
  flush_items-Shrinks q t [] now = (refl, omega arith)
  flush_items-Shrinks q t (x ∷ xs) now =
      after_delivery-Shrinks q x xs (λ q' t'. flush_items prim codec q' t' xs now)
        (deliver prim codec q t x x.payload now) (λ q' t'. flush_items-Shrinks q' t' xs now)
        (deliver-Keeps q t x x.payload now)

  flush-Shrinks :
      (q : EvidenceQueue) (t : ThirdParty) (now : ℕ)
      → Shrinks q.capacity (length q.items) (flush prim codec q t now).0
  unfolding flush
  flush-Shrinks q t now = flush_items-Shrinks q t q.items now

  -- A queue that holds no more items than its capacity holds no more after any sequence of enqueued
  -- items and flushes, whatever the state of T at each flush.
  pub run_calls-bounded :
      (q : EvidenceQueue) (calls : List Call)
      → length q.items ≤ q.capacity
      → length (run_calls q calls).items ≤ q.capacity
  run_calls-bounded q [] h = h
  run_calls-bounded q (put sub payload now ∷ calls) h =
      let e = enqueue-Enqueued q sub payload now in
      let h' : length (enqueue q sub payload now).items ≤ (enqueue q sub payload now).capacity =
        omega (arith, e.bounded, e.capacity) in
      omega (arith, e.capacity, run_calls-bounded (enqueue q sub payload now) calls h')
  run_calls-bounded q (flush_at t now ∷ calls) h =
      let q' = (flush prim codec q t now).0 in
      let e = flush-Shrinks q t now in
      let h' : length q'.items ≤ q'.capacity = omega (arith, e.0, e.1) in
      omega (arith, e.0, run_calls-bounded q' calls h')
