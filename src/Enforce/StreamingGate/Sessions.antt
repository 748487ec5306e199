-- ===== src/Enforce/StreamingGate/Sessions.antt =====
-- Sequences of calls of one stream: what ends a stream, and what a finished stream received.
use custody.Base.{
  ℕ, ◌≡◌, ◌⊎◌, inl, inr, refl, Bool, true, List, [], ◌∷◌, Option, none, some, arith, Bool-cases,
  All, leb, ◌==◌, ◌&&◌,
}
use custody.Crypto.{Bytes, Primitives}
use custody.Ts.Merkle.{bytes_eq}
use custody.Enforce.StreamingGate.{
  StreamingGate, Reply, done, tampered, Fault, Call, feed, finish, step, replies, feed_chunk,
  finalize, ensure_open, advance, close, check_chunk, link, digest_from_hex,
}

abbrev pub IsTampered : Reply → Type 0
IsTampered done = ⊥
IsTampered (tampered f) = Unit

-- The gate takes no further call.
abbrev IsSpent : StreamingGate → Type 0
IsSpent gate = (gate.failed ≡ true) ⊎ (gate.finalized ≡ true)

ensure_open-IsTampered :
    (gate : StreamingGate) (rest : StreamingGate × Reply)
    → IsSpent gate
    → (f : Fault) × (ensure_open gate rest ≡ (gate, tampered f))
ensure_open-IsTampered gate rest h = elim (Bool-cases gate.failed) [
  | inl failed ↦ (Fault.aborted, rw failed refl)
  | inr usable ↦ elim h [
    | inl failed ↦ absurd (ground arith)
    | inr finalized ↦ (Fault.already_finalized, rw (usable, finalized) refl)
  ]
]

module _ (prim : Primitives) where
  step-IsTampered :
      (gate : StreamingGate) (c : Call)
      → IsSpent gate
      → (f : Fault) × (step prim gate c ≡ (gate, tampered f))
  unfolding step feed_chunk finalize
  step-IsTampered gate (feed i b e) h = ensure_open-IsTampered gate _ h
  step-IsTampered gate (finish x) h = ensure_open-IsTampered gate _ h

  replies-IsTampered :
      (gate : StreamingGate) (cs : List Call) → IsSpent gate → All IsTampered (replies prim gate cs)
  unfolding replies
  replies-IsTampered gate [] h = tt
  replies-IsTampered gate (c ∷ cs) h =
      let (f, e) = step-IsTampered gate c h in rw e (tt, replies-IsTampered gate cs h)

-- A call that is refused leaves a gate that is spent.
ensure_open-IsSpent :
    (gate : StreamingGate) (rest : StreamingGate × Reply)
    → (IsTampered rest.1 → IsSpent rest.0)
    → IsTampered (ensure_open gate rest).1
    → IsSpent (ensure_open gate rest).0
ensure_open-IsSpent gate rest f h = elim (Bool-cases gate.failed) [
  | inl failed ↦ rw failed (inl refl)
  | inr usable ↦ elim (Bool-cases gate.finalized) [
    | inl finalized ↦ rw (usable, finalized) (inr refl)
    | inr unfinished ↦ rw (usable, unfinished) (f (rw (usable, unfinished) at h))
  ]
]

advance-IsSpent :
    (gate : StreamingGate) (b : Bytes) (x : Option Fault)
    → IsTampered (advance gate b x).1
    → IsSpent (advance gate b x).0
advance-IsSpent gate b none h = absurd h
advance-IsSpent gate b (some f) h = inl refl

close-IsSpent : (gate : StreamingGate) (x : Option Bytes) → IsSpent (close gate x).0
close-IsSpent gate none = inl refl
close-IsSpent gate (some final) = elim (Bool-cases (bytes_eq final gate.expected_root)) [
  | inr other ↦ rw other (inl refl)
  | inl same ↦ elim (Bool-cases (bytes_eq gate.chain_hash final)) [
    | inr other ↦ rw (same, other) (inl refl)
    | inl equal ↦ rw (same, equal) (inr refl)
  ]
]

index_ok : ℕ → Bool
index_ok index = leb 1 index && leb index 4294967295

module _ (prim : Primitives) where
  step-IsSpent :
      (gate : StreamingGate) (c : Call)
      → IsTampered (step prim gate c).1
      → IsSpent (step prim gate c).0
  unfolding step feed_chunk finalize
  step-IsSpent gate (feed i b e) h =
      ensure_open-IsSpent gate _
        (λ t. elim (Bool-cases (leb 1 i && leb i 4294967295)) [
          | inr bad ↦ rw bad (inl refl)
          | inl good ↦ elim (Bool-cases (i == gate.next_index)) [
            | inr other ↦ rw (good, other) (inl refl)
            | inl next ↦
                rw (good, next)
                  (advance-IsSpent gate _ (check_chunk (link prim gate.chain_hash i b) e)
                    (rw (good, next) at t))
          ]
        ])
        h
  step-IsSpent gate (finish x) h =
      ensure_open-IsSpent gate _ (λ t. close-IsSpent gate (digest_from_hex x)) h

  -- After a call that is refused, whatever calls follow, each of them is refused.
  pub tampered-replies :
      (gate : StreamingGate) (c : Call) (cs : List Call)
      → IsTampered (step prim gate c).1
      → All IsTampered (replies prim (step prim gate c).0 cs)
  tampered-replies gate c cs h =
      replies-IsTampered prim (step prim gate c).0 cs (step-IsSpent gate c h)
