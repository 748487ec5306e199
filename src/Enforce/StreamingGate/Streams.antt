-- ===== src/Enforce/StreamingGate/Streams.antt =====
-- Whole streams: chunks fed one after the other, and a `finalize` that succeeds.
use custody.Base.{
  ℕ, ◌+◌, ◌≤◌, ◌<◌, ◌≡◌, ◌⊎◌, inl, inr, refl, ap, ◌∙◌, String, List, [], ◌∷◌, ◌++◌, Option, none,
  some, arith, Bool-cases, Option-cases, All, length, leb, ◌==◌, ◌&&◌,
}
use custody.Crypto.{Bytes, Primitives}
use custody.Ts.Merkle.{bytes_eq}
use custody.Ts.Merkle.Soundness.{bytes_eq→eq, IsDigest, Collision}
use custody.Enforce.StreamingGate.{
  StreamingGate, Reply, done, tampered, Fault, Call, feed, finish, step, replies, feed_chunk,
  finalize, ensure_open, advance, close, check_chunk, link, digest_from_hex, open_stream,
}
use custody.Enforce.StreamingGate.Chains.{chain, chain_unique, same_input}

-- A chunk as it is fed: its index, its bytes, and the hash that is expected after it.
abbrev pub Chunk : Type 0
Chunk = ℕ × Bytes × Option String

abbrev pub calls : List Chunk → String → List Call
calls [] h = finish h ∷ []
calls ((i, b, e) ∷ cs) h = feed i b e ∷ calls cs h

abbrev pub bodies : List Chunk → List Bytes
bodies [] = []
bodies ((i, b, e) ∷ cs) = b ∷ bodies cs

-- The indices count up from `i`.
abbrev pub IsCounted : ℕ → List Chunk → Type 0
IsCounted i [] = Unit
IsCounted i ((j, b, e) ∷ cs) = (j ≡ i) × IsCounted (i + 1) cs

abbrev pub IsDone : Reply → Type 0
IsDone done = Unit
IsDone (tampered f) = ⊥

ensure_open-IsDone :
    (gate : StreamingGate) (rest : StreamingGate × Reply)
    → IsDone (ensure_open gate rest).1
    → (ensure_open gate rest ≡ rest) × IsDone rest.1
ensure_open-IsDone gate rest h = elim (Bool-cases gate.failed) [
  | inl failed ↦ absurd (rw failed at h)
  | inr usable ↦ elim (Bool-cases gate.finalized) [
    | inl finalized ↦ absurd (rw (usable, finalized) at h)
    | inr unfinished ↦ (rw (usable, unfinished) refl, rw (usable, unfinished) at h)
  ]
]

advance-IsDone :
    (gate : StreamingGate) (b : Bytes) (x : Option Fault)
    → IsDone (advance gate b x).1
    → (advance gate b x).0 ≡ (record gate { chain_hash = b; next_index = gate.next_index + 1 })
advance-IsDone gate b none h = refl
advance-IsDone gate b (some f) h = absurd h

close-IsDone :
    (gate : StreamingGate) (x : Option Bytes)
    → IsDone (close gate x).1
    → gate.chain_hash ≡ gate.expected_root
close-IsDone gate none h = absurd h
close-IsDone gate (some final) h = elim (Bool-cases (bytes_eq final gate.expected_root)) [
  | inr other ↦ absurd (rw other at h)
  | inl same ↦ elim (Bool-cases (bytes_eq gate.chain_hash final)) [
    | inr other ↦ absurd (rw (same, other) at h)
    | inl equal ↦ bytes_eq→eq _ _ equal ∙ bytes_eq→eq _ _ same
  ]
]

finalize-IsDone :
    (gate : StreamingGate) (h : String)
    → IsDone (finalize gate h).1
    → gate.chain_hash ≡ gate.expected_root
unfolding finalize
finalize-IsDone gate h d = close-IsDone gate (digest_from_hex h) (ensure_open-IsDone gate _ d).1

at_root : Option StreamingGate → Option Bytes
at_root none = none
at_root (some gate) = some gate.expected_root

at_chain : Option StreamingGate → Option Bytes
at_chain none = none
at_chain (some gate) = some gate.chain_hash

at_index : Option StreamingGate → Option ℕ
at_index none = none
at_index (some gate) = some gate.next_index

same_end : (x : Option Bytes) (a b : Bytes) → x ≡ some a → x ≡ some b → a ≡ b
same_end x a b p q = ground (arith, p, q)

module _ (prim : Primitives) where
  fed : StreamingGate → ℕ → Bytes → StreamingGate
  fed gate i b = record gate {
    chain_hash = link prim gate.chain_hash i b;
    next_index = gate.next_index + 1;
  }

  feed_chunk-IsDone :
      (gate : StreamingGate) (i : ℕ) (b : Bytes) (e : Option String)
      → IsDone (feed_chunk prim gate i b e).1
      → ((feed_chunk prim gate i b e).0 ≡ fed gate i b) × (i ≡ gate.next_index) × (i ≤ 4294967295)
  unfolding feed_chunk fed
  feed_chunk-IsDone gate i b e h =
      let (q, r) = ensure_open-IsDone gate _ h in
      elim (Bool-cases (leb 1 i && leb i 4294967295)) [
        | inr bad ↦ absurd (rw bad at r)
        | inl good ↦ elim (Bool-cases (i == gate.next_index)) [
          | inr other ↦ absurd (rw (good, other) at r)
          | inl next ↦ (
            rw (q, good, next)
                (advance-IsDone gate _ (check_chunk (link prim gate.chain_hash i b) e)
                  (rw (good, next) at r)),
            ground arith,
            ground arith,
          )
        ]
      ]

  -- What the replies to a stream say of its chunks.
  calls-IsDone :
      (gate : StreamingGate) (cs : List Chunk) (h : String)
      → All IsDone (replies prim gate (calls cs h))
      → (chain prim gate.chain_hash gate.next_index (bodies cs) ≡ gate.expected_root)
        × IsCounted gate.next_index cs
        × ((cs ≡ []) ⊎ (gate.next_index + length (bodies cs) ≤ 4294967296))
  unfolding chain replies step fed
  calls-IsDone gate [] h d = (finalize-IsDone gate h d.0, tt, inl refl)
  calls-IsDone gate ((i, b, e) ∷ cs) h d =
      let (p, q, r) = feed_chunk-IsDone gate i b e d.0 in
      let (s, t, u) = calls-IsDone (fed gate i b) cs h (rw p at d.1) in
      (
        rw q at s,
        (q, t),
        inr (elim u [ inl empty ↦ rw empty (ground arith) | inr bound ↦ ground arith ]),
      )

  -- The state that `open_stream` gives.
  opened :
      (root : String) (req nonce : Bytes) (gate : StreamingGate)
      → open_stream prim root req nonce ≡ some gate
      → (digest_from_hex root ≡ some gate.expected_root)
        × (gate.chain_hash ≡ prim.sha256 (req ++ nonce))
        × (gate.next_index ≡ 1)
  unfolding open_stream at_root at_chain at_index
  opened root req nonce gate h = elim (Option-cases (digest_from_hex root)) [
    | inl bad ↦ absurd (ground arith)
    | inr (r, e) ↦
        (ground (arith, ap at_root h), ground (arith, ap at_chain h), ground (arith, ap at_index h))
  ]

  -- When every chunk of a stream and its `finalize` are accepted, the chunks were numbered 1, 2,
  -- and so on, and the signed root is the chain hash over the request hash, the nonce and the
  -- chunks.
  pub accepted_chain :
      (root : String) (req nonce : Bytes) (gate : StreamingGate) (cs : List Chunk) (h : String)
      → open_stream prim root req nonce ≡ some gate
      → All IsDone (replies prim gate (calls cs h))
      → (digest_from_hex root ≡ some (chain prim (prim.sha256 (req ++ nonce)) 1 (bodies cs)))
        × IsCounted 1 cs
  accepted_chain root req nonce gate cs h o d =
      let (a, b, c) = opened root req nonce gate o in
      let (p, q, r) = calls-IsDone gate cs h d in (rw (← b, ← c, p) a, rw c at q)

  few :
      (root : String) (req nonce : Bytes) (gate : StreamingGate) (c : Chunk) (cs : List Chunk)
      (h : String)
      → open_stream prim root req nonce ≡ some gate
      → All IsDone (replies prim gate (calls (c ∷ cs) h))
      → length (bodies cs) < 4294967295
  few root req nonce gate c cs h o d =
      let (a, b, i) = opened root req nonce gate o in
      elim (calls-IsDone gate (c ∷ cs) h d).2 [
        | inl empty ↦ absurd (cc empty)
        | inr bound ↦ omega (arith, i, bound)
      ]

  -- Two streams that were accepted in full against one root, neither of them empty, had the same
  -- chunks and the same request hash and nonce one after the other, or the hash has a collision.
  -- All hashes are 32 bytes.
  pub accepted_unique :
      (digests : (b : Bytes) → IsDigest (prim.sha256 b)) (root : String)
      (req req' nonce nonce' : Bytes) (gate gate' : StreamingGate) (c c' : Chunk)
      (cs cs' : List Chunk) (h h' : String)
      → open_stream prim root req nonce ≡ some gate
      → open_stream prim root req' nonce' ≡ some gate'
      → All IsDone (replies prim gate (calls (c ∷ cs) h))
      → All IsDone (replies prim gate' (calls (c' ∷ cs') h'))
      → ((req ++ nonce ≡ req' ++ nonce') × (bodies (c ∷ cs) ≡ bodies (c' ∷ cs')))
        ⊎ Collision prim.sha256
  accepted_unique digests root req req' nonce nonce' gate gate' c c' cs cs' h h' o o' d d' =
      let (p, q) = accepted_chain root req nonce gate (c ∷ cs) h o d in
      let (p', q') = accepted_chain root req' nonce' gate' (c' ∷ cs') h' o' d' in
      elim (chain_unique prim digests (prim.sha256 (req ++ nonce)) (prim.sha256 (req' ++ nonce'))
        c.1 c'.1 (bodies cs) (bodies cs') (digests _) (digests _)
        (few root req nonce gate c cs h o d) (few root req' nonce' gate' c' cs' h' o' d')
        (same_end _ _ _ p p')) [
          | inr collision ↦ inr collision
          | inl (s, t) ↦ elim (same_input prim (req ++ nonce) (req' ++ nonce') s) [
            | inr collision ↦ inr collision
            | inl same ↦ inl (same, t)
          ]
        ]
