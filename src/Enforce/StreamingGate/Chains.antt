-- ===== src/Enforce/StreamingGate/Chains.antt =====
-- The chain hash of a list of chunks, and what two streams with one root have in common.
use custody.Base.{
  ℕ, ◌+◌, ◌≤◌, ◌<◌, ◌≡◌, ◌⊎◌, inl, inr, refl, ap, sym, ◌∙◌, List, [], ◌∷◌, ◌++◌, arith,
  Bytes-discrete, append-injective, length,
}
use custody.Crypto.{Bytes, Primitives}
use custody.Ts.Merkle.Soundness.{IsDigest, Collision}
use custody.Enforce.StreamingGate.{to_bytes, link}

-- The chain over the chunks, from a hash and the index of the first chunk.
unfoldable pub chain : Primitives → Bytes → ℕ → List Bytes → Bytes
chain prim h i [] = h
chain prim h i (c ∷ cs) = chain prim (link prim h i c) (i + 1) cs

to_bytes-injective : (m n : ℕ) → m < 4294967296 → n < 4294967296 → to_bytes m ≡ to_bytes n → m ≡ n
to_bytes-injective m n h k e = ground arith

module _ (prim : Primitives) where
  pub same_input : (a b : Bytes) → prim.sha256 a ≡ prim.sha256 b → (a ≡ b) ⊎ Collision prim.sha256
  same_input a b h = elim (Bytes-discrete a b) [ yes e ↦ inl e | no n ↦ inr (a, b, n, h) ]

module _ (prim : Primitives) (digests : (b : Bytes) → IsDigest (prim.sha256 b)) where
  link-injective :
      (h h' : Bytes) (i j : ℕ) (c c' : Bytes)
      → IsDigest h
      → IsDigest h'
      → i < 4294967296
      → j < 4294967296
      → link prim h i c ≡ link prim h' j c'
      → ((h ≡ h') × (i ≡ j) × (c ≡ c')) ⊎ Collision prim.sha256
  link-injective h h' i j c c' d d' b b' e =
      elim (same_input prim (h ++ (to_bytes i ++ c)) (h' ++ (to_bytes j ++ c')) e) [
        | inr collision ↦ inr collision
        | inl same ↦
            let (p, q) = append-injective h _ h' _ (omega arith) same in
            let (r, s) = append-injective (to_bytes i) c (to_bytes j) c' refl q in
            inl (p, to_bytes-injective i j b b' r, s)
      ]

  -- Two chains of equal length with one end have one start and the same chunks.
  chain-injective :
      (h h' : Bytes) (i : ℕ) (cs cs' : List Bytes)
      → IsDigest h
      → IsDigest h'
      → i + length cs ≤ 4294967296
      → length cs ≡ length cs'
      → chain prim h i cs ≡ chain prim h' i cs'
      → ((h ≡ h') × (cs ≡ cs')) ⊎ Collision prim.sha256
  unfolding chain
  chain-injective h h' i [] [] d d' b n e = inl (e, refl)
  chain-injective h h' i [] (c' ∷ cs') d d' b n e = absurd (omega arith)
  chain-injective h h' i (c ∷ cs) [] d d' b n e = absurd (omega arith)
  chain-injective h h' i (c ∷ cs) (c' ∷ cs') d d' b n e =
      elim (chain-injective (link prim h i c) (link prim h' i c') (i + 1) cs cs' (digests _)
        (digests _) (omega arith) (omega arith) e) [
          | inr collision ↦ inr collision
          | inl (p, q) ↦ elim (link-injective h h' i i c c' d d' (omega arith) (omega arith) p) [
            | inr collision ↦ inr collision
            | inl (r, s, t) ↦ inl (r, ground (arith, t, q))
          ]
        ]

  -- The last link of a chain of one or more chunks.
  chain-last :
      (h : Bytes) (i : ℕ) (c : Bytes) (cs : List Bytes)
      → IsDigest h
      → (g : Bytes) × (x : Bytes) × IsDigest g
        × (chain prim h i (c ∷ cs) ≡ link prim g (i + length cs) x)
  unfolding chain
  chain-last h i c [] d = (h, c, d, ap (λ k. link prim h k c) (omega arith))
  chain-last h i c (c' ∷ cs) d =
      let (g, x, dg, e) = chain-last (link prim h i c) (i + 1) c' cs (digests _) in
      (g, x, dg, e ∙ ap (λ k. link prim g k x) (omega arith))

  -- Two chains that are not empty and have one end are equally long.
  chain-length :
      (h h' : Bytes) (i : ℕ) (c c' : Bytes) (cs cs' : List Bytes)
      → IsDigest h
      → IsDigest h'
      → i + length cs < 4294967296
      → i + length cs' < 4294967296
      → chain prim h i (c ∷ cs) ≡ chain prim h' i (c' ∷ cs')
      → (length cs ≡ length cs') ⊎ Collision prim.sha256
  chain-length h h' i c c' cs cs' d d' b b' e =
      let (g, x, dg, p) = chain-last h i c cs d in
      let (g', x', dg', p') = chain-last h' i c' cs' d' in
      elim (link-injective g g' (i + length cs) (i + length cs') x x' dg dg' b b'
        (sym p ∙ e ∙ p')) [ inr collision ↦ inr collision | inl (q, r, s) ↦ inl (omega arith) ]

  -- Two streams from the first chunk on whose chains end in one hash start from one hash and have
  -- the same chunks.
  pub chain_unique :
      (h h' : Bytes) (c c' : Bytes) (cs cs' : List Bytes)
      → IsDigest h
      → IsDigest h'
      → length cs < 4294967295
      → length cs' < 4294967295
      → chain prim h 1 (c ∷ cs) ≡ chain prim h' 1 (c' ∷ cs')
      → ((h ≡ h') × (c ∷ cs ≡ c' ∷ cs')) ⊎ Collision prim.sha256
  chain_unique h h' c c' cs cs' d d' b b' e =
      elim (chain-length h h' 1 c c' cs cs' d d' (omega arith) (omega arith) e) [
        | inr collision ↦ inr collision
        | inl n ↦ chain-injective h h' 1 (c ∷ cs) (c' ∷ cs') d d' (omega arith) (omega arith) e
      ]
