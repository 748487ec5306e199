-- ===== src/Ts/Merkle/Injective.antt =====
-- The root determines the leaves, up to collisions of the hash.
use custody.Base.{
  ℕ, zero, suc, ◌≤◌, ◌<◌, ◌≡◌, ◌⊎◌, ◌≢◌, Bytes-discrete, append-injective, inl, inr, refl, sym, ap,
  ◌∙◌, List, [], ◌∷◌, ◌++◌, arith, length, take, drop, All, All-take, All-drop, take-append-drop,
}
use mathlib.Core.Path.{ap₂}
use custody.Crypto.{Bytes}
use custody.Ts.Merkle.{mth, node_hash, largest_pow2_lt}
use custody.Ts.Merkle.Root.{
  split, split-pos, split-lt, length-left, length-right, mth-split, mth-single,
}
use custody.Ts.Merkle.Soundness.{IsDigest, Collision, mth-IsDigest}

module _ (sha256 : Bytes → Bytes) where
  abbrev pub left_of : List Bytes → List Bytes
  left_of hs = take (split hs) hs

  abbrev pub right_of : List Bytes → List Bytes
  right_of hs = drop (split hs) hs

  -- The messages that are hashed at the inner nodes of a tree.
  pub data NodeOf : List Bytes → Bytes → Type 0 where
    top :
        (hs : List Bytes)
        → 1 < length hs
        → NodeOf hs (1 ∷ (mth sha256 (left_of hs) ++ mth sha256 (right_of hs)))
    in_left : (hs : List Bytes) (m : Bytes) → 1 < length hs → NodeOf (left_of hs) m → NodeOf hs m
    in_right : (hs : List Bytes) (m : Bytes) → 1 < length hs → NodeOf (right_of hs) m → NodeOf hs m

  -- A node of one tree and a node of the other are hashed from different messages to one hash.
  pub record Clash (hs gs : List Bytes) : Type 0 where
    pub one : Bytes
    pub other : Bytes
    pub of_one : NodeOf hs one
    pub of_other : NodeOf gs other
    pub different : one ≢ other
    pub same_hash : sha256 one ≡ sha256 other

  Clash-Collision : (hs gs : List Bytes) → Clash hs gs → Collision sha256
  Clash-Collision hs gs k = (k.one, k.other, k.different, k.same_hash)

  module _ (hs gs : List Bytes) (big : 1 < length hs) (big' : 1 < length gs) where
    Clash-left : Clash (left_of hs) (left_of gs) → Clash hs gs
    Clash-left k = record {
      one = k.one;
      other = k.other;
      of_one = in_left hs k.one big k.of_one;
      of_other = in_left gs k.other big' k.of_other;
      different = k.different;
      same_hash = k.same_hash;
    }

    Clash-right : Clash (right_of hs) (right_of gs) → Clash hs gs
    Clash-right k = record {
      one = k.one;
      other = k.other;
      of_one = in_right hs k.one big k.of_one;
      of_other = in_right gs k.other big' k.of_other;
      different = k.different;
      same_hash = k.same_hash;
    }

    -- Equal roots have equal subtrees, or the two topmost nodes clash.
    top-cases :
        length (mth sha256 (left_of hs)) ≡ length (mth sha256 (left_of gs))
        → mth sha256 hs ≡ mth sha256 gs
        → ((mth sha256 (left_of hs) ≡ mth sha256 (left_of gs))
            × (mth sha256 (right_of hs) ≡ mth sha256 (right_of gs)))
          ⊎ Clash hs gs
    unfolding node_hash
    top-cases n e =
        let h = sym (mth-split sha256 hs big) ∙ e ∙ mth-split sha256 gs big' in
        let a = 1 ∷ (mth sha256 (left_of hs) ++ mth sha256 (right_of hs)) in
        let b = 1 ∷ (mth sha256 (left_of gs) ++ mth sha256 (right_of gs)) in
        elim (Bytes-discrete a b) [
          | yes same ↦ inl (append-injective _ _ _ _ n (ground (arith, same)))
          | no different ↦ inr (record {
            one = a;
            other = b;
            of_one = top hs big;
            of_other = top gs big';
            different = different;
            same_hash = h;
          })
        ]

module _ (sha256 : Bytes → Bytes) (digests : (b : Bytes) → IsDigest (sha256 b)) where
  located_fuel :
      (f : ℕ) (hs gs : List Bytes)
      → length hs ≤ suc f
      → length hs ≡ length gs
      → All IsDigest hs
      → All IsDigest gs
      → mth sha256 hs ≡ mth sha256 gs
      → (hs ≡ gs) ⊎ Clash sha256 hs gs
  located_fuel f [] [] b n d d' e = inl refl
  located_fuel f [] (y ∷ gs) b n d d' e = absurd (omega arith)
  located_fuel f (x ∷ hs) [] b n d d' e = absurd (omega arith)
  located_fuel f (x ∷ []) (y ∷ []) b n d d' e =
      inl (ap (λ h. h ∷ []) (sym (mth-single sha256 x) ∙ e ∙ mth-single sha256 y))
  located_fuel f (x ∷ []) (y ∷ y' ∷ gs) b n d d' e = absurd (omega arith)
  located_fuel f (x ∷ x' ∷ hs) (y ∷ []) b n d d' e = absurd (omega arith)
  located_fuel zero (x ∷ x' ∷ hs) (y ∷ y' ∷ gs) b n d d' e = absurd (omega arith)
  located_fuel (suc f) (x ∷ x' ∷ xs) (y ∷ y' ∷ ys) b n d d' e =
      let hs : List Bytes = x ∷ x' ∷ xs in
      let gs : List Bytes = y ∷ y' ∷ ys in
      let big : 1 < length hs = omega arith in
      let big' : 1 < length gs = omega arith in
      let same : split hs ≡ split gs = ap largest_pow2_lt n in
      let l : length (take (split hs) hs) ≡ length (take (split gs) gs) =
        length-left hs big ∙ same ∙ sym (length-left gs big') in
      let r : length (drop (split hs) hs) ≡ length (drop (split gs) gs) =
        omega (arith, length-right hs big, length-right gs big', same) in
      elim (top-cases sha256 hs gs big big'
        (mth-IsDigest sha256 digests _ (All-take IsDigest (split hs) hs d)
          ∙ sym (mth-IsDigest sha256 digests _ (All-take IsDigest (split gs) gs d')))
        e) [
          | inr clash ↦ inr clash
          | inl (p, q) ↦
              elim (located_fuel f (take (split hs) hs) (take (split gs) gs)
                (omega (arith, length-left hs big, split-lt hs big)) l
                (All-take IsDigest (split hs) hs d) (All-take IsDigest (split gs) gs d') p) [
                  | inr clash ↦ inr (Clash-left sha256 hs gs big big' clash)
                  | inl s ↦
                      elim (located_fuel f (drop (split hs) hs) (drop (split gs) gs)
                        (omega (arith, length-right hs big, split-pos hs big)) r
                        (All-drop IsDigest (split hs) hs d) (All-drop IsDigest (split gs) gs d')
                        q) [
                          | inr clash ↦ inr (Clash-right sha256 hs gs big big' clash)
                          | inl t ↦ inl (
                              sym (take-append-drop (split hs) hs)
                              ∙ ap₂ (λ u v. u ++ v) s t
                              ∙ take-append-drop (split gs) gs)
                        ]
                ]
        ]

  -- The leaves agree, or two nodes of the trees clash.
  pub mth-injective_located :
      (hs gs : List Bytes)
      → length hs ≡ length gs
      → All IsDigest hs
      → All IsDigest gs
      → mth sha256 hs ≡ mth sha256 gs
      → (hs ≡ gs) ⊎ Clash sha256 hs gs
  mth-injective_located hs gs n d d' e = located_fuel (length hs) hs gs (omega arith) n d d' e

  -- Two trees of one size with one root have the same leaves, or the hash has a collision. All
  -- leaves and all hashes are 32 bytes.
  pub mth-injective :
      (hs gs : List Bytes)
      → length hs ≡ length gs
      → All IsDigest hs
      → All IsDigest gs
      → mth sha256 hs ≡ mth sha256 gs
      → (hs ≡ gs) ⊎ Collision sha256
  mth-injective hs gs n d d' e = elim (mth-injective_located hs gs n d d' e) [
    | inl same ↦ inl same
    | inr clash ↦ inr (Clash-Collision sha256 hs gs clash)
  ]
