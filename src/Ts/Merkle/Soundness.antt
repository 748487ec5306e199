-- ===== src/Ts/Merkle/Soundness.antt =====
-- An accepted proof shows that the leaf stands at that index, or yields a collision of the hash.
use custody.Base.{
  ℕ, zero, suc, ◌-◌, ◌≤◌, ◌<◌, ◌≡◌, ◌≢◌, ◌⊎◌, refl, ap, List, [], ◌∷◌, ◌++◌, arith, length, take,
  drop, get_elem?, get_elem?-take, get_elem?-drop, ltb, Bool-cases, inl, inr, true, ◌∙◌, sym, some,
  Option-cases, ◌/◌, All, All-take, All-drop, Bytes-discrete, append-injective,
  append-injective_right, snoc-cases,
}
use custody.Crypto.{Bytes}
use custody.Ts.Merkle.{mth, fold_inclusion, verify_inclusion, node_hash, bytes_eq, mth_fuel, strip}
use custody.Ts.Merkle.Root.{
  split, split-pos, split-lt, length-left, length-right, mth-split, mth-single,
}
use custody.Ts.Merkle.Completeness.{fold-in_left, fold-in_right}

pub bytes_eq→eq : (a b : Bytes) → bytes_eq a b ≡ true → a ≡ b
unfolding bytes_eq
bytes_eq→eq [] [] h = refl
bytes_eq→eq [] (y ∷ b) h = cc
bytes_eq→eq (x ∷ a) [] h = cc
bytes_eq→eq (x ∷ a) (y ∷ b) h = ground (arith, bytes_eq→eq a b)

-- 32 bytes
abbrev pub IsDigest : Bytes → Type 0
IsDigest b = length b ≡ 32

-- Two different byte strings with one hash.
abbrev pub Collision : (Bytes → Bytes) → Type 0
Collision sha256 = (a : Bytes) × (b : Bytes) × (a ≢ b) × (sha256 a ≡ sha256 b)

module _ (sha256 : Bytes → Bytes) where
  pub same_preimage : (a b : Bytes) → sha256 a ≡ sha256 b → (a ≡ b) ⊎ Collision sha256
  same_preimage a b h = elim (Bytes-discrete a b) [ yes e ↦ inl e | no n ↦ inr (a, b, n, h) ]

  pub node_hash-injective :
      (a b c d : Bytes)
      → (length a ≡ length c) ⊎ (length b ≡ length d)
      → node_hash sha256 a b ≡ node_hash sha256 c d
      → ((a ≡ c) × (b ≡ d)) ⊎ Collision sha256
  unfolding node_hash
  node_hash-injective a b c d n h = elim (same_preimage (1 ∷ (a ++ b)) (1 ∷ (c ++ d)) h) [
    | inr collision ↦ inr collision
    | inl e ↦
        let same : a ++ b ≡ c ++ d = ground arith in
        elim n [
          | inl left ↦ inl (append-injective a b c d left same)
          | inr right ↦ inl (append-injective_right a b c d right same)
        ]
  ]

  module _ (digests : (b : Bytes) → IsDigest (sha256 b)) where
    pub node_hash-IsDigest : (a b : Bytes) → IsDigest (node_hash sha256 a b)
    unfolding node_hash
    node_hash-IsDigest a b = digests (1 ∷ (a ++ b))

    fold_inclusion-IsDigest :
        (proof : List Bytes) (fn sn : ℕ) (r root : Bytes)
        → IsDigest r
        → fold_inclusion sha256 proof fn sn r ≡ some root
        → IsDigest root
    unfolding fold_inclusion
    fold_inclusion-IsDigest [] fn sn r root d h = ground arith
    fold_inclusion-IsDigest (p ∷ ps) fn sn r root d h =
        let (fn', sn') = strip fn fn sn in
        ground (
          arith,
          fold_inclusion-IsDigest ps (fn / 2) (sn / 2) (node_hash sha256 p r) root
              (node_hash-IsDigest p r),
          fold_inclusion-IsDigest ps (fn' / 2) (sn' / 2) (node_hash sha256 p r) root
              (node_hash-IsDigest p r),
          fold_inclusion-IsDigest ps (fn / 2) (sn / 2) (node_hash sha256 r p) root
              (node_hash-IsDigest r p),
        )

    pub mth-IsDigest : (hs : List Bytes) → All IsDigest hs → IsDigest (mth sha256 hs)
    mth-IsDigest [] h = unfold mth mth_fuel in digests []
    mth-IsDigest (x ∷ []) h = rw mth-single h.0
    mth-IsDigest (x ∷ y ∷ hs) h =
        rw (mth-split sha256 (x ∷ y ∷ hs) (omega arith)) (node_hash-IsDigest _ _)

    module _ (hs : List Bytes) (big : 1 < length hs) (d : All IsDigest hs) where
      abbrev left : List Bytes
      left = take (split hs) hs

      abbrev right : List Bytes
      right = drop (split hs) hs

      -- The last hash of an accepted proof is the sibling, and the rest is accepted in the half.
      sound_left :
          (ps : List Bytes) (p : Bytes) (i : ℕ) (leaf : Bytes)
          → IsDigest leaf
          → i < split hs
          → fold_inclusion sha256 (ps ++ p ∷ []) i (length hs - 1) leaf ≡ some (mth sha256 hs)
          → (fold_inclusion sha256 ps i (length left - 1) leaf ≡ some (mth sha256 left))
            ⊎ Collision sha256
      sound_left ps p i leaf dl l h =
          let e = sym (fold-in_left sha256 hs big ps p i leaf l) ∙ h in
          elim (Option-cases (fold_inclusion sha256 ps i (length left - 1) leaf)) [
            | inl stop ↦ cc (e, stop)
            | inr (x, q) ↦
                elim (node_hash-injective x p (mth sha256 left) (mth sha256 right)
                  (inl (
                    fold_inclusion-IsDigest ps i (length left - 1) leaf x dl q
                    ∙ sym (mth-IsDigest left (All-take IsDigest (split hs) hs d))))
                  (cc (e, q, mth-split sha256 hs big))) [
                    | inl same ↦ inl (q ∙ ap some same.0)
                    | inr collision ↦ inr collision
                  ]
          ]

      sound_right :
          (ps : List Bytes) (p : Bytes) (i : ℕ) (leaf : Bytes)
          → IsDigest leaf
          → split hs ≤ i
          → i < length hs
          → fold_inclusion sha256 (ps ++ p ∷ []) i (length hs - 1) leaf ≡ some (mth sha256 hs)
          → (fold_inclusion sha256 ps (i - split hs) (length right - 1) leaf
              ≡ some (mth sha256 right))
            ⊎ Collision sha256
      sound_right ps p i leaf dl l l' h =
          let e = sym (fold-in_right sha256 hs big ps p i leaf l l') ∙ h in
          elim (Option-cases (fold_inclusion sha256 ps (i - split hs) (length right - 1) leaf)) [
            | inl stop ↦ cc (e, stop)
            | inr (x, q) ↦
                elim (node_hash-injective p x (mth sha256 left) (mth sha256 right)
                  (inr (
                    fold_inclusion-IsDigest ps (i - split hs) (length right - 1) leaf x dl q
                    ∙ sym (mth-IsDigest right (All-drop IsDigest (split hs) hs d))))
                  (cc (e, q, mth-split sha256 hs big))) [
                    | inl same ↦ inl (q ∙ ap some same.1)
                    | inr collision ↦ inr collision
                  ]
          ]

    sound_fuel :
        (f i : ℕ) (hs : List Bytes) (leaf : Bytes) (proof : List Bytes)
        → length hs ≤ suc f
        → i < length hs
        → All IsDigest hs
        → IsDigest leaf
        → fold_inclusion sha256 proof i (length hs - 1) leaf ≡ some (mth sha256 hs)
        → (get_elem? hs i ≡ some leaf) ⊎ Collision sha256
    sound_fuel f i [] leaf proof m l d dl h = absurd (omega arith)
    sound_fuel f zero (x ∷ []) leaf [] m l d dl h =
        inl (unfold fold_inclusion in (ground (arith, mth-single sha256 x)))
    sound_fuel f zero (x ∷ []) leaf (p ∷ ps) m l d dl h =
        absurd (unfold fold_inclusion in (ground arith))
    sound_fuel f (suc i) (x ∷ []) leaf proof m l d dl h = absurd (omega arith)
    sound_fuel zero i (x ∷ y ∷ xs) leaf proof m l d dl h = absurd (omega arith)
    sound_fuel (suc f) i (x ∷ y ∷ xs) leaf proof m l d dl h =
        let hs : List Bytes = x ∷ y ∷ xs in
        let big : 1 < length hs = omega arith in
        elim (snoc-cases proof) [
          | inl empty ↦ absurd (unfold fold_inclusion in (ground arith))
          | inr (ps, p, e) ↦
              let h' = rw e at h in
              elim (Bool-cases (ltb i (split hs))) [
                | inl in_left ↦ elim (sound_left hs big d ps p i leaf dl (ground arith) h') [
                  | inr collision ↦ inr collision
                  | inl rest ↦
                      elim (sound_fuel f i (take (split hs) hs) leaf ps
                        (omega (arith, length-left hs big, split-lt hs big))
                        (ground (arith, length-left hs big)) (All-take IsDigest (split hs) hs d) dl
                        rest) [
                          | inl found ↦
                              inl (sym (get_elem?-take (split hs) i hs (ground arith)) ∙ found)
                          | inr collision ↦ inr collision
                        ]
                ]
                | inr in_right ↦ elim (sound_right hs big d ps p i leaf dl (ground arith) l h') [
                  | inr collision ↦ inr collision
                  | inl rest ↦
                      elim (sound_fuel f (i - split hs) (drop (split hs) hs) leaf ps
                        (omega (arith, length-right hs big, split-pos hs big))
                        (ground (arith, length-right hs big)) (All-drop IsDigest (split hs) hs d) dl
                        rest) [
                          | inl found ↦ inl (
                              ap (get_elem? hs) (ground arith)
                              ∙ sym (get_elem?-drop (split hs) (i - split hs) hs)
                              ∙ found)
                          | inr collision ↦ inr collision
                        ]
                ]
              ]
        ]

    -- If `verify_inclusion` accepts a proof for a leaf at an index against the root of a list of
    -- leaves, that leaf stands at the index, or the hash has a collision. The leaf, the leaves and
    -- all hashes are 32 bytes.
    pub verify_inclusion_sound :
        (hs : List Bytes) (i : ℕ) (leaf : Bytes) (proof : List Bytes)
        → All IsDigest hs
        → IsDigest leaf
        → verify_inclusion sha256 i (length hs) leaf proof (mth sha256 hs) ≡ true
        → (get_elem? hs i ≡ some leaf) ⊎ Collision sha256
    unfolding verify_inclusion
    verify_inclusion_sound hs i leaf proof d dl h =
        elim (Option-cases (fold_inclusion sha256 proof i (length hs - 1) leaf)) [
          | inl stop ↦ absurd (ground arith)
          | inr (r, e) ↦
              sound_fuel (length hs) i hs leaf proof (omega arith) (ground arith) d dl
                (e ∙ ap some (bytes_eq→eq r (mth sha256 hs) (ground arith)))
        ]
