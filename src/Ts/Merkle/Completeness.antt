-- ===== src/Ts/Merkle/Completeness.antt =====
-- A path that the log computes is accepted.
use custody.Base.{
  ℕ, zero, suc, ◌-◌, ◌≤◌, ◌<◌, ◌≡◌, refl, ap, List, [], ◌∷◌, ◌++◌, arith, length, take, drop,
  get_elem?, get_elem?-take, get_elem?-drop, get_elem?-lt, ltb, Bool-cases, inl, inr, true, ◌∙◌,
  sym, some,
}
use mathlib.Core.Option
use custody.Crypto.{Bytes}
use custody.Ts.Merkle.{
  mth, inclusion_path_fuel, inclusion_path, fold_inclusion, verify_inclusion, node_hash, bytes_eq,
}
use custody.Ts.Merkle.Pow.{largest_pow2_lt-IsSplit}
use custody.Ts.Merkle.Root.{
  split, split-pos, split-lt, length-left, length-right, mth-split, mth-single,
}
use custody.Ts.Merkle.Loop.{fold_inclusion_left, fold_inclusion_right}

pub bytes_eq_refl : (a : Bytes) → bytes_eq a a ≡ true
unfolding bytes_eq
bytes_eq_refl [] = refl
bytes_eq_refl (x ∷ a) = ground (arith, bytes_eq_refl a)

module _ (sha256 : Bytes → Bytes) where
  -- The step of both proofs about the loop: the half of the tree that holds the leaf, and the
  -- sibling of that half as the last hash.
  pub fold-in_left :
      (hs : List Bytes) (big : 1 < length hs) (ps : List Bytes) (p : Bytes) (i : ℕ) (leaf : Bytes)
      → i < split hs
      → fold_inclusion sha256 (ps ++ p ∷ []) i (length hs - 1) leaf
        ≡ Option.map
            (λ x. node_hash sha256 x p)
            (fold_inclusion sha256 ps i (length (take (split hs) hs) - 1) leaf)
  fold-in_left hs big ps p i leaf h =
      let (e, s) = largest_pow2_lt-IsSplit (length hs) big in
      ground
        (arith, s, length-left hs big, fold_inclusion_left sha256 p ps e i (length hs - 1) leaf)

  pub fold-in_right :
      (hs : List Bytes) (big : 1 < length hs) (ps : List Bytes) (p : Bytes) (i : ℕ) (leaf : Bytes)
      → split hs ≤ i
      → i < length hs
      → fold_inclusion sha256 (ps ++ p ∷ []) i (length hs - 1) leaf
        ≡ Option.map
            (node_hash sha256 p)
            (fold_inclusion sha256 ps (i - split hs) (length (drop (split hs) hs) - 1) leaf)
  fold-in_right hs big ps p i leaf h h' =
      let (e, s) = largest_pow2_lt-IsSplit (length hs) big in
      ground (
        arith,
        s,
        length-right hs big,
        fold_inclusion_right sha256 p ps e (i - split hs) (length hs - split hs - 1) leaf,
      )

  complete_fuel :
      (f i : ℕ) (hs : List Bytes) (leaf : Bytes)
      → length hs ≤ suc f
      → get_elem? hs i ≡ some leaf
      → fold_inclusion sha256 (inclusion_path_fuel sha256 f i hs) i (length hs - 1) leaf
        ≡ some (mth sha256 hs)
  unfolding inclusion_path_fuel
  complete_fuel f i [] leaf m h = absurd (ground arith)
  complete_fuel f zero (x ∷ []) leaf m h =
      unfold fold_inclusion in (ground (arith, mth-single sha256 x))
  complete_fuel f (suc i) (x ∷ []) leaf m h = absurd (ground arith)
  complete_fuel zero i (x ∷ y ∷ xs) leaf m h = absurd (omega arith)
  complete_fuel (suc f) i (x ∷ y ∷ xs) leaf m h =
      let hs : List Bytes = x ∷ y ∷ xs in
      let big : 1 < length hs = omega arith in
      elim (Bool-cases (ltb i (split hs))) [
        | inl left ↦ rw left (
            rw
              (fold-in_left hs big (inclusion_path_fuel sha256 f i (take (split hs) hs))
                (mth sha256 (drop (split hs) hs)) i leaf (ground arith))
              (rw
                (complete_fuel f i (take (split hs) hs) leaf
                  (omega (arith, length-left hs big, split-lt hs big))
                  (get_elem?-take (split hs) i hs (ground arith) ∙ h))
                (ap some (sym (mth-split sha256 hs big)))))
        | inr right ↦ rw right (
            rw
              (fold-in_right hs big
                (inclusion_path_fuel sha256 f (i - split hs) (drop (split hs) hs))
                (mth sha256 (take (split hs) hs)) i leaf (ground arith) (get_elem?-lt hs i h))
              (rw
                (complete_fuel f (i - split hs) (drop (split hs) hs) leaf
                  (omega (arith, length-right hs big, split-pos hs big))
                  (get_elem?-drop (split hs) (i - split hs) hs
                    ∙ (ap (get_elem? hs) (ground arith) ∙ h)))
                (ap some (sym (mth-split sha256 hs big)))))
      ]

  -- `verify_inclusion` accepts the path that `inclusion_path` computes for a leaf that stands at
  -- the index, against the root, at every index and size.
  pub verify_inclusion-inclusion_path :
      (hs : List Bytes) (i : ℕ) (leaf : Bytes)
      → get_elem? hs i ≡ some leaf
      → verify_inclusion sha256 i (length hs) leaf (inclusion_path sha256 i hs) (mth sha256 hs)
        ≡ true
  unfolding verify_inclusion inclusion_path
  verify_inclusion-inclusion_path hs i leaf h = ground (
    arith,
    get_elem?-lt hs i h,
    complete_fuel (length hs) i hs leaf,
    bytes_eq_refl (mth sha256 hs),
  )
