-- ===== src/Ts/Merkle/Root.antt =====
-- The root and the paths do not depend on the fuel, so they satisfy the equations of RFC 9162.
use custody.Base.{
  ℕ, zero, suc, ◌-◌, ◌≤◌, ◌<◌, ◌≡◌, refl, List, [], ◌∷◌, arith, length, take, drop, length-take,
  length-drop,
}
use mathlib.Core.Path.{ap₂}
use custody.Crypto.{Bytes}
use custody.Ts.Merkle.{node_hash, mth_fuel, mth, largest_pow2_lt}
use custody.Ts.Merkle.Pow.{largest_pow2_lt-IsSplit}

abbrev pub split : List Bytes → ℕ
split hashes = largest_pow2_lt (length hashes)

module _ (hs : List Bytes) (big : 1 < length hs) where
  pub split-pos : 0 < split hs
  split-pos =
      let (e, s) = largest_pow2_lt-IsSplit (length hs) big in omega (arith, s.covers, s.below)

  pub split-lt : split hs < length hs
  split-lt = (largest_pow2_lt-IsSplit (length hs) big).1.below

  pub length-left : length (take (split hs) hs) ≡ split hs
  length-left = omega (arith, length-take (split hs) hs, split-lt)

  pub length-right : length (drop (split hs) hs) ≡ length hs - split hs
  length-right = length-drop (split hs) hs

module _ (sha256 : Bytes → Bytes) where
  mth_fuel_stable :
      (f g : ℕ) (hs : List Bytes)
      → length hs ≤ suc f
      → length hs ≤ suc g
      → mth_fuel sha256 f hs ≡ mth_fuel sha256 g hs
  unfolding mth_fuel
  mth_fuel_stable zero g [] p q = refl
  mth_fuel_stable zero g (h ∷ []) p q = refl
  mth_fuel_stable zero g (h ∷ h' ∷ hs) p q = absurd (omega arith)
  mth_fuel_stable (suc f) g [] p q = refl
  mth_fuel_stable (suc f) g (h ∷ []) p q = refl
  mth_fuel_stable (suc f) zero (h ∷ h' ∷ hs) p q = absurd (omega arith)
  mth_fuel_stable (suc f) (suc g) (h ∷ h' ∷ hs) p q =
      let hashes : List Bytes = h ∷ h' ∷ hs in
      let big : 1 < length hashes = omega arith in
      ap₂ (node_hash sha256)
        (mth_fuel_stable f g (take (split hashes) hashes)
          (omega (arith, length-left hashes big, split-lt hashes big))
          (omega (arith, length-left hashes big, split-lt hashes big)))
        (mth_fuel_stable f g (drop (split hashes) hashes)
          (omega (arith, length-right hashes big, split-pos hashes big))
          (omega (arith, length-right hashes big, split-pos hashes big)))

  pub mth-split :
      (hs : List Bytes)
      → 1 < length hs
      → mth sha256 hs
        ≡ node_hash sha256 (mth sha256 (take (split hs) hs)) (mth sha256 (drop (split hs) hs))
  unfolding mth mth_fuel
  mth-split [] big = absurd (omega arith)
  mth-split (h ∷ []) big = absurd (omega arith)
  mth-split (h ∷ h' ∷ hs) big =
      let hashes : List Bytes = h ∷ h' ∷ hs in
      ap₂ (node_hash sha256)
        (mth_fuel_stable (suc (length hs)) (length (take (split hashes) hashes))
          (take (split hashes) hashes) (omega (arith, length-left hashes big, split-lt hashes big))
          (omega arith))
        (mth_fuel_stable (suc (length hs)) (length (drop (split hashes) hashes))
          (drop (split hashes) hashes)
          (omega (arith, length-right hashes big, split-pos hashes big)) (omega arith))

  pub mth-single : (h : Bytes) → mth sha256 (h ∷ []) ≡ h
  unfolding mth mth_fuel
  mth-single h = refl
