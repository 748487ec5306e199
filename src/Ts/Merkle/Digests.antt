-- ===== src/Ts/Merkle/Digests.antt =====
-- What the tree hashes and returns consists of bytes.
use custody.Base.{
  ℕ, zero, suc, ◌-◌, List, [], ◌∷◌, arith, length, take, drop, All, All-take, All-drop, All-append,
  Bool-cases, inl, inr, ltb,
}
use custody.Crypto.{Bytes}
use custody.Crypto.HexLaws.{IsByte}
use custody.Ts.Merkle.{node_hash, mth, mth_fuel, inclusion_path, inclusion_path_fuel}
use custody.Ts.Merkle.Root.{split, mth-split, mth-single}

abbrev pub AreBytes : Bytes → Type 0
AreBytes b = All IsByte b

module _ (sha256 : Bytes → Bytes) (outputs : (b : Bytes) → AreBytes (sha256 b)) where
  pub mth-AreBytes : (hs : List Bytes) → All AreBytes hs → AreBytes (mth sha256 hs)
  mth-AreBytes [] h = unfold mth mth_fuel in outputs []
  mth-AreBytes (x ∷ []) h = rw mth-single h.0
  mth-AreBytes (x ∷ y ∷ hs) h =
      rw (mth-split sha256 (x ∷ y ∷ hs) (omega arith)) (unfold node_hash in outputs _)

  path_fuel-AreBytes :
      (f m : ℕ) (hs : List Bytes)
      → All AreBytes hs
      → All AreBytes (inclusion_path_fuel sha256 f m hs)
  unfolding inclusion_path_fuel
  path_fuel-AreBytes f m [] h = tt
  path_fuel-AreBytes f m (x ∷ []) h = tt
  path_fuel-AreBytes zero m (x ∷ y ∷ xs) h = tt
  path_fuel-AreBytes (suc f) m (x ∷ y ∷ xs) h =
      let hs : List Bytes = x ∷ y ∷ xs in
      let left = All-take AreBytes (split hs) hs h in
      let right = All-drop AreBytes (split hs) hs h in
      elim (Bool-cases (ltb m (split hs))) [
        | inl e ↦ rw e (
            All-append AreBytes _ _ (path_fuel-AreBytes f m (take (split hs) hs) left)
              (mth-AreBytes _ right, tt))
        | inr e ↦ rw e (
            All-append AreBytes _ _ (path_fuel-AreBytes f (m - split hs) (drop (split hs) hs) right)
              (mth-AreBytes _ left, tt))
      ]

  pub inclusion_path-AreBytes :
      (m : ℕ) (hs : List Bytes) → All AreBytes hs → All AreBytes (inclusion_path sha256 m hs)
  unfolding inclusion_path
  inclusion_path-AreBytes m hs h = path_fuel-AreBytes (length hs) m hs h
