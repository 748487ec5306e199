-- ===== src/Ts/Consistency.antt =====
-- itx/ts/merkle.py: consistency paths and their verification, and the class `MerkleTree`.
-- `subproof` takes the number of leaves as fuel; it is called with 1 ≤ m ≤ the number of leaves, so
-- each call on a slice has fewer leaves.
use custody.Base.{
  ℕ, zero, suc, ◌+◌, ◌-◌, ◌*◌, ◌/◌, ◌%◌, ltb, leb, ◌==◌, Bool, true, false, ◌&&◌, ◌||◌, List, [],
  ◌∷◌, ◌++◌, Option, none, some, length, take, drop, if◌then◌else◌,
}
use custody.Crypto.{Bytes}
use custody.Ts.Merkle.{largest_pow2_lt, mth, node_hash, inclusion_path, bytes_eq, is_odd, strip}

-- `m & n`, of numbers below 2 ^ fuel
unfoldable pub land : ℕ → ℕ → ℕ → ℕ
land zero m n = 0
land (suc fuel) m n = (m % 2) * (n % 2) + 2 * land fuel (m / 2) (n / 2)

-- `first & (first - 1) == 0`
unfoldable pub is_pow2 : ℕ → Bool
is_pow2 first = land first first (first - 1) == 0

-- `while fn & 1: fn >>= 1; sn >>= 1`
unfoldable pub strip_odd : ℕ → ℕ → ℕ → ℕ × ℕ
strip_odd zero fn sn = (fn, sn)
strip_odd (suc fuel) fn sn =
    let rest = strip_odd fuel (fn / 2) (sn / 2) in if is_odd fn then rest else (fn, sn)

abbrev is_empty : List Bytes → Bool
is_empty [] = true
is_empty (p ∷ ps) = false

module _ (sha256 : Bytes → Bytes) where
  unfoldable pub subproof : ℕ → ℕ → List Bytes → Bool → List Bytes
  subproof zero m hashes b = if b then [] else mth sha256 hashes ∷ []
  subproof (suc f) m hashes b =
      let k = largest_pow2_lt (length hashes) in
      let in_left = subproof f m (take k hashes) b ++ mth sha256 (drop k hashes) ∷ [] in
      let in_right = subproof f (m - k) (drop k hashes) false ++ mth sha256 (take k hashes) ∷ [] in
      if m == length hashes
      then (if b then [] else mth sha256 hashes ∷ [])
      else if leb m k
      then in_left
      else in_right

  unfoldable pub consistency_path : ℕ → List Bytes → List Bytes
  consistency_path m hashes =
      if m == 0 || m == length hashes then [] else subproof (length hashes) m hashes true

  -- The loop over `path[1:]`, and the test of `sn` behind it; `none` is False.
  unfoldable pub fold_consistency : List Bytes → ℕ → ℕ → Bytes → Bytes → Option (Bytes × Bytes)
  fold_consistency [] fn sn fr sr = if sn == 0 then some (fr, sr) else none
  fold_consistency (c ∷ cs) fn sn fr sr =
      let (fn', sn') = strip fn fn sn in
      let on_left =
        fold_consistency cs (fn / 2) (sn / 2) (node_hash sha256 c fr) (node_hash sha256 c sr) in
      let on_edge =
        fold_consistency cs (fn' / 2) (sn' / 2) (node_hash sha256 c fr) (node_hash sha256 c sr) in
      let on_right = fold_consistency cs (fn / 2) (sn / 2) fr (node_hash sha256 sr c) in
      if sn == 0
      then none
      else if is_odd fn
      then on_left
      else if fn == sn
      then on_edge
      else on_right

  abbrev are_roots : Bytes → Bytes → Option (Bytes × Bytes) → Bool
  are_roots first_root second_root none = false
  are_roots first_root second_root (some (fr, sr)) =
      bytes_eq fr first_root && bytes_eq sr second_root

  -- The check of a path that is not empty.
  abbrev check_path : ℕ → ℕ → Bytes → Bytes → List Bytes → Bool
  check_path first second first_root second_root [] = false
  check_path first second first_root second_root (p ∷ ps) =
      let (fn, sn) = strip_odd first (first - 1) (second - 1) in
      are_roots first_root second_root (fold_consistency ps fn sn p p)

  unfoldable pub verify_consistency : ℕ → ℕ → Bytes → Bytes → List Bytes → Bool
  verify_consistency first second first_root second_root proof =
      let path = if is_pow2 first then first_root ∷ proof else proof in
      if ltb second first
      then false
      else if first == second
      then bytes_eq first_root second_root && is_empty proof
      else if first == 0
      then is_empty proof
      else if is_empty proof
      then false
      else check_path first second first_root second_root path

  -- `MerkleTree` is its list of leaves. `none` is the ValueError.
  unfoldable pub root_at : List Bytes → ℕ → Option Bytes
  root_at leaves size =
      if ltb (length leaves) size then none else some (mth sha256 (take size leaves))

  unfoldable pub inclusion_proof : List Bytes → ℕ → ℕ → List Bytes
  inclusion_proof leaves index size = inclusion_path sha256 index (take size leaves)

  unfoldable pub consistency_proof : List Bytes → ℕ → ℕ → List Bytes
  consistency_proof leaves first second = consistency_path first (take second leaves)
