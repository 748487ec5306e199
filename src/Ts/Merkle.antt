-- ===== src/Ts/Merkle.antt =====
-- itx/ts/merkle.py: the tree hash, and inclusion paths and their verification.
-- A recursion on slices, or a `while` loop, takes fuel: the number of leaves, or the value that the
-- loop halves. `sha256` is the parameter of every hash.
pub mod Pow
pub mod Root
pub mod Loop
pub mod Completeness
pub mod Soundness
pub mod Digests
pub mod Injective
use custody.Base.{
  ℕ, zero, suc, ◌+◌, ◌-◌, ◌*◌, ◌/◌, ◌%◌, ltb, leb, ◌==◌, Bool, true, false, not, ◌&&◌, ◌||◌, List,
  [], ◌∷◌, ◌++◌, Option, none, some, length, take, drop, if◌then◌else◌,
}
use custody.Crypto.{Bytes}

-- `while k * 2 < n: k *= 2`
unfoldable pub grow_pow2 : ℕ → ℕ → ℕ → ℕ
grow_pow2 zero n k = k
grow_pow2 (suc fuel) n k = let rest = grow_pow2 fuel n (k * 2) in if ltb (k * 2) n then rest else k

unfoldable pub largest_pow2_lt : ℕ → ℕ
largest_pow2_lt n = grow_pow2 n n 1

-- The equality of two byte strings.
unfoldable pub bytes_eq : Bytes → Bytes → Bool
bytes_eq [] [] = true
bytes_eq (a ∷ as_) (b ∷ bs) = a == b && bytes_eq as_ bs
bytes_eq _ _ = false

-- `fn & 1`
abbrev pub is_odd : ℕ → Bool
is_odd n = n % 2 == 1

-- `while fn != 0 and not fn & 1: fn >>= 1; sn >>= 1`
unfoldable pub strip : ℕ → ℕ → ℕ → ℕ × ℕ
strip zero fn sn = (fn, sn)
strip (suc fuel) fn sn =
    let rest = strip fuel (fn / 2) (sn / 2) in
    if not (fn == 0) && not (is_odd fn) then rest else (fn, sn)

module _ (sha256 : Bytes → Bytes) where
  unfoldable pub leaf_hash : Bytes → Bytes
  leaf_hash bytes = sha256 (0 ∷ bytes)

  unfoldable pub node_hash : Bytes → Bytes → Bytes
  node_hash left right = sha256 (1 ∷ (left ++ right))

  unfoldable pub mth_fuel : ℕ → List Bytes → Bytes
  mth_fuel f [] = sha256 []
  mth_fuel f (h ∷ []) = h
  mth_fuel zero (h ∷ g ∷ hs) = []
  mth_fuel (suc f) (h ∷ g ∷ hs) =
      let hashes = h ∷ g ∷ hs in
      let k = largest_pow2_lt (length hashes) in
      node_hash (mth_fuel f (take k hashes)) (mth_fuel f (drop k hashes))

  unfoldable pub mth : List Bytes → Bytes
  mth hashes = mth_fuel (length hashes) hashes

  unfoldable pub inclusion_path_fuel : ℕ → ℕ → List Bytes → List Bytes
  inclusion_path_fuel f m [] = []
  inclusion_path_fuel f m (h ∷ []) = []
  inclusion_path_fuel zero m (h ∷ g ∷ hs) = []
  inclusion_path_fuel (suc f) m (h ∷ g ∷ hs) =
      let hashes = h ∷ g ∷ hs in
      let k = largest_pow2_lt (length hashes) in
      let in_left = inclusion_path_fuel f m (take k hashes) ++ mth (drop k hashes) ∷ [] in
      let in_right = inclusion_path_fuel f (m - k) (drop k hashes) ++ mth (take k hashes) ∷ [] in
      if ltb m k then in_left else in_right

  unfoldable pub inclusion_path : ℕ → List Bytes → List Bytes
  inclusion_path m hashes = inclusion_path_fuel (length hashes) m hashes

  -- The loop of `verify_inclusion` over the proof, and the test of `sn` behind it; `none` is False.
  unfoldable pub fold_inclusion : List Bytes → ℕ → ℕ → Bytes → Option Bytes
  fold_inclusion [] fn sn r = if sn == 0 then some r else none
  fold_inclusion (p ∷ ps) fn sn r =
      let (fn', sn') = strip fn fn sn in
      let on_left = fold_inclusion ps (fn / 2) (sn / 2) (node_hash p r) in
      let on_edge = fold_inclusion ps (fn' / 2) (sn' / 2) (node_hash p r) in
      let on_right = fold_inclusion ps (fn / 2) (sn / 2) (node_hash r p) in
      if sn == 0
      then none
      else if is_odd fn
      then on_left
      else if fn == sn
      then on_edge
      else on_right

  abbrev pub is_root : Bytes → Option Bytes → Bool
  is_root root none = false
  is_root root (some r) = bytes_eq r root

  unfoldable pub verify_inclusion : ℕ → ℕ → Bytes → List Bytes → Bytes → Bool
  verify_inclusion leaf_index tree_size leaf proof root =
      if leb tree_size leaf_index
      then false
      else is_root root (fold_inclusion proof leaf_index (tree_size - 1) leaf)
