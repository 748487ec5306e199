-- ===== src/Ts/Merkle/Loop.antt =====
-- The loop of `verify_inclusion` in a tree of `n` leaves is the loop in the subtree that holds the
-- leaf, followed by one step with the last hash of the path.
use custody.Base.{
  ℕ, zero, suc, ◌+◌, ◌-◌, ◌/◌, ◌%◌, ◌^◌, ◌≤◌, ◌<◌, ◌≡◌, refl, List, [], ◌∷◌, ◌++◌, arith, none,
  Bool-cases, inl, inr, ◌⊎◌, ◌⊎◌,
}
use mathlib.Core.Option
use native.Mathlib.Nat.{zero-add}
use custody.Crypto.{Bytes}
use custody.Ts.Merkle.{node_hash, fold_inclusion, strip, is_odd}
use custody.Ts.Merkle.Pow.{pow_double, pow_pos}

module _ (sha256 : Bytes → Bytes) (p : Bytes) where
  -- A leaf left of the split point: the last hash is the right sibling.
  pub fold_inclusion_left :
      (ps : List Bytes) (e fn sn : ℕ) (r : Bytes)
      → fn < 2 ^ e
      → 2 ^ e ≤ sn
      → sn < 2 ^ e + 2 ^ e
      → fold_inclusion sha256 (ps ++ p ∷ []) fn sn r
        ≡ Option.map (λ x. node_hash sha256 x p) (fold_inclusion sha256 ps fn (2 ^ e - 1) r)
  unfolding fold_inclusion
  fold_inclusion_left [] zero fn sn r a b c = ground arith
  fold_inclusion_left [] (suc e) fn sn r a b c = ground (arith, pow_double e, pow_pos e)
  fold_inclusion_left (q ∷ []) zero fn sn r a b c = ground arith
  fold_inclusion_left (q ∷ q' ∷ ps) zero fn sn r a b c = ground arith
  fold_inclusion_left (q ∷ ps) (suc e) fn sn r a b c = ground (
    arith,
    pow_double e,
    pow_pos e,
    fold_inclusion_left ps e (fn / 2) (sn / 2) (node_hash sha256 q r),
    fold_inclusion_left ps e (fn / 2) (sn / 2) (node_hash sha256 r q),
  )

edge_cases : (fn sn : ℕ) → fn ≤ sn → ((fn ≡ 0) × (sn ≡ 0)) ⊎ ((fn < sn) ⊎ ((fn ≡ sn) × (0 < sn)))
edge_cases fn sn h = grind arith

-- Where the leaf and the right edge share the top bit, `strip` leaves them sharing it.
strip_raised :
    (f g e a : ℕ)
    → 0 < a
    → a < 2 ^ e
    → a ≤ f
    → a + 2 ^ e ≤ g
    → (j : ℕ) × (b : ℕ) × (strip f a a ≡ (b, b))
      × (strip g (a + 2 ^ e) (a + 2 ^ e) ≡ (b + 2 ^ suc j, b + 2 ^ suc j))
      × (b % 2 ≡ 1)
      × (b < 2 ^ suc j)
unfolding strip
strip_raised zero g e a p q m n = absurd (omega arith)
strip_raised (suc f) zero e a p q m n = absurd (omega arith)
strip_raised (suc f) (suc g) zero a p q m n = absurd (omega arith)
strip_raised (suc f) (suc g) (suc e) a p q m n = elim (Bool-cases (is_odd a)) [
  | inl odd ↦ (e, a, ground arith, ground (arith, pow_double e), ground arith, q)
  | inr even ↦
      let (j, b, s, t, o, l) =
        strip_raised f g e (a / 2) (ground arith) (omega (arith, pow_double e)) (ground arith)
          (omega (arith, pow_double e, pow_pos e)) in
      (j, b, ground arith, ground (arith, pow_double e), o, l)
]

strip_power : (g e : ℕ) → 2 ^ e ≤ g → strip g (2 ^ e) (2 ^ e) ≡ (1, 1)
unfolding strip
strip_power zero e h = absurd (omega (arith, pow_pos e))
strip_power (suc g) zero h = refl
strip_power (suc g) (suc e) h = ground (arith, pow_double e, pow_pos e, strip_power g e)

module _ (sha256 : Bytes → Bytes) (p : Bytes) where
  fold_inclusion_stop :
      (ps : List Bytes) (r : Bytes) → fold_inclusion sha256 (ps ++ p ∷ []) 0 0 r ≡ none
  unfolding fold_inclusion
  fold_inclusion_stop [] r = refl
  fold_inclusion_stop (q ∷ ps) r = refl

  fold_inclusion_power :
      (q : Bytes) (ps : List Bytes) (e : ℕ) (r : Bytes)
      → fold_inclusion sha256 (q ∷ ps ++ p ∷ []) (2 ^ suc e) (2 ^ suc e) r ≡ none
  unfolding fold_inclusion
  fold_inclusion_power q ps e r =
      rw (strip_power (2 ^ suc e) (suc e) (omega arith))
        (ground (arith, pow_double e, pow_pos e, fold_inclusion_stop ps (node_hash sha256 q r)))

  abbrev StepsBelow : List Bytes → ℕ → ℕ → Bytes → Type 0
  StepsBelow ps e a r =
      fold_inclusion sha256 (ps ++ p ∷ []) (a + 2 ^ e) (a + 2 ^ e) r
      ≡ Option.map (node_hash sha256 p) (fold_inclusion sha256 ps a a r)

  fold_inclusion_edge :
      (q : Bytes) (ps : List Bytes) (e a j c : ℕ) (r : Bytes)
      → 0 < a
      → strip a a a ≡ (c, c)
      → strip (a + 2 ^ suc e) (a + 2 ^ suc e) (a + 2 ^ suc e) ≡ (c + 2 ^ suc j, c + 2 ^ suc j)
      → StepsBelow ps e (a / 2) (node_hash sha256 q r)
      → StepsBelow ps j (c / 2) (node_hash sha256 q r)
      → StepsBelow (q ∷ ps) (suc e) a r
  unfolding fold_inclusion
  fold_inclusion_edge q ps e a j c r pos s t ih ih_edge =
      let half : (a + 2 ^ suc e) / 2 ≡ a / 2 + 2 ^ e = omega (arith, pow_double e) in
      let half_edge : (c + 2 ^ suc j) / 2 ≡ c / 2 + 2 ^ j = omega (arith, pow_double j) in
      rw (t, s, half, half_edge, ih, ih_edge) (ground (arith, pow_double e))

  -- A leaf right of the split point: the last hash is the left sibling.
  pub fold_inclusion_right :
      (ps : List Bytes) (e fn sn : ℕ) (r : Bytes)
      → fn ≤ sn
      → sn < 2 ^ e
      → fold_inclusion sha256 (ps ++ p ∷ []) (fn + 2 ^ e) (sn + 2 ^ e) r
        ≡ Option.map (node_hash sha256 p) (fold_inclusion sha256 ps fn sn r)
  unfolding fold_inclusion
  fold_inclusion_right [] zero fn sn r a b = ground arith
  fold_inclusion_right [] (suc e) fn sn r a b = elim (edge_cases fn sn a) [
    | inl (f, z) ↦
        rw f (rw z (rw zero-add (ground (arith, pow_pos (suc e), strip_power (2 ^ suc e) (suc e)))))
    | inr (inl inside) ↦ ground (arith, pow_double e)
    | inr (inr (edge, pos)) ↦
        let (j, c, s, t, o, l) =
          strip_raised sn (sn + 2 ^ suc e) (suc e) sn pos b (omega arith) (omega arith) in
        rw edge (ground (arith, pow_double e, pow_double j, pow_pos j))
  ]
  fold_inclusion_right (q ∷ ps) zero fn sn r a b =
      ground (arith, fold_inclusion_stop ps (node_hash sha256 q r))
  fold_inclusion_right (q ∷ ps) (suc e) fn sn r a b = elim (edge_cases fn sn a) [
    | inl (f, z) ↦ rw f (rw z (rw zero-add (fold_inclusion_power q ps e r)))
    | inr (inl inside) ↦ ground (
      arith,
      pow_double e,
      fold_inclusion_right ps e (fn / 2) (sn / 2) (node_hash sha256 q r),
      fold_inclusion_right ps e (fn / 2) (sn / 2) (node_hash sha256 r q),
    )
    | inr (inr (edge, pos)) ↦
        let (j, c, s, t, o, l) =
          strip_raised sn (sn + 2 ^ suc e) (suc e) sn pos b (omega arith) (omega arith) in
        rw edge (
          fold_inclusion_edge q ps e sn j c r pos s t
            (fold_inclusion_right ps e (sn / 2) (sn / 2) (node_hash sha256 q r) (omega arith)
              (omega (arith, pow_double e)))
            (fold_inclusion_right ps j (c / 2) (c / 2) (node_hash sha256 q r) (omega arith)
              (omega (arith, pow_double j))))
  ]
