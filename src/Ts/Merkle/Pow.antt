-- ===== src/Ts/Merkle/Pow.antt =====
-- Powers of two, and the split point of a list of hashes.
use custody.Base.{
  ℕ, zero, suc, ◌+◌, ◌*◌, ◌^◌, ◌≤◌, ◌<◌, ◌≡◌, refl, arith, ltb, Bool-cases, inl, inr,
}
use native.Mathlib.Nat.{pow-suc}
use custody.Ts.Merkle.{grow_pow2, largest_pow2_lt}

pub pow_double : (e : ℕ) → 2 ^ suc e ≡ 2 * 2 ^ e
pow_double e = omega (arith, pow-suc 2 e)

pub pow_pos : (e : ℕ) → 0 < 2 ^ e
pow_pos zero = omega arith
pow_pos (suc e) = omega (arith, pow_double e, pow_pos e)

-- `k` is the largest power of two below `n`.
pub record IsSplit (n k e : ℕ) : Type 0 where
  pub power : k ≡ 2 ^ e
  pub below : k < n
  pub covers : n ≤ k + k

grow_pow2-IsSplit :
    (f n k e : ℕ) → k ≡ 2 ^ e → k < n → n ≤ f + k → (j : ℕ) × IsSplit n (grow_pow2 f n k) j
unfolding grow_pow2
grow_pow2-IsSplit zero n k e p h m = absurd (omega arith)
grow_pow2-IsSplit (suc f) n k e p h m = elim (Bool-cases (ltb (k * 2) n)) [
  | inl more ↦ rw more (
      grow_pow2-IsSplit f n (k * 2) (suc e) (omega (arith, pow_double e)) (ground arith)
        (omega (arith, pow_pos e)))
  | inr done ↦ rw done (e, record { power = p; below = h; covers = ground arith })
]

pub largest_pow2_lt-IsSplit : (n : ℕ) → 1 < n → (e : ℕ) × IsSplit n (largest_pow2_lt n) e
unfolding largest_pow2_lt
largest_pow2_lt-IsSplit n h = grow_pow2-IsSplit n n 1 0 refl h (omega arith)
