-- ===== src/Cose/Head/RoundTrip.antt =====
-- Reading a head gives back the argument that was written.
use custody.Base.{
  ℕ, zero, suc, ◌+◌, ◌-◌, ◌*◌, ◌/◌, ◌%◌, ◌^◌, ◌<◌, ltb, ◌==◌, ◌≡◌, ◌≢◌, ◌⊎◌, inl, inr, refl, sym,
  ap, ◌∙◌, true, false, [], ◌∷◌, ◌++◌, Option, none, some, arith, length, take, drop, length-append,
  Bool-cases,
}
use custody.Crypto.{Bytes}
use custody.Cose.Head.{to_be, from_be, head, long_head, read_bytes, argument, checked, is_minimal}

pub length-to_be : (w v : ℕ) → length (to_be w v) ≡ w
unfolding to_be
length-to_be zero v = refl
length-to_be (suc w) v =
    omega (arith, length-append (to_be w (v / 256)) (v % 256 ∷ []), length-to_be w (v / 256))

pub from_be-append :
    (acc : ℕ) (bs : Bytes) (b : ℕ) → from_be acc (bs ++ b ∷ []) ≡ from_be acc bs * 256 + b
unfolding from_be
from_be-append acc [] b = refl
from_be-append acc (x ∷ bs) b = from_be-append (acc * 256 + x) bs b

from_be-to_be : (w v : ℕ) → v < 256 ^ w → from_be 0 (to_be w v) ≡ v
unfolding to_be from_be
from_be-to_be zero v h = omega arith
from_be-to_be (suc w) v h =
    omega (
      arith,
      from_be-append 0 (to_be w (v / 256)) (v % 256),
      from_be-to_be w (v / 256) (omega arith),
    )

take-append : (xs ys : Bytes) → take (length xs) (xs ++ ys) ≡ xs
take-append [] ys = refl
take-append (x ∷ xs) ys = ap (λ l. x ∷ l) (take-append xs ys)

drop-append : (xs ys : Bytes) → drop (length xs) (xs ++ ys) ≡ ys
drop-append [] ys = refl
drop-append (x ∷ xs) ys = drop-append xs ys

read_bytes-append : (xs ys : Bytes) → read_bytes (length xs) (xs ++ ys) ≡ some (xs, ys)
unfolding read_bytes
read_bytes-append xs ys = elim (Bool-cases (ltb (length (xs ++ ys)) (length xs))) [
  | inl long ↦ absurd (ground (arith, length-append xs ys))
  | inr fits ↦ rw (fits, take-append xs ys, drop-append xs ys) refl
]

-- A minimal chunk is accepted.
checked-minimal :
    (major w v : ℕ) (rest : Bytes)
    → v < 256 ^ w
    → is_minimal w (head major v) ≡ true
    → checked major w (read_bytes w (to_be w v ++ rest)) ≡ some (v, rest)
checked-minimal major w v rest h m =
    let e : read_bytes w (to_be w v ++ rest) ≡ some (to_be w v, rest) =
      ap (λ n. read_bytes n (to_be w v ++ rest)) (sym (length-to_be w v))
      ∙ read_bytes-append (to_be w v) rest in
    rw (e, from_be-to_be w v h, m) refl

argument-long :
    (major info w v : ℕ) (rest : Bytes)
    → 23 < info
    → info < 28
    → 2 ^ (info - 24) ≡ w
    → v < 256 ^ w
    → is_minimal w (head major v) ≡ true
    → argument (major * 32 + info) (to_be w v ++ rest) ≡ some (v, rest)
unfolding argument
argument-long major info w v rest l u p h m =
    let i : (major * 32 + info) % 32 ≡ info = omega arith in
    let j : (major * 32 + info) / 32 ≡ major = omega arith in
    let a : ltb info 24 ≡ false = ground arith in
    let b : (info == 31) ≡ false = ground arith in
    let c : ltb 27 info ≡ false = ground arith in
    rw (i, j, a, b, c, p) (checked-minimal major w v rest h m)

-- The four sizes of a long head.
abbrev pub Sized : ℕ → ℕ → Type 0
Sized info w =
    ((info ≡ 24) × (w ≡ 1))
    ⊎ (((info ≡ 25) × (w ≡ 2)) ⊎ (((info ≡ 26) × (w ≡ 4)) ⊎ ((info ≡ 27) × (w ≡ 8))))

Sized-pow : (info w : ℕ) → Sized info w → (23 < info) × (info < 28) × (2 ^ (info - 24) ≡ w)
Sized-pow info w (inl (p, q)) = rw (p, q) (omega arith, omega arith, refl)
Sized-pow info w (inr (inl (p, q))) = rw (p, q) (omega arith, omega arith, refl)
Sized-pow info w (inr (inr (inl (p, q)))) = rw (p, q) (omega arith, omega arith, refl)
Sized-pow info w (inr (inr (inr (p, q)))) = rw (p, q) (omega arith, omega arith, refl)

-- The forms of a head.
abbrev pub Heads : ℕ → ℕ → Type 0
Heads major v =
    (head major v ≡ none)
    ⊎ (((v < 24) × (head major v ≡ some ((major * 32 + v) ∷ [])))
        ⊎ ((info : ℕ) × (w : ℕ) × Sized info w
            × (v < 256 ^ w)
            × (head major v ≡ some (long_head major info w v))))

pub head-cases : (major v : ℕ) → Heads major v
unfolding head
head-cases major v = elim (Bool-cases (ltb v 24)) [
  | inl s ↦ inr (inl (ground arith, rw s refl))
  | inr n0 ↦ elim (Bool-cases (ltb v 256)) [
    | inl s ↦ inr (inr (24, 1, inl (refl, refl), ground arith, rw (n0, s) refl))
    | inr n1 ↦ elim (Bool-cases (ltb v 65536)) [
      | inl s ↦ inr (inr (25, 2, inr (inl (refl, refl)), ground arith, rw (n0, n1, s) refl))
      | inr n2 ↦ elim (Bool-cases (ltb v 4294967296)) [
        | inl s ↦
            inr (inr (26, 4, inr (inr (inl (refl, refl))), ground arith, rw (n0, n1, n2, s) refl))
        | inr n3 ↦ elim (Bool-cases (ltb v 18446744073709551616)) [
          | inl s ↦
              inr (
                inr
                  (27, 8, inr (inr (inr (refl, refl))), ground arith, rw (n0, n1, n2, n3, s) refl))
          | inr n4 ↦ inl (rw (n0, n1, n2, n3, n4) refl)
        ]
      ]
    ]
  ]
]

argument-short :
    (major v : ℕ) (rest : Bytes) → v < 24 → argument (major * 32 + v) rest ≡ some (v, rest)
unfolding argument
argument-short major v rest h =
    let i : (major * 32 + v) % 32 ≡ v = omega arith in
    let a : ltb v 24 ≡ true = ground arith in rw (i, a) refl

none-ne-head : {b : ℕ} {bs : Bytes} → none ≢ some (b ∷ bs)
none-ne-head h = cc h

first_of : Option Bytes → ℕ
first_of none = 0
first_of (some []) = 0
first_of (some (b ∷ bs)) = b

rest_of : Option Bytes → Bytes
rest_of none = []
rest_of (some []) = []
rest_of (some (b ∷ bs)) = bs

long-IsMinimal :
    (major info w v : ℕ)
    → head major v ≡ some (long_head major info w v)
    → is_minimal w (head major v) ≡ true
long-IsMinimal major info w v h = rw h (ground (arith, length-to_be w v))

-- Reading the head that `head` writes for a major type and an argument gives the argument back, and
-- leaves the bytes behind the head.
pub argument-head :
    (major v b : ℕ) (bs rest : Bytes)
    → head major v ≡ some (b ∷ bs)
    → argument b (bs ++ rest) ≡ some (v, rest)
unfolding first_of rest_of
argument-head major v b bs rest h = elim (head-cases major v) [
  | inl n ↦ absurd (none-ne-head (sym n ∙ h))
  | inr (inl (l, e)) ↦
      let p : major * 32 + v ≡ b = ap first_of (sym e ∙ h) in
      let q : [] ≡ bs = ap rest_of (sym e ∙ h) in rw (← p, ← q) (argument-short major v rest l)
  | inr (inr (info, w, sized, l, e)) ↦
      let p : major * 32 + info ≡ b = ap first_of (sym e ∙ h) in
      let q : to_be w v ≡ bs = ap rest_of (sym e ∙ h) in
      let (x, y, z) = Sized-pow info w sized in
      rw (← p, ← q) (argument-long major info w v rest x y z l (long-IsMinimal major info w v e))
]
