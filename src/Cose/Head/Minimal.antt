-- ===== src/Cose/Head/Minimal.antt =====
-- The reader accepts a head only in the form in which it is written.
use custody.Base.{
  ℕ, zero, suc, ◌+◌, ◌-◌, ◌*◌, ◌/◌, ◌%◌, ◌^◌, ◌<◌, ltb, ◌==◌, ◌≡◌, ◌≢◌, inl, inr, refl, sym, ap,
  ◌∙◌, true, false, [], ◌∷◌, ◌++◌, Option, none, some, arith, length, take, drop, length-append,
  length-take, take-append-drop, Bool-cases, All, All-take, snoc-cases,
}
use custody.Crypto.{Bytes}
use custody.Crypto.HexLaws.{IsByte}
use custody.Cose.Head.{to_be, from_be, head, long_head, read_bytes, argument, checked, is_minimal}
use custody.Cose.Head.RoundTrip.{Sized, head-cases, length-to_be, from_be-append}

All-snoc : (ys : Bytes) (y : ℕ) → All IsByte (ys ++ y ∷ []) → All IsByte ys × (y < 256)
All-snoc [] y h = (tt, h.0)
All-snoc (x ∷ ys) y h = let (a, b) = All-snoc ys y h.1 in ((h.0, a), b)

to_be-from_be : (n : ℕ) (bs : Bytes) → length bs ≡ n → All IsByte bs → to_be n (from_be 0 bs) ≡ bs
unfolding to_be
to_be-from_be zero [] h a = refl
to_be-from_be zero (x ∷ bs) h a = absurd (omega arith)
to_be-from_be (suc n) bs h a = elim (snoc-cases bs) [
  | inl e ↦ absurd (omega (arith, ap (length {A = ℕ}) e))
  | inr (ys, y, e) ↦
      let (b, c) = All-snoc ys y (rw e at a) in
      let v : from_be 0 bs ≡ from_be 0 ys * 256 + y = ap (from_be 0) e ∙ from_be-append 0 ys y in
      let q : from_be 0 bs / 256 ≡ from_be 0 ys = omega (arith, v, c) in
      let r : from_be 0 bs % 256 ≡ y = omega (arith, v, c) in
      let k : length ys ≡ n = omega (arith, ap (length {A = ℕ}) e, length-append ys (y ∷ [])) in
      rw (q, r, to_be-from_be n ys k b) (sym e)
]

value_at : Option (ℕ × Bytes) → ℕ
value_at none = 0
value_at (some (v, rest)) = v

left_at : Option (ℕ × Bytes) → Bytes
left_at none = []
left_at (some (v, rest)) = rest

chunk_at : Option (Bytes × Bytes) → Bytes
chunk_at none = []
chunk_at (some (chunk, rest)) = chunk

rest_at : Option (Bytes × Bytes) → Bytes
rest_at none = []
rest_at (some (chunk, rest)) = rest

none-ne : {A : Type 0} {a : A} → ◌≢◌ {A = Option A} none (some a)
none-ne h = cc h

-- What a long head was read from.
checked-some :
    (major w v : ℕ) (x : Option (Bytes × Bytes)) (rest : Bytes)
    → checked major w x ≡ some (v, rest)
    → (chunk : Bytes) × (x ≡ some (chunk, rest))
      × (from_be 0 chunk ≡ v)
      × (is_minimal w (head major v) ≡ true)
unfolding value_at left_at
checked-some major w v none rest h = cc
checked-some major w v (some (chunk, left)) rest h =
    elim (Bool-cases (is_minimal w (head major (from_be 0 chunk)))) [
      | inr longer ↦ absurd (none-ne (rw longer at h))
      | inl yes_ ↦
          let e : from_be 0 chunk ≡ v = ap value_at (rw yes_ at h) in
          let l : left ≡ rest = ap left_at (rw yes_ at h) in (chunk, rw l refl, e, rw (← e) yes_)
    ]

read_bytes-some :
    (n : ℕ) (bytes chunk rest : Bytes)
    → read_bytes n bytes ≡ some (chunk, rest)
    → (bytes ≡ chunk ++ rest) × (length chunk ≡ n) × (chunk ≡ take n bytes)
unfolding read_bytes chunk_at rest_at
read_bytes-some n bytes chunk rest h = elim (Bool-cases (ltb (length bytes) n)) [
  | inl long ↦ absurd (none-ne (rw long at h))
  | inr fits ↦
      let c : take n bytes ≡ chunk = ap chunk_at (rw fits at h) in
      let r : drop n bytes ≡ rest = ap rest_at (rw fits at h) in
      (
        rw (← c, ← r) (sym (take-append-drop n bytes)),
        rw (← c) (ground (arith, length-take n bytes)),
        sym c,
      )
]

pow-of : (m n : ℕ) → m ≡ n → 2 ^ (m - 24) ≡ 2 ^ (n - 24)
pow-of m n e = ap (λ k. 2 ^ (k - 24)) e

Sized-of : (info : ℕ) → 23 < info → info < 28 → Sized info (2 ^ (info - 24))
Sized-of info l u = elim (Bool-cases (info == 24)) [
  | inl e ↦ inl (ground arith, pow-of info 24 (ground arith))
  | inr a ↦ elim (Bool-cases (info == 25)) [
    | inl e ↦ inr (inl (ground arith, pow-of info 25 (ground arith)))
    | inr b ↦ elim (Bool-cases (info == 26)) [
      | inl e ↦ inr (inr (inl (ground arith, pow-of info 26 (ground arith))))
      | inr c ↦ inr (inr (inr (ground arith, pow-of info 27 (ground arith))))
    ]
  ]
]

Sized-positive : (info w : ℕ) → Sized info w → 0 < w
Sized-positive info w (inl (p, q)) = omega arith
Sized-positive info w (inr (inl (p, q))) = omega arith
Sized-positive info w (inr (inr (inl (p, q)))) = omega arith
Sized-positive info w (inr (inr (inr (p, q)))) = omega arith

Sized-same : (info info' w : ℕ) → Sized info w → Sized info' w → info ≡ info'
Sized-same info info' w s s' = ground arith

false-ne-true : false ≢ true
false-ne-true h = cc h

too_short : {w : ℕ} → 0 < w → (1 == w + 1) ≢ true
too_short l h = ground arith

same_length :
    (major info w w' v : ℕ) → (length (long_head major info w' v) == w + 1) ≡ true → w' ≡ w
same_length major info w w' v h = ground (arith, length-to_be w' v)

head-short : (b v : ℕ) → ltb (b % 32) 24 ≡ true → b % 32 ≡ v → head (b / 32) v ≡ some (b ∷ [])
unfolding head
head-short b v h p =
    let s : ltb v 24 ≡ true = ground arith in
    let f : b / 32 * 32 + v ≡ b = omega (arith, p) in rw (s, f) refl

-- A head of the length that was read is the head that was read.
head-read :
    (b w v : ℕ) (chunk : Bytes)
    → Sized (b % 32) w
    → is_minimal w (head (b / 32) v) ≡ true
    → to_be w v ≡ chunk
    → head (b / 32) v ≡ some (b ∷ chunk)
head-read b w v chunk s m t = elim (head-cases (b / 32) v) [
  | inl n ↦ absurd (false-ne-true (ap (is_minimal w) (sym n) ∙ m))
  | inr (inl (l, e)) ↦ absurd (too_short (Sized-positive (b % 32) w s) (rw e at m))
  | inr (inr (info, w', s', l, e)) ↦
      let k : w' ≡ w = same_length (b / 32) info w w' v (rw e at m) in
      let i : info ≡ b % 32 = Sized-same info (b % 32) w (rw k at s') s in
      let f : b / 32 * 32 + b % 32 ≡ b = omega arith in e ∙ rw (k, i, f, t) refl
]

-- What `argument` accepts is minimal: the initial byte and the bytes that it read, all of them
-- below 256, are the head that `head` writes for the argument under the major type of the initial
-- byte.
pub argument_minimal :
    (b v : ℕ) (bytes rest : Bytes)
    → All IsByte bytes
    → argument b bytes ≡ some (v, rest)
    → (bs : Bytes) × (head (b / 32) v ≡ some (b ∷ bs)) × (bytes ≡ bs ++ rest)
unfolding argument value_at left_at
argument_minimal b v bytes rest a h = elim (Bool-cases (ltb (b % 32) 24)) [
  | inl short ↦
      let p : b % 32 ≡ v = ap value_at (rw short at h) in
      let q : bytes ≡ rest = ap left_at (rw short at h) in ([], head-short b v short p, q)
  | inr long ↦ elim (Bool-cases (b % 32 == 31)) [
    | inl indefinite ↦ absurd (none-ne (rw (long, indefinite) at h))
    | inr definite ↦ elim (Bool-cases (ltb 27 (b % 32))) [
      | inl reserved ↦ absurd (none-ne (rw (long, definite, reserved) at h))
      | inr sized ↦
          let w = 2 ^ (b % 32 - 24) in
          let (chunk, x, f, m) =
            checked-some (b / 32) w v (read_bytes w bytes) rest (rw (long, definite, sized) at h) in
          let (e, l, k) = read_bytes-some w bytes chunk rest x in
          let t : to_be w v ≡ chunk =
            ap (to_be w) (sym f) ∙ to_be-from_be w chunk l (rw k (All-take IsByte w bytes a)) in
          (chunk, head-read b w v chunk (Sized-of (b % 32) (ground arith) (ground arith)) m t, e)
    ]
  ]
]
