-- ===== src/Examples/Heads.antt =====
-- Heads of CBOR items.
use custody.Base.{◌≡◌, refl, [], ◌∷◌, ◌++◌, some, arith}
use custody.Crypto.{Bytes}
use custody.Cose.Head.{head, argument, to_be, from_be, read_bytes}
use custody.Cose.Head.RoundTrip.{argument-head}
use custody.Cose.Head.Minimal.{argument_minimal}

-- The head of a text of 500 bytes, major type 3.
written : head 3 500 ≡ some (121 ∷ 1 ∷ 244 ∷ [])
unfolding head to_be
written = refl

argument-head_example : argument 121 ((1 ∷ 244 ∷ []) ++ (7 ∷ [])) ≡ some (500, 7 ∷ [])
argument-head_example = argument-head 3 500 121 (1 ∷ 244 ∷ []) (7 ∷ []) written

was_read : argument 121 (1 ∷ 244 ∷ 7 ∷ []) ≡ some (500, 7 ∷ [])
unfolding head to_be argument read_bytes from_be
was_read = refl

argument_minimal_example :
    (bs : Bytes) × (head 3 500 ≡ some (121 ∷ bs)) × (1 ∷ 244 ∷ 7 ∷ [] ≡ bs ++ 7 ∷ [])
argument_minimal_example =
    argument_minimal 121 500 (1 ∷ 244 ∷ 7 ∷ []) (7 ∷ [])
      (omega arith, (omega arith, (omega arith, tt))) was_read
