-- ===== src/Examples/Trees.antt =====
-- Runs of the Merkle tree.
use custody.Base.{◌≡◌, refl, true, List, [], ◌∷◌, replicate, get_elem?, some, ◌⊎◌}
use custody.Crypto.{Bytes}
use custody.Ts.Merkle.{mth, inclusion_path, verify_inclusion}
use custody.Ts.Merkle.Soundness.{Collision, verify_inclusion_sound}
use custody.Ts.Merkle.Completeness.{verify_inclusion-inclusion_path}
use custody.Ts.Merkle.Injective.{mth-injective}
use custody.Examples.{toy_hash, toy_hash-IsDigest}

abbrev three : List Bytes
three = replicate 32 1 ∷ replicate 32 2 ∷ replicate 32 3 ∷ []

inclusion_path_example :
    verify_inclusion toy_hash 2 3
      (replicate 32 3)
      (inclusion_path toy_hash 2 three)
      (mth toy_hash three)
    ≡ true
inclusion_path_example = verify_inclusion-inclusion_path toy_hash three 2 (replicate 32 3) refl

inclusion_sound_example : (get_elem? three 2 ≡ some (replicate 32 3)) ⊎ Collision toy_hash
inclusion_sound_example =
    verify_inclusion_sound toy_hash toy_hash-IsDigest three 2 (replicate 32 3)
      (inclusion_path toy_hash 2 three) (refl, (refl, (refl, tt))) refl inclusion_path_example

abbrev other_three : List Bytes
other_three = replicate 32 1 ∷ replicate 32 2 ∷ replicate 32 3 ∷ []

injective_example : (three ≡ other_three) ⊎ Collision toy_hash
injective_example =
    mth-injective toy_hash toy_hash-IsDigest three other_three refl (refl, (refl, (refl, tt)))
      (refl, (refl, (refl, tt))) refl
