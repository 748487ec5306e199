-- ===== src/Ts/Log/Receipts.antt =====
-- The receipt that a registration returns verifies with the log's public key.
use custody.Base.{
  ℕ, ◌≡◌, refl, String, true, false, List, [], ◌∷◌, ◌++◌, some, arith, length, map, All, All-append,
  get_elem?-append, ◌≟◌, eq_iff, ◌≢◌, Bool-cases, List-cases, inl, inr,
}
use Prim.Native.Char.{Char}
use custody.Crypto.{Bytes, Primitives, hex}
use custody.Crypto.HexLaws.{from_hex-hex}
use custody.Statements.{Statement}
use custody.Ts.Merkle.{leaf_hash, mth, inclusion_path, verify_inclusion}
use custody.Ts.Merkle.Completeness.{verify_inclusion-inclusion_path}
use custody.Ts.Merkle.Digests.{AreBytes, mth-AreBytes, inclusion_path-AreBytes}
use custody.Ts.Log.Registration.{leaf_of}
use custody.Crypto.{from_hex}
use custody.Ts.Log.{
  Log, LogCodec, RegistrationReceipt, valid, KeyPair, proof_bytes, signature_bytes, check_proof,
  verify_receipt, make_receipt, append, Registered, refused, accepted, register, check_policy,
}

-- SHA-256 returns bytes, and the key's signatures are nonempty byte strings that verify.
pub record Works (prim : Primitives) (key : KeyPair) : Type 0 where
  pub hash_bytes : (b : Bytes) → AreBytes (prim.sha256 b)
  pub signature_bytes : (m : Bytes) → AreBytes (key.sign m)
  pub signature_nonempty : (m : Bytes) → key.sign m ≢ []
  pub verifies : (m : Bytes) → prim.verify key.public_key m (key.sign m) ≡ true

proof_bytes-map-hex :
    (path : List Bytes) → All AreBytes path → proof_bytes (map hex path) ≡ some path
unfolding proof_bytes
proof_bytes-map-hex [] h = refl
proof_bytes-map-hex (p ∷ path) h = ground (arith, from_hex-hex p h.0, proof_bytes-map-hex path h.1)

cons_nonempty : (c : Char) (t : String) → (String.◌∷◌ c t ≟ "") ≡ false
cons_nonempty c t = elim (Bool-cases (String.◌∷◌ c t ≟ "")) [
  | inl same ↦ cc ((eq_iff (String.◌∷◌ c t) "").0 same)
  | inr other ↦ other
]

hex-nonempty : (x : ℕ) (b : Bytes) → (hex (x ∷ b) ≟ "") ≡ false
unfolding hex
hex-nonempty x b = cons_nonempty _ _

pub signature_bytes-hex : (b : Bytes) → AreBytes b → b ≢ [] → signature_bytes (hex b) ≡ some b
unfolding signature_bytes
signature_bytes-hex [] h n = absurd (n refl)
signature_bytes-hex (x ∷ b) h n = rw (hex-nonempty x b) (from_hex-hex (x ∷ b) h)

module _ (prim : Primitives) (codec : LogCodec) where
  -- The five conditions under which a receipt is valid.
  verify_receipt-valid :
      (r : RegistrationReceipt) (s : Statement) (key sig root : Bytes) (proof : List Bytes)
      → signature_bytes r.signature ≡ some sig
      → prim.verify key (codec.signed_bytes r.body) sig ≡ true
      → hex (leaf_of prim codec s) ≡ r.body.leaf_hash
      → proof_bytes r.inclusion_proof ≡ some proof
      → from_hex r.body.root_hash ≡ some root
      → verify_inclusion prim.sha256 r.body.leaf_index r.body.tree_size
          (leaf_of prim codec s)
          proof
          root
        ≡ true
      → verify_receipt prim codec r s key ≡ valid
  unfolding verify_receipt check_proof
  verify_receipt-valid r s key sig root proof p q l pr rt v =
      ground (arith, eq_iff (hex (leaf_of prim codec s)) r.body.leaf_hash)

  append-verify_receipt :
      (log : Log) (s : Statement) (now : ℕ)
      → Works prim log.key
      → All AreBytes log.leaves
      → verify_receipt prim codec (append prim codec log s now).1 s log.key.public_key ≡ valid
  unfolding append make_receipt
  append-verify_receipt log s now w b =
      let lh = leaf_of prim codec s in
      let leaves = log.leaves ++ lh ∷ [] in
      let bytes : All AreBytes leaves =
        All-append AreBytes log.leaves _ b (unfold leaf_hash in w.hash_bytes _, tt) in
      let idx = length log.leaves in
      let m = codec.signed_bytes (append prim codec log s now).1.body in
      let path = inclusion_path prim.sha256 idx leaves in
      verify_receipt-valid (append prim codec log s now).1 s log.key.public_key (log.key.sign m)
        (mth prim.sha256 leaves) path
        (signature_bytes-hex (log.key.sign m) (w.signature_bytes m) (w.signature_nonempty m))
        (w.verifies m) refl
        (proof_bytes-map-hex path
          (inclusion_path-AreBytes prim.sha256 w.hash_bytes idx leaves bytes))
        (from_hex-hex (mth prim.sha256 leaves) (mth-AreBytes prim.sha256 w.hash_bytes leaves bytes))
        (verify_inclusion-inclusion_path prim.sha256 leaves idx lh (get_elem?-append log.leaves lh))

  abbrev pub Vouches : Log → Statement → Registered → Type 0
  Vouches log s (accepted receipt) = verify_receipt prim codec receipt s log.key.public_key ≡ valid
  Vouches log s (refused reasons) = reasons ≢ []

  -- A receipt that `register` returns passes `verify_receipt` for that statement under the log's
  -- public key, and a refusal gives at least one reason. The key's signatures verify, and hashes,
  -- signatures and leaves consist of bytes.
  pub register-verify_receipt :
      (log : Log) (s : Statement) (now : ℕ)
      → Works prim log.key
      → All AreBytes log.leaves
      → Vouches log s (register prim codec log s now).1
  unfolding register
  register-verify_receipt log s now w b = elim (List-cases (check_policy prim codec log s)) [
    | inl e ↦ rw e (append-verify_receipt log s now w b)
    | inr (r, rs, e) ↦ rw e (λ p. cc p)
  ]
