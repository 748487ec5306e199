-- ===== src/Sim/Messages/Commits.antt =====
-- Commits of two bodies.
use custody.Base.{
  ◌≡◌, ◌⊎◌, sym, ◌∙◌, String, Option-cases, Option, none, some, length, ◌++◌, inl, inr, arith,
  append-injective,
}
use custody.Crypto.{Bytes, Primitives, hex, from_hex, commit, commit_hex}
use custody.Crypto.HexLaws.{from_hex-hex, hex-injective}
use custody.Ts.Merkle.Soundness.{Collision, same_preimage}
use custody.Ts.Merkle.Digests.{AreBytes}
use custody.Sim.Messages.{Bodies, commit_body}

module _ (prim : Primitives) (hash_bytes : (b : Bytes) → AreBytes (prim.sha256 b)) where
  -- What a commit is the hash of.
  record Opens (content : Bytes) (c : String) : Type 0 where
    salt : Bytes
    fits : length salt ≡ 32
    is_hash : c ≡ hex (prim.sha256 (salt ++ content))

  commit-Opens :
      (salt content b : Bytes)
      → commit prim salt content ≡ some b
      → (length salt ≡ 32) × (b ≡ prim.sha256 (salt ++ content))
  unfolding commit
  commit-Opens salt content b h = ground arith

  commit_hex-Opens :
      (salt c : String) (content : Bytes)
      → AreBytes content
      → commit_hex prim salt (hex content) ≡ some c
      → Opens content c
  unfolding commit_hex
  commit_hex-Opens salt c content bytes h = elim (Option-cases (from_hex salt)) [
    | inl no_salt ↦ absurd (ground arith)
    | inr (s, es) ↦ elim (Option-cases (commit prim s content)) [
      | inl no_commit ↦ absurd (ground (arith, from_hex-hex content bytes))
      | inr (b, eb) ↦
          let (l, e) = commit-Opens s content b eb in
          record { salt = s; fits = l; is_hash = ground (arith, from_hex-hex content bytes) }
    ]
  ]

  Opens-injective :
      (a b : Bytes) (c : String) → Opens a c → Opens b c → (a ≡ b) ⊎ Collision prim.sha256
  Opens-injective a b c x y =
      let same =
        hex-injective (prim.sha256 (x.salt ++ a)) (prim.sha256 (y.salt ++ b)) (hash_bytes _)
          (hash_bytes _) (sym x.is_hash ∙ y.is_hash) in
      elim (same_preimage prim.sha256 (x.salt ++ a) (y.salt ++ b) same) [
        | inl e ↦ inl (append-injective x.salt a y.salt b (x.fits ∙ sym y.fits) e).1
        | inr collision ↦ inr collision
      ]

  module _ (bodies : Bodies) where
    commit_body-Opens :
        (salt : Option String) (body : bodies.Body) (c : String)
        → commit_body prim bodies salt body ≡ some (some c)
        → Opens (prim.sha256 (bodies.canonical_json body)) c
    unfolding commit_body
    commit_body-Opens none body c h = cc
    commit_body-Opens (some salt) body c h =
        commit_hex-Opens salt c (prim.sha256 (bodies.canonical_json body)) (hash_bytes _)
          (ground arith)

    -- Two bodies with one commit, whatever the salts, are serialised alike, or SHA-256 has a
    -- collision.
    pub commit_body-injective :
        (salt salt' : Option String) (a b : bodies.Body) (c : String)
        → commit_body prim bodies salt a ≡ some (some c)
        → commit_body prim bodies salt' b ≡ some (some c)
        → (bodies.canonical_json a ≡ bodies.canonical_json b) ⊎ Collision prim.sha256
    commit_body-injective salt salt' a b c h h' =
        elim (Opens-injective _ _ c (commit_body-Opens salt a c h)
          (commit_body-Opens salt' b c h')) [
            | inl e ↦
                same_preimage prim.sha256 (bodies.canonical_json a) (bodies.canonical_json b) e
            | inr collision ↦ inr collision
          ]
