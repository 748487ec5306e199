-- ===== src/Runtime/Enrollment/Endorsements.antt =====
-- Who endorsed an accepted deployment.
use custody.Base.{
  ℕ, suc, ◌≡◌, ◌⊎◌, refl, sym, String, true, List, [], ◌∷◌, Option, none, some, lookup, contains,
  arith, eq_iff, Bool-cases, inl, inr, ◌&&◌, ◌≟◌, Option-cases,
}
use mathlib.Core.Path.{subst}
use custody.Crypto.{Primitives}
use custody.Ts.Log.{LogCodec}
use custody.Runtime.Enrollment.{Outside, subset, keys}
use custody.Runtime.Enrollment.Documents.{
  Proposal, Endorsement, Bundle, first, successor, proposal_of,
}
use custody.Runtime.Enrollment.Chains.{and-true, Accepted, verify_deployment-Accepted}
use custody.Runtime.Enrollment.Deployments.{
  signed_by_card, rotation_ok, endorsement_ok, receive, endorsed, verify_deployment,
}

-- The endorsement stands in the list.
abbrev pub Stands : Endorsement → List Endorsement → Type 0
Stands e [] = ⊥
Stands e (x ∷ xs) = (x ≡ e) ⊎ Stands e xs

subset-contains :
    (xs ys : List String) (a : String)
    → subset xs ys ≡ true
    → contains xs a ≡ true
    → contains ys a ≡ true
unfolding subset contains
subset-contains [] ys a h c = cc
subset-contains (x ∷ xs) ys a h c =
    let (hx, hs) = and-true _ _ h in
    elim (Bool-cases (x ≟ a)) [
      | inl same ↦ subst (λ t. contains ys t ≡ true) ((eq_iff x a).0 same) hx
      | inr other ↦ subset-contains xs ys a hs (ground arith)
    ]

module _ (prim : Primitives) (codec : LogCodec) (outside : Outside) where
  -- A role's endorsement: the card of the role signed it, and so did its card of the epoch before.
  pub record Endorses (p : Proposal) (old : Option Proposal) (es : List Endorsement) (role : String)
      : Type 0 where
    pub endorsement : Endorsement
    pub stands : Stands endorsement es
    pub of_role : endorsement.body.role ≡ role
    pub signed :
        signed_by_card prim codec outside (lookup role p.cards) p role endorsement.signature ≡ true
    pub rotated : rotation_ok prim codec outside old p endorsement ≡ true

  later-Endorses :
      (p : Proposal) (old : Option Proposal) (e : Endorsement) (es : List Endorsement)
      (role : String)
      → Endorses p old es role
      → Endorses p old (e ∷ es) role
  later-Endorses p old e es role x = record {
    endorsement = x.endorsement;
    stands = inr x.stands;
    of_role = x.of_role;
    signed = x.signed;
    rotated = x.rotated;
  }

  this-Endorses :
      (p : Proposal) (old : Option Proposal) (received : List String) (e : Endorsement)
      (es : List Endorsement) (role : String)
      → endorsement_ok prim codec outside p old received e ≡ true
      → e.body.role ≡ role
      → Endorses p old (e ∷ es) role
  unfolding endorsement_ok
  this-Endorses p old received e es role h q =
      let (a, b) = and-true _ _ h in
      let (s, r) = and-true _ _ b in
      record { endorsement = e; stands = inl refl; of_role = q; signed = rw⁻¹ q s; rotated = r }

  -- Every role that the loop has received was there before or has an endorsement.
  receive-Endorses :
      (p : Proposal) (old : Option Proposal) (received : List String) (es : List Endorsement)
      (all : List String) (role : String)
      → receive prim codec outside p old received es ≡ some all
      → contains all role ≡ true
      → (contains received role ≡ true) ⊎ Endorses p old es role
  unfolding receive
  receive-Endorses p old received [] all role h c =
      let same : received ≡ all = cc in inl (subst (λ l. contains l role ≡ true) (sym same) c)
  receive-Endorses p old received (e ∷ es) all role h c =
      elim (Bool-cases (endorsement_ok prim codec outside p old received e)) [
        | inr bad ↦ absurd (ground arith)
        | inl ok ↦
            elim (receive-Endorses p old (e.body.role ∷ received) es all role (ground arith) c) [
              | inr x ↦ inr (later-Endorses p old e es role x)
              | inl x ↦ elim (Bool-cases (e.body.role ≟ role)) [
                | inl same ↦
                    inr
                      (this-Endorses p old received e es role ok ((eq_iff e.body.role role).0 same))
                | inr other ↦ inl (unfold contains in (ground arith))
              ]
            ]
      ]

  endorsed-Endorses :
      (p : Proposal) (old : Option Proposal) (es : List Endorsement) (role : String)
      → endorsed prim codec outside p old es ≡ true
      → contains (keys p.cards) role ≡ true
      → Endorses p old es role
  unfolding endorsed
  endorsed-Endorses p old es role h c =
      elim (Option-cases (receive prim codec outside p old [] es)) [
        | inl nothing ↦ absurd (ground arith)
        | inr (all, e) ↦
            let t : (subset all (keys p.cards) && subset (keys p.cards) all) ≡ true =
              ground arith in
            let u = subset-contains (keys p.cards) all role (and-true _ _ t).1 c in
            elim (receive-Endorses p old [] es all role e u) [
              | inl none_ ↦ absurd (unfold contains in cc none_)
              | inr x ↦ x
            ]
      ]

  -- Every operator of every epoch endorsed it, and from the second epoch on with the key of the epoch
  -- before as well.
  abbrev pub Unanimous : Bundle → Type 0
  Unanimous (first p es) =
      (role : String) → contains (keys p.cards) role ≡ true → Endorses p none es role
  Unanimous (successor p es previous) =
      ((role : String)
        → contains (keys p.cards) role ≡ true
        → Endorses p (some (proposal_of previous)) es role)
      × Unanimous previous

  Accepted-Unanimous : (depth : ℕ) (b : Bundle) → Accepted prim codec outside depth b → Unanimous b
  Accepted-Unanimous depth (first p es) (d, ok, st, en) =
      λ role c. endorsed-Endorses p none es role en c
  Accepted-Unanimous depth (successor p es previous) (d, ok, fo, en, before) = (
    λ role c. endorsed-Endorses p (some (proposal_of previous)) es role en c,
    Accepted-Unanimous (suc depth) previous before,
  )

  -- If `verify_deployment` accepts a bundle, then in each of its epochs every role has an
  -- endorsement in the list of that epoch that its card signed for that proposal's fingerprint, and
  -- from the second epoch on the key of that role in the epoch before signed it as well.
  pub verify_deployment-Unanimous :
      (b : Bundle) (h : String) → verify_deployment prim codec outside 0 b ≡ some h → Unanimous b
  verify_deployment-Unanimous b h v =
      Accepted-Unanimous 0 b (verify_deployment-Accepted prim codec outside 0 b h v).1
