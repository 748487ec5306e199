-- ===== src/Runtime/Enrollment/Chains.antt =====
-- The history of an accepted deployment.
use custody.Base.{
  ℕ, suc, ◌+◌, ◌≡◌, ◌≤◌, refl, String, Bool, true, false, List, [], ◌∷◌, Option, none, some, length,
  arith, eq_iff, leb→le, ==→eq, if◌then◌else◌, ◌&&◌,
}
use custody.Crypto.{Primitives}
use custody.Ts.Log.{LogCodec}
use custody.Runtime.Enrollment.{
  Outside, fingerprint, proposal_ok, follows, starts, subset, keys, is_text, verify_checkpoint,
}
use custody.Runtime.Enrollment.Documents.{Proposal, Bundle, first, successor, proposal_of}
use custody.Runtime.Enrollment.Deployments.{
  generation, Generation, verify_deployment, deployment_history, endorsed, succeeds,
}

pub if-some :
    (b : Bool) (f h : String) → (if b then some f else none) ≡ some h → (b ≡ true) × (h ≡ f)
if-some true f h e = (refl, cc)
if-some false f h e = cc

pub and-true : (a b : Bool) → (a && b) ≡ true → (a ≡ true) × (b ≡ true)
and-true true b h = (refl, h)
and-true false b h = cc

succeeds-some :
    (prim : Primitives) (codec : LogCodec) (outside : Outside) (o : Option String)
    → succeeds prim codec outside o ≡ true
    → (h : String) × (o ≡ some h)
succeeds-some prim codec outside none h = cc
succeeds-some prim codec outside (some s) h = (s, refl)

pub is_text→eq : (a : Option String) (t : String) → is_text a t ≡ true → a ≡ some t
is_text→eq none t h = cc
is_text→eq (some s) t h = ground (arith, eq_iff s t)

-- Each epoch names the one before it, down to the first.
abbrev pub Linked : List Generation → Type 0
Linked [] = ⊥
Linked (g ∷ []) = g.epoch ≡ 1
Linked (g ∷ h ∷ gs) =
    (g.epoch ≡ suc h.epoch) × (g.previous_hash ≡ some h.deployment_hash) × Linked (h ∷ gs)

module _ (prim : Primitives) (codec : LogCodec) (outside : Outside) where
  -- What the acceptance of one epoch shows.
  abbrev pub Accepted : ℕ → Bundle → Type 0
  Accepted depth (first p es) =
      (depth ≤ 32)
      × (proposal_ok prim codec outside p ≡ true)
      × (starts prim codec outside p ≡ true)
      × (endorsed prim codec outside p none es ≡ true)
  Accepted depth (successor p es previous) =
      (depth ≤ 32)
      × (proposal_ok prim codec outside p ≡ true)
      × (follows prim codec outside p (proposal_of previous) ≡ true)
      × (endorsed prim codec outside p (some (proposal_of previous)) es ≡ true)
      × Accepted (suc depth) previous

  pub verify_deployment-Accepted :
      (depth : ℕ) (b : Bundle) (h : String)
      → verify_deployment prim codec outside depth b ≡ some h
      → (h ≡ fingerprint prim codec outside (proposal_of b)) × Accepted depth b
  unfolding verify_deployment
  verify_deployment-Accepted depth (first p es) h v =
      let (t, e) = if-some _ _ h v in
      let (a, r) = and-true _ _ t in
      let (ok, r') = and-true _ _ r in
      let (st, en) = and-true _ _ r' in (e, (leb→le depth 32 a, ok, st, en))
  verify_deployment-Accepted depth (successor p es previous) h v =
      let (t, e) = if-some _ _ h v in
      let (a, r) = and-true _ _ t in
      let (ok, r') = and-true _ _ r in
      let (before, r'') = and-true _ _ r' in
      let (fo, en) = and-true _ _ r'' in
      let (h', e') = succeeds-some prim codec outside _ before in
      (
        e,
        (leb→le depth 32 a, ok, fo, en, (verify_deployment-Accepted (suc depth) previous h' e').1),
      )

  starts-epoch : (p : Proposal) → starts prim codec outside p ≡ true → p.epoch ≡ 1
  unfolding starts
  starts-epoch p h = ground arith

  -- What `follows` compares.
  pub record Follows (p old : Proposal) : Type 0 where
    pub hash : p.previous_hash ≡ some (fingerprint prim codec outside old)
    pub epoch : p.epoch ≡ suc old.epoch
    pub same_deployment : p.deployment_id ≡ old.deployment_id
    pub roles_kept : subset (keys p.cards) (keys old.cards) ≡ true
    pub checkpoint : verify_checkpoint prim codec outside old p.previous_checkpoint ≡ true

  follows-Follows : (p old : Proposal) → follows prim codec outside p old ≡ true → Follows p old
  unfolding follows
  follows-Follows p old h =
      let (a, b) = and-true _ _ h in
      let (hash, epoch) = and-true _ _ a in
      let (c, cp) = and-true _ _ b in
      let (id, roles) = and-true _ _ c in
      record {
        hash = is_text→eq p.previous_hash _ hash;
        epoch = ==→eq p.epoch (suc old.epoch) epoch;
        same_deployment = ground (arith, eq_iff p.deployment_id old.deployment_id);
        roles_kept = (and-true _ _ roles).0;
        checkpoint = cp;
      }

  -- The history is linked, its length is the epoch, and no epoch lies deeper than the 32nd.
  abbrev pub Chained : ℕ → Bundle → Type 0
  Chained depth b =
      Linked (deployment_history prim codec outside b)
      × (length (deployment_history prim codec outside b) ≡ (proposal_of b).epoch)
      × (depth + (proposal_of b).epoch ≤ 33)

  Linked-successor :
      (p : Proposal) (g : Generation) (previous : Bundle)
      → g.epoch ≡ suc (proposal_of previous).epoch
      → g.previous_hash ≡ some (fingerprint prim codec outside (proposal_of previous))
      → Linked (deployment_history prim codec outside previous)
      → Linked (g ∷ deployment_history prim codec outside previous)
  unfolding deployment_history
  Linked-successor p g (first q es) e h l = (e, h, l)
  Linked-successor p g (successor q es previous) e h l = (e, h, l)

  Accepted-Chained : (depth : ℕ) (b : Bundle) → Accepted depth b → Chained depth b
  unfolding deployment_history
  Accepted-Chained depth (first p es) (d, ok, st, en) =
      let e = starts-epoch p st in (e, omega (arith, e), omega (arith, e))
  Accepted-Chained depth (successor p es previous) (d, ok, fo, en, before) =
      let f = follows-Follows p (proposal_of previous) fo in
      let (l, n, m) = Accepted-Chained (suc depth) previous before in
      (
        Linked-successor p (generation prim codec outside p) previous f.epoch f.hash l,
        omega (arith, n, f.epoch),
        omega (arith, m, f.epoch),
      )

  -- The history of an accepted bundle is linked: each epoch is one above the next older one and
  -- names its fingerprint, down to epoch 1; the history is as long as the epoch says, and the epoch
  -- is at most 33.
  pub verify_deployment-Chained :
      (b : Bundle) (h : String) → verify_deployment prim codec outside 0 b ≡ some h → Chained 0 b
  verify_deployment-Chained b h v = Accepted-Chained 0 b (verify_deployment-Accepted 0 b h v).1
