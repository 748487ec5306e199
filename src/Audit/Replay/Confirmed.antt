-- ===== src/Audit/Replay/Confirmed.antt =====
-- What an audit without a finding says of each verdict in the log.
use custody.Base.{
  ◌≡◌, ◌⊎◌, refl, ap, sym, ◌∙◌, String, true, Bool-cases, Option-cases, List, [], ◌∷◌, Option, none,
  some, contains, inl, inr, arith, eq_iff, ◌≟◌, ◌&&◌,
}
use mathlib.Core.Path.{subst}
use custody.Crypto.{Bytes, Primitives}
use custody.Statements.Envelope.{sub}
use custody.Reconcile.Evidence.{PrivateEvidence}
use custody.Reconcile.Engine.{Engine}
use custody.Ts.Log.{LogCodec}
use custody.Ts.Anchor.{Checkpoint}
use custody.Audit.HeldReceipts.{AuditEntry}
use custody.Audit.VerdictSignature.{after, sorted, insert_sorted}
use custody.Audit.Verdicts.{
  Auditor, Comparison, Checked, envelope_problem, is_none, is_verdict, verdicts_of,
  unauthenticated_of, compare_verdict, compare_verdicts, comparisons, checked_of, check_sub,
  all_match,
}
use custody.Audit.Replay.{check_subs, all_confirmed, none_there}

-- The entry stands in the list.
abbrev pub In : AuditEntry → List AuditEntry → Type 0
In e [] = ⊥
In e (x ∷ xs) = (x ≡ e) ⊎ In e xs

contains-insert_sorted :
    (a s : String) (xs : List String)
    → contains (a ∷ xs) s ≡ true
    → contains (insert_sorted a xs) s ≡ true
unfolding contains insert_sorted
contains-insert_sorted a s [] h = h
contains-insert_sorted a s (x ∷ xs) h = elim (Bool-cases (after x a)) [
  | inl first ↦ rw first h
  | inr later ↦ rw later (ground (arith, contains-insert_sorted a s xs))
]

pub contains-sorted :
    (s : String) (xs : List String) → contains xs s ≡ true → contains (sorted xs) s ≡ true
unfolding contains sorted
contains-sorted s [] h = h
contains-sorted s (x ∷ xs) h =
    contains-insert_sorted x s (sorted xs)
      (unfold contains in (ground (arith, contains-sorted s xs)))

pub some-injective : {A : Type 0} (a b : A) → some a ≡ some b → a ≡ b
some-injective a b h = cc

confirmed-cons :
    (c : Checked) (cs : List Checked)
    → all_confirmed (c ∷ cs) ≡ true
    → (c.matches ≡ true) × (none_there c.unauthenticated ≡ true) × (all_confirmed cs ≡ true)
unfolding all_confirmed
confirmed-cons c cs h = ground arith

module _ (prim : Primitives) (codec : LogCodec) (private_bytes : PrivateEvidence → Bytes) where
  -- A verdict that was judged again with the same result.
  pub record Confirms (engine : Engine) (a : Auditor) (entries : List AuditEntry) (s : String)
      (e : AuditEntry) : Type 0 where
    pub authentic : envelope_problem prim codec.statements private_bytes a e.statement ≡ none
    pub comparison : Comparison
    pub compared :
        compare_verdict prim codec.statements private_bytes engine a entries s e ≡ some comparison
    pub same : comparison.matches ≡ true

  this-authentic :
      (a : Auditor) (x : AuditEntry) (es : List AuditEntry) (s : String)
      → none_there (unauthenticated_of prim codec.statements private_bytes a (x ∷ es) s) ≡ true
      → sub x.statement ≡ s
      → is_verdict x ≡ true
      → envelope_problem prim codec.statements private_bytes a x.statement ≡ none
  unfolding unauthenticated_of
  this-authentic a x es s h q v =
      elim (Option-cases (envelope_problem prim codec.statements private_bytes a x.statement)) [
        | inl fine ↦ fine
        | inr (p, e) ↦ absurd (ground (arith, eq_iff (sub x.statement) s))
      ]

  rest-authentic :
      (a : Auditor) (x : AuditEntry) (es : List AuditEntry) (s : String)
      → none_there (unauthenticated_of prim codec.statements private_bytes a (x ∷ es) s) ≡ true
      → none_there (unauthenticated_of prim codec.statements private_bytes a es s) ≡ true
  unfolding unauthenticated_of
  rest-authentic a x es s h =
      elim (Option-cases (envelope_problem prim codec.statements private_bytes a x.statement)) [
        | inl fine ↦ ground arith
        | inr (p, e) ↦ ground arith
      ]

  unauthenticated-In :
      (a : Auditor) (es : List AuditEntry) (s : String) (e : AuditEntry)
      → none_there (unauthenticated_of prim codec.statements private_bytes a es s) ≡ true
      → In e es
      → sub e.statement ≡ s
      → is_verdict e ≡ true
      → envelope_problem prim codec.statements private_bytes a e.statement ≡ none
  unauthenticated-In a [] s e h i q v = absurd i
  unauthenticated-In a (x ∷ es) s e h (inl p) q v =
      subst
        (λ (y : AuditEntry).
          envelope_problem prim codec.statements private_bytes a y.statement ≡ none)
        p
        (this-authentic a x es s h (ap (λ (y : AuditEntry). sub y.statement) p ∙ q)
          (ap is_verdict p ∙ v))
  unauthenticated-In a (x ∷ es) s e h (inr i) q v =
      unauthenticated-In a es s e (rest-authentic a x es s h) i q v

  verdicts_of-In :
      (a : Auditor) (es : List AuditEntry) (s : String) (e : AuditEntry)
      → In e es
      → sub e.statement ≡ s
      → is_verdict e ≡ true
      → envelope_problem prim codec.statements private_bytes a e.statement ≡ none
      → In e (verdicts_of prim codec.statements private_bytes a es s)
  unfolding verdicts_of
  verdicts_of-In a [] s e i q v n = absurd i
  verdicts_of-In a (x ∷ es) s e (inl p) q v n =
      let kept : ((sub x.statement ≟ s && is_verdict x)
            && is_none (envelope_problem prim codec.statements private_bytes a x.statement))
          ≡ true =
        subst
          (λ (y : AuditEntry).
            ((sub y.statement ≟ s && is_verdict y)
              && is_none (envelope_problem prim codec.statements private_bytes a y.statement))
            ≡ true)
          (sym p) (ground (arith, eq_iff (sub e.statement) s)) in
      rw kept (inl p)
  verdicts_of-In a (x ∷ es) s e (inr i) q v n =
      let later = verdicts_of-In a es s e i q v n in
      elim (Bool-cases (
        (sub x.statement ≟ s && is_verdict x)
        && is_none (envelope_problem prim codec.statements private_bytes a x.statement))) [
          | inl kept ↦ rw kept (inr later)
          | inr skipped ↦ rw skipped later
        ]

  compare_verdicts-In :
      (engine : Engine) (a : Auditor) (entries : List AuditEntry) (s : String)
      (vs : List AuditEntry) (e : AuditEntry) (cs : List Comparison)
      → compare_verdicts prim codec.statements private_bytes engine a entries s vs ≡ some cs
      → all_match cs ≡ true
      → In e vs
      → (c : Comparison) × (compare_verdict prim codec.statements private_bytes engine a entries s e
          ≡ some c)
        × (c.matches ≡ true)
  unfolding compare_verdicts
  compare_verdicts-In engine a entries s [] e cs h m i = absurd i
  compare_verdicts-In engine a entries s (x ∷ vs) e cs h m i =
      elim (Option-cases
        (compare_verdict prim codec.statements private_bytes engine a entries s x)) [
          | inl failed ↦ absurd (ground arith)
          | inr (c, ec) ↦
              elim (Option-cases
                (compare_verdicts prim codec.statements private_bytes engine a entries s vs)) [
                  | inl failed ↦ absurd (ground arith)
                  | inr (cs', es) ↦
                      let split : cs ≡ c ∷ cs' = ground arith in
                      let both : (c.matches && all_match cs') ≡ true =
                        subst (λ l. all_match l ≡ true) split m in
                      elim i [
                        | inl p ↦ (c, rw⁻¹ p ec, ground arith)
                        | inr j ↦
                            compare_verdicts-In engine a entries s vs e cs' es (ground arith) j
                      ]
                ]
        ]

  comparisons-In :
      (engine : Engine) (a : Auditor) (entries : List AuditEntry) (s : String)
      (vs : List AuditEntry) (e : AuditEntry) (cs : List Comparison)
      → comparisons prim codec.statements private_bytes engine a entries s vs ≡ some cs
      → all_match cs ≡ true
      → In e vs
      → (c : Comparison) × (compare_verdict prim codec.statements private_bytes engine a entries s e
          ≡ some c)
        × (c.matches ≡ true)
  comparisons-In engine a entries s [] e cs h m i = absurd i
  comparisons-In engine a entries s (x ∷ vs) e cs h m i =
      compare_verdicts-In engine a entries s (x ∷ vs) e cs h m i

  checked_of-some :
      (a : Auditor) (entries : List AuditEntry) (s : String) (o : Option (List Comparison))
      (c : Checked)
      → checked_of prim codec.statements private_bytes a entries s o ≡ some c
      → (cs : List Comparison) × (o ≡ some cs)
        × (c.matches ≡ all_match cs)
        × (c.unauthenticated ≡ unauthenticated_of prim codec.statements private_bytes a entries s)
  checked_of-some a entries s none c h = cc
  checked_of-some a entries s (some cs) c h =
      let e = some-injective _ c h in
      (
        cs,
        refl,
        ap (λ (x : Checked). x.matches) (sym e),
        ap (λ (x : Checked). x.unauthenticated) (sym e),
      )

  pub check_sub-Confirms :
      (engine : Engine) (a : Auditor) (entries : List AuditEntry) (s : String) (c : Checked)
      (e : AuditEntry)
      → check_sub prim codec.statements private_bytes engine a entries s ≡ some c
      → c.matches ≡ true
      → none_there c.unauthenticated ≡ true
      → In e entries
      → sub e.statement ≡ s
      → is_verdict e ≡ true
      → Confirms engine a entries s e
  unfolding check_sub
  check_sub-Confirms engine a entries s c e h m n i q v =
      let (cs, ecs, em, eu) = checked_of-some a entries s _ c h in
      let authentic =
        unauthenticated-In a entries s e (subst (λ u. none_there u ≡ true) eu n) i q v in
      let (x, ex, mx) =
        comparisons-In engine a entries s
          (verdicts_of prim codec.statements private_bytes a entries s) e cs ecs (sym em ∙ m)
          (verdicts_of-In a entries s e i q v authentic) in
      record { authentic = authentic; comparison = x; compared = ex; same = mx }

  pub check_subs-contains :
      (verify_tsa : Checkpoint → Option String) (engine : Engine) (a : Auditor)
      (entries : List AuditEntry) (ss : List String) (cs : List Checked) (s : String)
      → check_subs prim codec private_bytes verify_tsa engine a entries ss ≡ some cs
      → all_confirmed cs ≡ true
      → contains ss s ≡ true
      → (c : Checked) × (check_sub prim codec.statements private_bytes engine a entries s ≡ some c)
        × (c.matches ≡ true)
        × (none_there c.unauthenticated ≡ true)
  unfolding check_subs contains
  check_subs-contains verify_tsa engine a entries [] cs s h k i = cc
  check_subs-contains verify_tsa engine a entries (x ∷ ss) cs s h k i =
      elim (Option-cases (check_sub prim codec.statements private_bytes engine a entries x)) [
        | inl failed ↦ absurd (ground arith)
        | inr (c, ec) ↦
            elim (Option-cases
              (check_subs prim codec private_bytes verify_tsa engine a entries ss)) [
                | inl failed ↦ absurd (ground arith)
                | inr (cs', es) ↦
                    let split : cs ≡ c ∷ cs' = ground arith in
                    let (mc, nc, rest) =
                      confirmed-cons c cs' (subst (λ l. all_confirmed l ≡ true) split k) in
                    elim (Bool-cases (x ≟ s)) [
                      | inl same ↦ (
                        c,
                        subst
                            (λ t.
                              check_sub prim codec.statements private_bytes engine a entries t
                              ≡ some c)
                            ((eq_iff x s).0 same) ec,
                        mc,
                        nc,
                      )
                      | inr other ↦
                          check_subs-contains verify_tsa engine a entries ss cs' s es rest
                            (ground arith)
                    ]
              ]
      ]
