-- ===== src/Reconcile/Discrepancies/Classification.antt =====
-- `classify` reports exactly the failed equations.
use mathlib.Core.List.{append_assoc}
use custody.Base.{◌≡◌, refl, ap, ◌∙◌, sym, Bool, List, [], ◌∷◌, ◌++◌, ◌⊎◌, inl, inr}
use custody.Reconcile.Evidence.{Party}
use custody.Reconcile.Equations.{EqId, e1, e2, Outcome, pass, fail, not_evaluable, Results}
use custody.Reconcile.Discrepancies.{
  Discrepancy, explain, classify_from, classify, check_order, has_model_operator, when_failed,
}

-- The equations that a list of discrepancies names.
abbrev pub named : List Discrepancy → List EqId
named [] = []
named (d ∷ ds) = d.equations ++ named ds

-- The failed ones of a list of equations.
abbrev pub failed_of : Results → List EqId → List EqId
failed_of eqs [] = []
failed_of eqs (e ∷ es) = elim (eqs e).outcome [ fail ↦ e ∷ failed_of eqs es | _ ↦ failed_of eqs es ]

-- `d` stands in the list.
abbrev pub Among : Discrepancy → List Discrepancy → Type 0
Among d [] = ⊥
Among d (x ∷ xs) = (d ≡ x) ⊎ Among d xs

pub Among-append_left :
    (d : Discrepancy) (xs ys : List Discrepancy) → Among d xs → Among d (xs ++ ys)
Among-append_left d [] ys h = absurd h
Among-append_left d (x ∷ xs) ys (inl e) = inl e
Among-append_left d (x ∷ xs) ys (inr h) = inr (Among-append_left d xs ys h)

pub Among-append_right :
    (d : Discrepancy) (xs ys : List Discrepancy) → Among d ys → Among d (xs ++ ys)
Among-append_right d [] ys h = h
Among-append_right d (x ∷ xs) ys h = inr (Among-append_right d xs ys h)

-- The one discrepancy of a failed equation names it.
explain-named : (eqs : Results) (has_m : Bool) (e : EqId) → named (explain eqs has_m e) ≡ e ∷ []
unfolding explain
explain-named eqs has_m e1 = refl
explain-named eqs has_m e2 = refl
explain-named eqs has_m _ = refl

named-append : (xs ys : List Discrepancy) → named (xs ++ ys) ≡ named xs ++ named ys
named-append [] ys = refl
named-append (x ∷ xs) ys =
    rw (named-append xs ys) (sym (append_assoc x.equations (named xs) (named ys)))

when_failed-named :
    (eqs : Results) (has_m : Bool) (e : EqId) (ds : List Discrepancy) (es : List EqId) (x : Outcome)
    → named ds ≡ failed_of eqs es
    → named (when_failed x (explain eqs has_m e)) ++ named ds
      ≡ elim x [ fail ↦ e ∷ failed_of eqs es | _ ↦ failed_of eqs es ]
when_failed-named eqs has_m e ds es pass h = h
when_failed-named eqs has_m e ds es fail h = rw (explain-named eqs has_m e) (ap (λ l. e ∷ l) h)
when_failed-named eqs has_m e ds es not_evaluable h = h

classify_from-named :
    (eqs : Results) (has_m : Bool) (es : List EqId)
    → named (classify_from eqs has_m es) ≡ failed_of eqs es
unfolding classify_from
classify_from-named eqs has_m [] = refl
classify_from-named eqs has_m (e ∷ es) =
    named-append (when_failed (eqs e).outcome (explain eqs has_m e)) (classify_from eqs has_m es)
    ∙ when_failed-named eqs has_m e (classify_from eqs has_m es) es (eqs e).outcome
        (classify_from-named eqs has_m es)

-- The discrepancies of `classify` name the equations that failed, each once, in the order of the
-- checks.
pub classify-named :
    (eqs : Results) (present : List Party)
    → named (classify eqs present) ≡ failed_of eqs check_order
unfolding classify
classify-named eqs present = classify_from-named eqs (has_model_operator present) check_order
