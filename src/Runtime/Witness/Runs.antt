-- ===== src/Runtime/Witness/Runs.antt =====
-- A sequence of requests to the witness, with the answers of T and the clock of each.
use custody.Base.{ℕ, ◌≡◌, ◌≤◌, refl, ◌∙◌, String, List, [], ◌∷◌, Option, some, arith}
use mathlib.Core.Path.{subst}
use custody.Crypto.{Primitives}
use custody.Ts.Log.{LogCodec}
use custody.Runtime.Witness.{
  WitnessReceipt, Canonical, Config, Store, Clock, Request, Answer, witnessed, handle,
}
use custody.Runtime.Witness.Ledger.{size}
use custody.Runtime.Witness.Views.{
  root, View, nothing, seen, view, Step, stays, starts, grows, Agrees, Refines, handle-Refines,
}

-- A later view of the same history: no smaller, and the same root for the same size.
abbrev pub Later : View → View → Type 0
Later nothing w = Unit
Later (seen m a) nothing = ⊥
Later (seen m a) (seen n b) = (m ≤ n) × (m ≡ n → a ≡ b)

Later-refl : (v : View) → Later v v
Later-refl nothing = tt
Later-refl (seen m a) = (omega arith, λ _. refl)

Later-trans : (u v w : View) → Later u v → Later v w → Later u w
Later-trans nothing v w h k = tt
Later-trans (seen m a) nothing w h k = absurd h
Later-trans (seen m a) (seen n b) nothing h k = absurd k
Later-trans (seen m a) (seen n b) (seen l c) (le, same) (le', same') =
    (omega arith, λ e. same (omega arith) ∙ same' (omega arith))

Step-Later : (prim : Primitives) (v w : View) → Step prim v w → Later v w
Step-Later prim v w (stays u) = Later-refl u
Step-Later prim v w (starts n a) = tt
Step-Later prim v w (grows m a n b l x) = (omega arith, λ e. absurd (omega arith))

pub record Event : Type 0 where
  pub clock : Clock
  pub consistency : ℕ → ℕ → Option (List String)
  pub request : Request

module _ (prim : Primitives) (codec : LogCodec) (canonical : Canonical) (config : Config) where
  abbrev pub respond : Store → Event → Store × Answer
  respond store e = handle prim codec canonical e.consistency config e.clock store e.request

  abbrev pub run : Store → List Event → Store
  run store [] = store
  run store (e ∷ es) = run (respond store e).0 es

  respond-Refines :
      (store : Store) (e : Event)
      → Refines prim codec canonical
          (view store.latest)
          (respond store e).1
          (view (respond store e).0.latest)
  respond-Refines store e =
      handle-Refines prim codec canonical e.consistency config e.clock store e.request

  run-Later :
      (store : Store) (es : List Event) → Later (view store.latest) (view (run store es).latest)
  run-Later store [] = Later-refl (view store.latest)
  run-Later store (e ∷ es) =
      let st = (respond store e).0 in
      Later-trans (view store.latest) (view st.latest) (view (run st es).latest)
        (Step-Later prim (view store.latest) (view st.latest) (respond-Refines store e).0)
        (run-Later st es)

  shows :
      (store : Store) (e : Event) (r : WitnessReceipt)
      → (respond store e).1 ≡ witnessed r
      → view (respond store e).0.latest ≡ view (some r)
  shows store e r h =
      subst
        (λ answer.
          Agrees prim codec canonical (view store.latest) answer (view (respond store e).0.latest))
        h (respond-Refines store e).1

  -- Of two receipts that the witness returns in one run, whatever requests come between them and
  -- whatever T answers, the later one is about a tree no smaller than the earlier one, and two
  -- receipts for one tree size state the same root.
  pub run-no_split :
      (store : Store) (first : Event) (between : List Event) (second : Event) (q r : WitnessReceipt)
      → (respond store first).1 ≡ witnessed q
      → (respond (run (respond store first).0 between) second).1 ≡ witnessed r
      → (size q.body.head ≤ size r.body.head)
        × (size q.body.head ≡ size r.body.head → root q.body.head ≡ root r.body.head)
  run-no_split store first between second q r h k =
      let st = (respond store first).0 in
      let before =
        subst (λ v. Later v (view (run st (between)).latest)) (shows store first q h)
          (run-Later st between) in
      let st' = run st between in
      let last = subst (Later (view st'.latest)) (shows st' second r k) (
        Step-Later prim (view st'.latest) (view (respond st' second).0.latest)
          (respond-Refines st' second).0) in
      Later-trans (view (some q)) (view st'.latest) (view (some r)) before last
