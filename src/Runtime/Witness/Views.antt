-- ===== src/Runtime/Witness/Views.antt =====
-- What a party sees of the witness: the size and the root of its latest checkpoint.
use custody.Base.{ℕ, ◌≡◌, ◌<◌, inl, inr, refl, sym, ap, ◌∙◌, String, true, List, Option, none, some}
use mathlib.Core.Path.{subst}
use custody.Crypto.{Bytes, Primitives, from_hex}
use custody.Ts.Log.{LogCodec, TreeHead, proof_bytes}
use custody.Ts.Consistency.{verify_consistency}
use custody.Runtime.Witness.{
  WitnessReceipt, Canonical, Config, Store, Clock, Request, Answer, status, witnessed, refused,
  unreachable, extends, extends_from, handle,
}
use custody.Runtime.Witness.Ledger.{size, Fits, Handled, handle-Handled}

abbrev pub root : TreeHead → String
root head = head.body.root_hash

-- The specification: the checkpoint that was seen last.
pub data View : Type 0 where
  nothing : View
  seen : ℕ → String → View

abbrev pub view : Option WitnessReceipt → View
view none = nothing
view (some r) = seen (size r.body.head) (root r.body.head)

module _ (prim : Primitives) where
  -- A checkpoint's tree continues another's: the roots are those of a consistency proof.
  pub record Extends (m : ℕ) (a : String) (n : ℕ) (b : String) : Type 0 where
    pub first_root : Bytes
    pub second_root : Bytes
    pub path : List Bytes
    pub first : from_hex a ≡ some first_root
    pub second : from_hex b ≡ some second_root
    pub consistent : verify_consistency prim.sha256 m n first_root second_root path ≡ true

  -- A step of the specification.
  pub data Step : View → View → Type 0 where
    stays : (v : View) → Step v v
    starts : (n : ℕ) (a : String) → Step nothing (seen n a)
    grows :
        (m : ℕ) (a : String) (n : ℕ) (b : String)
        → m < n
        → Extends m a n b
        → Step (seen m a) (seen n b)

  extends_from-Extends :
      (m : ℕ) (a : String) (n : ℕ) (b : String) (o o' : Option Bytes) (p : Option (List Bytes))
      (codec : LogCodec) (canonical : Canonical)
      → from_hex a ≡ o
      → from_hex b ≡ o'
      → extends_from prim codec canonical m n o o' p ≡ true
      → Extends m a n b
  extends_from-Extends m a n b none o' p codec canonical e e' h = cc
  extends_from-Extends m a n b (some r) none p codec canonical e e' h = cc
  extends_from-Extends m a n b (some r) (some s) none codec canonical e e' h = cc
  extends_from-Extends m a n b (some r) (some s) (some p) codec canonical e e' h = record {
    first_root = r;
    second_root = s;
    path = p;
    first = e;
    second = e';
    consistent = h;
  }

module _ (prim : Primitives) (codec : LogCodec) (canonical : Canonical) where
  extends-Extends :
      (before head : TreeHead) (proof : List String)
      → extends prim codec canonical before head proof ≡ true
      → Extends prim (size before) (root before) (size head) (root head)
  unfolding extends
  extends-Extends before head proof h =
      extends_from-Extends prim (size before) (root before) (size head) (root head)
        (from_hex (root before)) (from_hex (root head)) (proof_bytes proof) codec canonical refl
        refl h

  -- What an answer says of the view before it and after it.
  abbrev pub Agrees : View → Answer → View → Type 0
  Agrees v (witnessed r) w = w ≡ view (some r)
  Agrees v (status o) w = (w ≡ v) × (view o ≡ v)
  Agrees v (refused why) w = w ≡ v
  Agrees v unreachable w = w ≡ v

  fits-Step :
      (o : Option WitnessReceipt) (head : TreeHead) (sequence : ℕ) (previous : Option String)
      → Fits prim codec canonical o head sequence previous
      → Step prim (view o) (seen (size head) (root head))
  fits-Step none head sequence previous fits = starts (size head) (root head)
  fits-Step (some old) head sequence previous (_, _, longer, proof, e) =
      grows (size old.body.head) (root old.body.head) (size head) (root head) longer
        (extends-Extends old.body.head head proof e)

  -- The view moves by a step of the specification, and the answer agrees with it.
  abbrev pub Refines : View → Answer → View → Type 0
  Refines v answer w = Step prim v w × Agrees v answer w

  Handled-Refines :
      (config : Config) (clock : Clock) (store st : Store) (answer : Answer)
      → Handled prim codec canonical config clock store (st, answer)
      → Refines (view store.latest) answer (view st.latest)
  Handled-Refines config clock store st (witnessed r) (inl (same, last)) =
      subst (λ (s : Store). Refines (view store.latest) (witnessed r) (view s.latest)) (sym same)
        (stays (view store.latest), ap view last)
  Handled-Refines config clock store st (witnessed r) (inr e) =
      let moved = fits-Step store.latest e.head e.sequence e.previous e.fits in
      let latest = ap (λ (s : Store). view s.latest) e.saved in
      let shown = ap (λ x. view (some x)) e.made in
      (subst (Step prim (view store.latest)) (sym (latest ∙ shown)) moved, latest)
  Handled-Refines config clock store st (status o) (same, shown) =
      subst (λ (s : Store). Refines (view store.latest) (status o) (view s.latest)) (sym same)
        (stays (view store.latest), (refl, ap view shown))
  Handled-Refines config clock store st (refused why) same =
      subst (λ (s : Store). Refines (view store.latest) (refused why) (view s.latest)) (sym same)
        (stays (view store.latest), refl)
  Handled-Refines config clock store st unreachable same =
      subst (λ (s : Store). Refines (view store.latest) unreachable (view s.latest)) (sym same)
        (stays (view store.latest), refl)

  -- Each call of the witness's `handle` refines the specification of an append-only view: the size
  -- and the root of the latest receipt stay, or are the first, or grow to a larger size whose root
  -- a consistency proof joins to the one before; a receipt in the answer is about the view after
  -- the call, the status shows the view, and a refusal or a failed call of T changes nothing.
  pub handle-Refines :
      (consistency : ℕ → ℕ → Option (List String)) (config : Config) (clock : Clock) (store : Store)
      (request : Request)
      → let (st, answer) = handle prim codec canonical consistency config clock store request in
        Refines (view store.latest) answer (view st.latest)
  handle-Refines consistency config clock store request =
      let (st, answer) = handle prim codec canonical consistency config clock store request in
      Handled-Refines config clock store st answer
        (handle-Handled prim codec canonical consistency config clock store request)
