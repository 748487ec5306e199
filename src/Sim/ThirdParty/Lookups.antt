-- ===== src/Sim/ThirdParty/Lookups.antt =====
-- What T's lookup of a contract finds in the log.
use custody.Base.{
  ℕ, ◌≡◌, ◌≤◌, refl, ap, String, true, false, ◌&&◌, ◌≟◌, leb, leb→le, Bool-cases, List, [], ◌∷◌,
  ◌++◌, some, All, inl, inr, arith, eq_iff, some-injective,
}
use custody.Crypto.{Primitives}
use custody.Statements.{
  Statement, ContentType, contract, relay, receipt, observation, manifest, verdict, policy, other,
}
use custody.Statements.Envelope.{content_type, same_type, sub}
use custody.Ts.Log.{LogCodec, LogEntry, statements_for}
use custody.Ts.Service.{service_statements}
use custody.Sim.ThirdParty.{ThirdParty, first_contract, lookup_contract}

-- A contract for the request that the log shows at the time.
abbrev pub IsShown : String → ℕ → LogEntry → Type 0
IsShown request now e =
    (sub e.statement ≡ request) × (e.registered_at ≤ now) × (content_type e.statement ≡ contract)

-- The statement is of the first such entry.
pub record FirstShown (request : String) (now : ℕ) (entries : List LogEntry) (stmt : Statement)
    : Type 0 where
  pub earlier : List LogEntry
  pub entry : LogEntry
  pub later : List LogEntry
  pub place : entries ≡ earlier ++ entry ∷ later
  pub holds : entry.statement ≡ stmt
  pub shown : IsShown request now entry
  pub is_first : All (λ e. ¬ IsShown request now e) earlier

same_type-contract : (c : ContentType) → same_type c contract ≡ true → c ≡ contract
unfolding same_type
same_type-contract contract h = refl
same_type-contract relay h = cc
same_type-contract receipt h = cc
same_type-contract observation h = cc
same_type-contract manifest h = cc
same_type-contract verdict h = cc
same_type-contract policy h = cc
same_type-contract (other a) h = cc

contract-same_type : (c : ContentType) → c ≡ contract → same_type c contract ≡ true
unfolding same_type
contract-same_type c h = rw h refl

FirstShown-cons :
    (request : String) (now : ℕ) (e : LogEntry) (es : List LogEntry) (stmt : Statement)
    → ¬ IsShown request now e
    → FirstShown request now es stmt
    → FirstShown request now (e ∷ es) stmt
FirstShown-cons request now e es stmt n f = record {
  earlier = e ∷ f.earlier;
  entry = f.entry;
  later = f.later;
  place = ap (λ xs. e ∷ xs) f.place;
  holds = f.holds;
  shown = f.shown;
  is_first = (n, f.is_first);
}

first_contract-FirstShown :
    (request : String) (now : ℕ) (entries : List LogEntry) (stmt : Statement)
    → first_contract (statements_for entries request (some now)) ≡ some stmt
    → FirstShown request now entries stmt
unfolding first_contract statements_for
first_contract-FirstShown request now [] stmt h = cc
first_contract-FirstShown request now (e ∷ es) stmt h =
    let about = sub e.statement ≟ request in
    elim (Bool-cases (about && leb e.registered_at now)) [
      | inl seen ↦ elim (Bool-cases (same_type (content_type e.statement) contract)) [
        | inl typed ↦ record {
          earlier = [];
          entry = e;
          later = es;
          place = refl;
          holds = some-injective _ _ (rw (seen, typed) at h);
          shown = (
            (eq_iff (sub e.statement) request).0 (ground arith),
            leb→le e.registered_at now (ground arith),
            same_type-contract (content_type e.statement) typed,
          );
          is_first = tt;
        }
        | inr untyped ↦
            FirstShown-cons request now e es stmt
              (λ s. ground (arith, contract-same_type (content_type e.statement) s.2))
              (first_contract-FirstShown request now es stmt (rw (seen, untyped) at h))
      ]
      | inr unseen ↦
          FirstShown-cons request now e es stmt
            (λ s. ground (arith, eq_iff (sub e.statement) request))
            (first_contract-FirstShown request now es stmt (rw unseen at h))
    ]

module _ (prim : Primitives) (codec : LogCodec) where
  -- T is up, and the statement is of the first contract for the request among the entries that its
  -- log shows at the time.
  pub lookup_contract-FirstShown :
      (t : ThirdParty) (request : String) (now : ℕ) (stmt : Statement)
      → lookup_contract prim codec t request now ≡ some (some stmt)
      → (t.service.down ≡ false) × FirstShown request now t.service.log.entries stmt
  unfolding lookup_contract service_statements
  lookup_contract-FirstShown t request now stmt h = elim (Bool-cases t.service.down) [
    | inl down ↦ absurd (ground arith)
    | inr up ↦ (up, first_contract-FirstShown request now t.service.log.entries stmt (ground arith))
  ]
