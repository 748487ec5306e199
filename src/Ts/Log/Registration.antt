-- ===== src/Ts/Log/Registration.antt =====
-- What `register` promises: the log only grows, it stays consistent with its tree, and it takes
-- only statements whose issuer holds the key and has the right to that type.
use custody.Base.{
  ℕ, suc, ◌+◌, ◌≡◌, refl, ap, sym, ◌∙◌, String, Bool, true, false, List, [], ◌∷◌, ◌++◌, Option,
  none, some, arith, length, Bool-cases, inl, inr, lookup, ◌≟◌, eq_iff, List-cases, append-eq-nil,
  map-eq-nil,
}
use native.Mathlib.Numerals.{add-one}
use custody.Crypto.{Bytes, Primitives, hex}
use custody.Statements.{Statement}
use custody.Statements.Envelope.{sub, iss, kid, content_type, payload, has_type, verify_with}
use custody.Statements.Schemas.{validate_payload}
use custody.Ts.Merkle.{leaf_hash}
use custody.Ts.Log.{
  refuse_unless, schema, Log, LogCodec, LogEntry, Refusal, Registered, refused, accepted, types_of,
  check_key, check_policy, append, register, rebuild, entry_leaves, drop_sub,
}

-- Entries numbered from `n` on, each with the hash of its statement.
abbrev pub Numbered : (Statement → Bytes) → ℕ → List LogEntry → Type 0
Numbered leaf n [] = Unit
Numbered leaf n (e ∷ es) =
    (e.index ≡ n) × (e.leaf_hash ≡ hex (leaf e.statement)) × Numbered leaf (suc n) es

refuse_unless-eq-nil : (b : Bool) (r : Refusal) → refuse_unless b r ≡ [] → b ≡ true
refuse_unless-eq-nil true r h = refl
refuse_unless-eq-nil false r h = cc

-- The statement was signed with a trusted key of its issuer, whom the policy lets issue its type.
pub record IsAuthorized (prim : Primitives) (codec : LogCodec) (log : Log) (s : Statement)
    : Type 0 where
  pub key : Bytes
  pub bound : lookup (kid s) log.trusted ≡ some (iss s, key)
  pub verified : verify_with prim codec.statements s key ≡ true
  pub role : has_type (types_of log.issuer_content_types (iss s)) (content_type s) ≡ true
  pub type_allowed : has_type log.allowed (content_type s) ≡ true
  pub sub_matches : codec.statements.matches log.policy.sub_pattern (sub s) ≡ true
  pub valid : validate_payload (content_type s) (payload s) ≡ []

module _ (prim : Primitives) (codec : LogCodec) where
  abbrev pub leaf_of : Statement → Bytes
  leaf_of s = leaf_hash prim.sha256 (codec.statements.leaf_bytes s)

  -- The tree has the leaves of the entries, and each entry knows its place and its leaf.
  pub record IsConsistent (log : Log) : Type 0 where
    pub leaves : log.leaves ≡ entry_leaves prim codec log.entries
    pub numbered : Numbered leaf_of 0 log.entries

  entry_leaves-append :
      (es : List LogEntry) (e : LogEntry)
      → entry_leaves prim codec (es ++ e ∷ [])
        ≡ entry_leaves prim codec es ++ leaf_of e.statement ∷ []
  unfolding entry_leaves
  entry_leaves-append [] e = refl
  entry_leaves-append (x ∷ es) e = ap (λ l. leaf_of x.statement ∷ l) (entry_leaves-append es e)

  length-entry_leaves : (es : List LogEntry) → length (entry_leaves prim codec es) ≡ length es
  unfolding entry_leaves
  length-entry_leaves [] = refl
  length-entry_leaves (x ∷ es) = ap suc (length-entry_leaves es)

  Numbered-append :
      (n : ℕ) (es : List LogEntry) (e : LogEntry)
      → Numbered leaf_of n es
      → e.index ≡ n + length es
      → e.leaf_hash ≡ hex (leaf_of e.statement)
      → Numbered leaf_of n (es ++ e ∷ [])
  Numbered-append n [] e h i l = (omega arith, l, tt)
  Numbered-append n (x ∷ es) e h i l = (h.0, h.1, Numbered-append (suc n) es e h.2 (omega arith) l)

  append-IsConsistent :
      (log : Log) (s : Statement) (now : ℕ)
      → IsConsistent log
      → IsConsistent (append prim codec log s now).0
  unfolding append
  append-IsConsistent log s now c = record {
    leaves = ap (λ l. l ++ leaf_of s ∷ []) c.leaves ∙ sym (entry_leaves-append log.entries _);
    numbered =
        Numbered-append 0 log.entries _ c.numbered
          (ap (length {A = Bytes}) c.leaves ∙ length-entry_leaves log.entries ∙ omega arith) refl;
  }

  -- If the tree of a log has the leaves of its entries, numbered from 0, each with its leaf hash,
  -- that stays so under `register`, accepted or refused.
  pub register-IsConsistent :
      (log : Log) (s : Statement) (now : ℕ)
      → IsConsistent log
      → IsConsistent (register prim codec log s now).0
  unfolding register
  register-IsConsistent log s now c = elim (List-cases (check_policy prim codec log s)) [
    | inl e ↦ rw e (append-IsConsistent log s now c)
    | inr (r, rs, e) ↦ rw e c
  ]

  rebuild-Numbered :
      (s : String) (n : ℕ) (es : List LogEntry) → Numbered leaf_of n (rebuild prim codec s n es)
  unfolding rebuild
  rebuild-Numbered s n [] = tt
  rebuild-Numbered s n (e ∷ es) = elim (Bool-cases (sub e.statement ≟ s)) [
    | inl dropped ↦ rw dropped (rebuild-Numbered s n es)
    | inr kept ↦ rw kept (refl, refl, rw add-one (rebuild-Numbered s (suc n) es))
  ]

  -- A log from which `drop_sub` left out a request is as consistent as an honest one: the tree has
  -- the leaves of the entries, numbered from 0, each with its leaf hash.
  pub drop_sub-IsConsistent : (log : Log) (s : String) → IsConsistent (drop_sub prim codec log s)
  unfolding drop_sub
  drop_sub-IsConsistent log s = record {
    leaves = refl;
    numbered = rebuild-Numbered s 0 log.entries;
  }

  -- A refusal leaves the log as it was. An acceptance adds one entry at the end, holding the
  -- statement and its time, keeps every earlier entry, and the statement is authorised.
  abbrev pub Grows : Log → Statement → ℕ → Log × Registered → Type 0
  Grows log s now (log', refused reasons) = (log' ≡ log) × (reasons ≡ check_policy prim codec log s)
  Grows log s now (log', accepted receipt) =
      (e : LogEntry) × (log'.entries ≡ log.entries ++ e ∷ [])
      × (log'.leaves ≡ log.leaves ++ leaf_of s ∷ [])
      × (e.statement ≡ s)
      × (e.registered_at ≡ now)
      × IsAuthorized prim codec log s

  check_key-eq-nil :
      (k : Option (String × Bytes)) (s : Statement)
      → check_key prim codec k s ≡ []
      → (key : Bytes) × (k ≡ some (iss s, key)) × (verify_with prim codec.statements s key ≡ true)
  unfolding check_key
  check_key-eq-nil none s h = cc
  check_key-eq-nil (some (i, key)) s h = (key, ground (arith, eq_iff i (iss s)), ground arith)

  check_policy-IsAuthorized :
      (log : Log) (s : Statement)
      → check_policy prim codec log s ≡ []
      → IsAuthorized prim codec log s
  unfolding check_policy
  check_policy-IsAuthorized log s h =
      let (t, h1) = append-eq-nil _ _ h in
      let (m, h2) = append-eq-nil _ _ h1 in
      let (k, h3) = append-eq-nil _ _ h2 in
      let (r, v) = append-eq-nil _ _ h3 in
      let (key, bound, verified) = check_key-eq-nil (lookup (kid s) log.trusted) s k in
      record {
        key = key;
        bound = bound;
        verified = verified;
        role = refuse_unless-eq-nil _ _ r;
        type_allowed = refuse_unless-eq-nil _ _ t;
        sub_matches = refuse_unless-eq-nil _ _ m;
        valid = map-eq-nil schema _ v;
      }

  -- A refusal leaves the log as it was and gives the reasons of `check_policy`. An acceptance adds
  -- one entry at the end, with the statement and its time, and its leaf; a trusted key of the
  -- issuer verifies the statement, whose type, issuer, subject and payload the policy allows.
  pub register-Grows :
      (log : Log) (s : Statement) (now : ℕ) → Grows log s now (register prim codec log s now)
  unfolding register
  register-Grows log s now = elim (List-cases (check_policy prim codec log s)) [
    | inl e ↦ rw e (unfold append in (_, refl, refl, refl, refl, check_policy-IsAuthorized log s e))
    | inr (r, rs, e) ↦ rw e (refl, sym e)
  ]
