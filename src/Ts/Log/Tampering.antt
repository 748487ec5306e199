-- ===== src/Ts/Log/Tampering.antt =====
-- `tamper_entry` of itx/ts/log.py: an operator who replaces an entry and computes the tree again.
use custody.Base.{
  ℕ, zero, suc, ◌≡◌, ◌≢◌, inl, inr, refl, ap, ◌∙◌, ltb, ◌&&◌, List, [], ◌∷◌, Option, none, some,
  length, if◌then◌else◌, Bool-cases,
}
use custody.Crypto.{Bytes, Primitives, hex}
use custody.Statements.{Statement}
use custody.Ts.Merkle.{leaf_hash}
use custody.Ts.Log.{Log, LogCodec, LogEntry, entry_leaves}
use custody.Ts.Log.Registration.{IsConsistent, Numbered, leaf_of}

unfoldable pub replace_leaf : ℕ → Bytes → List Bytes → List Bytes
replace_leaf i lh [] = []
replace_leaf zero lh (x ∷ xs) = lh ∷ xs
replace_leaf (suc i) lh (x ∷ xs) = x ∷ replace_leaf i lh xs

log_at : Log → Option Log → Log
log_at other none = other
log_at other (some log) = log

none-ne : {a : Log} → none ≢ some a
none-ne h = cc h

module _ (prim : Primitives) (codec : LogCodec) where
  unfoldable pub replace_entry : ℕ → Statement → List LogEntry → List LogEntry
  replace_entry i s [] = []
  replace_entry zero s (e ∷ es) =
      record e {
        statement = s;
        leaf_hash = hex (leaf_hash prim.sha256 (codec.statements.leaf_bytes s));
      }
      ∷ es
  replace_entry (suc i) s (e ∷ es) = e ∷ replace_entry i s es

  -- `none` is the IndexError.
  unfoldable pub tamper_entry : Log → ℕ → Statement → Option Log
  tamper_entry log i s =
      if ltb i (length log.entries) && ltb i (length log.leaves)
      then some (record log {
        entries = replace_entry i s log.entries;
        leaves = replace_leaf i (leaf_hash prim.sha256 (codec.statements.leaf_bytes s)) log.leaves;
      })
      else none

  entry_leaves-replace_entry :
      (i : ℕ) (s : Statement) (es : List LogEntry)
      → replace_leaf i (leaf_of prim codec s) (entry_leaves prim codec es)
        ≡ entry_leaves prim codec (replace_entry i s es)
  unfolding replace_leaf replace_entry entry_leaves
  entry_leaves-replace_entry i s [] = refl
  entry_leaves-replace_entry zero s (e ∷ es) = refl
  entry_leaves-replace_entry (suc i) s (e ∷ es) =
      ap (λ l. leaf_of prim codec e.statement ∷ l) (entry_leaves-replace_entry i s es)

  replace_entry-Numbered :
      (i n : ℕ) (s : Statement) (es : List LogEntry)
      → Numbered (leaf_of prim codec) n es
      → Numbered (leaf_of prim codec) n (replace_entry i s es)
  unfolding replace_entry
  replace_entry-Numbered i n s [] h = tt
  replace_entry-Numbered zero n s (e ∷ es) h = (h.0, refl, h.2)
  replace_entry-Numbered (suc i) n s (e ∷ es) h =
      (h.0, h.1, replace_entry-Numbered i (suc n) s es h.2)

  -- A consistent log in which `tamper_entry` replaced an entry is as consistent as before: the tree
  -- has the leaves of the entries, numbered from 0, each with its leaf hash.
  pub tamper_entry-IsConsistent :
      (log log' : Log) (i : ℕ) (s : Statement)
      → IsConsistent prim codec log
      → tamper_entry log i s ≡ some log'
      → IsConsistent prim codec log'
  unfolding tamper_entry log_at
  tamper_entry-IsConsistent log log' i s c h =
      elim (Bool-cases (ltb i (length log.entries) && ltb i (length log.leaves))) [
        | inr out ↦ absurd (none-ne (rw out at h))
        | inl found ↦
            let same = ap (log_at log) (rw found at h) in
            rw (← same) (record {
              leaves =
                  ap (replace_leaf i (leaf_of prim codec s)) c.leaves
                  ∙ entry_leaves-replace_entry i s log.entries;
              numbered = replace_entry-Numbered i 0 s log.entries c.numbered;
            })
      ]
