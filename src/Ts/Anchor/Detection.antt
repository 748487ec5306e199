-- ===== src/Ts/Anchor/Detection.antt =====
-- What an anchored tree head protects.
use custody.Base.{
  ℕ, zero, suc, ◌≤◌, ◌≡◌, ◌≢◌, ◌⊎◌, inl, inr, refl, sym, ap, ◌∙◌, ltb, Bool, true, false, ◌&&◌,
  ◌||◌, String, List, [], ◌∷◌, map, Option, none, some, arith, length, take, get_elem?, All,
  All-take, length-take, Bool-cases, eq_iff,
}
use custody.Crypto.{Bytes, Primitives, hex, from_hex}
use custody.Crypto.HexLaws.{hex-injective}
use custody.Ts.Merkle.{mth}
use custody.Ts.Merkle.Soundness.{IsDigest}
use custody.Ts.Merkle.Digests.{AreBytes, mth-AreBytes}
use custody.Ts.Merkle.Injective.{Clash, mth-injective_located}
use custody.Ts.Consistency.{root_at}
use custody.Ts.Log.{Log, LogCodec, tree_head}
use custody.Ts.Anchor.{
  Checkpoint, AnchorRecord, CheckpointAnchor, record_of, AnchorCheck, check_record, compare_hex,
  compare, too_long, verify_tree, verify_log, all_ok, cons_result, with_tsa, is_tsa, is_some,
}

with_tsa-ok : (out : AnchorCheck) (x : Option String) → (with_tsa out x).ok ≡ true → out.ok ≡ true
with_tsa-ok out none h = cc
with_tsa-ok out (some t) h = h

false-ne-true : false ≢ true
false-ne-true h = cc h

index-cases : (i : ℕ) → (i ≡ 0) ⊎ ((j : ℕ) × (i ≡ suc j))
index-cases zero = inl refl
index-cases (suc j) = inr (j, refl)

is_ok : Option AnchorCheck → Bool
is_ok none = false
is_ok (some check) = check.ok

module _ (sha256 : Bytes → Bytes) (tsa : Checkpoint → Option String) where
  compare-ok :
      (leaves : List Bytes) (rec : Checkpoint) (anchored recomputed : Bytes)
      → (compare sha256 tsa leaves rec anchored recomputed).ok ≡ true
      → hex recomputed ≡ rec.root_hash
  compare-ok leaves rec anchored recomputed h =
      elim (Bool-cases (is_tsa rec.witness || is_some rec.tsr_file)) [
        | inl stamped ↦
            (eq_iff (hex recomputed) rec.root_hash).0
              (ground (arith, with_tsa-ok _ (tsa rec) (rw stamped at h)))
        | inr plain ↦ (eq_iff (hex recomputed) rec.root_hash).0 (ground (arith, rw plain at h))
      ]

  compare_hex-ok :
      (leaves : List Bytes) (rec : Checkpoint) (recomputed : Bytes) (x : Option Bytes)
      (check : AnchorCheck)
      → compare_hex sha256 tsa leaves rec recomputed x ≡ some check
      → check.ok ≡ true
      → hex recomputed ≡ rec.root_hash
  unfolding is_ok
  compare_hex-ok leaves rec recomputed none check h k = cc
  compare_hex-ok leaves rec recomputed (some a) check h k =
      compare-ok leaves rec a recomputed (ground (arith, ap is_ok h))

  root_at-long :
      (leaves : List Bytes) (n : ℕ) → ltb (length leaves) n ≡ true → root_at sha256 leaves n ≡ none
  unfolding root_at
  root_at-long leaves n h = rw h refl

  root_at-fits :
      (leaves : List Bytes) (n : ℕ)
      → ltb (length leaves) n ≡ false
      → root_at sha256 leaves n ≡ some (mth sha256 (take n leaves))
  unfolding root_at
  root_at-fits leaves n h = rw h refl

  check_record-long :
      (leaves : List Bytes) (rec : Checkpoint)
      → ltb (length leaves) rec.tree_size ≡ true
      → check_record sha256 tsa leaves rec ≡ some (too_long sha256 tsa rec)
  unfolding check_record
  check_record-long leaves rec h = rw (root_at-long leaves rec.tree_size h) refl

  check_record-fits :
      (leaves : List Bytes) (rec : Checkpoint)
      → ltb (length leaves) rec.tree_size ≡ false
      → check_record sha256 tsa leaves rec
        ≡ compare_hex sha256 tsa leaves rec
            (mth sha256 (take rec.tree_size leaves))
            (from_hex rec.root_hash)
  unfolding check_record
  check_record-fits leaves rec h = rw (root_at-fits leaves rec.tree_size h) refl

  -- An accepted checkpoint is not larger than the tree and has the tree's root of its size.
  check_record-ok :
      (leaves : List Bytes) (rec : Checkpoint) (check : AnchorCheck)
      → check_record sha256 tsa leaves rec ≡ some check
      → check.ok ≡ true
      → (rec.tree_size ≤ length leaves)
        × (hex (mth sha256 (take rec.tree_size leaves)) ≡ rec.root_hash)
  unfolding is_ok
  check_record-ok leaves rec check h k = elim (Bool-cases (ltb (length leaves) rec.tree_size)) [
    | inl long ↦ absurd (false-ne-true (ap is_ok (sym (check_record-long leaves rec long) ∙ h) ∙ k))
    | inr fits ↦ (
      ground arith,
      compare_hex-ok leaves rec _ _ check (sym (check_record-fits leaves rec fits) ∙ h) k,
    )
  ]

  cons_result-cases :
      (x : Option AnchorCheck) (xs : Option (List AnchorCheck)) (rs : List AnchorCheck)
      → cons_result sha256 tsa x xs ≡ some rs
      → (y : AnchorCheck) × (ys : List AnchorCheck) × (x ≡ some y) × (xs ≡ some ys) × (rs ≡ y ∷ ys)
  cons_result-cases none xs rs h = cc
  cons_result-cases (some y) none rs h = cc
  cons_result-cases (some y) (some ys) rs h = (y, ys, refl, refl, ground (arith, h))

  -- Every record of a list that is accepted is accepted.
  verify_tree-record :
      (leaves : List Bytes) (recs : List AnchorRecord) (results : List AnchorCheck) (i : ℕ)
      (rec : AnchorRecord)
      → verify_tree sha256 tsa leaves (map (λ (r : AnchorRecord). r.checkpoint) recs) ≡ some results
      → all_ok results ≡ true
      → get_elem? recs i ≡ some rec
      → (check : AnchorCheck) × (check_record sha256 tsa leaves rec.checkpoint ≡ some check)
        × (check.ok ≡ true)
  unfolding verify_tree all_ok
  verify_tree-record leaves [] results i rec v a g = cc
  verify_tree-record leaves (x ∷ recs) results i rec v a g =
      let (y, ys, p, q, e) = cons_result-cases _ _ results v in
      let both : (y.ok && all_ok ys) ≡ true = ap all_ok (sym e) ∙ a in
      elim (index-cases i) [
        | inl zero_ ↦
            let same : x ≡ rec = ground (arith, rw zero_ at g) in (y, rw (← same) p, ground arith)
        | inr (j, next) ↦ verify_tree-record leaves recs ys j rec q (ground arith) (rw next at g)
      ]

module _ (prim : Primitives) (codec : LogCodec) (tsa : Checkpoint → Option String)
    (digests : (b : Bytes) → IsDigest (prim.sha256 b))
    (outputs : (b : Bytes) → AreBytes (prim.sha256 b)) where
  -- The witness holds the tree head of an old log, and every anchor is accepted for a tree. Then
  -- the old log's leaves are a prefix of the tree's leaves, or an inner node of the old tree and
  -- one of the tree over the prefix of that length are hashed from different messages to one hash.
  -- All leaves and all hashes are 32 bytes.
  pub verify_log-prefix :
      (witness : CheckpointAnchor) (old : Log) (leaves : List Bytes) (results : List AnchorCheck)
      (i head_time anchored_at : ℕ)
      → All IsDigest old.leaves
      → All AreBytes old.leaves
      → All IsDigest leaves
      → All AreBytes leaves
      → get_elem? witness.records i
        ≡ some (record_of (tree_head prim codec old head_time) anchored_at)
      → verify_log prim.sha256 tsa witness leaves ≡ some results
      → all_ok results ≡ true
      → ((length old.leaves ≤ length leaves) × (take (length old.leaves) leaves ≡ old.leaves))
        ⊎ Clash prim.sha256 (take (length old.leaves) leaves) old.leaves
  unfolding verify_log tree_head record_of
  verify_log-prefix witness old leaves results i head_time anchored_at d b d' b' g v a =
      let (check, c, k) =
        verify_tree-record prim.sha256 tsa leaves witness.records results i _ v a g in
      let (fits, same) = check_record-ok prim.sha256 tsa leaves _ check c k in
      let n = length old.leaves in
      let root : mth prim.sha256 (take n leaves) ≡ mth prim.sha256 old.leaves =
        hex-injective _ _ (mth-AreBytes prim.sha256 outputs _ (All-take AreBytes n leaves b'))
          (mth-AreBytes prim.sha256 outputs _ b) same in
      elim (mth-injective_located prim.sha256 digests (take n leaves) old.leaves
        (omega (arith, length-take n leaves, fits)) (All-take IsDigest n leaves d') d root) [
          | inl prefix ↦ inl (fits, prefix)
          | inr clash ↦ inr clash
        ]
