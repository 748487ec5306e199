-- ===== src/Ts/Anchor.antt =====
-- itx/ts/anchor.py: tree heads kept by an outside witness, and the check of a tree against them.
-- The check of a TSA token runs openssl, so it is a parameter: `none` is a TSAError.
pub mod Detection
use custody.Base.{
  ℕ, ◌+◌, ltb, leb, ◌==◌, ◌≟◌, Bool, true, false, not, ◌&&◌, ◌||◌, String, List, [], ◌∷◌, ◌++◌,
  Option, none, some, length, map, if◌then◌else◌,
}
use custody.Crypto.{Bytes, hex, from_hex}
use custody.Ts.Merkle.{mth}
use custody.Ts.Consistency.{root_at, consistency_proof, verify_consistency}
use custody.Ts.Log.{TreeHead}

-- What `verify_tree` reads of a record; a checkpoint of a held receipt has no witness.
pub record Checkpoint : Type 0 where
  pub tree_size : ℕ
  pub root_hash : String
  pub anchored_at : ℕ
  pub witness : Option String
  pub tsr_file : Option String

pub record AnchorRecord : Type 0 where
  pub checkpoint : Checkpoint
  pub log_id : String
  pub head_time : ℕ
  pub ts_kid : String
  pub head_signature : String

-- The state of a `CheckpointAnchor`; the copy in a file is left out.
pub record CheckpointAnchor : Type 0 where
  pub records : List AnchorRecord

unfoldable pub record_of : TreeHead → ℕ → AnchorRecord
record_of head now =
    let point : Checkpoint = record {
      tree_size = head.body.tree_size;
      root_hash = head.body.root_hash;
      anchored_at = now;
      witness = some "mock-file-witness";
      tsr_file = none;
    } in
    record {
      checkpoint = point;
      log_id = head.body.log_id;
      head_time = head.body.time;
      ts_kid = head.body.ts_kid;
      head_signature = head.signature;
    }

unfoldable pub anchor : CheckpointAnchor → TreeHead → ℕ → CheckpointAnchor × AnchorRecord
unfolding record_of
anchor a head now =
    let rec = record_of head now in (record a { records = a.records ++ rec ∷ [] }, rec)

pub data AnchorReason : Type 0 where
  shorter agrees other_past tsa_failed : AnchorReason

-- One entry of `results`.
pub record AnchorCheck : Type 0 where
  pub tree_size : ℕ
  pub anchored_root : String
  pub anchored_at : ℕ
  pub recomputed_root : Option String
  pub root_matches : Bool
  pub consistent_with_head : Bool
  pub ok : Bool
  pub reason : AnchorReason
  pub tsa_verified : Option Bool
  pub gen_time : Option String

abbrev is_some : Option String → Bool
is_some none = false
is_some (some s) = true

abbrev is_tsa : Option String → Bool
is_tsa none = false
is_tsa (some w) = w ≟ "rfc3161-tsa"

abbrev with_tsa : AnchorCheck → Option String → AnchorCheck
with_tsa out none = record out { tsa_verified = some false; ok = false; reason = tsa_failed }
with_tsa out (some time) = record out { tsa_verified = some true; gen_time = some time }

module _ (sha256 : Bytes → Bytes) (verify_tsa_anchor : Checkpoint → Option String) where
  -- The comparison of the anchored root with the tree's root of that size.
  abbrev compare : List Bytes → Checkpoint → Bytes → Bytes → AnchorCheck
  compare leaves rec anchored recomputed =
      let matches = hex recomputed ≟ rec.root_hash in
      let consistent =
        verify_consistency sha256 rec.tree_size (length leaves) anchored (mth sha256 leaves)
          (consistency_proof sha256 leaves rec.tree_size (length leaves)) in
      let out : AnchorCheck = record {
        tree_size = rec.tree_size;
        anchored_root = rec.root_hash;
        anchored_at = rec.anchored_at;
        recomputed_root = some (hex recomputed);
        root_matches = matches;
        consistent_with_head = consistent;
        ok = matches && consistent;
        reason = if matches && consistent then agrees else other_past;
        tsa_verified = none;
        gen_time = none;
      } in
      if is_tsa rec.witness || is_some rec.tsr_file
      then with_tsa out (verify_tsa_anchor rec)
      else out

  abbrev too_long : Checkpoint → AnchorCheck
  too_long rec = record {
    tree_size = rec.tree_size;
    anchored_root = rec.root_hash;
    anchored_at = rec.anchored_at;
    recomputed_root = none;
    root_matches = false;
    consistent_with_head = false;
    ok = false;
    reason = shorter;
    tsa_verified = none;
    gen_time = none;
  }

  abbrev compare_hex : List Bytes → Checkpoint → Bytes → Option Bytes → Option AnchorCheck
  compare_hex leaves rec recomputed none = none
  compare_hex leaves rec recomputed (some anchored) = some (compare leaves rec anchored recomputed)

  -- `none`: the ValueError of a root that is not hexadecimal.
  abbrev compare_root : List Bytes → Checkpoint → Option Bytes → Option AnchorCheck
  compare_root leaves rec none = some (too_long rec)
  compare_root leaves rec (some recomputed) =
      compare_hex leaves rec recomputed (from_hex rec.root_hash)

  -- The body of the loop of `verify_tree`.
  unfoldable pub check_record : List Bytes → Checkpoint → Option AnchorCheck
  check_record leaves rec = compare_root leaves rec (root_at sha256 leaves rec.tree_size)

  abbrev cons_result : Option AnchorCheck → Option (List AnchorCheck) → Option (List AnchorCheck)
  cons_result (some x) (some xs) = some (x ∷ xs)
  cons_result _ _ = none

  unfoldable pub verify_tree : List Bytes → List Checkpoint → Option (List AnchorCheck)
  verify_tree leaves [] = some []
  verify_tree leaves (rec ∷ recs) = cons_result (check_record leaves rec) (verify_tree leaves recs)

  unfoldable pub verify_log : CheckpointAnchor → List Bytes → Option (List AnchorCheck)
  verify_log a leaves = verify_tree leaves (map (λ (r : AnchorRecord). r.checkpoint) a.records)

-- `all(a["ok"] for a in anchors)`
unfoldable pub all_ok : List AnchorCheck → Bool
all_ok [] = true
all_ok (x ∷ xs) = x.ok && all_ok xs
