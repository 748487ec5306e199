-- ===== src/Examples/Logs.antt =====
-- Runs of the transparency log, its operator and its anchor.
use custody.Base.{
  ◌≡◌, ◌≤◌, ◌⊎◌, refl, String, true, List, [], ◌∷◌, Option, none, some, take, replicate, arith,
}
use custody.Crypto.{Bytes, hex, from_hex}
use custody.Statements.{contract, relay, receipt, observation, policy, Policy}
use custody.Ts.Merkle.{mth}
use custody.Ts.Merkle.Injective.{Clash}
use custody.Ts.Merkle.Digests.{AreBytes}
use custody.Ts.Log.{Log, register, tree_head, entry_leaves}
use custody.Ts.Consistency.{root_at}
use custody.Ts.Log.Registration.{IsConsistent, Grows, register-Grows}
use custody.Ts.Merkle.{leaf_hash}
use custody.Ts.Log.Tampering.{replace_leaf, replace_entry}
use custody.Ts.Log.Receipts.{Vouches, register-verify_receipt}
use custody.Ts.Anchor.{
  Checkpoint, verify_tree, check_record, all_ok, CheckpointAnchor, record_of, verify_log,
  AnchorCheck,
}
use custody.Ts.Anchor.Detection.{verify_log-prefix}
use custody.Examples.{
  toy, toy_hash, toy_log_codec, toy_key, toy_key-Works, toy_hash-IsDigest, toy_hash-AreBytes,
  user_contract, model_receipt,
}

abbrev the_policy : Policy
the_policy = record {
  profile = "itx-profile/0.1/policy";
  version = 1;
  ts_id = "log-1";
  ts_iss = "T";
  allowed_content_types = contract ∷ relay ∷ receipt ∷ observation ∷ [];
  sub_pattern = "urn:itx:";
  trusted_keys = [];
  issuer_content_types = [];
}

abbrev pub empty_log : Log
empty_log = record {
  log_id = "log-1";
  key = toy_key "kT" 9;
  leaves = [];
  entries = [];
  policy = the_policy;
  allowed = policy ∷ contract ∷ relay ∷ receipt ∷ observation ∷ [];
  trusted = ("kU", ("U", 1 ∷ [])) ∷ ("kM", ("M", 3 ∷ [])) ∷ [];
  issuer_content_types = ("U", contract ∷ observation ∷ []) ∷ ("M", receipt ∷ []) ∷ [];
}

empty_log-IsConsistent : IsConsistent toy toy_log_codec empty_log
unfolding entry_leaves
empty_log-IsConsistent = record { leaves = refl; numbered = tt }

register-Grows_example :
    Grows toy toy_log_codec empty_log user_contract 1100
      (register toy toy_log_codec empty_log user_contract 1100)
register-Grows_example = register-Grows toy toy_log_codec empty_log user_contract 1100

register-verify_receipt_example :
    Vouches toy toy_log_codec empty_log user_contract
      (register toy toy_log_codec empty_log user_contract 1100).1
register-verify_receipt_example =
    register-verify_receipt toy toy_log_codec empty_log user_contract 1100 (toy_key-Works "kT" 9) tt

abbrev no_tsa : Checkpoint → Option String
no_tsa c = none

abbrev old_log : Log
old_log = record empty_log { leaves = replicate 32 1 ∷ [] }

abbrev now_leaves : List Bytes
now_leaves = replicate 32 1 ∷ replicate 32 2 ∷ []

abbrev witness : CheckpointAnchor
witness = record { records = record_of (tree_head toy toy_log_codec old_log 10) 11 ∷ [] }

abbrev checks_of : Option (List AnchorCheck) → List AnchorCheck
checks_of none = []
checks_of (some xs) = xs

ones-AreBytes : AreBytes (replicate 32 1)
ones-AreBytes = ground arith

twos-AreBytes : AreBytes (replicate 32 2)
twos-AreBytes = ground arith

abbrev results : List AnchorCheck
results = checks_of (verify_log toy_hash no_tsa witness now_leaves)

checked : verify_log toy_hash no_tsa witness now_leaves ≡ some results
unfolding verify_log verify_tree check_record root_at record_of tree_head from_hex hex mth
    custody.Ts.Merkle.mth_fuel
checked = refl

accepted_all : all_ok results ≡ true
unfolding verify_log verify_tree check_record root_at record_of tree_head all_ok from_hex hex mth
    custody.Ts.Merkle.mth_fuel custody.Ts.Consistency.verify_consistency
    custody.Ts.Consistency.consistency_proof custody.Ts.Consistency.consistency_path
    custody.Ts.Consistency.subproof custody.Ts.Merkle.largest_pow2_lt custody.Ts.Merkle.grow_pow2
    custody.Ts.Consistency.is_pow2 custody.Ts.Consistency.land
    custody.Ts.Consistency.fold_consistency custody.Ts.Consistency.strip_odd
    custody.Ts.Merkle.bytes_eq custody.Ts.Merkle.node_hash
accepted_all = refl

prefix_example :
    ((1 ≤ 2) × (take 1 now_leaves ≡ replicate 32 1 ∷ []))
    ⊎ Clash toy_hash (take 1 now_leaves) (replicate 32 1 ∷ [])
prefix_example =
    verify_log-prefix toy toy_log_codec no_tsa toy_hash-IsDigest toy_hash-AreBytes witness old_log
      now_leaves results 0 10 11 (refl, tt) (ones-AreBytes, tt) (refl, (refl, tt))
      (ones-AreBytes, (twos-AreBytes, tt)) refl checked accepted_all

abbrev one_entry : Log
one_entry = record empty_log {
  entries =
      record {
        index = 0;
        statement = user_contract;
        registered_at = 1100;
        leaf_hash = hex (leaf_hash toy_hash (1000 ∷ []));
      }
      ∷ [];
  leaves = leaf_hash toy_hash (1000 ∷ []) ∷ [];
}

one_entry-IsConsistent : IsConsistent toy toy_log_codec one_entry
unfolding entry_leaves
one_entry-IsConsistent = record { leaves = refl; numbered = (refl, refl, tt) }

abbrev tampered : Log
tampered = record one_entry {
  entries = replace_entry toy toy_log_codec 0 model_receipt one_entry.entries;
  leaves = replace_leaf 0 (leaf_hash toy_hash (1020 ∷ [])) one_entry.leaves;
}
