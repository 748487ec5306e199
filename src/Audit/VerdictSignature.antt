-- ===== src/Audit/VerdictSignature.antt =====
-- `_verdict_signature` of itx/audit/replay.py: what of a verdict is compared.
use Prim.Native.Nat.{Ordering}
use Prim.Native.String as Str
use custody.Base.{
  String, Bool, true, false, List, [], ◌∷◌, Option, none, some, Dict, lookup, contains, length,
  ◌==◌, ◌≟◌, ◌&&◌, if◌then◌else◌,
}
use custody.Statements.{VerdictFields}

-- `_PRIVATE_ONLY_EQUATIONS` and `_PRIVATE_ONLY_CODES`
abbrev private_only_equations : List String
private_only_equations = "E1" ∷ "E4" ∷ []

abbrev private_only_codes : List String
private_only_codes = "D-USER-SELF" ∷ "D-REQ-UNAPPROVED" ∷ []

-- `REQUIRED_FOR_PASS` without the equations of private evidence
abbrev public_required : List String
public_required = "E5" ∷ "E8" ∷ "E9" ∷ "E10" ∷ "E11" ∷ "E12" ∷ []

-- What is compared.
pub record Signature : Type 0 where
  pub verification_status : String
  pub completeness : String
  pub codes : List String
  pub equations : Dict String
  pub policy_hash : String
  pub checker_version : String
  pub trust_keys_version : String
  pub evidence : List String

abbrev pub after : String → String → Bool
after x a = elim (Str.compare x a) [ Ordering.gt ↦ true | _ ↦ false ]

-- `sorted`
unfoldable pub insert_sorted : String → List String → List String
insert_sorted a [] = a ∷ []
insert_sorted a (x ∷ xs) =
    let rest = insert_sorted a xs in if after x a then a ∷ x ∷ xs else x ∷ rest

unfoldable pub sorted : List String → List String
sorted [] = []
sorted (x ∷ xs) = insert_sorted x (sorted xs)

-- The texts that are not in the list.
unfoldable pub without : List String → List String → List String
without left_out [] = []
without left_out (x ∷ xs) =
    let rest = without left_out xs in if contains left_out x then rest else x ∷ rest

unfoldable pub drop_equations : List String → Dict String → Dict String
drop_equations left_out [] = []
drop_equations left_out ((k, v) ∷ d) =
    let rest = drop_equations left_out d in if contains left_out k then rest else (k, v) ∷ rest

abbrev has_value : Option String → String → Bool
has_value none v = false
has_value (some w) v = w ≟ v

unfoldable pub all_passed : Dict String → List String → Bool
all_passed eqs [] = true
all_passed eqs (k ∷ ks) = has_value (lookup k eqs) "pass" && all_passed eqs ks

-- The status when the equations of private evidence are left out.
unfoldable pub public_status : String → Dict String → String
public_status status eqs =
    if status ≟ "passed"
    then "passed_excluding_private"
    else if status ≟ "insufficient_evidence" && all_passed eqs public_required
    then "passed_excluding_private"
    else status

-- `partial`: the equations of private evidence are ignored.
unfoldable pub verdict_signature : VerdictFields → Bool → Signature
verdict_signature v partial =
    let eqs = if partial then drop_equations private_only_equations v.equations else v.equations in
    record {
      verification_status =
          if partial then public_status v.verification_status eqs else v.verification_status;
      completeness = v.completeness;
      codes = sorted (if partial then without private_only_codes v.codes else v.codes);
      equations = eqs;
      policy_hash = v.policy_hash;
      checker_version = v.checker_version;
      trust_keys_version = v.trust_keys_version;
      evidence = sorted v.evidence;
    }

unfoldable pub same_texts : List String → List String → Bool
same_texts [] [] = true
same_texts (x ∷ xs) (y ∷ ys) = x ≟ y && same_texts xs ys
same_texts _ _ = false

unfoldable pub has_all : Dict String → Dict String → Bool
has_all [] e = true
has_all ((k, v) ∷ d) e = has_value (lookup k e) v && has_all d e

-- `==` of two dictionaries, which have no key twice.
unfoldable pub same_dict : Dict String → Dict String → Bool
same_dict d e = length d == length e && has_all d e

-- `==` of two signatures
unfoldable pub same_signature : Signature → Signature → Bool
same_signature a b =
    (a.verification_status ≟ b.verification_status && a.completeness ≟ b.completeness)
    && ((same_texts a.codes b.codes && same_dict a.equations b.equations)
        && ((a.policy_hash ≟ b.policy_hash && a.checker_version ≟ b.checker_version)
            && (a.trust_keys_version ≟ b.trust_keys_version && same_texts a.evidence b.evidence)))
