-- ===== src/Sim/PreExec.antt =====
-- `_pre_exec_check` of itx/sim/parties/model_operator.py: what M checks before it runs the model.
pub mod Matching
use custody.Base.{
  ℕ, String, Bool, true, false, not, List, [], ◌∷◌, Option, none, some, contains, ◌≟◌, ◌&&◌,
  if◌then◌else◌,
}
use custody.Crypto.{Primitives}
use custody.Statements.{Statement, Contract}
use custody.Statements.Envelope.{payload}
use custody.Reconcile.Evidence.{contract_of}
use custody.Ts.Log.{LogCodec}
use custody.Sim.ThirdParty.{ThirdParty, lookup_contract}
use custody.Sim.Messages.{Bodies, WireRequest, commit_body}

-- The results of `_pre_exec_check`.
pub data PreExec : Type 0 where
  skipped unavailable failed unverifiable passed : PreExec

abbrev pub pre_exec_text : PreExec → String
pre_exec_text skipped = "skipped"
pre_exec_text unavailable = "unavailable"
pre_exec_text failed = "failed"
pre_exec_text unverifiable = "unverifiable"
pre_exec_text passed = "passed"

abbrev is_other : String → Bool
is_other t = not (t ≟ "identity")

-- Some allowed transform is not the identity.
unfoldable pub has_other : List String → Bool
has_other [] = false
has_other (t ∷ ts) = if is_other t then true else has_other ts

-- `wire.nonce is None or wire.nonce != c["nonce"]` is false.
abbrev pub same_nonce : Option String → String → Bool
same_nonce none n = false
same_nonce (some m) n = m ≟ n

abbrev pub got_commit : Option String → String → Bool
got_commit none c = false
got_commit (some g) c = g ≟ c

-- The comparison of the commit of the request received with the contract.
unfoldable pub compare_commit : Contract → Option String → PreExec
compare_commit c got =
    if contains c.allowed_request_transforms "identity" && got_commit got c.req_commit
    then passed
    else if has_other c.allowed_request_transforms
    then unverifiable
    else failed

module _ (bodies : Bodies) (prim : Primitives) (codec : LogCodec) where
  abbrev pub compare_got : Contract → Option (Option String) → Option PreExec
  compare_got c none = none
  compare_got c (some got) = some (compare_commit c got)

  abbrev pub compare_salted : Contract → Option String → WireRequest bodies → Option PreExec
  compare_salted c none wire = some failed
  compare_salted c (some salt) wire = compare_got c (commit_body prim bodies (some salt) wire.body)

  -- The check against the contract; `none` is a ValueError.
  unfoldable pub check_contract : Contract → WireRequest bodies → Option PreExec
  check_contract c wire =
      if same_nonce wire.nonce c.nonce then compare_salted c wire.salt wire else some failed

  abbrev pub check_payload : Option Contract → WireRequest bodies → Option PreExec
  check_payload none wire = none
  check_payload (some c) wire = check_contract c wire

  abbrev pub check_found : Option (Option Statement) → WireRequest bodies → Option PreExec
  check_found none wire = some unavailable
  check_found (some none) wire = some unavailable
  check_found (some (some stmt)) wire = check_payload (contract_of (payload stmt)) wire

  -- `_pre_exec_check`; `none` is a KeyError of the contract or a ValueError of the salt.
  unfoldable pub pre_exec_check : Bool → ThirdParty → WireRequest bodies → ℕ → Option PreExec
  pre_exec_check enforce t wire now =
      if enforce then check_found (lookup_contract prim codec t wire.sub now) wire else some skipped
