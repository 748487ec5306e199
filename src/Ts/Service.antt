-- ===== src/Ts/Service.antt =====
-- itx/ts/service.py: the façade of the registration API, with injected outages and delays.
pub mod Answers
pub mod Counting
use custody.Base.{ℕ, ◌+◌, Bool, String, List, Option, none, some, if◌then◌else◌}
use custody.Crypto.{Primitives}
use custody.Statements.{Statement}
use custody.Ts.Log.{
  Log, LogCodec, LogEntry, Registered, refused, accepted, TreeHead, register, statements_for,
  tree_head,
}

pub record TransparencyService : Type 0 where
  pub log : Log
  pub base_delay_ms : ℕ
  pub extra_delay_ms : ℕ
  pub down : Bool
  pub submissions : ℕ
  pub refusals : ℕ

unfoldable pub total_delay_ms : TransparencyService → ℕ
total_delay_ms s = s.base_delay_ms + s.extra_delay_ms

pub data Submitted : Type 0 where
  unavailable : Submitted
  answered : Registered → Submitted

-- A refusal is counted and raised again.
abbrev counted : TransparencyService → Log → Registered → TransparencyService × Submitted
counted s log (accepted receipt) =
    (record s { log = log; submissions = s.submissions + 1 }, answered (accepted receipt))
counted s log (refused reasons) = (
  record s { log = log; submissions = s.submissions + 1; refusals = s.refusals + 1 },
  answered (refused reasons),
)

module _ (prim : Primitives) (codec : LogCodec) where
  unfoldable pub submit : TransparencyService → Statement → ℕ → TransparencyService × Submitted
  unfolding total_delay_ms
  submit s stmt now =
      let (log, result) = register prim codec s.log stmt (now + total_delay_ms s) in
      if s.down then (s, unavailable) else counted s log result

  -- `none` is ServiceUnavailable.
  unfoldable pub service_statements :
      TransparencyService → String → Option ℕ → Option (List LogEntry)
  service_statements s sub visible_at =
      if s.down then none else some (statements_for s.log.entries sub visible_at)

  unfoldable pub service_tree_head : TransparencyService → ℕ → Option TreeHead
  service_tree_head s now = if s.down then none else some (tree_head prim codec s.log now)
