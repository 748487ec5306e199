-- ===== src/Lib.antt =====
-- Verification of the custody path: signed statements about one request to a model, the
-- transparency log that registers them, the engine that reconciles them, and the gates of the user.
--
-- The program. A user (U) sends a request through a relay (R) to a model operator (M). Each signs
-- statements about it: the contract and the observation of U, the relay statement of R, the receipt
-- of M. A transparency log registers them; the third party (T) gathers them from the log, evaluates
-- twelve equations between them and publishes a verdict; the user's gate decides by local checks,
-- and in strict mode by the verdict, whether the response is used. An auditor checks the log against
-- anchored tree heads and against the receipts that the submitters kept.
--
-- The files.
--   Base          shared names, tests into Bool, lists and dictionaries over native numbers.
--   Crypto        itx/crypto/hashing.py: commit, commit_hex. Crypto/Hex has bytes.hex and
--                 bytes.fromhex of the language. SHA-256 and signature verification are the record Primitives.
--   Statements    itx/statements: Payloads (a record for each profile), Envelope (SignedStatement:
--                 statement_hash, verify_with, issue), Schemas (validate_payload). The canonical
--                 JSON and the regular expressions are the record Codec.
--   Ts            itx/ts: Merkle (merkle.py: mth, inclusion_path, verify_inclusion), Consistency
--                 (consistency_path, verify_consistency, MerkleTree), Log (log.py: check_policy,
--                 register, append, verify_receipt, tree_head, drop_sub, and tamper_entry in
--                 Log/Tampering, as functions from a Log to a Log and an answer), Service
--                 (service.py: submit), Anchor (anchor.py: anchor, verify_tree).
--   Reconcile     itx/reconcile: Evidence, Equations (E1 to E12 of evaluate_equations),
--                 Discrepancies (classify), Completeness (assess_completeness), Engine (gather,
--                 reconcile), VerdictPayload (the verdict as the payload of a statement).
--   Enforce       itx/enforce: UserGate (local_checks, decide) and StreamingGate (feed_chunk,
--                 finalize, as functions from a state to a state and a reply).
--   Audit         itx/audit/replay.py: HeldReceipts (verify_held_receipts), TreeCheck (the check
--                 of the tree), VerdictSignature (_verdict_signature), Verdicts (the loop over the
--                 requests), Replay (replay_audit as a whole).
--   Sim           itx/sim/parties: ThirdParty (third_party.py), EvidenceQueue (evidence.py: enqueue,
--                 flush), Messages (messages.py: _commit), PreExec and ModelOperator
--                 (model_operator.py: _pre_exec_check, serve, forge_receipt), Waiting (user.py:
--                 _decide). The parties that a function changes, and the clock, are passed on;
--                 Untampered puts M and the user's gate together.
--   Runtime       itx/runtime: Enrollment (enrollment.py: verify_card; Deployments has
--                 verify_deployment and the history of configuration; auditing.py: verify_head),
--                 Witness (witness.py: verify_witness_receipt, handle; Client has `witness` of
--                 agent.py); Views has the specification of what a party sees of it.
--   Cose          itx/cose/cbor.py: Head (_head, _Reader.take, _Reader.argument).
--   Examples      concrete inputs.
-- The children of a file hold the proofs about it, and are named for what they prove.
--
-- Conventions. Times are milliseconds in ℕ; Python's integers have no bound, and the indices of a
-- stream are below 2 ^ 32 by the code's own check. A raised ValueError is `none`; other errors are
-- constructors. Texts for people (reasons, notes, titles) are left out, and enumerations stand for
-- texts that the code compares, except where a payload carries them. A statement that is absent and
-- a field that is None are `none`. The payload of a statement is read as the profile of its type,
-- which `validate_payload` checks at the registration; a payload of another profile, on which an
-- accessor of the engine's evidence would lead to a KeyError, reads as absent.
--
-- Fuel. largest_pow2_lt doubles from 1, so the number itself is enough fuel; mth and inclusion_path
-- take the number of leaves, and each slice has fewer; strip and strip_odd halve a number and take it
-- as fuel; subproof takes the number of leaves and is called with 1 ≤ m ≤ that number; land halves its
-- arguments and takes the larger one; a decimal text takes its number plus one. The wait for a verdict
-- takes one unit for each poll up to the deadline, and at least one.
--
-- Not modelled: canonical JSON and signature back ends (itx/crypto), COSE and the values of CBOR
-- (itx/cose), keys (itx/keys), the RFC 3161 client (itx/audit/anchor_tsa.py, a parameter of the
-- anchor check), certificates and files of the enrollment, the relay, the scenarios and the reports of
-- the simulation, the rest of the agent, the service and the proxy of the runtime with their HTTP and
-- database, the client and the command lines.
pub mod Base
pub mod Crypto
pub mod Statements
pub mod Ts
pub mod Reconcile
pub mod Enforce
pub mod Audit
pub mod Cose
pub mod Examples
pub mod Sim
pub mod Runtime
