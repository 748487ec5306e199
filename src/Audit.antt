-- ===== src/Audit.antt =====
-- itx/audit: the checks that an auditor runs on an exported log.
pub mod HeldReceipts
pub mod TreeCheck
pub mod VerdictSignature
pub mod Verdicts
pub mod Replay
