-- ===== src/Reconcile.antt =====
-- itx/reconcile: registered statements and private evidence to a verdict.
pub mod Evidence
pub mod Equations
pub mod Discrepancies
pub mod Completeness
pub mod Engine
pub mod VerdictPayload
