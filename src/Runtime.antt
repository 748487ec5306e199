-- ===== src/Runtime.antt =====
-- itx/runtime: the deployment of separate operators, and the witness of the log.
pub mod Enrollment
pub mod Witness
