-- ===== src/Statements.antt =====
-- itx/statements: the signed statements, their payloads and the schema check.
mod Payloads
pub mod Envelope
pub mod Schemas
pub use Payloads.*
