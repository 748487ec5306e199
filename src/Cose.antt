-- ===== src/Cose.antt =====
-- itx/cose: the deterministic CBOR encoding.
pub mod Head
