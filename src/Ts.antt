-- ===== src/Ts.antt =====
-- itx/ts: the transparency log, its Merkle tree, its service and its anchor.
pub mod Merkle
pub mod Consistency
pub mod Log
pub mod Service
pub mod Anchor
