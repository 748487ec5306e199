-- ===== src/Enforce.antt =====
-- itx/enforce: the user's gate and the gate for streamed responses.
pub mod UserGate
pub mod StreamingGate
