-- ===== src/Sim.antt =====
-- itx/sim/parties: the parties of a simulated run, with the clock of the context as an argument.
pub mod ThirdParty
pub mod EvidenceQueue
pub mod Messages
pub mod PreExec
pub mod ModelOperator
pub mod Untampered
pub mod Waiting
