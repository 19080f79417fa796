-- ===== src/Tests.antt =====
-- Concrete inputs, at which each theorem with hypotheses is applied.
pub mod Hash
pub mod Worlds
pub mod Writing
pub mod Batches
pub mod Services
pub mod Sources
pub mod Batteries
pub mod Pipelines
