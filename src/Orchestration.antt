-- ===== src/Orchestration.antt =====
-- orchestration/: planning a backfill and classifying the failures of its runs.
pub mod Plan
pub mod Execution
pub mod Configuration
pub mod Operations
pub mod Pipeline
