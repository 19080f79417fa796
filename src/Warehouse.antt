-- ===== src/Warehouse.antt =====
-- The raw warehouse, src/power_market_data/warehouse/. `Request` and `Batch` are the pure decisions
-- of model.py, `Tables` and `Scripts` the tables of schema.py and the scripts of sql.py, `History`
-- the revision history that the transitions stand for.
pub mod Request
pub mod Batch
pub mod Plan
pub mod Scripts
pub mod Identifiers
pub mod Snapshot
pub mod History
pub mod Records
pub mod Writers
pub mod Requests
pub mod Config
pub mod Tables
pub mod Client
