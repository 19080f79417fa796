-- ===== src/Optimization.antt =====
-- src/power_market_data/optimization/: one bounded battery horizon, its solution and the
-- independent validation of it.
pub mod Floats
pub mod Model
pub mod Battery
