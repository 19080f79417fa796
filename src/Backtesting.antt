-- ===== src/Backtesting.antt =====
-- The package backtesting: the rows of the input mart, and daily benchmarks of a battery.
pub mod Inputs
pub mod Decimals
pub mod Engine
