-- ===== src/Sources.antt =====
-- src/power_market_data/sources/: the adapters that turn a provider's answer into observations.
pub mod Frame
pub mod Caiso
