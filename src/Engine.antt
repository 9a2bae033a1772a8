-- ===== src/Engine.antt =====
-- gacha_engine_service/engine.py: one batch of pulls, from the seed to the records and the next
-- pity state. `Rolls` has the draws of one pull, `Pulls` the loop; the other children prove.
pub mod Rolls
pub mod Pulls
pub mod Trace
pub mod Pity
pub mod Total
pub mod StaticCatalog
pub mod Agreement
pub mod Labels
mod Tests
