-- ===== src/Repository.antt =====
-- gacha_engine_service/catalog_repository.py: the catalog from a database release, and its cache.
pub mod Values
pub mod Rows
pub mod Build
pub mod Release
pub mod Cache
pub mod Freshness
pub mod Playable
pub mod Owners
pub mod Loaded
pub mod Schedules
pub mod Snapshot
pub mod Loads
pub mod Reload
pub mod Sample
pub mod Tests
