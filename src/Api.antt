-- ===== src/Api.antt =====
-- The routes of gacha_engine_service/main.py, with the checks of their headers and
-- gacha_engine_service/auth.py: from a request to the workflow, the store and the audit.
pub mod Headers
pub mod Routes
pub mod Trusted
mod Tests
