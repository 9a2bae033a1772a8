-- ===== src/Store.antt =====
-- gacha_engine_service/postgres_state.py and gacha_engine_service/state_store.py, over the tables and
-- the trigger of migrations/*.up.sql. `Rows` has the tables, `Sql` the statements, `Methods` the
-- methods of `PostgresGachaStateStore`; the other children prove.
pub mod Rows
pub mod Sql
pub mod Methods
pub mod Queries
pub mod Begin
pub mod Evidence
pub mod Identity
pub mod Versions
pub mod Steps
pub mod Reach
pub mod Atomic
pub mod Exclusive
pub mod Claimable
pub mod Samples
mod Tests
