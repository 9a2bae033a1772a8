-- ===== src/Lib.antt =====
-- gacha-engine-service draws items from weighted banners, charges for the draws, records them and
-- tells other services. This library models its core over native numbers.
--
-- The parts, and where they are:
-- * The engine (gacha_engine_service/engine.py): Engine. `Engine.Rolls` has the draw of a rarity
--   and of an item, `Engine.Pulls` one round of the loop of `perform_pulls`, the loop and the
--   batch. `Engine.Trace`, `Engine.Pity`, `Engine.Total`, `Engine.Agreement` and `Engine.Labels`
--   prove.
-- * The data (gacha_engine_service/schemas.py, catalog.py, catalog_config.py): Schemas, Catalog
--   and CatalogConfig, the last with the static catalog in `CatalogConfig.Static`.
-- * The operations (gacha_engine_service/pull_operations.py): Operations, with the frozen
--   recovery context in `Operations.Context`. `Operations.RoundTrip` proves that the engine sees
--   no difference after the round trip.
-- * The catalog repository (gacha_engine_service/catalog_repository.py): Repository.
--   `Repository.Rows` reads rows, `Repository.Build` builds the configurations and schedules,
--   `Repository.Release` checks a release and loads it, `Repository.Cache` is the cached
--   provider. `Repository.Owners`, `Repository.Loaded`, `Repository.Schedules`,
--   `Repository.Snapshot`, `Repository.Loads`, `Repository.Reload`, `Repository.Freshness` and
--   `Repository.Playable` prove. Columns and decoded JSON are values of the parameter `Values`.
-- * The store (gacha_engine_service/postgres_state.py, state_store.py, migrations/*.up.sql):
--   Store. The state is `Db`, the rows of the two tables. A statement is a function of `Db` that
--   the trigger, the unique keys, the length checks and the ranges of the columns can refuse
--   (`Store.Sql`); a method is a `Call`, which returns or raises and leaves the tables
--   (`Store.Methods`, `Store.Queries`, `Store.Begin`). A transaction that raises leaves the
--   tables as they were, which is what PostgreSQL does, and is written into each method.
--   `Store.Evidence`, `Store.Versions`, `Store.Steps`, `Store.Atomic`, `Store.Identity`,
--   `Store.Reach`, `Store.Exclusive` and `Store.Claimable` prove; `Store.Reach.Run` is any
--   sequence of calls by any workers.
-- * The audit (gacha_engine_service/pull_audit.py): Audit, with its theorems in `Audit.Replay`.
-- * The workflow (gacha_engine_service/main.py): Service. Its state is `World`: the tables, the
--   number of calls that have left the process and the requests to the asset service and to
--   Kafka. `Env` gives, by the number of a call, the moment that a store call meets (the time,
--   what other workers did before it, a fault before or after it takes effect) and the replies of
--   the services. `Service.Commit`, `Service.Claimed`, `Service.Existing` and `Service.Recovery`
--   have the handlers, `Service.Summary` what the API tells of an operation. `Service.Inversion`,
--   `Service.Outcomes`, `Service.Performed`, `Service.Delivered`, `Service.Quiet`,
--   `Service.Charged`, `Service.Refused` and `Service.Verified` prove.
-- * The routes (gacha_engine_service/main.py, auth.py): Api. `Api.Headers` has the dependencies
--   that read the headers, `Api.Routes` the handlers, which call the store, the audit and the
--   workflow; `Api.Trusted` proves.
-- * The settings (gacha_engine_service/config.py): Settings, with its theorem in
--   `Settings.Usable`.
--
-- Code outside the repository is a parameter: floats, `random.Random`, hashes and UUIDs
-- (`Runtime`, with its documented laws in `RuntimeLaws`), the values of a release (`Values`), the
-- texts of headers (`Texts`, `TextsLaws`), the environment (`Environ`), `json.dumps` in the
-- audit, the replies of the services in `Env`.
--
-- Conventions: a UUID is its canonical text, a timestamp the number of microseconds since the
-- epoch. A number that the schema or the database keeps non-negative is an ℕ. The format checks
-- of hashes, which are hex digests wherever the code makes them, are left out, as are the field
-- constraints of the audit metadata. A Python exception is the `raise` of `Outcome`. The loops
-- are structural: `perform_pulls` by the rounds that are left, the retries by the attempts that
-- are left (three publications, five commits), which are the source's own bounds, so no fuel can
-- run out before they do. The pauses between attempts, logging and tracing are left out, and of
-- the recovery worker's endless loop one round is modelled.
--
-- Not modelled: the set-up of FastAPI, its probes and catalog listings, the connection pools and
-- the SQL of the catalog queries, telemetry, the network clients themselves, and the scripts.
pub mod Prelude
pub mod Runtime
pub mod Schemas
pub mod Catalog
pub mod CatalogConfig
pub mod Engine
pub mod Operations
pub mod Audit
pub mod Repository
pub mod Store
pub mod Service
pub mod Settings
pub mod Api
