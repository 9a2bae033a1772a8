-- ===== src/Settings.antt =====
-- gacha_engine_service/config.py: the settings from the environment. The environment, `strip`, `lower` and
-- `int` of a text are parameters.
pub mod Usable
mod Tests
use gacha_engine_service.Prelude.{
  ℕ, ◌≤◌, ◌≡◌, ◌≢◌, refl, String, Bool, true, false, ◌||◌, Option, none, some, arith, inl, inr, ltb,
  str_eq, eq_iff, Bool-cases, Option-cases, if◌then◌else◌,
}
use gacha_engine_service.Prelude.Result.{
  Result, ok, raise, value_error, ◌>>=◌, Ensures, Ensures-bind, Ensures-each, Ensures-of_ok,
  Ensures-ok,
}

pub data Integer : Type 0 where
  natural : ℕ → Integer
  negative : ℕ → Integer

pub record Environ : Type 0 where
  -- `os.environ.get(name)`
  pub variable : String → Option String
  pub strip : String → String
  pub lower : String → String
  -- `int(text)`; `none` is the `ValueError`
  pub int : String → Option Integer

pub record Settings : Type 0 where
  pub engine_build_sha : String
  pub host : String
  pub port : ℕ
  pub internal_token : String
  pub kafka_bootstrap_servers : String
  pub kafka_topic : String
  pub kafka_client_id : String
  pub gacha_config_database_url : String
  pub gacha_state_database_url : String
  pub gacha_project_id : String
  pub gacha_environment_id : String
  pub gacha_config_cache_ttl_seconds : ℕ
  pub gacha_config_query_timeout_seconds : ℕ
  pub gacha_config_pool_size : ℕ
  pub gacha_state_query_timeout_seconds : ℕ
  pub gacha_state_pool_size : ℕ
  pub asset_service_url : String
  pub asset_internal_token : String
  pub asset_request_timeout_seconds : ℕ
  pub backpack_service_url : String
  pub backpack_internal_token : String
  pub backpack_request_timeout_seconds : ℕ
  pub pending_event_recovery_enabled : Bool
  pub pending_event_recovery_interval_seconds : ℕ
  pub pending_event_recovery_batch_size : ℕ
  pub pending_event_recovery_lock_ttl_seconds : ℕ

-- `a or b`
abbrev pub or_text : String → String → String
or_text a b = if str_eq a "" then b else a

module _ (E : Environ) where
  -- `os.getenv(name, default).strip()`
  abbrev pub getenv : String → String → String
  getenv name default = E.strip (elim (E.variable name) [ none ↦ default | some value ↦ value ])

  -- `os.getenv(name, default).strip() or default`
  abbrev pub text_env : String → String → String
  text_env name default = or_text (getenv name default) default

  unfoldable pub int_env : String → ℕ → Result ℕ
  int_env name default =
      let value = getenv name "" in
      if str_eq value "" then ok default else elim (E.int value) [
        | none ↦ raise value_error
        | some (negative n) ↦ raise value_error
        | some (natural n) ↦ if ltb n 1 then raise value_error else ok n
      ]

  unfoldable pub non_negative_int_env : String → ℕ → Result ℕ
  non_negative_int_env name default =
      let value = getenv name "" in
      if str_eq value "" then ok default else elim (E.int value) [
        | none ↦ raise value_error
        | some (negative n) ↦ raise value_error
        | some (natural n) ↦ ok n
      ]

  unfoldable pub bool_env : String → Bool → Result Bool
  bool_env name default =
      let value = E.lower (getenv name "") in
      if str_eq value ""
      then ok default
      else if str_eq value "1" || str_eq value "true" || str_eq value "yes" || str_eq value "on"
      then ok true
      else if str_eq value "0" || str_eq value "false" || str_eq value "no" || str_eq value "off"
      then ok false
      else raise value_error

  -- `Settings.from_env`; the name and the version are constants.
  unfoldable pub from_env : Result Settings
  unfolding int_env non_negative_int_env bool_env
  from_env = do
    let config_database_url = getenv "GACHA_CONFIG_DATABASE_URL" ""
    port ← int_env "PORT" 8080
    ttl ← non_negative_int_env "GACHA_CONFIG_CACHE_TTL_SECONDS" 30
    config_timeout ← int_env "GACHA_CONFIG_QUERY_TIMEOUT_SECONDS" 5
    config_pool ← int_env "GACHA_CONFIG_POOL_SIZE" 2
    state_timeout ← int_env "GACHA_STATE_QUERY_TIMEOUT_SECONDS" 5
    state_pool ← int_env "GACHA_STATE_POOL_SIZE" 8
    asset_timeout ← int_env "ASSET_REQUEST_TIMEOUT_SECONDS" 5
    backpack_timeout ← int_env "BACKPACK_REQUEST_TIMEOUT_SECONDS" 5
    recovery_enabled ← bool_env "PENDING_EVENT_RECOVERY_ENABLED" true
    recovery_interval ← int_env "PENDING_EVENT_RECOVERY_INTERVAL_SECONDS" 5
    recovery_batch ← int_env "PENDING_EVENT_RECOVERY_BATCH_SIZE" 100
    recovery_lock ← int_env "PENDING_EVENT_RECOVERY_LOCK_TTL_SECONDS" 30
    ok (record {
      engine_build_sha = text_env "GACHA_ENGINE_BUILD_SHA" "development";
      host = text_env "HOST" "127.0.0.1";
      port = port;
      internal_token = getenv "INTERNAL_TOKEN" "";
      kafka_bootstrap_servers = text_env "KAFKA_BOOTSTRAP_SERVERS" "127.0.0.1:9092";
      kafka_topic = text_env "KAFKA_TOPIC" "gacha.pull_completed.v1";
      kafka_client_id = text_env "KAFKA_CLIENT_ID" "gacha-engine-service";
      gacha_config_database_url = config_database_url;
      gacha_state_database_url = or_text (getenv "GACHA_STATE_DATABASE_URL" "") config_database_url;
      gacha_project_id = getenv "GACHA_PROJECT_ID" "";
      gacha_environment_id = getenv "GACHA_ENVIRONMENT_ID" "";
      gacha_config_cache_ttl_seconds = ttl;
      gacha_config_query_timeout_seconds = config_timeout;
      gacha_config_pool_size = config_pool;
      gacha_state_query_timeout_seconds = state_timeout;
      gacha_state_pool_size = state_pool;
      asset_service_url =
          text_env "ASSET_SERVICE_URL" "http://asset-service.asset-service.svc.cluster.local";
      asset_internal_token = getenv "ASSET_INTERNAL_TOKEN" "";
      asset_request_timeout_seconds = asset_timeout;
      backpack_service_url =
          text_env "BACKPACK_SERVICE_URL"
            "http://backpack-service.backpack-service.svc.cluster.local";
      backpack_internal_token = getenv "BACKPACK_INTERNAL_TOKEN" "";
      backpack_request_timeout_seconds = backpack_timeout;
      pending_event_recovery_enabled = recovery_enabled;
      pending_event_recovery_interval_seconds = recovery_interval;
      pending_event_recovery_batch_size = recovery_batch;
      pending_event_recovery_lock_ttl_seconds = recovery_lock;
    })
