-- ===== src/Settings/Tests.antt =====
-- The settings from a sample environment.
use gacha_engine_service.Prelude.{refl, true, none, some, str_eq, if◌then◌else◌}
use gacha_engine_service.Settings.{Environ, Settings, natural, from_env}
use gacha_engine_service.Settings.Usable.{IsUsable, from_env-IsUsable}

abbrev environ : Environ
environ = record {
  variable = λ name. if str_eq name "PORT" then some "9000" else none;
  strip = λ s. s;
  lower = λ s. s;
  int = λ s. some (natural 9000);
}

-- The port is read; all else is the default.
abbrev defaults : Settings
defaults = record {
  engine_build_sha = "development";
  host = "127.0.0.1";
  port = 9000;
  internal_token = "";
  kafka_bootstrap_servers = "127.0.0.1:9092";
  kafka_topic = "gacha.pull_completed.v1";
  kafka_client_id = "gacha-engine-service";
  gacha_config_database_url = "";
  gacha_state_database_url = "";
  gacha_project_id = "";
  gacha_environment_id = "";
  gacha_config_cache_ttl_seconds = 30;
  gacha_config_query_timeout_seconds = 5;
  gacha_config_pool_size = 2;
  gacha_state_query_timeout_seconds = 5;
  gacha_state_pool_size = 8;
  asset_service_url = "http://asset-service.asset-service.svc.cluster.local";
  asset_internal_token = "";
  asset_request_timeout_seconds = 5;
  backpack_service_url = "http://backpack-service.backpack-service.svc.cluster.local";
  backpack_internal_token = "";
  backpack_request_timeout_seconds = 5;
  pending_event_recovery_enabled = true;
  pending_event_recovery_interval_seconds = 5;
  pending_event_recovery_batch_size = 100;
  pending_event_recovery_lock_ttl_seconds = 30;
}

from_env-IsUsable_example : IsUsable defaults
unfolding from_env
from_env-IsUsable_example = from_env-IsUsable environ {s = defaults} refl
