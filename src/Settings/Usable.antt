-- ===== src/Settings/Usable.antt =====
-- What settings from the environment satisfy.
use gacha_engine_service.Prelude.{
  ℕ, ◌≤◌, ◌≡◌, ◌≢◌, refl, String, false, true, arith, str_eq, eq_iff,
}
use gacha_engine_service.Prelude.Result.{
  Result, ok, ◌>>=◌, Ensures, Ensures-bind, Ensures-each, Ensures-of_ok, Ensures-ok,
}
use gacha_engine_service.Settings.{
  Environ, Settings, or_text, text_env, getenv, int_env, non_negative_int_env, bool_env, from_env,
}

-- Sizes, timeouts and intervals are positive, and the texts that have a default are not empty.
pub record IsUsable (s : Settings) : Type 0 where
  pub port : 1 ≤ s.port
  pub config_timeout : 1 ≤ s.gacha_config_query_timeout_seconds
  pub config_pool : 1 ≤ s.gacha_config_pool_size
  pub state_timeout : 1 ≤ s.gacha_state_query_timeout_seconds
  pub state_pool : 1 ≤ s.gacha_state_pool_size
  pub asset_timeout : 1 ≤ s.asset_request_timeout_seconds
  pub backpack_timeout : 1 ≤ s.backpack_request_timeout_seconds
  pub interval : 1 ≤ s.pending_event_recovery_interval_seconds
  pub batch : 1 ≤ s.pending_event_recovery_batch_size
  pub lock : 1 ≤ s.pending_event_recovery_lock_ttl_seconds
  pub host : s.host ≢ ""
  pub topic : s.kafka_topic ≢ ""
  pub build : s.engine_build_sha ≢ ""
  pub bootstrap : s.kafka_bootstrap_servers ≢ ""
  pub client : s.kafka_client_id ≢ ""
  pub asset_url : s.asset_service_url ≢ ""
  pub backpack_url : s.backpack_service_url ≢ ""
  pub state_url : s.gacha_state_database_url ≡ "" → s.gacha_config_database_url ≡ ""

or_text-nonempty : (a b : String) → str_eq b "" ≡ false → or_text a b ≢ ""
or_text-nonempty a b h e = ground (arith, eq_iff a "", eq_iff b "", h)

or_text-empty : (a b : String) → or_text a b ≡ "" → b ≡ ""
or_text-empty a b e = ground (arith, eq_iff a "")

module _ (E : Environ) where
  text_env-nonempty :
      (name default : String) → str_eq default "" ≡ false → text_env E name default ≢ ""
  text_env-nonempty name default h = or_text-nonempty (getenv E name default) default h

  int_env-positive :
      (name : String) (default : ℕ) → 1 ≤ default → Ensures (λ n. 1 ≤ n) (int_env E name default)
  unfolding int_env
  int_env-positive name default h =
      Ensures-of_ok (λ n. 1 ≤ n) (int_env E name default) λ n e. ground arith

  positive_setting :
      (name : String) (default : ℕ)
      → 1 ≤ default
      → (f : ℕ → Result Settings) → ((n : ℕ) → 1 ≤ n → Ensures IsUsable (f n))
      → Ensures IsUsable (int_env E name default >>= f)
  positive_setting name default h f k =
      Ensures-bind (λ n. 1 ≤ n) IsUsable (int_env E name default) f
        (int_env-positive name default h) k

  from_env-Usable : Ensures IsUsable (from_env E)
  unfolding from_env
  from_env-Usable = positive_setting "PORT" 8080 (omega arith) _ λ n_port port.
      Ensures-each IsUsable (non_negative_int_env E "GACHA_CONFIG_CACHE_TTL_SECONDS" 30) _ λ ttl.
        positive_setting "GACHA_CONFIG_QUERY_TIMEOUT_SECONDS" 5 (omega arith) _
          λ n_config_timeout config_timeout.
            positive_setting "GACHA_CONFIG_POOL_SIZE" 2 (omega arith) _ λ n_config_pool config_pool.
              positive_setting "GACHA_STATE_QUERY_TIMEOUT_SECONDS" 5 (omega arith) _
                λ n_state_timeout state_timeout.
                  positive_setting "GACHA_STATE_POOL_SIZE" 8 (omega arith) _
                    λ n_state_pool state_pool.
                      positive_setting "ASSET_REQUEST_TIMEOUT_SECONDS" 5 (omega arith) _
                        λ n_asset_timeout asset_timeout.
                          positive_setting "BACKPACK_REQUEST_TIMEOUT_SECONDS" 5 (omega arith) _
                            λ n_backpack_timeout backpack_timeout.
                              Ensures-each IsUsable
                                (bool_env E "PENDING_EVENT_RECOVERY_ENABLED" true) _
                                λ enabled.
                                  positive_setting "PENDING_EVENT_RECOVERY_INTERVAL_SECONDS" 5
                                    (omega arith) _
                                    λ n_interval interval.
                                      positive_setting "PENDING_EVENT_RECOVERY_BATCH_SIZE" 100
                                        (omega arith) _
                                        λ n_batch batch.
                                          positive_setting "PENDING_EVENT_RECOVERY_LOCK_TTL_SECONDS"
                                            30 (omega arith) _
                                            λ n_lock lock. record {
                                              port = port;
                                              config_timeout = config_timeout;
                                              config_pool = config_pool;
                                              state_timeout = state_timeout;
                                              state_pool = state_pool;
                                              asset_timeout = asset_timeout;
                                              backpack_timeout = backpack_timeout;
                                              interval = interval;
                                              batch = batch;
                                              lock = lock;
                                              host = text_env-nonempty "HOST" "127.0.0.1" refl;
                                              topic =
                                                  text_env-nonempty "KAFKA_TOPIC"
                                                    "gacha.pull_completed.v1" refl;
                                              build =
                                                  text_env-nonempty "GACHA_ENGINE_BUILD_SHA"
                                                    "development" refl;
                                              bootstrap =
                                                  text_env-nonempty "KAFKA_BOOTSTRAP_SERVERS"
                                                    "127.0.0.1:9092" refl;
                                              client =
                                                  text_env-nonempty "KAFKA_CLIENT_ID"
                                                    "gacha-engine-service" refl;
                                              asset_url =
                                                  text_env-nonempty "ASSET_SERVICE_URL"
                                                    "http://asset-service.asset-service.svc.cluster.local"
                                                    refl;
                                              backpack_url =
                                                  text_env-nonempty "BACKPACK_SERVICE_URL"
                                                    "http://backpack-service.backpack-service.svc.cluster.local"
                                                    refl;
                                              state_url =
                                                  or_text-empty
                                                    (getenv E "GACHA_STATE_DATABASE_URL" "")
                                                    (getenv E "GACHA_CONFIG_DATABASE_URL" "");
                                            }

  -- Whatever the environment holds, settings that `from_env` returns have a positive port and positive
  -- timeouts, pool sizes, interval, batch size and lock time; a host, a Kafka address, topic and client,
  -- a build and addresses of the asset and backpack services that are not empty; and no state database without that there is none for the configuration either.
  pub from_env-IsUsable : {s : Settings} → from_env E ≡ ok s → IsUsable s
  from_env-IsUsable e = Ensures-ok IsUsable from_env-Usable e
