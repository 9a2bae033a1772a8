-- ===== src/Operations/Tests.antt =====
-- The recovery context's round trip at the limited banner of the static catalog.
use gacha_engine_service.Prelude.{◌≡◌, refl, true, none, some}
use gacha_engine_service.Runtime.Sample.{sample}
use gacha_engine_service.Schemas.{PityState}
use gacha_engine_service.Catalog.{gacha_items, limited_character_001}
use gacha_engine_service.CatalogConfig.{BannerConfig}
use gacha_engine_service.CatalogConfig.Static.{static_banner_config}
use gacha_engine_service.Engine.Pulls.{perform_pulls}
use gacha_engine_service.Operations.Context.{PullInputs, frozen_context, to_banner_config}
use gacha_engine_service.Operations.RoundTrip.{IsKeyed, recovered_config_pulls}

abbrev config : BannerConfig
unfolding static_banner_config
config = static_banner_config gacha_items limited_character_001

abbrev inputs : PullInputs
inputs = record {
  count = 10;
  seed = "seed";
  event_id = "event";
  amount_minor = 1600;
  request_id = "";
  accepted_at = some 1;
  audit = none;
}

config-IsKeyed : IsKeyed config
unfolding config
config-IsKeyed = record {
  items = λ k. refl;
  rates = ((refl, (refl, (refl, tt))), (refl, (refl, (refl, tt))));
  featured_rules = ((refl, (refl, tt)), (refl, (refl, tt)));
  pity_rules = ((refl, (refl, tt)), (refl, (refl, tt)));
  featured_ids = (refl, (refl, tt));
}

abbrev near : PityState
near = record { since_five = 78; since_four = 3; guaranteed_featured_five = true }

recovered_config_pulls_example :
    perform_pulls sample (to_banner_config (frozen_context config inputs)) 10 near "seed"
    ≡ perform_pulls sample config 10 near "seed"
recovered_config_pulls_example =
    recovered_config_pulls sample config inputs config-IsKeyed 10 near "seed"
