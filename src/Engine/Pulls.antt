-- ===== src/Engine/Pulls.antt =====
-- `perform_pulls` of gacha_engine_service/engine.py: one round of its loop, the loop, the batch.
use gacha_engine_service.Prelude.{
  ℕ, zero, suc, ◌+◌, String, Bool, List, [], ◌∷◌, ◌==◌, if◌then◌else◌,
}
use gacha_engine_service.Prelude.Dict.{nat_eq}
use gacha_engine_service.Prelude.Result.{Result, ok, ◌>>=◌}
use gacha_engine_service.Runtime.{Runtime}
use gacha_engine_service.Schemas.{GachaItem, PityState, PullRecord}
use gacha_engine_service.CatalogConfig.{BannerConfig}
use gacha_engine_service.Engine.Rolls.{
  get_item, is_featured_item, next_featured_guarantee, roll_rarity, roll_item, record_id,
}

-- The counters and the guarantee after a five-star, and after a pull of any rarity.
unfoldable pub reset_pity : BannerConfig → Bool → PityState → Result PityState
unfolding next_featured_guarantee
reset_pity config is_featured pity = do
  rule ← get_item config.pity_rules 5
  ok (record {
    since_five = 0;
    since_four = if rule.resets_lower_rarity then 0 else pity.since_four + 1;
    guaranteed_featured_five = next_featured_guarantee config 5 is_featured;
  })

unfoldable pub advance_pity : BannerConfig → ℕ → Bool → PityState → Result PityState
unfolding reset_pity
advance_pity config rarity is_featured pity =
    if rarity == 5
    then reset_pity config is_featured pity
    else if rarity == 4
    then ok (record pity { since_five = pity.since_five + 1; since_four = 0 })
    else ok (record pity { since_five = pity.since_five + 1; since_four = pity.since_four + 1 })

module _ (R : Runtime) where
  open R use {Gen}

  unfoldable pub pull_record : BannerConfig → String → ℕ → PityState → ℕ → GachaItem → PullRecord
  unfolding is_featured_item record_id
  pull_record config seed index pity rarity item =
      let pity_at_five = pity.since_five + 1 in
      let pity_at_four = pity.since_four + 1 in
      record {
        id = record_id R seed index config.banner.id item.id pity_at_five pity_at_four;
        index = index;
        item_id = item.id;
        item_name = item.name;
        item_type = item.item_type;
        rarity = rarity;
        banner_id = config.banner.id;
        banner_name = config.banner.name;
        pity_at_five = pity_at_five;
        pity_at_four = pity_at_four;
        is_featured = is_featured_item config item;
      }

  -- One round of the loop: the record, and the pity state and the generator that it leaves.
  unfoldable pub pull_once :
      BannerConfig → String → ℕ → PityState → Gen → Result (PullRecord × PityState × Gen)
  pull_once config seed index pity rng = do
    (rarity, rng') ← roll_rarity R config pity rng
    (item, rng'') ← roll_item R config rarity pity rng'
    next ← advance_pity config rarity (is_featured_item config item) pity
    ok (pull_record config seed index pity rarity item, next, rng'')

  -- `for index in range(count)`, by the rounds that are left.
  unfoldable pub pull_rounds :
      BannerConfig → String → ℕ → ℕ → PityState → Gen → Result (List PullRecord × PityState)
  pull_rounds config seed zero index pity rng = ok ([], pity)
  pull_rounds config seed (suc n) index pity rng = do
    (r, next, rng') ← pull_once config seed index pity rng
    (records, last) ← pull_rounds config seed n (index + 1) next rng'
    ok (r ∷ records, last)

  unfoldable pub perform_pulls :
      BannerConfig → ℕ → PityState → String → Result (List PullRecord × PityState)
  perform_pulls config count pity seed = pull_rounds config seed count 0 pity (R.seeded seed)
