-- ===== src/Engine/Labels.antt =====
-- The labels that every record of a batch carries.
use gacha_engine_service.Prelude.{ℕ, zero, suc, ◌+◌, ◌≡◌, refl, String, List, All}
use gacha_engine_service.Prelude.Result.{ok, Ensures, Ensures-each, Ensures-bind, Ensures-ok}
use gacha_engine_service.Runtime.{Runtime}
use gacha_engine_service.Schemas.{PityState, PullRecord}
use gacha_engine_service.CatalogConfig.{BannerConfig}
use gacha_engine_service.Engine.Rolls.{is_featured_item, roll_rarity, roll_item}
use gacha_engine_service.Engine.Pulls.{
  advance_pity, pull_record, pull_once, pull_rounds, perform_pulls,
}

module _ (R : Runtime) (config : BannerConfig) where
  open R use {Gen}

  abbrev IsOfBanner : PullRecord → Type 0
  IsOfBanner r = r.banner_id ≡ config.banner.id

  pull_once-banner :
      (seed : String) (index : ℕ) (pity : PityState) (rng : Gen)
      → Ensures
          (λ (o : PullRecord × PityState × Gen). IsOfBanner o.0)
          (pull_once R config seed index pity rng)
  unfolding pull_once pull_record
  pull_once-banner seed index pity rng =
      Ensures-each (λ o. IsOfBanner o.0) (roll_rarity R config pity rng) _
        λ (rarity, rng').
          Ensures-each (λ o. IsOfBanner o.0) (roll_item R config rarity pity rng') _
            λ (item, rng'').
              Ensures-each (λ o. IsOfBanner o.0)
                (advance_pity config rarity (is_featured_item config item) pity) _ λ next. refl

  pull_rounds-banner :
      (seed : String) (n index : ℕ) (pity : PityState) (rng : Gen)
      → Ensures
          (λ (o : List PullRecord × PityState). All IsOfBanner o.0)
          (pull_rounds R config seed n index pity rng)
  unfolding pull_rounds
  pull_rounds-banner seed zero index pity rng = tt
  pull_rounds-banner seed (suc n) index pity rng =
      Ensures-bind (λ o. IsOfBanner o.0) (λ o. All IsOfBanner o.0)
        (pull_once R config seed index pity rng) _ (pull_once-banner seed index pity rng)
        λ (r, next, rng') e.
          Ensures-bind (λ o. All IsOfBanner o.0) (λ o. All IsOfBanner o.0)
            (pull_rounds R config seed n (index + 1) next rng') _
            (pull_rounds-banner seed n (index + 1) next rng') λ (records, last) h. (e, h)

  pub perform_pulls-banner :
      (count : ℕ) (pity : PityState) (seed : String) {records : List PullRecord} {last : PityState}
      → perform_pulls R config count pity seed ≡ ok (records, last)
      → All IsOfBanner records
  unfolding perform_pulls
  perform_pulls-banner count pity seed h =
      Ensures-ok (λ o. All IsOfBanner o.0) (pull_rounds-banner seed count 0 pity (R.seeded seed)) h
