-- ===== src/Operations/RoundTrip.antt =====
-- The engine sees no difference between a banner configuration and what a recovery context keeps of it.
use gacha_engine_service.Prelude.{ℕ, ◌≡◌, refl, String, [], ◌∷◌, map, arith, All, sym}
use gacha_engine_service.Prelude.Dict.{
  Dict, nat_eq, string_eq, lookup, of_entries, sorted, insert_sorted, UniqueKeys, lookup-of_entries,
  of_entries-UniqueKeys, lookup-sorted, sorted-UniqueKeys,
}
use gacha_engine_service.Runtime.{Runtime}
use gacha_engine_service.Schemas.{GachaItem, PityState}
use gacha_engine_service.CatalogConfig.{BannerConfig, RarityRate, FeaturedRule, PityRule}
use gacha_engine_service.Operations.Context.{
  PullInputs, frozen_context, to_banner_config, freeze_rate, thaw_rate, freeze_featured_rule,
  thaw_featured_rule, freeze_pity_rule, thaw_pity_rule,
}
use gacha_engine_service.Engine.Pulls.{perform_pulls}
use gacha_engine_service.Engine.Agreement.{Agrees, perform_pulls_agrees}

-- Every rule stands under its own rarity.
abbrev pub Keyed : {A : Type 0} → (A → ℕ) → Dict ℕ A → Type 0
Keyed {A} rarity d = All (λ (e : ℕ × A). e.0 ≡ rarity e.1) d

-- A configuration as the catalogs build them: dicts without a key twice, rules under their rarities
-- and the items under their ids.
pub record IsKeyed (config : BannerConfig) : Type 0 where
  pub items :
      (k : String)
      → lookup k config.item_by_id
        ≡ lookup k (of_entries (map (λ (item : GachaItem). (item.id, item)) config.all_items) [])
  pub rates :
      UniqueKeys config.rarity_rates × Keyed (λ (r : RarityRate). r.rarity) config.rarity_rates
  pub featured_rules :
      UniqueKeys config.featured_rules
      × Keyed (λ (r : FeaturedRule). r.rarity) config.featured_rules
  pub pity_rules :
      UniqueKeys config.pity_rules × Keyed (λ (r : PityRule). r.rarity) config.pity_rules
  pub featured_ids : UniqueKeys config.featured_item_ids_by_rarity

module _ {A : Type 0} (rarity : A → ℕ) where
  insert_sorted-Keyed :
      (k : ℕ) (v : A) (d : Dict ℕ A)
      → k ≡ rarity v
      → Keyed rarity d
      → Keyed rarity (insert_sorted (k, v) d)
  insert_sorted-Keyed k v [] e h = (e, tt)
  insert_sorted-Keyed k v ((j, w) ∷ d) e h = ground (arith, insert_sorted-Keyed k v d)

  sorted-Keyed : (d : Dict ℕ A) → Keyed rarity d → Keyed rarity (sorted d)
  sorted-Keyed [] h = tt
  sorted-Keyed ((k, v) ∷ d) h = insert_sorted-Keyed k v (sorted d) h.0 (sorted-Keyed d h.1)

module _ {A B : Type 0} (rarity : A → ℕ) (freeze : ℕ × A → B) (thaw : B → ℕ × A)
    (back : (e : ℕ × A) → thaw (freeze e) ≡ (rarity e.1, e.1)) where
  thaw_freeze : (d : Dict ℕ A) → Keyed rarity d → map thaw (map freeze d) ≡ d
  thaw_freeze [] h = refl
  thaw_freeze ((k, v) ∷ d) h = rw (back (k, v), thaw_freeze d h.1, h.0) refl

  lookup_thawed :
      (d : Dict ℕ A)
      → UniqueKeys d × Keyed rarity d
      → (k : ℕ) → lookup k (of_entries (map thaw (map freeze (sorted d))) []) ≡ lookup k d
  lookup_thawed d (u, h) k = rw (thaw_freeze (sorted d) (sorted-Keyed rarity d h)) (
      rw (lookup-of_entries k (sorted d) [] (sorted-UniqueKeys d u), lookup-sorted k d)
        (ground arith))

frozen_context-Agrees :
    (config : BannerConfig) (inputs : PullInputs)
    → IsKeyed config
    → Agrees (to_banner_config (frozen_context config inputs)) config
unfolding to_banner_config frozen_context freeze_rate thaw_rate
frozen_context-Agrees config inputs keyed = record {
  banner = refl;
  all_items = refl;
  items = λ k. sym (keyed.items k);
  rates =
      lookup_thawed (λ r. r.rarity) freeze_rate thaw_rate (λ e. refl) config.rarity_rates
        keyed.rates;
  featured_rules =
      lookup_thawed (λ r. r.rarity) freeze_featured_rule thaw_featured_rule (λ e. refl)
        config.featured_rules keyed.featured_rules;
  pity_rules =
      lookup_thawed (λ r. r.rarity) freeze_pity_rule thaw_pity_rule (λ e. refl) config.pity_rules
        keyed.pity_rules;
  featured_ids = λ k.
      let ids = config.featured_item_ids_by_rarity in
      rw
        (
          lookup-of_entries k (of_entries ids []) [] (of_entries-UniqueKeys ids [] tt),
          lookup-of_entries k ids [] keyed.featured_ids,
        )
        (ground arith);
}

-- A batch on the configuration that a recovery context gives back is the batch on the configuration
-- that was frozen into it, for a configuration whose dicts have no key twice, whose rules stand under
-- their own rarities and whose `item_by_id` is made of its items.
pub recovered_config_pulls :
    (R : Runtime) (config : BannerConfig) (inputs : PullInputs)
    → IsKeyed config
    → (count : ℕ) (pity : PityState) (seed : String)
    → perform_pulls R (to_banner_config (frozen_context config inputs)) count pity seed
      ≡ perform_pulls R config count pity seed
recovered_config_pulls R config inputs keyed =
    perform_pulls_agrees (to_banner_config (frozen_context config inputs)) config
      (frozen_context-Agrees config inputs keyed) R
