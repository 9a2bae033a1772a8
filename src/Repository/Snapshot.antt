-- ===== src/Repository/Snapshot.antt =====
-- What a snapshot that the Postgres repository loads satisfies.
use gacha_engine_service.Prelude.{
  ℕ, ◌≡◌, refl, String, none, some, List, [], ◌∷◌, ◌++◌, inl, inr, Option-cases, All, if_both,
  is_some,
}
use gacha_engine_service.Prelude.Dict.{Dict, string_eq, lookup}
use gacha_engine_service.Prelude.Entries.{Entries, Entries-lookup, Entries-insert}
use gacha_engine_service.Prelude.Result.{Ensures, Ensures-each, Ensures-bind}
use gacha_engine_service.CatalogConfig.{BannerConfig, ScheduledBannerConfig, is_effective_at}
use gacha_engine_service.Repository.Values.{Values}
use gacha_engine_service.Repository.Rows.{
  items_from_rows, rarity_rates_by_owner, featured_rules_by_owner, pity_rules_by_owner,
  optional_release_timestamp,
}
use gacha_engine_service.Repository.Build.{
  Gathered, Gathering, BannerRow, ReleaseRows, gather, group_banner_items, config_from_row,
  add_schedule, add_banner_rows, insert_schedule, sorted_schedules, starts_by,
}
use gacha_engine_service.Repository.Owners.{
  rarity_rates-Owned, featured_rules-Owned, pity_rules-Owned,
}
use gacha_engine_service.Repository.Loaded.{IsLoaded, IsGathered, config_from_row-Loaded}

-- A configuration of the banner with that id.
abbrev pub IsOf : String → BannerConfig → Type 0
IsOf banner_id config = (config.banner.id ≡ banner_id) × IsLoaded config

abbrev pub AllOf : String → List ScheduledBannerConfig → Type 0
AllOf banner_id schedules = All (λ (s : ScheduledBannerConfig). IsOf banner_id s.config) schedules

pub record IsGood (g : Gathering) : Type 0 where
  pub configs : Entries IsOf g.configs
  pub schedules : Entries AllOf g.schedules

AllOf-append :
    (banner_id : String) (ss : List ScheduledBannerConfig) (s : ScheduledBannerConfig)
    → AllOf banner_id ss
    → IsOf banner_id s.config
    → AllOf banner_id (ss ++ s ∷ [])
AllOf-append banner_id [] s h k = (k, tt)
AllOf-append banner_id (t ∷ ss) s h k = (h.0, AllOf-append banner_id ss s h.1 k)

AllOf-insert :
    (banner_id : String) (s : ScheduledBannerConfig) (ss : List ScheduledBannerConfig)
    → IsOf banner_id s.config
    → AllOf banner_id ss
    → AllOf banner_id (insert_schedule s ss)
AllOf-insert banner_id s [] k h = (k, tt)
AllOf-insert banner_id s (t ∷ ss) k h =
    if_both (AllOf banner_id) (starts_by s t) (k, h) (h.0, AllOf-insert banner_id s ss k h.1)

pub AllOf-sorted :
    (banner_id : String) (ss : List ScheduledBannerConfig)
    → AllOf banner_id ss
    → AllOf banner_id (sorted_schedules ss)
AllOf-sorted banner_id [] h = tt
AllOf-sorted banner_id (s ∷ ss) h =
    AllOf-insert banner_id s (sorted_schedules ss) h.0 (AllOf-sorted banner_id ss h.1)

found_schedules :
    (banner_id : String) (d : Dict String (List ScheduledBannerConfig))
    → Entries AllOf d
    → AllOf banner_id (elim (lookup banner_id d) as (λ _. List ScheduledBannerConfig) [
      | none ↦ []
      | some ss ↦ ss
    ])
found_schedules banner_id d h = elim (Option-cases (lookup banner_id d)) [
  | inl e ↦ rw e tt
  | inr (ss, e) ↦ rw e (Entries-lookup AllOf banner_id d h e)
]

add_schedule-Good :
    (snapshot_time : ℕ) (g : Gathering) (s : ScheduledBannerConfig)
    → IsGood g
    → IsLoaded s.config
    → Ensures IsGood (add_schedule snapshot_time g s)
unfolding add_schedule
add_schedule-Good snapshot_time g s h loaded =
    let id = s.config.banner.id in
    let schedules =
      Entries-insert AllOf id _ g.schedules
        (AllOf-append id _ s (found_schedules id g.schedules h.schedules) (refl, loaded))
        h.schedules in
    if_both (Ensures IsGood) (is_effective_at s snapshot_time)
      (if_both (Ensures IsGood) (is_some (lookup id g.configs)) tt (record {
        configs = Entries-insert IsOf id s.config g.configs (refl, loaded) h.configs;
        schedules = schedules;
      }))
      (record { configs = h.configs; schedules = schedules })

module _ (V : Values) where
  pub gather-IsGathered : (rows : ReleaseRows V) → Ensures (IsGathered V) (gather V rows)
  unfolding gather
  gather-IsGathered rows = Ensures-each (IsGathered V) (items_from_rows V rows.item_rows) _ λ items.
      Ensures-each (IsGathered V) (group_banner_items V rows.banner_item_rows []) _ λ banner_items.
        Ensures-bind _ (IsGathered V)
          (rarity_rates_by_owner V "banner_version_id" rows.rarity_rows []) _
          (rarity_rates-Owned V "banner_version_id" rows.rarity_rows [] tt)
          λ rates owned.
            Ensures-bind _ (IsGathered V)
              (featured_rules_by_owner V "banner_version_id" rows.featured_rows []) _
              (featured_rules-Owned V "banner_version_id" rows.featured_rows [] tt)
              λ featured featured_owned.
                Ensures-bind _ (IsGathered V)
                  (pity_rules_by_owner V "banner_version_id" rows.pity_rows []) _
                  (pity_rules-Owned V "banner_version_id" rows.pity_rows [] tt)
                  λ pity pity_owned.
                    Ensures-bind _ (IsGathered V)
                      (rarity_rates_by_owner V "rule_set_id" rows.rule_set_rarity_rows []) _
                      (rarity_rates-Owned V "rule_set_id" rows.rule_set_rarity_rows [] tt)
                      λ set_rates set_owned.
                        Ensures-bind _ (IsGathered V)
                          (featured_rules_by_owner V "rule_set_id" rows.rule_set_featured_rows []) _
                          (featured_rules-Owned V "rule_set_id" rows.rule_set_featured_rows [] tt)
                          λ set_featured set_featured_owned.
                            Ensures-bind _ (IsGathered V)
                              (pity_rules_by_owner V "rule_set_id" rows.rule_set_pity_rows []) _
                              (pity_rules-Owned V "rule_set_id" rows.rule_set_pity_rows [] tt)
                              λ set_pity set_pity_owned. record {
                                by_id = refl;
                                rates = owned;
                                featured = featured_owned;
                                pity = pity_owned;
                                set_rates = set_owned;
                                set_featured = set_featured_owned;
                                set_pity = set_pity_owned;
                              }

  pub add_banner_rows-Good :
      (gathered : Gathered V) (snapshot_time : ℕ) (rows : List (BannerRow V)) (g : Gathering)
      → IsGathered V gathered
      → IsGood g
      → Ensures IsGood (add_banner_rows V gathered snapshot_time rows g)
  unfolding add_banner_rows
  add_banner_rows-Good gathered snapshot_time [] g k h = h
  add_banner_rows-Good gathered snapshot_time (row ∷ rows) g k h =
      Ensures-bind IsLoaded IsGood (config_from_row V gathered row) _
        (config_from_row-Loaded V gathered row k)
        λ config loaded.
          Ensures-each IsGood (optional_release_timestamp V row.effective_from "effective_from") _
            λ from.
              Ensures-each IsGood (optional_release_timestamp V row.effective_to "effective_to") _
                λ to.
                  Ensures-bind IsGood IsGood (add_schedule snapshot_time g _) _
                    (add_schedule-Good snapshot_time g _ h loaded)
                    λ next good. add_banner_rows-Good gathered snapshot_time rows next k good
