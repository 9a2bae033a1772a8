-- ===== src/Repository/Build.antt =====
-- `_build_snapshot`: the banner configurations and schedules of a release's rows.
use Prim.Native.String.{◌++◌ as ◌<>◌}
use gacha_engine_service.Prelude.{
  ℕ, String, Bool, true, false, Option, none, some, List, [], ◌∷◌, ◌++◌, map, leb, is_empty,
  is_none, is_some, if◌then◌else◌,
}
use gacha_engine_service.Prelude.Dict.{Dict, nat_eq, string_eq, lookup, insert}
use gacha_engine_service.Prelude.Result.{ok, raise, ◌>>=◌}
use gacha_engine_service.Schemas.{GachaItem, Banner}
use gacha_engine_service.CatalogConfig.{
  RarityRate, FeaturedRule, PityRule, BannerConfig, ScheduledBannerConfig, CatalogSnapshot,
  is_effective_at,
}
use gacha_engine_service.CatalogConfig.Static.{items_by_id}
use gacha_engine_service.Repository.Values.{
  Values, LoadError, catalog_load_error, Load, lift, Row, column,
}
use gacha_engine_service.Repository.Rows.{
  text, items_from_rows, rarity_rates_by_owner, featured_rules_by_owner, pity_rules_by_owner,
  banner_type_of, theme_from, optional_release_timestamp, checked_pity_group_id,
}

-- `d.get(key, default)` for a dict of lists or dicts, whose default is empty.
abbrev pub get_list : {A : Type 0} → String → Dict String (List A) → List A
get_list key d = elim (lookup key d) [ none ↦ [] | some xs ↦ xs ]

-- The ids that are featured at a rarity.
abbrev pub get_ids : ℕ → Dict ℕ (List String) → List String
get_ids rarity d = elim (lookup rarity d) [ none ↦ [] | some ids ↦ ids ]

-- The rules of the rule set where it has some, else those of the version.
abbrev pub chosen_rules :
    {A : Type 0}
    → Option String
    → String
    → Dict String (Dict ℕ A)
    → Dict String (Dict ℕ A)
    → Dict ℕ A
chosen_rules none version_id by_rule_set by_version = get_list version_id by_version
chosen_rules (some rule_set_id) version_id by_rule_set by_version =
    elim (lookup rule_set_id by_rule_set) [
      | none ↦ get_list version_id by_version
      | some rules ↦ rules
    ]

abbrev missing : String → String → LoadError
missing banner_version_id what =
    catalog_load_error ("banner version " <> banner_version_id <> " missing " <> what)

unfoldable pub validate_runtime_banner_config :
    Banner → String → Dict ℕ RarityRate → Dict ℕ PityRule → Load (Unit {0})
validate_runtime_banner_config banner version_id rates pity_rules =
    if is_none (lookup 5 rates)
    then raise (missing version_id "5-star rate")
    else if is_none (lookup 5 pity_rules)
    then raise (missing version_id "5-star pity rule")
    else if is_none (lookup 4 rates)
    then raise (missing version_id "4-star rate")
    else if is_none (lookup 4 pity_rules)
    then raise (missing version_id "4-star pity rule")
    else if is_empty banner.item_pool
    then raise (catalog_load_error ("banner version " <> version_id <> " item_pool is empty"))
    else ok tt

-- The result of the loop over the banner rows.
pub record Gathering : Type 0 where
  pub banners : List Banner
  pub configs : Dict String BannerConfig
  pub schedules : Dict String (List ScheduledBannerConfig)

-- The sort key `effective_from or datetime.min`.
abbrev pub starts_by : ScheduledBannerConfig → ScheduledBannerConfig → Bool
starts_by s t = elim s.effective_from [
  | none ↦ true
  | some a ↦ elim t.effective_from [ none ↦ false | some b ↦ leb a b ]
]

abbrev pub insert_schedule :
    ScheduledBannerConfig → List ScheduledBannerConfig → List ScheduledBannerConfig
insert_schedule s [] = s ∷ []
insert_schedule s (t ∷ ts) = if starts_by s t then s ∷ t ∷ ts else t ∷ insert_schedule s ts

-- `sorted` by that key; it keeps the order of equal keys.
abbrev pub sorted_schedules : List ScheduledBannerConfig → List ScheduledBannerConfig
sorted_schedules [] = []
sorted_schedules (s ∷ ss) = insert_schedule s (sorted_schedules ss)

module _ (V : Values) where
  -- An element of `banner_rows`, whose ids are already texts.
  pub record BannerRow : Type 0 where
    pub banner_version_id : String
    pub banner_id : String
    pub pity_group_id : String
    pub rule_set_id : Option V.Value
    pub version : V.Value
    pub name : V.Value
    pub short_name : V.Value
    pub banner_type : V.Value
    pub description : V.Value
    pub theme : V.Value
    pub effective_from : Option V.Value
    pub effective_to : Option V.Value

  -- What the loop over the banner rows reads.
  pub record Gathered : Type 0 where
    pub items : List GachaItem
    pub item_by_id : Dict String GachaItem
    pub banner_items_by_version : Dict String (List (Row V))
    pub rarity_by_version : Dict String (Dict ℕ RarityRate)
    pub featured_by_version : Dict String (Dict ℕ FeaturedRule)
    pub pity_by_version : Dict String (Dict ℕ PityRule)
    pub rarity_by_rule_set : Dict String (Dict ℕ RarityRate)
    pub featured_by_rule_set : Dict String (Dict ℕ FeaturedRule)
    pub pity_by_rule_set : Dict String (Dict ℕ PityRule)

  unfoldable pub group_banner_items :
      List (Row V) → Dict String (List (Row V)) → Load (Dict String (List (Row V)))
  group_banner_items [] found = ok found
  group_banner_items (row ∷ rows) found = do
    version_id ← text V row "banner_version_id"
    group_banner_items rows (insert version_id (get_list version_id found ++ row ∷ []) found)

  -- The pool's ids and the featured ones by rarity, from the rows that are left.
  unfoldable pub pool_of_rows :
      Dict String GachaItem
      → String
      → List (Row V)
      → List String
      → Dict ℕ (List String)
      → Load (List String × Dict ℕ (List String))
  pool_of_rows item_by_id version_id [] item_pool featured = ok (item_pool, featured)
  pool_of_rows item_by_id version_id (row ∷ rows) item_pool featured = do
    item_id ← text V row "item_id"
    item ← elim (lookup item_id item_by_id) [
      | none ↦ raise (
          catalog_load_error
            ("banner version " <> version_id <> " references disabled item " <> item_id))
      | some item ↦ ok item
    ]
    featured_group ← column V row "featured_group"
    pool_of_rows item_by_id version_id rows (item_pool ++ item_id ∷ []) (
        if V.truth featured_group
        then insert item.rarity (get_ids item.rarity featured ++ item_id ∷ []) featured
        else featured)

  unfoldable pub pool_of_version : Gathered → String → Load (List String × Dict ℕ (List String))
  unfolding pool_of_rows
  pool_of_version g version_id =
      let banner_items = get_list version_id g.banner_items_by_version in
      if is_empty banner_items
      then raise (catalog_load_error ("banner version " <> version_id <> " has no items"))
      else pool_of_rows g.item_by_id version_id banner_items [] []

  unfoldable pub banner_from_row : BannerRow → List String → Dict ℕ (List String) → Load Banner
  banner_from_row row item_pool featured = do
    theme ← theme_from V row.theme
    banner_type ← banner_type_of (V.str row.banner_type)
    ok (record {
      id = row.banner_id;
      name = V.str row.name;
      short_name = V.str row.short_name;
      banner_type = banner_type;
      description = V.str row.description;
      featured_five_id = elim (get_ids 5 featured) [ [] ↦ none | item_id ∷ _ ↦ some item_id ];
      featured_four_ids = get_ids 4 featured;
      item_pool = item_pool;
      theme = theme;
    })

  abbrev pub rule_set_id_of : Option V.Value → Option String
  rule_set_id_of none = none
  rule_set_id_of (some v) = some (V.str v)

  -- One banner version as a configuration.
  unfoldable pub config_from_row : Gathered → BannerRow → Load BannerConfig
  unfolding validate_runtime_banner_config pool_of_version banner_from_row
  config_from_row g row = do
    let version_id = row.banner_version_id
    let rule_set_id = rule_set_id_of row.rule_set_id
    (item_pool, featured) ← pool_of_version g version_id
    banner ← banner_from_row row item_pool featured
    let rates = chosen_rules rule_set_id version_id g.rarity_by_rule_set g.rarity_by_version
    let pity_rules = chosen_rules rule_set_id version_id g.pity_by_rule_set g.pity_by_version
    _ ← validate_runtime_banner_config banner version_id rates pity_rules
    pity_group_id ← checked_pity_group_id V banner.id row.pity_group_id
    version ← lift (V.int row.version)
    ok (record {
      banner = banner;
      pity_group_id = pity_group_id;
      banner_version_id = some version_id;
      version = version;
      all_items = g.items;
      item_by_id = g.item_by_id;
      rarity_rates = rates;
      featured_rules =
          chosen_rules rule_set_id version_id g.featured_by_rule_set g.featured_by_version;
      pity_rules = pity_rules;
      featured_item_ids_by_rarity = featured;
    })

-- A configuration with its schedule, put among those gathered before it.
unfoldable pub add_schedule : ℕ → Gathering → ScheduledBannerConfig → Load Gathering
add_schedule snapshot_time so_far schedule =
    let banner = schedule.config.banner in
    let schedules =
      insert banner.id (get_list banner.id so_far.schedules ++ schedule ∷ []) so_far.schedules in
    if is_effective_at schedule snapshot_time
    then if is_some (lookup banner.id so_far.configs)
      then raise (
          catalog_load_error
            ("release contains overlapping active versions for banner " <> banner.id))
      else ok (record {
        banners = so_far.banners ++ banner ∷ [];
        configs = insert banner.id schedule.config so_far.configs;
        schedules = schedules;
      })
    else ok (record so_far { schedules = schedules })

unfoldable pub snapshot_of :
    List GachaItem → Gathering → ℕ → Option String → Option ℕ → Option String → CatalogSnapshot
snapshot_of items gathered snapshot_time release_id release_number snapshot_sha256 = record {
  source = "postgres";
  loaded_at = snapshot_time;
  items = items;
  banners = gathered.banners;
  banner_configs_by_id = gathered.configs;
  banner_schedules_by_id =
      map (λ (entry : String × List ScheduledBannerConfig). (entry.0, sorted_schedules entry.1))
        gathered.schedules;
  release_id = release_id;
  release_number = release_number;
  snapshot_sha256 = snapshot_sha256;
}

module _ (V : Values) where
  unfoldable pub add_banner_rows : Gathered V → ℕ → List (BannerRow V) → Gathering → Load Gathering
  unfolding add_schedule config_from_row
  add_banner_rows g snapshot_time [] so_far = ok so_far
  add_banner_rows g snapshot_time (row ∷ rows) so_far = do
    config ← config_from_row V g row
    effective_from ← optional_release_timestamp V row.effective_from "effective_from"
    effective_to ← optional_release_timestamp V row.effective_to "effective_to"
    next ←
        add_schedule snapshot_time so_far
          (record { config = config; effective_from = effective_from; effective_to = effective_to })
    add_banner_rows g snapshot_time rows next

  -- The rows of a release.
  pub record ReleaseRows : Type 0 where
    pub item_rows : List (Row V)
    pub banner_rows : List (BannerRow V)
    pub banner_item_rows : List (Row V)
    pub rarity_rows : List (Row V)
    pub featured_rows : List (Row V)
    pub pity_rows : List (Row V)
    pub rule_set_rarity_rows : List (Row V)
    pub rule_set_featured_rows : List (Row V)
    pub rule_set_pity_rows : List (Row V)

  unfoldable pub gather : ReleaseRows → Load (Gathered V)
  unfolding group_banner_items
  gather rows = do
    items ← items_from_rows V rows.item_rows
    banner_items ← group_banner_items V rows.banner_item_rows []
    rates ← rarity_rates_by_owner V "banner_version_id" rows.rarity_rows []
    featured ← featured_rules_by_owner V "banner_version_id" rows.featured_rows []
    pity ← pity_rules_by_owner V "banner_version_id" rows.pity_rows []
    set_rates ← rarity_rates_by_owner V "rule_set_id" rows.rule_set_rarity_rows []
    set_featured ← featured_rules_by_owner V "rule_set_id" rows.rule_set_featured_rows []
    set_pity ← pity_rules_by_owner V "rule_set_id" rows.rule_set_pity_rows []
    ok (record {
      items = items;
      item_by_id = items_by_id items [];
      banner_items_by_version = banner_items;
      rarity_by_version = rates;
      featured_by_version = featured;
      pity_by_version = pity;
      rarity_by_rule_set = set_rates;
      featured_by_rule_set = set_featured;
      pity_by_rule_set = set_pity;
    })

  unfoldable pub build_snapshot :
      ReleaseRows → ℕ → Option String → Option ℕ → Option String → Load CatalogSnapshot
  unfolding gather add_banner_rows snapshot_of
  build_snapshot rows snapshot_time release_id release_number snapshot_sha256 = do
    g ← gather rows
    gathered ←
        add_banner_rows g snapshot_time rows.banner_rows
          (record { banners = []; configs = []; schedules = [] })
    ok (snapshot_of g.items gathered snapshot_time release_id release_number snapshot_sha256)
