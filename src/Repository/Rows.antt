-- ===== src/Repository/Rows.antt =====
-- The rows of a release as items, rates, rules and timestamps.
use Prim.Native.String.{◌++◌ as ◌<>◌, count as characters}
use gacha_engine_service.Prelude.{
  ℕ, String, Bool, not, ◌||◌, Option, none, some, List, [], ◌∷◌, ltb, ◌==◌, str_eq, if◌then◌else◌,
}
use gacha_engine_service.Prelude.Dict.{Dict, nat_eq, string_eq, lookup, insert}
use gacha_engine_service.Prelude.Result.{ok, raise, value_error, ◌>>=◌}
use gacha_engine_service.Schemas.{
  GachaItem, GachaItemType, character, weapon, BannerType, limited_character, standard, BannerTheme,
}
use gacha_engine_service.CatalogConfig.{RarityRate, FeaturedRule, PityRule}
use gacha_engine_service.Repository.Values.{
  Values, Stamp, aware, naive, catalog_load_error, python, Load, lift, Row, column,
}

-- The literals of the schemas; any other text is refused by pydantic, with a `ValueError`.
unfoldable pub item_type_of : String → Load GachaItemType
item_type_of s =
    if str_eq s "character"
    then ok character
    else if str_eq s "weapon"
    then ok weapon
    else raise (python value_error)

unfoldable pub banner_type_of : String → Load BannerType
banner_type_of s =
    if str_eq s "limited-character"
    then ok limited_character
    else if str_eq s "standard"
    then ok standard
    else raise (python value_error)

unfoldable pub gacha_rarity : ℕ → Load ℕ
gacha_rarity n = if n == 3 || n == 4 || n == 5 then ok n else raise (python value_error)

module _ (V : Values) where
  -- `str(row[key])`, `int(row[key])` and `bool(row[key])`
  unfoldable pub text : Row V → String → Load String
  text row key = do v ← column V row key; ok (V.str v)

  unfoldable pub number : Row V → String → Load ℕ
  number row key = do v ← column V row key; lift (V.int v)

  unfoldable pub flag : Row V → String → Load Bool
  flag row key = do v ← column V row key; ok (V.truth v)

  unfoldable pub item_from_row : Row V → Load GachaItem
  unfolding item_type_of gacha_rarity
  item_from_row row = do
    id ← text row "id"
    name ← text row "name"
    subtitle ← text row "subtitle"
    n ← number row "rarity"
    kind ← text row "item_type"
    element ← text row "element"
    role ← text row "role"
    faction ← text row "faction"
    accent ← text row "accent"
    quote ← text row "quote"
    rarity ← gacha_rarity n
    item_type ← item_type_of kind
    ok (record {
      id = id;
      name = name;
      subtitle = subtitle;
      rarity = rarity;
      item_type = item_type;
      element = element;
      role = role;
      faction = faction;
      accent = accent;
      quote = quote;
    })

  unfoldable pub items_from_rows : List (Row V) → Load (List GachaItem)
  items_from_rows [] = ok []
  items_from_rows (row ∷ rows) = do
    item ← item_from_row row
    items ← items_from_rows rows
    ok (item ∷ items)

  unfoldable pub rate_from_row : Row V → Load RarityRate
  rate_from_row row = do
    rarity ← number row "rarity"
    base_rate_ppm ← number row "base_rate_ppm"
    roll_order ← number row "roll_order"
    ok (record { rarity = rarity; base_rate_ppm = base_rate_ppm; roll_order = roll_order })

  -- The key's column is a text or null.
  unfoldable pub featured_rule_from_row : Row V → Load FeaturedRule
  featured_rule_from_row row = do
    rarity ← number row "rarity"
    featured_group ← text row "featured_group"
    featured_rate_ppm ← number row "featured_rate_ppm"
    guarantee_after_miss ← flag row "guarantee_after_miss"
    miss_sets_guarantee ← flag row "miss_sets_guarantee"
    key ← column V row "guarantee_state_key"
    ok (record {
      rarity = rarity;
      featured_group = featured_group;
      featured_rate_ppm = featured_rate_ppm;
      guarantee_after_miss = guarantee_after_miss;
      miss_sets_guarantee = miss_sets_guarantee;
      guarantee_state_key = V.as_text key;
    })

  -- The start's column is an integer or null.
  unfoldable pub pity_rule_from_row : Row V → Load PityRule
  pity_rule_from_row row = do
    rarity ← number row "rarity"
    counter_key ← text row "counter_key"
    hard_pity ← number row "hard_pity"
    start ← column V row "soft_pity_start"
    soft_pity_increment_ppm ← number row "soft_pity_increment_ppm"
    resets_lower_rarity ← flag row "resets_lower_rarity"
    ok (record {
      rarity = rarity;
      counter_key = counter_key;
      hard_pity = hard_pity;
      soft_pity_start = V.as_count start;
      soft_pity_increment_ppm = soft_pity_increment_ppm;
      resets_lower_rarity = resets_lower_rarity;
    })

  -- `d.setdefault(owner_id, {})[rarity] = a`
  abbrev pub put : {A : Type 0} → String → ℕ → A → Dict String (Dict ℕ A) → Dict String (Dict ℕ A)
  put owner_id rarity a d =
      insert owner_id
        (insert rarity a (elim (lookup owner_id d) [ none ↦ [] | some rules ↦ rules ])) d

  unfoldable pub rarity_rates_by_owner :
      String
      → List (Row V)
      → Dict String (Dict ℕ RarityRate)
      → Load (Dict String (Dict ℕ RarityRate))
  rarity_rates_by_owner owner_key [] found = ok found
  rarity_rates_by_owner owner_key (row ∷ rows) found = do
    owner_id ← text row owner_key
    rate ← rate_from_row row
    rarity_rates_by_owner owner_key rows (put owner_id rate.rarity rate found)

  unfoldable pub featured_rules_by_owner :
      String
      → List (Row V)
      → Dict String (Dict ℕ FeaturedRule)
      → Load (Dict String (Dict ℕ FeaturedRule))
  featured_rules_by_owner owner_key [] found = ok found
  featured_rules_by_owner owner_key (row ∷ rows) found = do
    owner_id ← text row owner_key
    rule ← featured_rule_from_row row
    featured_rules_by_owner owner_key rows (put owner_id rule.rarity rule found)

  unfoldable pub pity_rules_by_owner :
      String → List (Row V) → Dict String (Dict ℕ PityRule) → Load (Dict String (Dict ℕ PityRule))
  pity_rules_by_owner owner_key [] found = ok found
  pity_rules_by_owner owner_key (row ∷ rows) found = do
    owner_id ← text row owner_key
    rule ← pity_rule_from_row row
    pity_rules_by_owner owner_key rows (put owner_id rule.rarity rule found)

  unfoldable pub json_object : V.Value → Load (Row V)
  json_object v =
      let refused : Load (Row V) =
        raise (catalog_load_error "expected JSON object from catalog query") in
      if V.is_null v then ok [] else elim (V.as_object v) [
        | some fields ↦ ok fields
        | none ↦ elim (V.as_text v) [
          | none ↦ refused
          | some s ↦ do
            decoded ← lift (V.loads s)
            elim (V.as_object decoded) [ none ↦ refused | some fields ↦ ok fields ]
        ]
      ]

  -- `BannerTheme(**fields)`: the three texts are required, pydantic ignores other fields.
  unfoldable pub theme_text : Row V → String → Load String
  theme_text fields key = elim (lookup key fields) [
    | none ↦ raise (python value_error)
    | some v ↦ elim (V.as_text v) [ none ↦ raise (python value_error) | some s ↦ ok s ]
  ]

  unfoldable pub theme_from : V.Value → Load BannerTheme
  theme_from v = do
    fields ← json_object v
    primary ← theme_text fields "primary"
    secondary ← theme_text fields "secondary"
    glow ← theme_text fields "glow"
    ok (record { primary = primary; secondary = secondary; glow = glow })

  unfoldable pub with_timezone : String → Stamp → Load ℕ
  with_timezone field_name (aware at) = ok at
  with_timezone field_name naive =
      raise (catalog_load_error ("release " <> field_name <> " must include a timezone"))

  unfoldable pub release_timestamp : V.Value → String → Load ℕ
  unfolding with_timezone
  release_timestamp v field_name =
      let invalid : Load ℕ =
        raise (catalog_load_error ("release " <> field_name <> " is not a valid timestamp")) in
      elim (V.as_time v) [
        | some stamp ↦ with_timezone field_name stamp
        | none ↦ elim (V.as_text v) [
          | none ↦ invalid
          | some s ↦ elim (V.from_iso (V.replace s "Z" "+00:00")) [
            | none ↦ invalid
            | some stamp ↦ with_timezone field_name stamp
          ]
        ]
      ]

  unfoldable pub optional_release_timestamp : Option V.Value → String → Load (Option ℕ)
  optional_release_timestamp none field_name = ok none
  optional_release_timestamp (some v) field_name = do
    at ← release_timestamp v field_name
    ok (some at)

  unfoldable pub checked_pity_group_id : String → String → Load String
  checked_pity_group_id banner_id pity_group_id =
      if str_eq pity_group_id ""
        || not (str_eq pity_group_id (V.strip pity_group_id))
        || ltb 100 (characters pity_group_id)
      then raise (catalog_load_error ("banner " <> banner_id <> " has an invalid pity group id"))
      else ok pity_group_id
