-- ===== src/Repository/Loaded.antt =====
-- What every banner configuration of a loaded release satisfies.
use gacha_engine_service.Prelude.{
  ℕ, ◌≡◌, ◌≢◌, refl, String, false, none, some, List, [], ◌∷◌, ◌++◌, map, arith, inl, inr,
  Option-cases, All, is_empty, if_both,
}
use gacha_engine_service.Prelude.Dict.{
  Dict, nat_eq, string_eq, lookup, insert, of_entries, UniqueKeys, insert-UniqueKeys,
}
use gacha_engine_service.Prelude.Entries.{Entries, Entries-lookup, Entries-insert}
use gacha_engine_service.Prelude.Result.{Ensures, Ensures-each, Ensures-bind, Ensures-of_ok, ok}
use gacha_engine_service.Schemas.{GachaItem, Banner}
use gacha_engine_service.CatalogConfig.{RarityRate, PityRule, BannerConfig}
use gacha_engine_service.CatalogConfig.Static.{items_by_id}
use gacha_engine_service.Operations.RoundTrip.{IsKeyed}
use gacha_engine_service.Repository.Values.{Values, Row, column, lift}
use gacha_engine_service.Repository.Rows.{text, theme_from, banner_type_of, checked_pity_group_id}
use gacha_engine_service.Repository.Build.{
  Gathered, BannerRow, get_list, chosen_rules, pool_of_rows, pool_of_version, banner_from_row,
  rule_set_id_of, validate_runtime_banner_config, config_from_row,
}
use gacha_engine_service.Repository.Owners.{Owned, chosen_rules-Own}

-- An id of an item of that rarity.
abbrev pub NamesItem : Dict String GachaItem → ℕ → String → Type 0
NamesItem item_by_id rarity item_id =
    (item : GachaItem) × (lookup item_id item_by_id ≡ some item) × (item.rarity ≡ rarity)

abbrev pub Named : Dict String GachaItem → ℕ → List String → Type 0
Named item_by_id rarity ids = All (NamesItem item_by_id rarity) ids

-- The keys and rarities fit, the rates and pity rules of the five- and the four-star exist, the pool is
-- not empty and names existing items, and so does every list of featured ids, of its rarity.
pub record IsLoaded (config : BannerConfig) : Type 0 where
  pub keyed : IsKeyed config
  pub rates : (lookup 5 config.rarity_rates ≢ none) × (lookup 4 config.rarity_rates ≢ none)
  pub rules : (lookup 5 config.pity_rules ≢ none) × (lookup 4 config.pity_rules ≢ none)
  pub pool : is_empty config.banner.item_pool ≡ false
  pub listed : All (λ item_id. lookup item_id config.item_by_id ≢ none) config.banner.item_pool
  pub featured : Entries (Named config.item_by_id) config.featured_item_ids_by_rarity

items_by_id_lem :
    (items : List GachaItem) (found : Dict String GachaItem)
    → items_by_id items found ≡ of_entries (map (λ (item : GachaItem). (item.id, item)) items) found
unfolding items_by_id
items_by_id_lem [] found = refl
items_by_id_lem (item ∷ items) found = items_by_id_lem items (insert item.id item found)

All-append {ℓ κ} :
    {A : Type ℓ} (P : A → Type κ) (xs ys : List A) → All P xs → All P ys → All P (xs ++ ys)
All-append P [] ys h k = k
All-append P (x ∷ xs) ys h k = (h.0, All-append P xs ys h.1 k)

module _ (V : Values) where
  -- What the loop over a version's items keeps.
  abbrev Pooled : Dict String GachaItem → List String × Dict ℕ (List String) → Type 0
  Pooled item_by_id (item_pool, featured) =
      All (λ item_id. lookup item_id item_by_id ≢ none) item_pool
      × UniqueKeys featured
      × Entries (Named item_by_id) featured

  found_ids :
      (P : ℕ → String → Type 0) (rarity : ℕ) (d : Dict ℕ (List String))
      → Entries (λ r ids. All (P r) ids) d
      → All (P rarity) (elim (lookup rarity d) as (λ _. List String) [ none ↦ [] | some ids ↦ ids ])
  found_ids P rarity d h = elim (Option-cases (lookup rarity d)) [
    | inl e ↦ rw e tt
    | inr (ids, e) ↦ rw e (Entries-lookup (λ r is. All (P r) is) rarity d h e)
  ]

  pool_of_rows-Pooled :
      (item_by_id : Dict String GachaItem) (version_id : String) (rows : List (Row V))
      (item_pool : List String) (featured : Dict ℕ (List String))
      → Pooled item_by_id (item_pool, featured)
      → Ensures (Pooled item_by_id) (pool_of_rows V item_by_id version_id rows item_pool featured)
  unfolding pool_of_rows
  pool_of_rows-Pooled item_by_id version_id [] item_pool featured h = h
  pool_of_rows-Pooled item_by_id version_id (row ∷ rows) item_pool featured
        (listed, unique, named) =
      Ensures-each (Pooled item_by_id) (text V row "item_id") _ λ item_id.
        elim (Option-cases (lookup item_id item_by_id)) [
          | inl e ↦ rw e tt
          | inr (item, e) ↦ rw e (
              Ensures-each (Pooled item_by_id) (column V row "featured_group") _ λ featured_group.
                pool_of_rows-Pooled item_by_id version_id rows _ _ (
                  All-append _ item_pool (item_id ∷ []) listed (ground (arith, e), tt),
                  if_both UniqueKeys (V.truth featured_group)
                      (insert-UniqueKeys item.rarity _ featured unique) unique,
                  if_both (Entries (Named item_by_id)) (V.truth featured_group)
                      (Entries-insert (Named item_by_id) item.rarity _ featured
                        (All-append (NamesItem item_by_id item.rarity) _ (item_id ∷ [])
                          (found_ids (NamesItem item_by_id) item.rarity featured named)
                          ((item, e, refl), tt))
                        named)
                      named,
                ))
        ]

  validate-Passes :
      (banner : Banner) (version_id : String) (rates : Dict ℕ RarityRate) (rules : Dict ℕ PityRule)
      {u : Unit {0}}
      → validate_runtime_banner_config banner version_id rates rules ≡ ok u
      → (is_empty banner.item_pool ≡ false)
        × ((lookup 5 rates ≢ none) × (lookup 4 rates ≢ none))
        × ((lookup 5 rules ≢ none) × (lookup 4 rules ≢ none))
  unfolding validate_runtime_banner_config
  validate-Passes banner version_id rates rules h =
      (ground arith, (ground arith, ground arith), (ground arith, ground arith))

  -- The rates and rules that the loop reads, and its items by id.
  pub record IsGathered (g : Gathered V) : Type 0 where
    pub by_id : g.item_by_id ≡ items_by_id g.items []
    pub rates : Owned (λ r. r.rarity) g.rarity_by_version
    pub featured : Owned (λ r. r.rarity) g.featured_by_version
    pub pity : Owned (λ r. r.rarity) g.pity_by_version
    pub set_rates : Owned (λ r. r.rarity) g.rarity_by_rule_set
    pub set_featured : Owned (λ r. r.rarity) g.featured_by_rule_set
    pub set_pity : Owned (λ r. r.rarity) g.pity_by_rule_set

  banner_from_row_pool :
      (row : BannerRow V) (item_pool : List String) (featured : Dict ℕ (List String))
      → Ensures (λ (b : Banner). b.item_pool ≡ item_pool) (banner_from_row V row item_pool featured)
  unfolding banner_from_row
  banner_from_row_pool row item_pool featured =
      Ensures-each _ (theme_from V row.theme) _
        λ theme. Ensures-each _ (banner_type_of (V.str row.banner_type)) _ λ banner_type. refl

  pool_of_version-Pooled :
      (g : Gathered V) (version_id : String)
      → Ensures (Pooled g.item_by_id) (pool_of_version V g version_id)
  unfolding pool_of_version
  pool_of_version-Pooled g version_id =
      let rows = get_list version_id g.banner_items_by_version in
      if_both (Ensures (Pooled g.item_by_id)) (is_empty rows) tt
        (pool_of_rows-Pooled g.item_by_id version_id rows [] [] (tt, tt, tt))

  pub config_from_row-Loaded :
      (g : Gathered V) (row : BannerRow V)
      → IsGathered g
      → Ensures IsLoaded (config_from_row V g row)
  unfolding config_from_row
  config_from_row-Loaded g row h =
      let id = row.banner_version_id in
      let set_id = rule_set_id_of V row.rule_set_id in
      let rates = chosen_rules set_id id g.rarity_by_rule_set g.rarity_by_version in
      let rules = chosen_rules set_id id g.pity_by_rule_set g.pity_by_version in
      Ensures-bind (Pooled g.item_by_id) IsLoaded (pool_of_version V g id) _
        (pool_of_version-Pooled g id)
        λ (item_pool, featured) (listed, unique, named).
          Ensures-bind (λ b. b.item_pool ≡ item_pool) IsLoaded
            (banner_from_row V row item_pool featured) _
            (banner_from_row_pool row item_pool featured)
            λ banner same.
              Ensures-bind (λ _. validate_runtime_banner_config banner id rates rules ≡ ok tt)
                IsLoaded (validate_runtime_banner_config banner id rates rules) _
                (Ensures-of_ok _ (validate_runtime_banner_config banner id rates rules) λ _ e. e)
                λ _ valid.
                  Ensures-each IsLoaded (checked_pity_group_id V banner.id row.pity_group_id) _
                    λ pity_group_id. Ensures-each IsLoaded (lift (V.int row.version)) _ λ version.
                      let (some_pool, has_rates, has_rules) =
                        validate-Passes banner id rates rules valid in
                      record {
                        keyed = record {
                          items = λ k. rw (h.by_id, items_by_id_lem g.items []) refl;
                          rates = chosen_rules-Own _ set_id id _ _ h.set_rates h.rates;
                          featured_rules =
                              chosen_rules-Own _ set_id id _ _ h.set_featured h.featured;
                          pity_rules = chosen_rules-Own _ set_id id _ _ h.set_pity h.pity;
                          featured_ids = unique;
                        };
                        rates = has_rates;
                        rules = has_rules;
                        pool = some_pool;
                        listed = rw same listed;
                        featured = named;
                      }
