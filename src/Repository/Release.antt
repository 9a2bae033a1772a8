-- ===== src/Repository/Release.antt =====
-- `_build_snapshot_from_release` and the loads of the Postgres and the static repository.
use Prim.Native.String.{◌++◌ as ◌<>◌}
use gacha_engine_service.Prelude.{
  ℕ, String, Bool, true, false, Option, none, some, List, [], ◌∷◌, str_eq, contains, if◌then◌else◌,
}
use gacha_engine_service.Prelude.Dict.{Dict, string_eq, lookup, insert}
use gacha_engine_service.Prelude.Result.{ok, raise, ◌>>=◌}
use gacha_engine_service.CatalogConfig.{CatalogSnapshot}
use gacha_engine_service.CatalogConfig.Static.{static_catalog_snapshot}
use gacha_engine_service.Repository.Values.{
  Values, catalog_load_error, Load, lift, Row, column, optional_row_value,
}
use gacha_engine_service.Repository.Rows.{text, flag, json_object}
use gacha_engine_service.Repository.Build.{BannerRow, ReleaseRows, build_snapshot}

module _ (V : Values) where
  -- `isinstance(row, dict)` for every row
  unfoldable pub as_objects : List V.Value → Option (List (Row V))
  as_objects [] = some []
  as_objects (v ∷ vs) =
      let rest = as_objects vs in
      elim (V.as_object v) [
        | none ↦ none
        | some row ↦ elim rest [ none ↦ none | some rows ↦ some (row ∷ rows) ]
      ]

  unfoldable pub release_array : Row V → String → Load (List (Row V))
  unfolding as_objects
  release_array payload key =
      let refused : Load (List (Row V)) =
        raise (
          catalog_load_error
            ("release snapshot field " <> key <> " must be an array of objects")) in
      elim (lookup key payload) [
        | none ↦ refused
        | some v ↦ elim (V.as_array v) [
          | none ↦ refused
          | some vs ↦ elim (as_objects vs) [ none ↦ refused | some rows ↦ ok rows ]
        ]
      ]

  unfoldable pub rows_by_id : List (Row V) → Dict String (Row V) → Load (Dict String (Row V))
  rows_by_id [] found = ok found
  rows_by_id (row ∷ rows) found = do id ← text V row "id"; rows_by_id rows (insert id row found)

  -- `banner.get("pity_group_id") or banner_id`, which is read as a text
  abbrev pity_group_of : Row V → String → String
  pity_group_of banner banner_id = elim (lookup "pity_group_id" banner) [
    | none ↦ banner_id
    | some v ↦ if V.truth v then V.str v else banner_id
  ]

  unfoldable pub banner_row : Row V → Row V → String → String → Load (BannerRow V)
  banner_row version banner version_id banner_id = do
    number ← column V version "version"
    name ← column V banner "name"
    short_name ← column V banner "short_name"
    banner_type ← column V banner "banner_type"
    description ← column V banner "description"
    theme ← column V banner "theme"
    ok (record {
      banner_version_id = version_id;
      banner_id = banner_id;
      pity_group_id = pity_group_of banner banner_id;
      rule_set_id = optional_row_value V version "rule_set_id";
      version = number;
      name = name;
      short_name = short_name;
      banner_type = banner_type;
      description = description;
      theme = theme;
      effective_from = optional_row_value V version "effective_from";
      effective_to = optional_row_value V version "effective_to";
    })

  -- The loop over the banner versions: their ids and their rows.
  unfoldable pub version_banner_rows :
      Dict String (Row V) → List (Row V) → Load (List String × List (BannerRow V))
  unfolding banner_row
  version_banner_rows banners_by_id [] = ok ([], [])
  version_banner_rows banners_by_id (version ∷ versions) = do
    version_id ← text V version "id"
    banner_id ← text V version "banner_id"
    banner ← elim (lookup banner_id banners_by_id) [
      | none ↦ raise (
          catalog_load_error
            ("release version " <> version_id <> " references missing banner " <> banner_id))
      | some banner ↦ ok banner
    ]
    row ← banner_row version banner version_id banner_id
    (version_ids, rows) ← version_banner_rows banners_by_id versions
    ok (version_id ∷ version_ids, row ∷ rows)

  -- `version_rows`: the rows of the release's versions
  unfoldable pub rows_of_versions : List String → List (Row V) → Load (List (Row V))
  rows_of_versions version_ids [] = ok []
  rows_of_versions version_ids (row ∷ rows) = do
    version_id ← text V row "banner_version_id"
    rest ← rows_of_versions version_ids rows
    ok (if contains version_ids version_id then row ∷ rest else rest)

  unfoldable pub version_rows : Row V → List String → String → Load (List (Row V))
  unfolding rows_of_versions release_array
  version_rows payload version_ids key = do
    rows ← release_array payload key
    rows_of_versions version_ids rows

  unfoldable pub release_rows : Row V → Load (ReleaseRows V)
  unfolding version_rows rows_by_id version_banner_rows
  release_rows payload = do
    item_rows ← release_array payload "items"
    banner_objects ← release_array payload "banners"
    banners_by_id ← rows_by_id banner_objects []
    versions ← release_array payload "banner_versions"
    (version_ids, banner_rows) ← version_banner_rows banners_by_id versions
    banner_item_rows ← version_rows payload version_ids "banner_items"
    rarity_rows ← version_rows payload version_ids "rarity_rates"
    featured_rows ← version_rows payload version_ids "featured_rules"
    pity_rows ← version_rows payload version_ids "pity_rules"
    rule_set_rarity_rows ← release_array payload "rule_set_rarity_rates"
    rule_set_featured_rows ← release_array payload "rule_set_featured_rules"
    rule_set_pity_rows ← release_array payload "rule_set_pity_rules"
    ok (record {
      item_rows = item_rows;
      banner_rows = banner_rows;
      banner_item_rows = banner_item_rows;
      rarity_rows = rarity_rows;
      featured_rows = featured_rows;
      pity_rows = pity_rows;
      rule_set_rarity_rows = rule_set_rarity_rows;
      rule_set_featured_rows = rule_set_featured_rows;
      rule_set_pity_rows = rule_set_pity_rows;
    })

  abbrev refuse_unless : Bool → String → Load (Unit {0})
  refuse_unless true message = ok tt
  refuse_unless false message = raise (catalog_load_error message)

  -- `str(payload.get(key, ""))`, in lower case
  abbrev lower_text : Row V → String → String
  lower_text payload key = V.lower (elim (lookup key payload) [ none ↦ "" | some v ↦ V.str v ])

  abbrev has_schema_version : Row V → ℕ → Bool
  has_schema_version payload n = elim (lookup "schema_version" payload) [
    | none ↦ false
    | some v ↦ V.equals v n
  ]

  unfoldable pub release_number_of : Row V → Row V → Load (Option ℕ)
  release_number_of row payload = elim (optional_row_value V row "release_number") [
    | some v ↦ do n ← lift (V.int v); ok (some n)
    | none ↦ elim (optional_row_value V payload "release_number") [
      | some v ↦ do n ← lift (V.int v); ok (some n)
      | none ↦ ok none
    ]
  ]

  abbrev text_or_none : Option V.Value → Option String
  text_or_none none = none
  text_or_none (some v) = some (V.str v)

  -- No embedded id, or the row's own.
  abbrev is_release : Option V.Value → String → Bool
  is_release none release_id = true
  is_release (some v) release_id = str_eq (V.str v) release_id

  abbrev no_rows : ReleaseRows V
  no_rows = record {
    item_rows = [];
    banner_rows = [];
    banner_item_rows = [];
    rarity_rows = [];
    featured_rows = [];
    pity_rows = [];
    rule_set_rarity_rows = [];
    rule_set_featured_rows = [];
    rule_set_pity_rows = [];
  }

  -- The payload of a release row, once its checks have passed.
  unfoldable pub checked_payload : Row V → String → String → Load (Row V)
  checked_payload row project_id environment_id = do
    valid ← flag V row "checksum_valid"
    _ ← refuse_unless valid "current gacha release checksum is invalid"
    snapshot ← column V row "snapshot"
    payload ← json_object V snapshot
    _ ← refuse_unless (has_schema_version payload 1) "unsupported gacha release snapshot schema"
    _ ←
        refuse_unless (str_eq (lower_text payload "project_id") (V.lower project_id))
          "gacha release project does not match configured project"
    _ ←
        refuse_unless (str_eq (lower_text payload "environment_id") (V.lower environment_id))
          "gacha release environment does not match configured environment"
    ok payload

  -- What a release row names and holds.
  pub record ReleaseParts : Type 0 where
    pub release_id : String
    pub release_number : Option ℕ
    pub snapshot_sha256 : Option String
    pub rows : ReleaseRows V

  unfoldable pub release_parts : Row V → String → String → Load ReleaseParts
  unfolding checked_payload release_number_of release_rows
  release_parts row project_id environment_id = do
    payload ← checked_payload row project_id environment_id
    release_id ← text V row "release_id"
    release_number ← release_number_of row payload
    _ ←
        refuse_unless (is_release (optional_row_value V payload "release_id") release_id)
          "gacha release identity does not match its snapshot"
    rows ← release_rows payload
    ok (record {
      release_id = release_id;
      release_number = release_number;
      snapshot_sha256 = text_or_none (optional_row_value V row "snapshot_sha256");
      rows = rows;
    })

  unfoldable pub build_snapshot_from_release :
      Option (Row V) → String → String → ℕ → Load CatalogSnapshot
  unfolding release_parts
  build_snapshot_from_release none project_id environment_id now =
      build_snapshot V no_rows now none none none
  build_snapshot_from_release (some row) project_id environment_id now = do
    parts ← release_parts row project_id environment_id
    build_snapshot V parts.rows now (some parts.release_id) parts.release_number
        parts.snapshot_sha256

  -- What the database does with a query: no connection, a failed query, or its first row.
  pub data Fetched : Type 0 where
    no_connection query_failed : Fetched
    fetched : Option (Row V) → Fetched

  -- `PostgresCatalogRepository.load_snapshot`
  unfoldable pub load_snapshot : String → String → ℕ → Fetched → Load CatalogSnapshot
  unfolding build_snapshot_from_release
  load_snapshot project_id environment_id now no_connection =
      raise (catalog_load_error "connect to gacha config database failed")
  load_snapshot project_id environment_id now query_failed =
      raise (catalog_load_error "load gacha catalog from postgres failed")
  load_snapshot project_id environment_id now (fetched row) =
      build_snapshot_from_release row project_id environment_id now

  -- `PostgresCatalogRepository.load_release_snapshot`
  unfoldable pub load_release_snapshot :
      String → String → String → ℕ → Fetched → Load CatalogSnapshot
  unfolding build_snapshot_from_release
  load_release_snapshot release_id project_id environment_id now no_connection =
      raise (catalog_load_error "connect to gacha config database failed")
  load_release_snapshot release_id project_id environment_id now query_failed =
      raise (catalog_load_error "load historical gacha release failed")
  load_release_snapshot release_id project_id environment_id now (fetched none) =
      raise (catalog_load_error ("gacha release " <> release_id <> " was not found"))
  load_release_snapshot release_id project_id environment_id now (fetched (some row)) =
      build_snapshot_from_release (some row) project_id environment_id now

-- `StaticCatalogRepository`
unfoldable pub load_static_snapshot : ℕ → Load CatalogSnapshot
load_static_snapshot now = ok (static_catalog_snapshot now)

unfoldable pub load_static_release_snapshot : String → Load CatalogSnapshot
load_static_release_snapshot release_id =
    raise (catalog_load_error ("static catalog has no release " <> release_id))
