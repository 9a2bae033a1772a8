-- ===== src/Repository/Sample.antt =====
-- Decoded JSON with timestamps as the values of a release, and a small release.
use gacha_engine_service.Prelude.{
  ℕ, String, Bool, true, false, not, Option, none, some, List, [], ◌∷◌, ◌==◌, str_eq,
}
use gacha_engine_service.Prelude.Dict.{Dict}
use gacha_engine_service.Prelude.Result.{Result, ok, raise, value_error, type_error}
use gacha_engine_service.Repository.Values.{Values, aware, Row}

mutual
  pub data Json : Type 0 where
    null : Json
    flag : Bool → Json
    count : ℕ → Json
    text : String → Json
    time : ℕ → Json
    array : Elements → Json
    object : Fields → Json

  pub data Elements : Type 0 where
    end : Elements
    element : Json → Elements → Elements

  pub data Fields : Type 0 where
    closed : Fields
    field : String → Json → Fields → Fields

abbrev elements : Elements → List Json
elements end = []
elements (element j rest) = j ∷ elements rest

abbrev fields : Fields → Dict String Json
fields closed = []
fields (field key j rest) = (key, j) ∷ fields rest

abbrev text_of : Json → Option String
text_of (text s) = some s
text_of _ = none

abbrev int_of : Json → Result ℕ
int_of (count n) = ok n
int_of (text s) = raise value_error
int_of _ = raise type_error

abbrev pub json_values : Values
json_values = record {
  Value = Json;
  str = λ j. elim (text_of j) [ none ↦ "?" | some s ↦ s ];
  int = int_of;
  truth = λ j. elim j [
    | null ↦ false
    | flag b ↦ b
    | count n ↦ not (n == 0)
    | text s ↦ not (str_eq s "")
    | _ ↦ true
  ];
  is_null = λ j. elim j [ null ↦ true | _ ↦ false ];
  equals = λ j n. elim j [ count m ↦ m == n | _ ↦ false ];
  as_object = λ j. elim j [ object fs ↦ some (fields fs) | _ ↦ none ];
  as_array = λ j. elim j [ array es ↦ some (elements es) | _ ↦ none ];
  as_text = text_of;
  as_time = λ j. elim j [ time t ↦ some (aware t) | _ ↦ none ];
  as_count = λ j. elim j [ count n ↦ some n | _ ↦ none ];
  loads = λ s. raise value_error;
  from_iso = λ s. none;
  replace = λ s old new. s;
  lower = λ s. s;
  strip = λ s. s;
}

abbrev to_fields : Dict String Json → Fields
to_fields [] = closed
to_fields ((key, j) ∷ rest) = field key j (to_fields rest)

abbrev to_elements : List Json → Elements
to_elements [] = end
to_elements (j ∷ rest) = element j (to_elements rest)

abbrev obj : Dict String Json → Json
obj d = object (to_fields d)

abbrev arr : List Json → Json
arr js = array (to_elements js)

abbrev item : String → ℕ → Json
item id rarity = obj (
    ("id", text id)
    ∷ ("name", text id)
    ∷ ("subtitle", text "")
    ∷ ("rarity", count rarity)
    ∷ ("item_type", text "weapon")
    ∷ ("element", text "")
    ∷ ("role", text "")
    ∷ ("faction", text "")
    ∷ ("accent", text "")
    ∷ ("quote", text "")
    ∷ [])

abbrev banner_item : String → Json → Json
banner_item item_id group =
    obj (
      ("banner_version_id", text "v1") ∷ ("item_id", text item_id) ∷ ("featured_group", group) ∷ [])

abbrev rate : ℕ → ℕ → Json
rate rarity ppm = obj (
    ("banner_version_id", text "v1")
    ∷ ("rarity", count rarity)
    ∷ ("base_rate_ppm", count ppm)
    ∷ ("roll_order", count rarity)
    ∷ [])

abbrev pity_rule : ℕ → ℕ → Json
pity_rule rarity hard_pity = obj (
    ("banner_version_id", text "v1")
    ∷ ("rarity", count rarity)
    ∷ ("counter_key", text "counter")
    ∷ ("hard_pity", count hard_pity)
    ∷ ("soft_pity_start", null)
    ∷ ("soft_pity_increment_ppm", count 0)
    ∷ ("resets_lower_rarity", flag true)
    ∷ [])

abbrev payload : List Json → List Json → Json
payload items banner_items = obj (
    ("schema_version", count 1)
    ∷ ("project_id", text "project")
    ∷ ("environment_id", text "environment")
    ∷ ("release_id", text "release")
    ∷ ("items", arr items)
    ∷ (
      "banners",
      arr (
          obj (
            ("id", text "banner")
            ∷ ("name", text "Banner")
            ∷ ("short_name", text "B")
            ∷ ("banner_type", text "standard")
            ∷ ("description", text "")
            ∷ (
              "theme",
              obj (("primary", text "p") ∷ ("secondary", text "s") ∷ ("glow", text "g") ∷ []),
            )
            ∷ [])
          ∷ []),
    )
    ∷ (
      "banner_versions",
      arr (
          obj (
            ("id", text "v1")
            ∷ ("banner_id", text "banner")
            ∷ ("version", count 1)
            ∷ ("effective_from", time 10)
            ∷ ("effective_to", null)
            ∷ [])
          ∷ []),
    )
    ∷ ("banner_items", arr banner_items)
    ∷ ("rarity_rates", arr (rate 5 6000 ∷ rate 4 51000 ∷ []))
    ∷ ("featured_rules", arr [])
    ∷ ("pity_rules", arr (pity_rule 5 80 ∷ pity_rule 4 10 ∷ []))
    ∷ ("rule_set_rarity_rates", arr [])
    ∷ ("rule_set_featured_rules", arr [])
    ∷ ("rule_set_pity_rules", arr [])
    ∷ [])

-- A row of the release query.
abbrev row_of : Json → Row json_values
row_of snapshot =
    ("checksum_valid", flag true)
    ∷ ("release_id", text "release")
    ∷ ("release_number", count 3)
    ∷ ("snapshot_sha256", text "digest")
    ∷ ("snapshot", snapshot)
    ∷ []

abbrev pub release_row : Row json_values
release_row = row_of (
    payload (item "five" 5 ∷ item "four" 4 ∷ item "three" 3 ∷ [])
      (banner_item "five" (text "up") ∷ banner_item "four" null ∷ banner_item "three" null ∷ []))

-- A release without a three-star item.
abbrev pub short_row : Row json_values
short_row = row_of (
    payload (item "five" 5 ∷ item "four" 4 ∷ [])
      (banner_item "five" (text "up") ∷ banner_item "four" null ∷ []))
