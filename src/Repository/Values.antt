-- ===== src/Repository/Values.antt =====
-- What catalog_repository.py uses of Python on values that it did not make (the columns of a row and
-- decoded JSON), as parameters of the model, and the failures of loading a catalog.
use gacha_engine_service.Prelude.{ℕ, String, Bool, Option, none, some, List, if◌then◌else◌}
use gacha_engine_service.Prelude.Dict.{Dict, string_eq, lookup}
use gacha_engine_service.Prelude.Result.{Outcome, ok, raise, Result, PyError, key_error}

-- A `datetime` with a zone, as microseconds since the epoch, or one without.
pub data Stamp : Type 0 where
  aware : ℕ → Stamp
  naive : Stamp

pub record Values : Type 1 where
  pub Value : Type 0
  -- `str(v)`
  pub str : Value → String
  -- `int(v)`, where the database keeps it non-negative: a `ValueError` or `TypeError` otherwise
  pub int : Value → Result ℕ
  -- `bool(v)`
  pub truth : Value → Bool
  -- `v is None`
  pub is_null : Value → Bool
  -- `v == n`
  pub equals : Value → ℕ → Bool
  -- `isinstance` of dict, list, str and datetime, with the value as one
  pub as_object : Value → Option (Dict String Value)
  pub as_array : Value → Option (List Value)
  pub as_text : Value → Option String
  pub as_time : Value → Option Stamp
  -- an int that is stored as it stands; `none` is None
  pub as_count : Value → Option ℕ
  -- `json.loads`
  pub loads : String → Result Value
  -- `datetime.fromisoformat`; `none` is the `ValueError`
  pub from_iso : String → Option Stamp
  -- `s.replace(old, new)`, `s.lower()`, `s.strip()`
  pub replace : String → String → String → String
  pub lower : String → String
  pub strip : String → String

-- A `CatalogLoadError` with its message, or an exception that is none.
pub data LoadError : Type 0 where
  catalog_load_error : String → LoadError
  python : PyError → LoadError

abbrev pub Load {ℓ} : Type ℓ → Type ℓ
Load A = Outcome LoadError A

abbrev pub lift {ℓ} : {A : Type ℓ} → Result A → Load A
lift (ok a) = ok a
lift (raise e) = raise (python e)

module _ (V : Values) where
  abbrev pub Row : Type 0
  Row = Dict String V.Value

  -- `row[key]`
  unfoldable pub column : Row → String → Load V.Value
  column row key = elim (lookup key row) [ none ↦ raise (python key_error) | some v ↦ ok v ]

  -- `_optional_row_value`: None where the key is missing
  unfoldable pub optional_row_value : Row → String → Option V.Value
  optional_row_value row key = elim (lookup key row) [
    | none ↦ none
    | some v ↦ if V.is_null v then none else some v
  ]
