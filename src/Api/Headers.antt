-- ===== src/Api/Headers.antt =====
-- The dependencies that read a request's headers, and the authentication of the gateway.
use Prim.Native.String.{count as characters}
use gacha_engine_service.Prelude.{
  ℕ, ◌+◌, ◌*◌, String, Bool, ◌||◌, Option, none, some, ltb, str_eq, if◌then◌else◌,
}
use gacha_engine_service.Prelude.Result.{Outcome, ok, raise, Result}
use gacha_engine_service.Runtime.{Runtime}
use gacha_engine_service.Repository.Values.{Stamp, aware, naive}
use gacha_engine_service.Service.Errors.{Failure, http, python}

-- What the headers need of Python: `strip`, `replace`, `datetime.fromisoformat` (`none` is the
-- `ValueError`) and `secrets.compare_digest`, which raises a `TypeError` for texts that are not ASCII.
pub record Texts : Type 0 where
  pub strip : String → String
  pub replace : String → String → String → String
  pub from_iso : String → Option Stamp
  pub compare_digest : String → String → Result Bool

-- `value or ""`
abbrev or_empty : Option String → String
or_empty none = ""
or_empty (some value) = value

abbrev pub max_idempotency_key_length : ℕ
max_idempotency_key_length = 128

abbrev pub max_accepted_at_future_skew_seconds : ℕ
max_accepted_at_future_skew_seconds = 5

abbrev bad_request : {A : Type 0} → String → String → Outcome Failure A
bad_request code message =
    raise (http (record { status_code = 400; code = code; message = message }))

abbrev unauthorized : {A : Type 0} → Outcome Failure A
unauthorized = raise (
    http
      (record { status_code = 401; code = "unauthorized"; message = "request is not authorized" }))

module _ (T : Texts) where
  unfoldable pub idempotency_key_header : Option String → Outcome Failure String
  idempotency_key_header value =
      let idempotency_key = T.strip (or_empty value) in
      if str_eq idempotency_key ""
      then bad_request "missing_idempotency_key" "Idempotency-Key header is required"
      else if ltb max_idempotency_key_length (characters idempotency_key)
      then bad_request "invalid_idempotency_key" "Idempotency-Key must be 128 characters or fewer"
      else ok idempotency_key

  -- The checks after the parse; `now` is the clock's reading.
  unfoldable pub checked_accepted_at : ℕ → Stamp → Outcome Failure ℕ
  checked_accepted_at now naive =
      bad_request "invalid_request_accepted_at"
        "trusted request acceptance time must include a timezone"
  checked_accepted_at now (aware accepted_at) =
      if ltb (now + max_accepted_at_future_skew_seconds * 1_000_000) accepted_at
      then bad_request "invalid_request_accepted_at"
          "trusted request acceptance time is too far in the future"
      else ok accepted_at

  unfoldable pub request_accepted_at_header : ℕ → Option String → Outcome Failure ℕ
  unfolding checked_accepted_at
  request_accepted_at_header now value =
      let raw_value = T.strip (or_empty value) in
      if str_eq raw_value ""
      then bad_request "missing_request_accepted_at" "trusted request acceptance time is required"
      else elim (T.from_iso (T.replace raw_value "Z" "+00:00")) [
        | none ↦
            bad_request "invalid_request_accepted_at" "trusted request acceptance time is invalid"
        | some stamp ↦ checked_accepted_at now stamp
      ]

  module _ (R : Runtime) where
    -- `fresh` is what `uuid.uuid4()` gives.
    unfoldable pub request_id_from_header : Option String → String → String
    request_id_from_header none fresh = fresh
    request_id_from_header (some value) fresh =
        if str_eq value ""
        then fresh
        else elim (R.parse_uuid (T.strip value)) [ none ↦ fresh | some id ↦ id ]

    -- `UUID(str(user_id))`
    abbrev gateway_user : Option String → Outcome Failure String
    gateway_user user_id =
        elim (R.parse_uuid (elim user_id as (λ _. String) [ none ↦ "None" | some s ↦ s ])) [
          | none ↦ bad_request "invalid_user_id" "X-User-Id must be a UUID"
          | some id ↦ ok id
        ]

    -- `expected_token` is the setting `internal_token`.
    unfoldable pub authenticate_gateway_request :
        String → Option String → Option String → Outcome Failure String
    authenticate_gateway_request expected_token internal_token user_id =
        let token = or_empty internal_token in
        if str_eq expected_token "" || str_eq token ""
        then unauthorized
        else elim (T.compare_digest token expected_token) [
          | raise e ↦ raise (python e)
          | ok same ↦ if same then gateway_user user_id else unauthorized
        ]
