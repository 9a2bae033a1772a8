-- ===== src/Service/Errors.antt =====
-- The HTTP errors of gacha_engine_service/main.py, and what `AssetServiceError` of
-- gacha_engine_service/asset_client.py carries.
use gacha_engine_service.Prelude.{ℕ, String, leb, str_eq, if◌then◌else◌}
use gacha_engine_service.Prelude.Result.{PyError}
use gacha_engine_service.Store.Methods.{StoreError}

pub record AssetServiceError : Type 0 where
  pub status_code : ℕ
  pub code : String
  pub message : String

pub record HttpException : Type 0 where
  pub status_code : ℕ
  pub code : String
  pub message : String

-- The exceptions that the workflow can meet.
pub data Failure : Type 0 where
  http : HttpException → Failure
  store : StoreError → Failure
  asset : AssetServiceError → Failure
  publish_error receipt_error runtime_error : Failure
  python : PyError → Failure

-- `text or fallback`
abbrev pub text_or : String → String → String
text_or text fallback = if str_eq text "" then fallback else text

unfoldable pub asset_error_code : AssetServiceError → String
asset_error_code exc =
    if str_eq exc.code "insufficient_funds"
    then "insufficient_assets"
    else text_or exc.code "asset_request_failed"

unfoldable pub asset_error_message : AssetServiceError → String
asset_error_message exc =
    if str_eq exc.code "insufficient_funds"
    then "星声不足，请先充值。"
    else text_or exc.message "asset request failed"

unfoldable pub asset_http_exception : AssetServiceError → HttpException
unfolding asset_error_code asset_error_message
asset_http_exception exc =
    if str_eq exc.code "insufficient_funds"
    then record { status_code = 409; code = "insufficient_assets"; message = "星声不足，请先充值。" }
    else if str_eq exc.code "idempotency_conflict"
    then record {
      status_code = 409;
      code = "idempotency_conflict";
      message = "Idempotency-Key was already used with a different request";
    }
    else if leb 500 exc.status_code
    then record {
      status_code = 503;
      code = "asset_unavailable";
      message = "asset service is unavailable";
    }
    else record {
      status_code = 409;
      code = asset_error_code exc;
      message = asset_error_message exc;
    }

unfoldable pub state_store_http_exception : String → HttpException
state_store_http_exception message = record {
  status_code = 503;
  code = "state_store_unavailable";
  message = message;
}

unfoldable pub pull_in_progress_http_exception : HttpException
pull_in_progress_http_exception = record {
  status_code = 409;
  code = "pull_in_progress";
  message = "pull is already being processed by another worker";
}
