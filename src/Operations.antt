-- ===== src/Operations.antt =====
-- gacha_engine_service/pull_operations.py: the state of a pull operation, its recovery context and
-- the claims on it.
pub mod Context
pub mod RoundTrip
mod Tests
use gacha_engine_service.Prelude.{ℕ, String, Bool, Option, is_some, ◌==◌}
use gacha_engine_service.Schemas.{PullResponse, PullCompletedEvent}
use gacha_engine_service.Operations.Context.{PullRecoveryContext}

pub data PullOperationStatus : Type 0 where
  processing event_pending event_published succeeded refund_pending failed : PullOperationStatus

abbrev status_number : PullOperationStatus → ℕ
status_number processing = 0
status_number event_pending = 1
status_number event_published = 2
status_number succeeded = 3
status_number refund_pending = 4
status_number failed = 5

abbrev pub status_eq : PullOperationStatus → PullOperationStatus → Bool
status_eq a b = status_number a == status_number b

pub record PullOperation : Type 0 where
  pub status : PullOperationStatus
  pub request_hash : String
  pub response : Option PullResponse
  pub event : Option PullCompletedEvent
  pub error_code : Option String
  pub error_message : Option String
  pub recovery_context : Option PullRecoveryContext

pub record PullOperationClaim : Type 0 where
  pub operation_key : String
  pub operation : PullOperation
  pub processing_token : Option String

unfoldable pub acquired : PullOperationClaim → Bool
acquired c = is_some c.processing_token

pub record PullOperationRecord : Type 0 where
  pub operation_key : String
  pub user_id : String
  pub operation : PullOperation
  pub request_id : Option String
  pub created_at : Option ℕ
  pub updated_at : Option ℕ

pub record PullOperationRecoveryClaim : Type 0 where
  pub operation_key : String
  pub user_id : String
  pub operation : PullOperation
  pub processing_token : String
