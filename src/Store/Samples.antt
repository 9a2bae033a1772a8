-- ===== src/Store/Samples.antt =====
-- Tables for test runs: an operation whose result waits for its delivery, and a pity row.
use gacha_engine_service.Prelude.{ℕ, false, none, some, [], ◌∷◌}
use gacha_engine_service.Schemas.{PityState, PitySnapshot, PullResponse, PullCompletedEvent}
use gacha_engine_service.Operations.{PullOperation, event_pending, event_published}
use gacha_engine_service.Store.Rows.{OperationRow, Db}

abbrev pub sample_state : PityState
sample_state = record { since_five = 3; since_four = 1; guaranteed_featured_five = false }

abbrev sample_snapshot : ℕ → PitySnapshot
sample_snapshot version = record { state = sample_state; version = version }

abbrev pub sample_response : PullResponse
sample_response = record {
  event_id = "event";
  accepted_at = some 1;
  pity_group_id = some "limited";
  banner_version_id = none;
  seed = "seed";
  records = [];
  previous_pity = sample_snapshot 0;
  next_pity = sample_snapshot 1;
  state_version = 1;
  audit = none;
}

abbrev sample_event : PullCompletedEvent
sample_event = record {
  event_id = "event";
  accepted_at = some 1;
  user_id = "user";
  banner_id = "banner";
  pity_group_id = some "limited";
  banner_version_id = none;
  seed = "seed";
  records = [];
  previous_pity = sample_snapshot 0;
  next_pity = sample_snapshot 1;
  state_version = 1;
  audit = none;
}

abbrev pub sample_row : OperationRow
sample_row = record {
  id = "operation";
  user_id = "user";
  idempotency_key_hash = "key";
  request_hash = "request";
  status = event_pending;
  response = some sample_response;
  event = some sample_event;
  error_code = none;
  error_message = none;
  recovery_locked_until = none;
  processing_token = none;
  processing_lease_until = none;
  recovery_context = none;
  request_id = none;
  created_at = 1;
  updated_at = 2;
}

abbrev pub sample_db : Db
sample_db = record {
  operations = sample_row ∷ [];
  pity =
      record {
        user_id = "user";
        pity_group_id = "limited";
        snapshot = sample_snapshot 1;
        updated_at = 2;
      }
      ∷ [];
}

abbrev pub published_operation : PullOperation
published_operation = record {
  status = event_published;
  request_hash = "request";
  response = some sample_response;
  event = some sample_event;
  error_code = none;
  error_message = none;
  recovery_context = none;
}

abbrev pub pending_operation : PullOperation
pending_operation = record published_operation { status = event_pending }
