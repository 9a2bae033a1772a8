-- ===== src/Store/Queries.antt =====
-- The methods of `PostgresGachaStateStore` that read.
use Prim.Native.Nat.{min, max}
use gacha_engine_service.Prelude.{
  ℕ, String, Bool, true, false, ◌&&◌, ◌||◌, Option, none, some, List, [], ◌∷◌, map, ltb, ◌==◌,
  str_eq, is_some, keep, if◌then◌else◌, take,
}
use gacha_engine_service.Prelude.Result.{ok, raise}
use gacha_engine_service.Runtime.{Runtime}
use gacha_engine_service.Schemas.{PullResponse}
use gacha_engine_service.Operations.{
  PullOperation, PullOperationClaim, PullOperationRecord, processing, event_pending,
  event_published, refund_pending, status_eq,
}
use gacha_engine_service.Store.Rows.{OperationRow, operation_from_row, operation_record_from_row}
use gacha_engine_service.Store.Sql.{is_expired, has_key, has_id, find_row}
use gacha_engine_service.Store.Methods.{Call, operation_id}

module _ (R : Runtime) where
  abbrev read_operation : Option OperationRow → Option PullOperation
  read_operation none = none
  read_operation (some row) = some (operation_from_row row)

  abbrev unowned : Option OperationRow → Option PullOperationClaim
  unowned none = none
  unowned (some row) = some (record {
    operation_key = row.id;
    operation = operation_from_row row;
    processing_token = none;
  })

  -- `_get_pull_operation`, with the pair that it returns as a claim that owns nothing.
  unfoldable pub found_claim : String → String → Call (Option PullOperationClaim)
  unfolding operation_from_row find_row
  found_claim user_id idempotency_key db =
      (ok (unowned (find_row (has_key user_id (R.sha256 idempotency_key)) db.operations)), db)

  unfoldable pub get_pull_operation : String → String → Call (Option PullOperation)
  unfolding operation_from_row find_row
  get_pull_operation user_id idempotency_key db = (
    ok (read_operation (find_row (has_key user_id (R.sha256 idempotency_key)) db.operations)),
    db,
  )

  unfoldable pub get_pull_operation_by_key : String → Call (Option PullOperation)
  unfolding operation_from_row find_row
  get_pull_operation_by_key key db = elim (operation_id R key) [
    | raise e ↦ (raise e, db)
    | ok id ↦ (ok (read_operation (find_row (has_id id) db.operations)), db)
  ]

  abbrev has_event : String → Option PullResponse → Bool
  has_event event_id none = false
  has_event event_id (some response) = str_eq response.event_id event_id

  unfoldable pub get_pull_operation_by_event_id : String → String → Call (Option PullOperation)
  unfolding operation_from_row find_row
  get_pull_operation_by_event_id user_id event_id db = (
    ok (
        read_operation (
          find_row (λ row. str_eq row.user_id user_id && has_event event_id row.response)
            db.operations)),
    db,
  )

  abbrev read_record : Option OperationRow → Option PullOperationRecord
  read_record none = none
  read_record (some row) = some (operation_record_from_row row)

  unfoldable pub get_pull_operation_record : String → String → Call (Option PullOperationRecord)
  unfolding operation_record_from_row find_row
  get_pull_operation_record user_id id db = (
    ok (read_record (find_row (λ row. str_eq row.user_id user_id && has_id id row) db.operations)),
    db,
  )

  -- `order by`, as a stable insertion sort.
  unfoldable pub insert_ordered :
      (OperationRow → OperationRow → Bool) → OperationRow → List OperationRow → List OperationRow
  insert_ordered before row [] = row ∷ []
  insert_ordered before row (r ∷ rows) =
      if before row r then row ∷ r ∷ rows else r ∷ insert_ordered before row rows

  unfoldable pub order_by :
      (OperationRow → OperationRow → Bool) → List OperationRow → List OperationRow
  unfolding insert_ordered
  order_by before [] = []
  order_by before (row ∷ rows) = insert_ordered before row (order_by before rows)

  abbrev by_time : ℕ → ℕ → String → String → Bool
  by_time a b id id' = ltb a b || a == b && R.uuid_le id id'

  abbrev listed : OperationRow → PullOperationRecord
  listed row = record {
    operation_key = row.id;
    user_id = row.user_id;
    operation = operation_from_row row;
    request_id = none;
    created_at = none;
    updated_at = none;
  }

  unfoldable pub list_pull_operations : String → ℕ → Call (List PullOperationRecord)
  unfolding operation_record_from_row order_by
  list_pull_operations user_id limit db = (
    ok (
        map operation_record_from_row (
          take (max 1 (min 100 limit)) (
            order_by (λ r r'. by_time r'.created_at r.created_at r'.id r.id)
              (keep (λ row. str_eq row.user_id user_id) db.operations)))),
    db,
  )

  unfoldable pub iter_event_pending_pull_operations : ℕ → Call (List PullOperationRecord)
  unfolding operation_from_row order_by
  iter_event_pending_pull_operations limit db = (
    ok (
        map listed (
          take (max 1 limit) (
            order_by (λ r r'. by_time r.updated_at r'.updated_at r.id r'.id)
              (keep
                (λ row. status_eq row.status event_pending || status_eq row.status event_published)
                db.operations)))),
    db,
  )

  unfoldable pub iter_refund_pending_pull_operations : ℕ → Call (List PullOperationRecord)
  unfolding operation_from_row order_by
  iter_refund_pending_pull_operations limit db = (
    ok (
        map listed (
          take (max 1 limit) (
            order_by (λ r r'. by_time r.updated_at r'.updated_at r.id r'.id)
              (keep (λ row. status_eq row.status refund_pending && is_some row.recovery_context)
                db.operations)))),
    db,
  )

  -- `order by processing_lease_until nulls first, id`
  abbrev by_lease : Option ℕ → Option ℕ → String → String → Bool
  by_lease none none id id' = R.uuid_le id id'
  by_lease none (some b) id id' = true
  by_lease (some a) none id id' = false
  by_lease (some a) (some b) id id' = by_time a b id id'

  unfoldable pub iter_expired_processing_pull_operations : ℕ → ℕ → Call (List PullOperationRecord)
  unfolding operation_from_row order_by
  iter_expired_processing_pull_operations limit now db = (
    ok (
        map listed (
          take (max 1 limit) (
            order_by
              (λ r r'. by_lease r.processing_lease_until r'.processing_lease_until r.id r'.id)
              (keep
                (λ row.
                  status_eq row.status processing
                  && is_some row.recovery_context
                  && is_expired row.processing_lease_until now)
                db.operations)))),
    db,
  )
