-- ===== src/Service/Names.antt =====
-- The idempotency keys, the ids and the metadata of gacha_engine_service/main.py.
use Prim.Native.String.{◌++◌ as ◌<>◌}
use gacha_engine_service.Prelude.{ℕ, String, Option, none, some, List, [], ◌∷◌, ◌++◌}
use gacha_engine_service.Runtime.{Runtime}
use gacha_engine_service.Schemas.{PullAuditMetadata}
use gacha_engine_service.Service.World.{MetadataValue, text, number, null}

abbrev pub astrite_per_pull : ℕ
astrite_per_pull = 160

abbrev pub pull_processing_lease_seconds : ℕ
pull_processing_lease_seconds = 30

abbrev pub pity_commit_max_attempts : ℕ
pity_commit_max_attempts = 5

abbrev pull_event_namespace : String
pull_event_namespace = "d19f2db2-5d10-4dbf-95ee-2680ab82d908"

unfoldable pub spend_idempotency_key : String → String
spend_idempotency_key event_id = "gacha-pull:" <> event_id

unfoldable pub refund_idempotency_key : String → String
refund_idempotency_key event_id = "gacha-refund:" <> event_id

unfoldable pub deterministic_pull_event_id : Runtime → String → String → String
deterministic_pull_event_id R user_id idempotency_key =
    R.uuid5 pull_event_namespace ("event:" <> user_id <> ":" <> idempotency_key)

unfoldable pub deterministic_pull_seed : Runtime → String → String → String
deterministic_pull_seed R user_id idempotency_key =
    R.uuid5 pull_event_namespace ("seed:" <> user_id <> ":" <> idempotency_key)

abbrev optional_text : String → Option String → List (String × MetadataValue)
optional_text key none = []
optional_text key (some value) = (key, text value) ∷ []

abbrev optional_number : String → Option ℕ → List (String × MetadataValue)
optional_number key none = []
optional_number key (some value) = (key, number value) ∷ []

abbrev audit_entries : Option PullAuditMetadata → List (String × MetadataValue)
audit_entries none = []
audit_entries (some audit) =
    (("audit_schema_version", number audit.schema_version)
      ∷ ("banner_config_sha256", text audit.banner_config_sha256)
      ∷ ("rng_algorithm_version", text audit.rng_algorithm_version)
      ∷ ("engine_version", text audit.engine_version)
      ∷ ("engine_build_sha", text audit.engine_build_sha)
      ∷ [])
    ++ optional_text "release_id" audit.release_id
    ++ optional_number "release_number" audit.release_number
    ++ optional_text "release_snapshot_sha256" audit.release_snapshot_sha256

abbrev text_or_null : Option String → MetadataValue
text_or_null none = null
text_or_null (some value) = text value

unfoldable pub pull_asset_metadata :
    String
    → String
    → Option String
    → Option String
    → ℕ
    → Option PullAuditMetadata
    → List (String × MetadataValue)
pull_asset_metadata event_id banner_id pity_group_id banner_version_id count audit =
    (("source", text "gacha-engine-service")
      ∷ ("event_id", text event_id)
      ∷ ("banner_id", text banner_id)
      ∷ ("pity_group_id", text_or_null pity_group_id)
      ∷ ("count", number count)
      ∷ ("cost_per_pull_minor", number astrite_per_pull)
      ∷ [])
    ++ optional_text "banner_version_id" banner_version_id
    ++ audit_entries audit
