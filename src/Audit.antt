-- ===== src/Audit.antt =====
-- gacha_engine_service/pull_audit.py: the evidence of a banner configuration, the audit metadata of a
-- pull, and the verification of a recorded pull by replay. `json.dumps` of the evidence is a parameter.
pub mod Checks
pub mod Replay
mod Tests
use gacha_engine_service.Prelude.{
  ℕ, ◌+◌, String, Bool, true, false, not, ◌&&◌, ◌||◌, Option, none, some, List, [], ◌∷◌, ◌++◌, map,
  ◌==◌, str_eq, is_none, is_some, is_empty, keep, length, contains, if◌then◌else◌,
}
use gacha_engine_service.Prelude.Dict.{Dict, nat_eq, string_eq, lookup, sorted}
use gacha_engine_service.Prelude.Result.{Result, ok, raise, value_error, ◌>>=◌}
use gacha_engine_service.Runtime.{Runtime}
use gacha_engine_service.Schemas.{
  GachaItem, Banner, PityState, PitySnapshot, without_version, PullRecord, PullAuditMetadata,
  PullResponse,
}
use gacha_engine_service.Schemas.Equality.{decided, records-discrete, snapshot-discrete}
use gacha_engine_service.CatalogConfig.{
  RarityRate, FeaturedRule, PityRule, BannerConfig, CatalogSnapshot, banner_config_at,
}
use gacha_engine_service.Engine.Rolls.{rng_algorithm_version}
use gacha_engine_service.Engine.Pulls.{perform_pulls}

pub record BannerConfigEvidence : Type 0 where
  pub schema_version : ℕ
  pub banner : Banner
  pub pity_group_id : String
  pub banner_version_id : Option String
  pub banner_version : ℕ
  pub items : List GachaItem
  pub rarity_rates : List RarityRate
  pub featured_rules : List FeaturedRule
  pub pity_rules : List PityRule
  pub featured_item_ids_by_rarity : Dict ℕ (List String)

-- `rarity in rarities`
abbrev includes : List ℕ → ℕ → Bool
includes [] n = false
includes (m ∷ rest) n = m == n || includes rest n

-- The rarities of the pool's items.
unfoldable explicit_rarities : BannerConfig → List String → List ℕ
explicit_rarities config [] = []
explicit_rarities config (item_id ∷ item_ids) =
    let rest = explicit_rarities config item_ids in
    elim (lookup item_id config.item_by_id) [ none ↦ rest | some item ↦ item.rarity ∷ rest ]

-- `_effective_items`: those of the pool, and all items of a rarity that the pool has none of.
unfoldable pub effective_items : BannerConfig → List GachaItem
unfolding explicit_rarities
effective_items config =
    let rarities = explicit_rarities config config.banner.item_pool in
    let fallback =
      map (λ (item : GachaItem). item.id)
        (keep (λ (item : GachaItem). not (includes rarities item.rarity)) config.all_items) in
    keep (λ (item : GachaItem). contains (config.banner.item_pool ++ fallback) item.id)
      config.all_items

abbrev values {ℓ} : {V : Type ℓ} → Dict ℕ V → List V
values d = map (λ entry. entry.1) (sorted d)

unfoldable pub banner_config_evidence : BannerConfig → BannerConfigEvidence
unfolding effective_items
banner_config_evidence config = record {
  schema_version = 1;
  banner = config.banner;
  pity_group_id = config.pity_group_id;
  banner_version_id = config.banner_version_id;
  banner_version = config.version;
  items = effective_items config;
  rarity_rates = values config.rarity_rates;
  featured_rules = values config.featured_rules;
  pity_rules = values config.pity_rules;
  featured_item_ids_by_rarity = sorted config.featured_item_ids_by_rarity;
}

pub data VerificationStatus : Type 0 where
  verified mismatch unverifiable : VerificationStatus

-- `PullAuditVerificationResponse`
pub record Verification : Type 0 where
  pub event_id : String
  pub status : VerificationStatus
  pub audit : Option PullAuditMetadata
  pub checks : List (String × Bool)
  pub mismatches : List String
  pub configuration : Option BannerConfigEvidence
  pub recorded_records : List PullRecord
  pub replayed_records : Option (List PullRecord)
  pub recorded_next_pity : Option PitySnapshot
  pub replayed_next_pity : Option PitySnapshot

-- A report without a replay.
abbrev early_report :
    PullResponse → VerificationStatus → List (String × Bool) → String → Verification
early_report response status checks message = record {
  event_id = response.event_id;
  status = status;
  audit = response.audit;
  checks = checks;
  mismatches = message ∷ [];
  configuration = none;
  recorded_records = response.records;
  replayed_records = none;
  recorded_next_pity = some response.next_pity;
  replayed_next_pity = none;
}

abbrev pub same_text : Option String → Option String → Bool
same_text none none = true
same_text (some s) (some t) = str_eq s t
same_text _ _ = false

abbrev pub same_number : Option ℕ → Option ℕ → Bool
same_number none none = true
same_number (some m) (some n) = m == n
same_number _ _ = false

-- `immutable_release_identity`
unfoldable pub has_release_identity : PullAuditMetadata → CatalogSnapshot → Bool
has_release_identity audit snapshot =
    is_some audit.release_id
    && is_some audit.release_number
    && is_some audit.release_snapshot_sha256
    && is_some snapshot.release_id
    && is_some snapshot.release_number
    && is_some snapshot.snapshot_sha256

-- `[name for name, passed in checks.items() if not passed]`
unfoldable pub failed_checks : List (String × Bool) → List String
failed_checks [] = []
failed_checks ((name, passed) ∷ checks) =
    let rest = failed_checks checks in if passed then rest else name ∷ rest

module _ (R : Runtime) (json : BannerConfigEvidence → String) where
  unfoldable pub banner_config_sha256 : BannerConfig → String
  unfolding banner_config_evidence
  banner_config_sha256 config = R.sha256 (json (banner_config_evidence config))

  -- The field constraints of `PullAuditMetadata` (a positive number, hex digests) are left out.
  unfoldable pub build_pull_audit_metadata :
      CatalogSnapshot → BannerConfig → String → String → Result PullAuditMetadata
  unfolding banner_config_sha256
  build_pull_audit_metadata snapshot config engine_version engine_build_sha =
      if str_eq snapshot.source "postgres"
        && (is_none snapshot.release_id
            || is_none snapshot.release_number
            || is_none snapshot.snapshot_sha256)
      then raise value_error
      else ok (record {
        schema_version = 1;
        release_id = snapshot.release_id;
        release_number = snapshot.release_number;
        release_snapshot_sha256 = snapshot.snapshot_sha256;
        banner_version_id = config.banner_version_id;
        banner_config_sha256 = banner_config_sha256 config;
        rng_algorithm_version = rng_algorithm_version;
        engine_version = engine_version;
        engine_build_sha = engine_build_sha;
      })

  abbrev pub rng_check : PullAuditMetadata → Bool
  rng_check audit = str_eq audit.rng_algorithm_version rng_algorithm_version

  unfoldable pub configuration_checks :
      PullAuditMetadata → CatalogSnapshot → BannerConfig → List (String × Bool)
  unfolding banner_config_sha256
  configuration_checks audit snapshot config =
      ("release_id", same_text snapshot.release_id audit.release_id)
      ∷ ("release_number", same_number snapshot.release_number audit.release_number)
      ∷ (
        "release_snapshot_sha256",
        same_text snapshot.snapshot_sha256 audit.release_snapshot_sha256,
      )
      ∷ ("banner_version_id", same_text config.banner_version_id audit.banner_version_id)
      ∷ ("banner_config_sha256", str_eq (banner_config_sha256 config) audit.banner_config_sha256)
      ∷ ("rng_algorithm_version", rng_check audit)
      ∷ []

  unfoldable pub replay_checks :
      PullResponse → List PullRecord → PitySnapshot → List (String × Bool)
  replay_checks response records next_pity =
      ("result_records", decided (records-discrete records response.records))
      ∷ ("next_pity", decided (snapshot-discrete next_pity response.next_pity))
      ∷ ("state_version", response.state_version == next_pity.version)
      ∷ []

  -- The report with the replay, or where the generator is another one, without it.
  unfoldable pub replayed_report :
      PullResponse
      → BannerConfig
      → List (String × Bool)
      → List PullRecord
      → PityState
      → Verification
  unfolding replay_checks failed_checks banner_config_evidence
  replayed_report response config so_far records state =
      let next_pity : PitySnapshot = record {
        state = state;
        version = response.previous_pity.version + 1;
      } in
      let checks = so_far ++ replay_checks response records next_pity in
      let mismatches = failed_checks checks in
      record {
        event_id = response.event_id;
        status = if is_empty mismatches then verified else mismatch;
        audit = response.audit;
        checks = checks;
        mismatches = mismatches;
        configuration = some (banner_config_evidence config);
        recorded_records = response.records;
        replayed_records = some records;
        recorded_next_pity = some response.next_pity;
        replayed_next_pity = some next_pity;
      }

  unfoldable pub unknown_rng_report :
      PullResponse → BannerConfig → List (String × Bool) → Verification
  unfolding failed_checks banner_config_evidence
  unknown_rng_report response config checks = record {
    event_id = response.event_id;
    status = unverifiable;
    audit = response.audit;
    checks = checks;
    mismatches = failed_checks checks;
    configuration = some (banner_config_evidence config);
    recorded_records = response.records;
    replayed_records = none;
    recorded_next_pity = some response.next_pity;
    replayed_next_pity = none;
  }

  unfoldable pub verify_with_config :
      PullResponse → PullAuditMetadata → CatalogSnapshot → BannerConfig → Result Verification
  unfolding configuration_checks unknown_rng_report replayed_report
  verify_with_config response audit snapshot config =
      let checks = configuration_checks audit snapshot config in
      if not (rng_check audit)
      then ok (unknown_rng_report response config checks)
      else perform_pulls R config (length response.records) (without_version response.previous_pity)
          response.seed
        >>= λ (records, state). ok (replayed_report response config checks records state)

  unfoldable pub verify_found :
      PullResponse → PullAuditMetadata → CatalogSnapshot → Option BannerConfig → Result Verification
  unfolding verify_with_config
  verify_found response audit snapshot none = ok (
      early_report response mismatch (("banner_configuration", false) ∷ [])
        "recorded banner configuration is absent from the release")
  verify_found response audit snapshot (some config) =
      verify_with_config response audit snapshot config

  unfoldable pub verify_pull_response : PullResponse → CatalogSnapshot → Result Verification
  unfolding verify_found has_release_identity
  verify_pull_response response snapshot =
      let legacy =
        early_report response unverifiable []
          "legacy pull record lacks deterministic audit evidence" in
      elim response.audit [
        | none ↦ ok legacy
        | some audit ↦ elim response.accepted_at [
          | none ↦ ok legacy
          | some accepted_at ↦ elim response.records [
            | [] ↦ ok legacy
            | record_0 ∷ _ ↦
                if not (has_release_identity audit snapshot)
                then ok (
                    early_report response unverifiable (("immutable_release_identity", false) ∷ [])
                      "pull record lacks an immutable catalog release identity")
                else banner_config_at snapshot record_0.banner_id accepted_at >>= λ found.
                    verify_found response audit snapshot found
          ]
        ]
      ]
