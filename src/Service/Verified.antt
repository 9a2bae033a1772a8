-- ===== src/Service/Verified.antt =====
-- From the request to the audit: what is committed for a banner of the catalog is verified by replay.
use gacha_engine_service.Prelude.{
  ap, ℕ, ◌<◌, ◌≡◌, refl, sym, ◌∙◌, String, true, some, List, [], ◌∷◌, arith, length, All, str_eq,
}
use mathlib.Core.Path.{subst}
use gacha_engine_service.Prelude.Result.{ok, Ensures-ok}
use gacha_engine_service.Schemas.{
  without_version, PullRecord, PullAuditMetadata, PullResponse, PullCompletedEvent,
}
use gacha_engine_service.CatalogConfig.{BannerConfig, CatalogSnapshot, banner_config_at}
use gacha_engine_service.Engine.Pity.{perform_pulls_numbered}
use gacha_engine_service.Engine.Labels.{perform_pulls-banner}
use gacha_engine_service.Operations.Context.{PullInputs, frozen_context}
use gacha_engine_service.Operations.RoundTrip.{IsKeyed, recovered_config_pulls}
use gacha_engine_service.Audit.{
  BannerConfigEvidence, Verification, verified, banner_config_sha256, build_pull_audit_metadata,
  verify_pull_response, has_release_identity,
}
use gacha_engine_service.Audit.Replay.{replayed_is_verified}
use gacha_engine_service.Repository.Values.{Values, Row}
use gacha_engine_service.Repository.Release.{build_snapshot_from_release}
use gacha_engine_service.Repository.Loads.{IsSnapshot, build_snapshot_from_release-IsSnapshot}
use gacha_engine_service.Repository.Reload.{AnswersAlike, reloaded_release-AnswersAlike}
use gacha_engine_service.Service.World.{Env, World}
use gacha_engine_service.Service.Commit.{generate_and_commit_pull_with_retry, pull_response}
use gacha_engine_service.Service.Performed.{committed_result_is_performed}

-- The first of a batch of at least one record.
first_record :
    (P : PullRecord → Type 0) (records : List PullRecord) {count : ℕ}
    → length records ≡ count
    → 0 < count
    → All P records
    → (r : PullRecord) × (rest : List PullRecord) × (records ≡ r ∷ rest) × P r
first_record P [] e h all = absurd (omega arith)
first_record P (r ∷ rest) e h all = (r, rest, refl, all.0)

module _ (env : Env) (json : BannerConfigEvidence → String) (snapshot : CatalogSnapshot)
    (config : BannerConfig) (engine_version engine_build_sha : String)
    (audit : PullAuditMetadata) where
  -- For a database release, the metadata that are built carry the release's identity.
  built-release :
      str_eq snapshot.source "postgres" ≡ true
      → build_pull_audit_metadata env.runtime json snapshot config engine_version engine_build_sha
        ≡ ok audit
      → (has_release_identity audit snapshot ≡ true)
        × (snapshot.snapshot_sha256 ≡ audit.release_snapshot_sha256)
        × (banner_config_sha256 env.runtime json config ≡ audit.banner_config_sha256)
  unfolding build_pull_audit_metadata has_release_identity
  built-release source built = (ground arith, ground arith, ground arith)

  module _ (user_id key request_hash token : String) (inputs : PullInputs)
      (keyed : IsKeyed config) where
    -- A pull that was accepted at a time at which a database release has `config` for its banner, and
    -- whose recovery context is frozen from `config` with the metadata built for both: once its pulls
    -- are committed, `verify_pull_response` on that release reports the response `verified`, with no
    -- mismatch. The configuration's dicts have no key twice, its rules stand under their rarities and
    -- its `item_by_id` is made of its items; at least one pull is asked for.
    pub committed_pull_is_verified :
        (accepted_at : ℕ)
        → str_eq snapshot.source "postgres" ≡ true
        → banner_config_at snapshot config.banner.id accepted_at ≡ ok (some config)
        → build_pull_audit_metadata env.runtime json snapshot config engine_version engine_build_sha
          ≡ ok audit
        → inputs.audit ≡ some audit
        → inputs.accepted_at ≡ some accepted_at
        → 0 < inputs.count
        → (w : World) {result : PullResponse × PullCompletedEvent}
        → (generate_and_commit_pull_with_retry env user_id key request_hash token
            (frozen_context config inputs)
            w).0
          ≡ ok result
        → (v : Verification) × (verify_pull_response env.runtime json result.0 snapshot ≡ ok v)
          × (v.status ≡ verified)
          × (v.mismatches ≡ [])
    unfolding pull_response frozen_context
    committed_pull_is_verified accepted_at source found built audited accepted some_pulls w {result}
          done =
        let committed =
          committed_result_is_performed env user_id key request_hash token
            (frozen_context config inputs) w
            (ap
              (λ r. (
                r,
                (generate_and_commit_pull_with_retry env user_id key request_hash token
                    (frozen_context config inputs) w).1,
              ))
              done) in
        let c = committed.recorded in
        let performed =
          sym (
            recovered_config_pulls env.runtime config inputs keyed inputs.count
              (without_version committed.previous) inputs.seed)
          ∙ c.performed in
        let (size, _, _) =
          perform_pulls_numbered env.runtime config inputs.count
            (without_version committed.previous) inputs.seed performed in
        let (r, rest, records, of_banner) = first_record _ c.records size some_pulls (
          perform_pulls-banner env.runtime config inputs.count (without_version committed.previous)
            inputs.seed performed) in
        let (identity, release, configuration) = built-release source built in
        rw c.is_response (
          replayed_is_verified env.runtime json _ snapshot config engine_version engine_build_sha
            audit r rest accepted_at c.next records accepted (rw of_banner found) identity built
            (record {
              audited = audited;
              release = release;
              configuration = configuration;
              replayed = rw size performed;
              next = refl;
              version = refl;
            }))

module _ (env : Env) (json : BannerConfigEvidence → String) (config : BannerConfig)
    (engine_version engine_build_sha : String) where
  -- The metadata are the same for snapshots that answer alike.
  same_metadata :
      (s t : CatalogSnapshot)
      → s.source ≡ t.source
      → AnswersAlike s t
      → build_pull_audit_metadata env.runtime json s config engine_version engine_build_sha
        ≡ build_pull_audit_metadata env.runtime json t config engine_version engine_build_sha
  unfolding build_pull_audit_metadata
  same_metadata s t source alike =
      rw (source, alike.release_id, alike.release_number, alike.snapshot_sha256) refl

  -- From the release to the audit. A database release gave `snapshot`, and at the time of acceptance it
  -- has `config` for the banner; the recovery context is frozen from `config`, with the metadata built
  -- for both, for at least one pull. Once the pulls are committed: whenever the same release row is
  -- loaded again, `verify_pull_response` on what is loaded reports the response `verified`, with no
  -- mismatch.
  pub released_pull_is_verified :
      (V : Values) (row : Row V) (project_id environment_id : String) (now later : ℕ)
      {snapshot reloaded : CatalogSnapshot}
      → build_snapshot_from_release V (some row) project_id environment_id now ≡ ok snapshot
      → build_snapshot_from_release V (some row) project_id environment_id later ≡ ok reloaded
      → (banner_id : String) (accepted_at : ℕ) (audit : PullAuditMetadata) (inputs : PullInputs)
      → banner_config_at snapshot banner_id accepted_at ≡ ok (some config)
      → build_pull_audit_metadata env.runtime json snapshot config engine_version engine_build_sha
        ≡ ok audit
      → inputs.audit ≡ some audit
      → inputs.accepted_at ≡ some accepted_at
      → 0 < inputs.count
      → (user_id key request_hash token : String) (w : World)
        {result : PullResponse × PullCompletedEvent}
      → (generate_and_commit_pull_with_retry env user_id key request_hash token
          (frozen_context config inputs)
          w).0
        ≡ ok result
      → (v : Verification) × (verify_pull_response env.runtime json result.0 reloaded ≡ ok v)
        × (v.status ≡ verified)
        × (v.mismatches ≡ [])
  released_pull_is_verified V row project_id environment_id now later {snapshot} {reloaded} loaded
        again banner_id accepted_at audit inputs found built audited accepted some_pulls user_id key
        request_hash token w done =
      let first =
        build_snapshot_from_release-IsSnapshot V (some row) project_id environment_id now in
      let is_snapshot = Ensures-ok IsSnapshot first loaded in
      let is_reloaded =
        Ensures-ok IsSnapshot
          (build_snapshot_from_release-IsSnapshot V (some row) project_id environment_id later)
          again in
      let alike =
        reloaded_release-AnswersAlike V row project_id environment_id now later loaded again in
      let (same_id, well_formed) = is_snapshot.configs banner_id accepted_at found in
      committed_pull_is_verified env json reloaded config engine_version engine_build_sha audit
        user_id key request_hash token inputs well_formed.keyed accepted_at
        (rw is_reloaded.from_database refl)
        (sym (alike.configs config.banner.id accepted_at)
          ∙ subst (λ id. banner_config_at snapshot id accepted_at ≡ ok (some config)) (sym same_id)
              found)
        (sym (
            same_metadata snapshot reloaded
              (is_snapshot.from_database ∙ sym is_reloaded.from_database) alike)
          ∙ built)
        audited accepted some_pulls w done
