-- ===== src/Audit/Replay.antt =====
-- What a verified pull is, and that a pull whose audit metadata was built for its configuration
-- verifies.
use gacha_engine_service.Prelude.{
  ℕ, ◌+◌, ◌≡◌, refl, ap, ◌∙◌, String, true, Option, none, some, List, [], ◌∷◌, inl, inr, arith,
  eq_iff, eq_refl, sym, ==_iff, length, Bool-cases, Option-cases, ◌++◌, All,
}
use mathlib.Core.Path.{subst}
use gacha_engine_service.Prelude.Result.{ok, Outcome-cases}
use gacha_engine_service.Runtime.{Runtime}
use gacha_engine_service.Schemas.{
  PityState, PitySnapshot, without_version, PullRecord, PullAuditMetadata, PullResponse,
}
use gacha_engine_service.Schemas.Equality.{decided_iff, records-discrete, snapshot-discrete}
use gacha_engine_service.CatalogConfig.{BannerConfig, CatalogSnapshot, banner_config_at}
use gacha_engine_service.Engine.Rolls.{rng_algorithm_version}
use gacha_engine_service.Engine.Pulls.{perform_pulls}
use gacha_engine_service.Audit.{
  BannerConfigEvidence, Verification, verified, banner_config_sha256, build_pull_audit_metadata,
  verify_pull_response, verify_found, verify_with_config, configuration_checks, replay_checks,
  replayed_report, unknown_rng_report, has_release_identity, rng_check,
}
use gacha_engine_service.Audit.Checks.{
  List-cases, failed_checks_none, All-append, same_text_eq, passed_checks, same_text_refl,
  same_number_refl,
}

module _ (R : Runtime) (json : BannerConfigEvidence → String) where
  -- What `perform_pulls` gives for the inputs that the response names, and what is recorded.
  pub record IsReplayOf (response : PullResponse) (audit : PullAuditMetadata)
      (snapshot : CatalogSnapshot) (config : BannerConfig) (state : PityState) : Type 0 where
    pub audited : response.audit ≡ some audit
    pub release : snapshot.snapshot_sha256 ≡ audit.release_snapshot_sha256
    pub configuration : banner_config_sha256 R json config ≡ audit.banner_config_sha256
    pub replayed :
        perform_pulls R config
          (length response.records)
          (without_version response.previous_pity)
          response.seed
        ≡ ok (response.records, state)
    pub next :
        response.next_pity ≡ record { state = state; version = response.previous_pity.version + 1 }
    pub version : response.state_version ≡ response.previous_pity.version + 1

  -- The configuration that the snapshot has for the response's banner and time.
  pub record IsConfigured (response : PullResponse) (snapshot : CatalogSnapshot)
      (config : BannerConfig) : Type 0 where
    pub accepted_at : ℕ
    pub first : PullRecord
    pub rest : List PullRecord
    pub accepted : response.accepted_at ≡ some accepted_at
    pub records : response.records ≡ first ∷ rest
    pub found : banner_config_at snapshot first.banner_id accepted_at ≡ ok (some config)

  replayed_report-verified :
      (response : PullResponse) (audit : PullAuditMetadata) (snapshot : CatalogSnapshot)
      (config : BannerConfig) (records : List PullRecord) (state : PityState)
      → response.audit ≡ some audit
      → perform_pulls R config
          (length response.records)
          (without_version response.previous_pity)
          response.seed
        ≡ ok (records, state)
      → (replayed_report R json response config
          (configuration_checks R json audit snapshot config)
          records
          state).status
        ≡ verified
      → IsReplayOf response audit snapshot config state
  unfolding replayed_report configuration_checks replay_checks
  replayed_report-verified response audit snapshot config records state a replayed v =
      let next : PitySnapshot = record {
        state = state;
        version = response.previous_pity.version + 1;
      } in
      let checks = configuration_checks R json audit snapshot config in
      let passed = passed_checks (checks ++ replay_checks R json response records next) v in
      let (_, (_, (release, (_, (configuration, (_, (same, (same_next, (version, _))))))))) =
        passed in
      let records_ok = (decided_iff (records-discrete records response.records)).0 same in
      record {
        audited = a;
        release = same_text_eq snapshot.snapshot_sha256 audit.release_snapshot_sha256 release;
        configuration = (eq_iff _ audit.banner_config_sha256).0 configuration;
        replayed = replayed ∙ ap (λ rs. ok (rs, state)) records_ok;
        next = sym ((decided_iff (snapshot-discrete next response.next_pity)).0 same_next);
        version = (==_iff response.state_version next.version).0 version;
      }

  verify_with_config-verified :
      (response : PullResponse) (audit : PullAuditMetadata) (snapshot : CatalogSnapshot)
      (config : BannerConfig) {v : Verification}
      → response.audit ≡ some audit
      → verify_with_config R json response audit snapshot config ≡ ok v
      → v.status ≡ verified
      → (state : PityState) × IsReplayOf response audit snapshot config state
  unfolding verify_with_config unknown_rng_report
  verify_with_config-verified response audit snapshot config {v} a e h =
      elim (Bool-cases (rng_check R json audit)) [
        | inl known ↦
            elim (Outcome-cases (
              perform_pulls R config (length response.records)
                (without_version response.previous_pity) response.seed)) [
                  | inl (err, p) ↦ absurd (ground arith)
                  | inr ((records, state), p) ↦
                      let report : v
                          ≡ replayed_report R json response config
                              (configuration_checks R json audit snapshot config) records state =
                        ground arith in
                      (
                        state,
                        replayed_report-verified response audit snapshot config records state a p
                            (subst (λ (x : Verification). x.status ≡ verified) report h),
                      )
                ]
        | inr other ↦ absurd (ground arith)
      ]

  verify_found-verified :
      (response : PullResponse) (audit : PullAuditMetadata) (snapshot : CatalogSnapshot)
      (found : Option BannerConfig) {v : Verification}
      → response.audit ≡ some audit
      → verify_found R json response audit snapshot found ≡ ok v
      → v.status ≡ verified
      → (config : BannerConfig) × (found ≡ some config)
        × (state : PityState) × IsReplayOf response audit snapshot config state
  unfolding verify_found
  verify_found-verified response audit snapshot none a e h = absurd (ground arith)
  verify_found-verified response audit snapshot (some config) a e h =
      let (state, replay) = verify_with_config-verified response audit snapshot config a e h in
      (config, refl, state, replay)

  -- Where `verify_pull_response` reports `verified`: the response's audit metadata name the release's
  -- snapshot and the hash of the configuration that the release has for its banner and time, and
  -- `perform_pulls` on that configuration, with the recorded seed, count and previous pity, gives
  -- exactly the recorded pulls and the recorded next pity, whose version is the next one.
  pub verified_is_replayed :
      (response : PullResponse) (snapshot : CatalogSnapshot) {v : Verification}
      → verify_pull_response R json response snapshot ≡ ok v
      → v.status ≡ verified
      → (audit : PullAuditMetadata) × (config : BannerConfig) × (state : PityState) × IsConfigured
          response snapshot config
        × IsReplayOf response audit snapshot config state
  unfolding verify_pull_response
  verified_is_replayed response snapshot {v} e h = elim (Option-cases response.audit) [
    | inl a ↦ absurd (ground arith)
    | inr (audit, a) ↦ elim (Option-cases response.accepted_at) [
      | inl t ↦ absurd (ground arith)
      | inr (accepted_at, t) ↦ elim (List-cases response.records) [
        | inl rs ↦ absurd (ground arith)
        | inr (r, rest, rs) ↦ elim (Bool-cases (has_release_identity audit snapshot)) [
          | inl released ↦
              elim (Outcome-cases (banner_config_at snapshot r.banner_id accepted_at)) [
                | inl (err, found) ↦ absurd (ground arith)
                | inr (found, f) ↦
                    let checked : verify_found R json response audit snapshot found ≡ ok v =
                      ground arith in
                    let (config, is_config, state, replay) =
                      verify_found-verified response audit snapshot found a checked h in
                    let configured : IsConfigured response snapshot config = record {
                      accepted_at = accepted_at;
                      first = r;
                      rest = rest;
                      accepted = t;
                      records = rs;
                      found = f ∙ ap ok is_config;
                    } in
                    (audit, config, state, configured, replay)
              ]
          | inr other ↦ absurd (ground arith)
        ]
      ]
    ]
  ]

  built-checks :
      (snapshot : CatalogSnapshot) (config : BannerConfig)
      (engine_version engine_build_sha : String) {audit : PullAuditMetadata}
      → build_pull_audit_metadata R json snapshot config engine_version engine_build_sha ≡ ok audit
      → All (λ c. c.1 ≡ true) (configuration_checks R json audit snapshot config)
  unfolding build_pull_audit_metadata configuration_checks
  built-checks snapshot config engine_version engine_build_sha {audit} built = (
    ground (arith, same_text_refl snapshot.release_id),
    (
      ground (arith, same_number_refl snapshot.release_number),
      (
        ground (arith, same_text_refl snapshot.snapshot_sha256),
        (
          ground (arith, same_text_refl config.banner_version_id),
          (
            ground (arith, eq_refl (banner_config_sha256 R json config)),
            ((eq_iff audit.rng_algorithm_version rng_algorithm_version).1 (ground arith), tt),
          ),
        ),
      ),
    ),
  )

  replay-checks :
      (response : PullResponse) (audit : PullAuditMetadata) (snapshot : CatalogSnapshot)
      (config : BannerConfig) (state : PityState)
      → IsReplayOf response audit snapshot config state
      → All
          (λ c. c.1 ≡ true)
          (replay_checks R json response response.records
            (record { state = state; version = response.previous_pity.version + 1 }))
  unfolding replay_checks
  replay-checks response audit snapshot config state replay =
      let next : PitySnapshot = record {
        state = state;
        version = response.previous_pity.version + 1;
      } in
      (
        (decided_iff (records-discrete response.records response.records)).1 refl,
        (
          (decided_iff (snapshot-discrete next response.next_pity)).1 (sym replay.next),
          ((==_iff response.state_version next.version).1 replay.version, tt),
        ),
      )

  verify-verify_found :
      (response : PullResponse) (snapshot : CatalogSnapshot) (config : BannerConfig)
      (audit : PullAuditMetadata) (r : PullRecord) (rest : List PullRecord) (accepted_at : ℕ)
      → response.records ≡ r ∷ rest
      → response.accepted_at ≡ some accepted_at
      → banner_config_at snapshot r.banner_id accepted_at ≡ ok (some config)
      → has_release_identity audit snapshot ≡ true
      → response.audit ≡ some audit
      → verify_pull_response R json response snapshot
        ≡ verify_found R json response audit snapshot (some config)
  unfolding verify_pull_response
  verify-verify_found response snapshot config audit r rest accepted_at records accepted found
        released audited =
      ground arith

  verify_found-replayed :
      (response : PullResponse) (snapshot : CatalogSnapshot) (config : BannerConfig)
      (audit : PullAuditMetadata) (state : PityState)
      → rng_check R json audit ≡ true
      → perform_pulls R config
          (length response.records)
          (without_version response.previous_pity)
          response.seed
        ≡ ok (response.records, state)
      → verify_found R json response audit snapshot (some config)
        ≡ ok (
            replayed_report R json response config
              (configuration_checks R json audit snapshot config)
              response.records
              state)
  unfolding verify_found verify_with_config
  verify_found-replayed response snapshot config audit state rng replayed = rw (rng, replayed) refl

  -- A response with pulls, a time and audit metadata built for the released snapshot and the
  -- configuration that the snapshot has for its banner and time, whose pulls and next pity are what
  -- `perform_pulls` gives on that configuration, is reported `verified`, with no mismatch.
  pub replayed_is_verified :
      (response : PullResponse) (snapshot : CatalogSnapshot) (config : BannerConfig)
      (engine_version engine_build_sha : String) (audit : PullAuditMetadata) (r : PullRecord)
      (rest : List PullRecord) (accepted_at : ℕ) (state : PityState)
      → response.records ≡ r ∷ rest
      → response.accepted_at ≡ some accepted_at
      → banner_config_at snapshot r.banner_id accepted_at ≡ ok (some config)
      → has_release_identity audit snapshot ≡ true
      → build_pull_audit_metadata R json snapshot config engine_version engine_build_sha ≡ ok audit
      → IsReplayOf response audit snapshot config state
      → (v : Verification) × (verify_pull_response R json response snapshot ≡ ok v)
        × (v.status ≡ verified)
        × (v.mismatches ≡ [])
  unfolding replayed_report configuration_checks
  replayed_is_verified response snapshot config engine_version engine_build_sha audit r rest
        accepted_at state records accepted found released built replay =
      let checks = configuration_checks R json audit snapshot config in
      let passed = built-checks snapshot config engine_version engine_build_sha built in
      let recorded =
        replay_checks R json response response.records
          (record { state = state; version = response.previous_pity.version + 1 }) in
      let none_failed = failed_checks_none (checks ++ recorded) (
        All-append checks recorded passed
          (replay-checks response audit snapshot config state replay)) in
      let (_, (_, (_, (_, (_, (rng, _)))))) = passed in
      (
        replayed_report R json response config checks response.records state,
        verify-verify_found response snapshot config audit r rest accepted_at records accepted found
              released replay.audited
            ∙ verify_found-replayed response snapshot config audit state rng replay.replayed,
        rw none_failed refl,
        none_failed,
      )
