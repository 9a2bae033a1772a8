-- ===== src/Repository/Loads.antt =====
-- The snapshots that the catalog repository loads, from the database's row to the banner's rules.
use gacha_engine_service.Prelude.{
  ℕ, ◌≡◌, refl, String, Bool, Option, none, some, List, [], ◌∷◌, map, arith, keep, if_both,
}
use mathlib.Core.Path.{subst}
use gacha_engine_service.Prelude.Dict.{Dict, string_eq, lookup}
use gacha_engine_service.Prelude.Entries.{Entries, Entries-lookup}
use gacha_engine_service.Prelude.Result.{
  Ensures, Ensures-each, Ensures-bind, Ensures-of_ok, Ensures-ok, ok,
}
use gacha_engine_service.CatalogConfig.{
  BannerConfig, ScheduledBannerConfig, CatalogSnapshot, is_effective_at, banner_config_at,
  scheduled_config_at, single_config,
}
use gacha_engine_service.Repository.Values.{Values, Row}
use gacha_engine_service.Repository.Build.{
  ReleaseRows, gather, add_banner_rows, sorted_schedules, snapshot_of, build_snapshot,
}
use gacha_engine_service.Repository.Loaded.{IsLoaded}
use gacha_engine_service.Repository.Schedules.{ListsCurrent, build_snapshot-ListsCurrent}
use gacha_engine_service.Repository.Snapshot.{
  IsOf, AllOf, IsGood, AllOf-sorted, gather-IsGathered, add_banner_rows-Good,
}
use gacha_engine_service.Repository.Release.{
  Fetched, no_connection, query_failed, fetched, load_snapshot, load_release_snapshot,
  build_snapshot_from_release, release_parts,
}

-- What a loaded snapshot satisfies: it is the database's, whatever `banner_config_at` finds for a banner
-- at any time is a well-formed configuration of that banner, and what the snapshot lists is what
-- `banner_config_at` finds at the snapshot's own time.
pub record IsSnapshot (snapshot : CatalogSnapshot) : Type 0 where
  pub from_database : snapshot.source ≡ "postgres"
  pub configs :
      (banner_id : String) (at : ℕ) {config : BannerConfig}
      → banner_config_at snapshot banner_id at ≡ ok (some config)
      → (config.banner.id ≡ banner_id) × IsLoaded config
  pub current : ListsCurrent snapshot

AllOf-keep :
    (banner_id : String) (p : ScheduledBannerConfig → Bool) (ss : List ScheduledBannerConfig)
    → AllOf banner_id ss
    → AllOf banner_id (keep p ss)
AllOf-keep banner_id p [] h = tt
AllOf-keep banner_id p (s ∷ ss) h =
    let rest = AllOf-keep banner_id p ss h.1 in if_both (AllOf banner_id) (p s) (h.0, rest) rest

single_config-IsOf :
    (banner_id : String) (ss : List ScheduledBannerConfig) {config : BannerConfig}
    → AllOf banner_id ss
    → single_config ss ≡ ok (some config)
    → IsOf banner_id config
unfolding single_config
single_config-IsOf banner_id [] h e = absurd (ground arith)
single_config-IsOf banner_id (s ∷ []) {config} h e =
    let same : s.config ≡ config = ground arith in subst (IsOf banner_id) same h.0
single_config-IsOf banner_id (s ∷ t ∷ ss) h e = absurd (ground arith)

scheduled_config_at-IsOf :
    (snapshot : CatalogSnapshot) (banner_id : String) (at : ℕ)
    (found : Option (List ScheduledBannerConfig)) {config : BannerConfig}
    → Entries IsOf snapshot.banner_configs_by_id
    → ((ss : List ScheduledBannerConfig) → found ≡ some ss → AllOf banner_id ss)
    → scheduled_config_at snapshot banner_id at found ≡ ok (some config)
    → IsOf banner_id config
unfolding scheduled_config_at
scheduled_config_at-IsOf snapshot banner_id at none h k e =
    Entries-lookup IsOf banner_id snapshot.banner_configs_by_id h (ground arith)
scheduled_config_at-IsOf snapshot banner_id at (some []) h k e =
    Entries-lookup IsOf banner_id snapshot.banner_configs_by_id h (ground arith)
scheduled_config_at-IsOf snapshot banner_id at (some (s ∷ ss)) h k e =
    single_config-IsOf banner_id _
      (AllOf-keep banner_id (λ t. is_effective_at t at) (s ∷ ss) (k (s ∷ ss) refl)) e

sorted-Entries :
    (d : Dict String (List ScheduledBannerConfig))
    → Entries AllOf d
    → Entries AllOf (
        map
          (λ (entry : String × List ScheduledBannerConfig). (entry.0, sorted_schedules entry.1))
          d)
sorted-Entries [] h = tt
sorted-Entries ((id, ss) ∷ d) h = (AllOf-sorted id ss h.0, sorted-Entries d h.1)

abbrev HasConfigs : CatalogSnapshot → Type 0
HasConfigs snapshot =
    (snapshot.source ≡ "postgres")
    × Entries IsOf snapshot.banner_configs_by_id
    × Entries AllOf snapshot.banner_schedules_by_id

HasConfigs-IsSnapshot :
    (snapshot : CatalogSnapshot) → HasConfigs snapshot → ListsCurrent snapshot → IsSnapshot snapshot
unfolding banner_config_at
HasConfigs-IsSnapshot snapshot (source, configs, schedules) current = record {
  from_database = source;
  configs = λ banner_id at e.
      scheduled_config_at-IsOf snapshot banner_id at
        (lookup banner_id snapshot.banner_schedules_by_id) configs
        (λ ss found. Entries-lookup AllOf banner_id snapshot.banner_schedules_by_id schedules found)
        e;
  current = current;
}

module _ (V : Values) where
  build_snapshot-HasConfigs :
      (rows : ReleaseRows V) (snapshot_time : ℕ) (release_id : Option String)
      (release_number : Option ℕ) (snapshot_sha256 : Option String)
      → Ensures HasConfigs
          (build_snapshot V rows snapshot_time release_id release_number snapshot_sha256)
  unfolding build_snapshot snapshot_of
  build_snapshot-HasConfigs rows snapshot_time release_id release_number snapshot_sha256 =
      Ensures-bind _ HasConfigs (gather V rows) _ (gather-IsGathered V rows) λ gathered k.
        Ensures-bind IsGood HasConfigs
          (add_banner_rows V gathered snapshot_time rows.banner_rows
            (record { banners = []; configs = []; schedules = [] }))
          _
          (add_banner_rows-Good V gathered snapshot_time rows.banner_rows _ k
            (record { configs = tt; schedules = tt }))
          λ g good. (refl, good.configs, sorted-Entries g.schedules good.schedules)

  build_snapshot-IsSnapshot :
      (rows : ReleaseRows V) (snapshot_time : ℕ) (release_id : Option String)
      (release_number : Option ℕ) (snapshot_sha256 : Option String)
      → Ensures IsSnapshot
          (build_snapshot V rows snapshot_time release_id release_number snapshot_sha256)
  build_snapshot-IsSnapshot rows snapshot_time release_id release_number snapshot_sha256 =
      let built = build_snapshot V rows snapshot_time release_id release_number snapshot_sha256 in
      Ensures-of_ok IsSnapshot built λ snapshot e.
        HasConfigs-IsSnapshot snapshot
          (Ensures-ok HasConfigs
            (build_snapshot-HasConfigs rows snapshot_time release_id release_number snapshot_sha256)
            e)
          (Ensures-ok ListsCurrent
            (build_snapshot-ListsCurrent V rows snapshot_time release_id release_number
              snapshot_sha256)
            e)

  pub build_snapshot_from_release-IsSnapshot :
      (row : Option (Row V)) (project_id environment_id : String) (now : ℕ)
      → Ensures IsSnapshot (build_snapshot_from_release V row project_id environment_id now)
  unfolding build_snapshot_from_release
  build_snapshot_from_release-IsSnapshot none project_id environment_id now =
      build_snapshot-IsSnapshot _ now none none none
  build_snapshot_from_release-IsSnapshot (some row) project_id environment_id now =
      Ensures-each IsSnapshot (release_parts V row project_id environment_id) _ λ parts.
        build_snapshot-IsSnapshot parts.rows now (some parts.release_id) parts.release_number
          parts.snapshot_sha256

  -- Whatever the database holds, a snapshot that `load_snapshot` returns is the database's; what
  -- `banner_config_at` finds in it for a banner at any time is a configuration of that banner with the
  -- rates and pity rules of the five- and the four-star, a pool that is not empty, and only ids of
  -- existing items, the featured ones of their rarity; and the configurations that it lists are those
  -- that `banner_config_at` finds at the time of the load.
  pub load_snapshot-IsSnapshot :
      (project_id environment_id : String) (now : ℕ) (reply : Fetched V)
      {snapshot : CatalogSnapshot}
      → load_snapshot V project_id environment_id now reply ≡ ok snapshot
      → IsSnapshot snapshot
  unfolding load_snapshot
  load_snapshot-IsSnapshot project_id environment_id now no_connection e = absurd (ground arith)
  load_snapshot-IsSnapshot project_id environment_id now query_failed e = absurd (ground arith)
  load_snapshot-IsSnapshot project_id environment_id now (fetched row) e =
      Ensures-ok IsSnapshot
        (build_snapshot_from_release-IsSnapshot row project_id environment_id now) e

  -- The same holds of a release that `load_release_snapshot` returns.
  pub load_release_snapshot-IsSnapshot :
      (release_id project_id environment_id : String) (now : ℕ) (reply : Fetched V)
      {snapshot : CatalogSnapshot}
      → load_release_snapshot V release_id project_id environment_id now reply ≡ ok snapshot
      → IsSnapshot snapshot
  unfolding load_release_snapshot
  load_release_snapshot-IsSnapshot release_id project_id environment_id now no_connection e =
      absurd (ground arith)
  load_release_snapshot-IsSnapshot release_id project_id environment_id now query_failed e =
      absurd (ground arith)
  load_release_snapshot-IsSnapshot release_id project_id environment_id now (fetched none) e =
      absurd (ground arith)
  load_release_snapshot-IsSnapshot release_id project_id environment_id now (fetched (some row)) e =
      Ensures-ok IsSnapshot
        (build_snapshot_from_release-IsSnapshot (some row) project_id environment_id now) e
