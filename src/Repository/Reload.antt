-- ===== src/Repository/Reload.antt =====
-- A release that is loaded again later answers the same for every banner and time.
use gacha_engine_service.Prelude.{
  ℕ, ◌≡◌, refl, ap, sym, ◌∙◌, String, Option, none, some, List, [], ◌∷◌, ◌++◌, arith, inl, inr,
  keep,
}
use mathlib.Core.Path.{subst}
use gacha_engine_service.Prelude.Dict.{Dict, string_eq, lookup, insert}
use gacha_engine_service.Prelude.Result.{ok, ◌>>=◌, bind_ok, ok_inj, Result, Ensures-ok}
use gacha_engine_service.Schemas.{GachaItem}
use gacha_engine_service.CatalogConfig.{
  BannerConfig, ScheduledBannerConfig, CatalogSnapshot, is_effective_at, banner_config_at,
  scheduled_config_at, single_config,
}
use gacha_engine_service.Repository.Values.{Values, Load, Row}
use gacha_engine_service.Repository.Rows.{optional_release_timestamp}
use gacha_engine_service.Repository.Build.{
  Gathering, Gathered, BannerRow, ReleaseRows, get_list, add_schedule, add_banner_rows,
  config_from_row, gather, snapshot_of, build_snapshot, sorted_schedules,
}
use gacha_engine_service.Repository.Schedules.{
  Fits, AreTimed, sorted-Fits, add_banner_rows-Timed, lookup-sorted_schedules,
}
use gacha_engine_service.Repository.Release.{
  ReleaseParts, release_parts, build_snapshot_from_release,
}

-- The schedules with one more.
abbrev with_schedule :
    Dict String (List ScheduledBannerConfig)
    → ScheduledBannerConfig
    → Dict String (List ScheduledBannerConfig)
with_schedule schedules s =
    insert s.config.banner.id (get_list s.config.banner.id schedules ++ s ∷ []) schedules

add_schedule_lem :
    (t : ℕ) (g : Gathering) (s : ScheduledBannerConfig) {g' : Gathering}
    → add_schedule t g s ≡ ok g'
    → with_schedule g.schedules s ≡ g'.schedules
unfolding add_schedule
add_schedule_lem t g s e = ground arith

module _ (V : Values) (gathered : Gathered V) where
  -- The schedules of the rows, with no regard to a time.
  abbrev schedules_of :
      List (BannerRow V)
      → Dict String (List ScheduledBannerConfig)
      → Load (Dict String (List ScheduledBannerConfig))
  schedules_of [] schedules = ok schedules
  schedules_of (row ∷ rows) schedules = do
    config ← config_from_row V gathered row
    effective_from ← optional_release_timestamp V row.effective_from "effective_from"
    effective_to ← optional_release_timestamp V row.effective_to "effective_to"
    schedules_of rows (
        with_schedule schedules (record {
          config = config;
          effective_from = effective_from;
          effective_to = effective_to;
        }))

  add_banner_rows-schedules :
      (t : ℕ) (rows : List (BannerRow V)) (g : Gathering) {g' : Gathering}
      → add_banner_rows V gathered t rows g ≡ ok g'
      → schedules_of rows g.schedules ≡ ok g'.schedules
  unfolding add_banner_rows
  add_banner_rows-schedules t [] g e = ground arith
  add_banner_rows-schedules t (row ∷ rows) g e =
      let (config, c, e1) = bind_ok (config_from_row V gathered row) _ e in
      let (from, a, e2) =
        bind_ok (optional_release_timestamp V row.effective_from "effective_from") _ e1 in
      let (to, b, e3) =
        bind_ok (optional_release_timestamp V row.effective_to "effective_to") _ e2 in
      let (g1, added, e4) = bind_ok (add_schedule t g _) _ e3 in
      rw (c, a, b, add_schedule_lem t g _ added) (add_banner_rows-schedules t rows g1 e4)

-- What the schedules alone say of a banner at a time.
abbrev scheduled : Option (List ScheduledBannerConfig) → ℕ → Result (Option BannerConfig)
scheduled none at = ok none
scheduled (some ss) at = single_config (keep (λ s. is_effective_at s at) (sorted_schedules ss))

module _ (snapshot_time : ℕ) (items : List GachaItem) (g : Gathering) (release_id : Option String)
    (release_number : Option ℕ) (snapshot_sha256 : Option String) where
  abbrev snapshot : CatalogSnapshot
  snapshot = snapshot_of items g snapshot_time release_id release_number snapshot_sha256

  by_sorted :
      (banner_id : String) (at : ℕ) (schedules : List ScheduledBannerConfig)
      → Fits snapshot_time (lookup banner_id g.configs) schedules
      → scheduled_config_at snapshot banner_id at (some schedules)
        ≡ single_config (keep (λ s. is_effective_at s at) schedules)
  unfolding scheduled_config_at snapshot_of single_config
  by_sorted banner_id at [] (inl (e, _)) = rw e refl
  by_sorted banner_id at [] (inr (s, e, kept)) = absurd (ground arith)
  by_sorted banner_id at (s ∷ ss) fits = refl

  by_schedules :
      (banner_id : String) (at : ℕ) (found : Option (List ScheduledBannerConfig))
      → Fits snapshot_time
          (lookup banner_id g.configs)
          (elim found as (λ _. List ScheduledBannerConfig) [ none ↦ [] | some ss ↦ ss ])
      → scheduled_config_at snapshot banner_id at
          (elim found as (λ _. Option (List ScheduledBannerConfig)) [
            | none ↦ none
            | some ss ↦ some (sorted_schedules ss)
          ])
        ≡ scheduled found at
  unfolding scheduled_config_at snapshot_of
  by_schedules banner_id at none (inl (e, _)) = rw e refl
  by_schedules banner_id at none (inr (s, e, kept)) = absurd (ground arith)
  by_schedules banner_id at (some ss) fits =
      by_sorted banner_id at (sorted_schedules ss)
        (sorted-Fits snapshot_time (lookup banner_id g.configs) ss fits)

  banner_config_at_lem :
      (banner_id : String) (at : ℕ)
      → AreTimed snapshot_time g
      → banner_config_at snapshot banner_id at ≡ scheduled (lookup banner_id g.schedules) at
  unfolding banner_config_at snapshot_of
  banner_config_at_lem banner_id at timed =
      rw (lookup-sorted_schedules banner_id g.schedules)
        (by_schedules banner_id at (lookup banner_id g.schedules) (timed banner_id))

-- Two snapshots that answer every question of the audit alike.
pub record AnswersAlike (s1 s2 : CatalogSnapshot) : Type 0 where
  pub release_id : s1.release_id ≡ s2.release_id
  pub release_number : s1.release_number ≡ s2.release_number
  pub snapshot_sha256 : s1.snapshot_sha256 ≡ s2.snapshot_sha256
  pub configs :
      (banner_id : String) (at : ℕ)
      → banner_config_at s1 banner_id at ≡ banner_config_at s2 banner_id at

module _ (V : Values) where
  -- A built snapshot, taken apart.
  record IsBuilt (rows : ReleaseRows V) (t : ℕ) (release_id : Option String)
      (release_number : Option ℕ) (snapshot_sha256 : Option String) (s : CatalogSnapshot)
      : Type 0 where
    gathered : Gathered V
    g : Gathering
    gather_ok : gather V rows ≡ ok gathered
    timed : AreTimed t g
    schedules : schedules_of V gathered rows.banner_rows [] ≡ ok g.schedules
    snapshot_is : snapshot_of gathered.items g t release_id release_number snapshot_sha256 ≡ s

  build_snapshot-IsBuilt :
      (rows : ReleaseRows V) (t : ℕ) (release_id : Option String) (release_number : Option ℕ)
      (snapshot_sha256 : Option String) {s : CatalogSnapshot}
      → build_snapshot V rows t release_id release_number snapshot_sha256 ≡ ok s
      → IsBuilt rows t release_id release_number snapshot_sha256 s
  unfolding build_snapshot
  build_snapshot-IsBuilt rows t release_id release_number snapshot_sha256 e =
      let (gathered, gather_ok, e1) = bind_ok (gather V rows) _ e in
      let nothing : Gathering = record { banners = []; configs = []; schedules = [] } in
      let (g, added, e2) = bind_ok (add_banner_rows V gathered t rows.banner_rows nothing) _ e1 in
      record {
        gathered = gathered;
        g = g;
        gather_ok = gather_ok;
        timed =
            Ensures-ok (AreTimed t)
              (add_banner_rows-Timed t V gathered rows.banner_rows nothing λ _. inl (refl, refl))
              added;
        schedules = add_banner_rows-schedules V gathered t rows.banner_rows nothing added;
        snapshot_is = ground arith;
      }

  built-AnswersAlike :
      (rows : ReleaseRows V) (t u : ℕ) (release_id : Option String) (release_number : Option ℕ)
      (snapshot_sha256 : Option String) {s1 s2 : CatalogSnapshot}
      → IsBuilt rows t release_id release_number snapshot_sha256 s1
      → IsBuilt rows u release_id release_number snapshot_sha256 s2
      → AnswersAlike s1 s2
  unfolding snapshot_of
  built-AnswersAlike rows t u release_id release_number snapshot_sha256 a b =
      let one : a.gathered ≡ b.gathered = ground (arith, a.gather_ok, b.gather_ok) in
      let same : a.g.schedules ≡ b.g.schedules = ok_inj (
        sym a.schedules
        ∙ subst (λ (g : Gathered V). schedules_of V g rows.banner_rows [] ≡ ok b.g.schedules)
            (sym one) b.schedules) in
      rw (← a.snapshot_is, ← b.snapshot_is)
        (record {
          release_id = refl;
          release_number = refl;
          snapshot_sha256 = refl;
          configs = λ banner_id at.
              banner_config_at_lem t a.gathered.items a.g release_id release_number snapshot_sha256
                banner_id at a.timed
              ∙ ap (λ d. scheduled (lookup banner_id d) at) same
              ∙ sym (
                  banner_config_at_lem u b.gathered.items b.g release_id release_number
                    snapshot_sha256 banner_id at b.timed);
        })

  -- Two snapshots that are built from the same release row, at whatever times, carry the same release
  -- identity, and `banner_config_at` finds the same configuration in both, for every banner and time.
  pub reloaded_release-AnswersAlike :
      (row : Row V) (project_id environment_id : String) (now later : ℕ)
      {snapshot reloaded : CatalogSnapshot}
      → build_snapshot_from_release V (some row) project_id environment_id now ≡ ok snapshot
      → build_snapshot_from_release V (some row) project_id environment_id later ≡ ok reloaded
      → AnswersAlike snapshot reloaded
  unfolding build_snapshot_from_release
  reloaded_release-AnswersAlike row project_id environment_id now later {reloaded} e f =
      let (parts, p, e1) = bind_ok (release_parts V row project_id environment_id) _ e in
      let (parts', q, f1) = bind_ok (release_parts V row project_id environment_id) _ f in
      let same : parts' ≡ parts = ok_inj (sym q ∙ p) in
      let again =
        subst
          (λ (x : ReleaseParts V).
            build_snapshot V x.rows later (some x.release_id) x.release_number x.snapshot_sha256
            ≡ ok reloaded)
          same f1 in
      built-AnswersAlike parts.rows now later (some parts.release_id) parts.release_number
        parts.snapshot_sha256 (build_snapshot-IsBuilt parts.rows now _ _ _ e1)
        (build_snapshot-IsBuilt parts.rows later _ _ _ again)
