-- ===== src/Repository/Schedules.antt =====
-- The configurations of a loaded release at the time of its snapshot are those of its schedules.
use gacha_engine_service.Prelude.{
  ℕ, ◌≡◌, refl, ◌∙◌, String, Bool, true, false, Option, none, some, List, [], ◌∷◌, ◌++◌, map, arith,
  inl, inr, ◌⊎◌, Option-cases, Bool-cases, keep, is_some, str_eq, eq_iff,
}
use mathlib.Core.Path.{subst}
use gacha_engine_service.Prelude.Dict.{Dict, string_eq, lookup, lookup-insert}
use gacha_engine_service.Prelude.Result.{Ensures, Ensures-each, Ensures-bind, ok}
use gacha_engine_service.Schemas.{GachaItem}
use gacha_engine_service.CatalogConfig.{
  BannerConfig, ScheduledBannerConfig, CatalogSnapshot, is_effective_at, banner_config_at,
  scheduled_config_at,
}
use gacha_engine_service.Repository.Values.{Values}
use gacha_engine_service.Repository.Build.{
  Gathering, Gathered, BannerRow, ReleaseRows, get_list, insert_schedule, sorted_schedules,
  add_schedule, add_banner_rows, build_snapshot, snapshot_of, config_from_row, gather,
}
use gacha_engine_service.Repository.Rows.{optional_release_timestamp}

module _ (p : ScheduledBannerConfig → Bool) where
  keep-insert_out :
      (s : ScheduledBannerConfig) (l : List ScheduledBannerConfig)
      → p s ≡ false
      → keep p (insert_schedule s l) ≡ keep p l
  keep-insert_out s [] out = rw out refl
  keep-insert_out s (t ∷ l) out = ground (arith, out, keep-insert_out s l out)

  keep-insert_in :
      (s : ScheduledBannerConfig) (l : List ScheduledBannerConfig)
      → p s ≡ true
      → keep p l ≡ []
      → keep p (insert_schedule s l) ≡ s ∷ []
  keep-insert_in s [] within none_kept = rw within refl
  keep-insert_in s (t ∷ l) within none_kept = ground (arith, within, keep-insert_in s l within)

  keep-sorted_none :
      (l : List ScheduledBannerConfig) → keep p l ≡ [] → keep p (sorted_schedules l) ≡ []
  keep-sorted_none [] h = refl
  keep-sorted_none (s ∷ l) h = elim (Bool-cases (p s)) [
    | inl within ↦ absurd (ground (arith, within))
    | inr out ↦
        keep-insert_out s (sorted_schedules l) out ∙ keep-sorted_none l (ground (arith, out))
  ]

  keep-sorted_one :
      (l : List ScheduledBannerConfig) {s : ScheduledBannerConfig}
      → keep p l ≡ s ∷ []
      → keep p (sorted_schedules l) ≡ s ∷ []
  keep-sorted_one [] h = absurd (ground arith)
  keep-sorted_one (t ∷ l) {s} h = elim (Bool-cases (p t)) [
    | inl within ↦
        let same : t ≡ s = ground (arith, within) in
        let rest : keep p l ≡ [] = ground (arith, within) in
        rw (← same) (keep-insert_in t (sorted_schedules l) within (keep-sorted_none l rest))
    | inr out ↦ keep-insert_out t (sorted_schedules l) out ∙ keep-sorted_one l (ground (arith, out))
  ]

  keep-append_in :
      (l : List ScheduledBannerConfig) (s : ScheduledBannerConfig)
      → p s ≡ true
      → keep p l ≡ []
      → keep p (l ++ s ∷ []) ≡ s ∷ []
  keep-append_in [] s within h = rw within refl
  keep-append_in (t ∷ l) s within h = ground (arith, keep-append_in l s within)

  keep-append_out :
      (l : List ScheduledBannerConfig) (s : ScheduledBannerConfig)
      → p s ≡ false
      → keep p (l ++ s ∷ []) ≡ keep p l
  keep-append_out [] s out = rw out refl
  keep-append_out (t ∷ l) s out = ground (arith, keep-append_out l s out)

module _ (snapshot_time : ℕ) where
  abbrev effective : ScheduledBannerConfig → Bool
  effective s = is_effective_at s snapshot_time

  -- At most one schedule is effective, and its configuration is the one that is listed.
  abbrev pub Fits : Option BannerConfig → List ScheduledBannerConfig → Type 0
  Fits found schedules =
      ((found ≡ none) × (keep effective schedules ≡ []))
      ⊎ ((s : ScheduledBannerConfig) × (found ≡ some s.config)
          × (keep effective schedules ≡ s ∷ []))

  none_kept :
      (found : Option BannerConfig) (schedules : List ScheduledBannerConfig)
      → is_some found ≡ false
      → Fits found schedules
      → keep effective schedules ≡ []
  none_kept found schedules free (inl (_, e)) = e
  none_kept found schedules free (inr (s, e, _)) = absurd (ground (arith, free))

  abbrev pub AreTimed : Gathering → Type 0
  AreTimed g =
      (banner_id : String)
      → Fits (lookup banner_id g.configs)
          (elim (lookup banner_id g.schedules) as (λ _. List ScheduledBannerConfig) [
            | none ↦ []
            | some ss ↦ ss
          ])

  add_schedule-Timed :
      (g : Gathering) (s : ScheduledBannerConfig)
      → AreTimed g
      → Ensures AreTimed (add_schedule snapshot_time g s)
  unfolding add_schedule
  add_schedule-Timed g s h =
      let id = s.config.banner.id in
      let listed = get_list id g.schedules in
      elim (Bool-cases (effective s)) [
        | inl within ↦ elim (Bool-cases (is_some (lookup id g.configs))) [
          | inl taken ↦ rw (within, taken) tt
          | inr free ↦
              rw (within, free)
                λ banner_id.
                  rw
                    (
                      lookup-insert id banner_id s.config g.configs,
                      lookup-insert id banner_id (listed ++ s ∷ []) g.schedules,
                    )
                    (elim (Bool-cases (str_eq id banner_id)) [
                      | inl same ↦ rw same (
                          inr (
                            s,
                            refl,
                            keep-append_in effective listed s within
                                (none_kept (lookup id g.configs) listed free (h id)),
                          ))
                      | inr other ↦ rw other (h banner_id)
                    ])
        ]
        | inr out ↦ rw out λ banner_id.
            rw (lookup-insert id banner_id (listed ++ s ∷ []) g.schedules)
              (elim (Bool-cases (str_eq id banner_id)) [
                | inl same ↦
                    rw (same, keep-append_out effective listed s out)
                      (rw (← (eq_iff id banner_id).0 same) (h id))
                | inr other ↦ rw other (h banner_id)
              ])
      ]

  module _ (V : Values) where
    pub add_banner_rows-Timed :
        (gathered : Gathered V) (rows : List (BannerRow V)) (g : Gathering)
        → AreTimed g
        → Ensures AreTimed (add_banner_rows V gathered snapshot_time rows g)
    unfolding add_banner_rows
    add_banner_rows-Timed gathered [] g h = h
    add_banner_rows-Timed gathered (row ∷ rows) g h =
        Ensures-each AreTimed (config_from_row V gathered row) _ λ config.
          Ensures-each AreTimed (optional_release_timestamp V row.effective_from "effective_from") _
            λ from.
              Ensures-each AreTimed (optional_release_timestamp V row.effective_to "effective_to") _
                λ to.
                  Ensures-bind AreTimed AreTimed (add_schedule snapshot_time g _) _
                    (add_schedule-Timed g _ h)
                    λ next timed. add_banner_rows-Timed gathered rows next timed

  at_time :
      (snapshot : CatalogSnapshot) (banner_id : String) (schedules : List ScheduledBannerConfig)
      → Fits (lookup banner_id snapshot.banner_configs_by_id) schedules
      → scheduled_config_at snapshot banner_id snapshot_time (some schedules)
        ≡ ok (lookup banner_id snapshot.banner_configs_by_id)
  unfolding scheduled_config_at
  at_time snapshot banner_id [] fits = refl
  at_time snapshot banner_id (s ∷ schedules) (inl (e, kept)) = rw (kept, e) refl
  at_time snapshot banner_id (s ∷ schedules) (inr (t, e, kept)) = rw (kept, e) refl

  pub sorted-Fits :
      (found : Option BannerConfig) (schedules : List ScheduledBannerConfig)
      → Fits found schedules
      → Fits found (sorted_schedules schedules)
  sorted-Fits found schedules (inl (e, kept)) = inl (e, keep-sorted_none effective schedules kept)
  sorted-Fits found schedules (inr (s, e, kept)) =
      inr (s, e, keep-sorted_one effective schedules kept)

pub lookup-sorted_schedules :
    (banner_id : String) (d : Dict String (List ScheduledBannerConfig))
    → lookup banner_id (
        map
          (λ (entry : String × List ScheduledBannerConfig). (entry.0, sorted_schedules entry.1))
          d)
      ≡ (elim (lookup banner_id d) as (λ _. Option (List ScheduledBannerConfig)) [
        | none ↦ none
        | some ss ↦ some (sorted_schedules ss)
      ])
lookup-sorted_schedules banner_id [] = refl
lookup-sorted_schedules banner_id ((id, ss) ∷ d) =
    ground (arith, lookup-sorted_schedules banner_id d)

-- The configurations that are listed are those that `banner_config_at` finds at the snapshot's time.
abbrev pub ListsCurrent : CatalogSnapshot → Type 0
ListsCurrent snapshot =
    (banner_id : String)
    → banner_config_at snapshot banner_id snapshot.loaded_at
      ≡ ok (lookup banner_id snapshot.banner_configs_by_id)

snapshot_of-ListsCurrent :
    (items : List GachaItem) (g : Gathering) (snapshot_time : ℕ) (release_id : Option String)
    (release_number : Option ℕ) (snapshot_sha256 : Option String)
    → AreTimed snapshot_time g
    → ListsCurrent (snapshot_of items g snapshot_time release_id release_number snapshot_sha256)
unfolding snapshot_of banner_config_at
snapshot_of-ListsCurrent items g snapshot_time release_id release_number snapshot_sha256 timed
      banner_id =
    rw (lookup-sorted_schedules banner_id g.schedules)
      (elim (Option-cases (lookup banner_id g.schedules)) [
        | inl e ↦ rw e refl
        | inr (ss, e) ↦
            let fits : Fits snapshot_time (lookup banner_id g.configs) ss =
              subst (Fits snapshot_time (lookup banner_id g.configs)) (rw e refl)
                (timed banner_id) in
            rw e (
              at_time snapshot_time
                (snapshot_of items g snapshot_time release_id release_number snapshot_sha256)
                banner_id (sorted_schedules ss) (sorted-Fits snapshot_time _ ss fits))
      ])

module _ (V : Values) where
  pub build_snapshot-ListsCurrent :
      (rows : ReleaseRows V) (snapshot_time : ℕ) (release_id : Option String)
      (release_number : Option ℕ) (snapshot_sha256 : Option String)
      → Ensures ListsCurrent
          (build_snapshot V rows snapshot_time release_id release_number snapshot_sha256)
  unfolding build_snapshot
  build_snapshot-ListsCurrent rows snapshot_time release_id release_number snapshot_sha256 =
      Ensures-each ListsCurrent (gather V rows) _ λ gathered.
        Ensures-bind (AreTimed snapshot_time) ListsCurrent
          (add_banner_rows V gathered snapshot_time rows.banner_rows
            (record { banners = []; configs = []; schedules = [] }))
          _
          (add_banner_rows-Timed snapshot_time V gathered rows.banner_rows _ λ _. inl (refl, refl))
          λ g timed.
            snapshot_of-ListsCurrent gathered.items g snapshot_time release_id release_number
              snapshot_sha256 timed
