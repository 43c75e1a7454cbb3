-- ===== src/Fleet/Reporting/Rows.antt =====
-- keck-fleet/src/reporting/mod.rs: the rows of a daily report.
use keck.Base.{
  ℕ, ◌≡◌, refl, sym, ap, ◌∙◌, String, string_eq, ◌==◌, Bool, Option, none, some, List, [], ◌∷◌, map,
  find, unwrap_or, length, length-map, arith, Bool-cases, inl, inr,
}
use mathlib.Core.List.{Perm}
use mathlib.Core.List.Perm
use mathlib.Core.Path.{subst}
use keck.Base.Sorting.{sort_by-perm}
use keck.Base.Maps.{values}
use keck.Base.Float.{Float64, sum_f64}
use keck.Fleet.Registry.Types.{
  ClusterReport, NamespaceSummary, ClusterRegistry, FleetSummary, TeamPowerView,
}
use keck.Fleet.Registry.{fleet_summary, team_power, view_of, breakdown}
use keck.Fleet.Registry.Teams.{find-team_power, team_of, items_of, view_from}
use keck.Fleet.Registry.Views.{fleet_summary-clusters}
use keck.Fleet.Reporting.{
  Report, TeamPeriodSummary, generate_daily_report, made_of, team_day, cluster_day,
}

module _ {ℓ κ} {A : Type ℓ} {B : Type κ} (g : A → B) where
  -- `Option::map`
  abbrev map_some : Option A → Option B
  map_some none = none
  map_some (some x) = some (g x)

  find-map : (p : B → Bool) (xs : List A) → find p (map g xs) ≡ map_some (find (λ x. p (g x)) xs)
  find-map p [] = refl
  find-map p (x ∷ xs) = elim (Bool-cases (p (g x))) [
    | inl hit ↦ rw hit refl
    | inr miss ↦ rw miss (find-map p xs)
  ]

module _ {ℓ} {F : Type ℓ} ⦃f : Float64 F⦄ where
  -- The row of a team that owns these namespaces.
  abbrev pub row_of :
      String → List (ClusterReport F × NamespaceSummary F) → Option (TeamPeriodSummary F)
  row_of team [] = none
  row_of team (x ∷ xs) =
      let watts = λ (y : ClusterReport F × NamespaceSummary F). y.1.total_watts in
      let rated = λ (rate : ClusterReport F → F).
        f.mul (sum_f64 (map (λ y. f.mul (f.div (watts y) (f.lit 1000 0)) (rate y.0)) (x ∷ xs)))
          (f.lit 24 0) in
      some (record {
        team = team;
        energy_kwh = f.mul (f.div (sum_f64 (map watts (x ∷ xs))) (f.lit 1000 0)) (f.lit 24 0);
        carbon_kg = f.div (rated (λ r. r.carbon.intensity_grams_per_kwh)) (f.lit 1000 0);
        cost = rated (λ r. r.carbon.cost_per_kwh);
        namespace_count = length (x ∷ xs);
      })

  map_some-team_of :
      (team : String) (xs : List (ClusterReport F × NamespaceSummary F))
      → map_some team_day (team_of team xs) ≡ row_of team xs
  map_some-team_of team [] = refl
  map_some-team_of team (x ∷ xs) =
      let row = team_day (view_from team (x ∷ xs)) in
      ap (λ n. some (record row { namespace_count = n })) (length-map (x ∷ xs) breakdown)

  -- A report is made of the registry's two views.
  WasMade : (ℕ → String) → ℕ → ℕ → ClusterRegistry F → Report F → Type ℓ
  WasMade format now utc reg r =
      (fleet : FleetSummary F) × (teams : List (TeamPowerView F)) × (fleet_summary now reg
        ≡ some fleet)
      × (team_power reg ≡ some teams)
      × (made_of format utc fleet teams ≡ r)

  generate_daily_report-some :
      (format : ℕ → String) (now utc : ℕ) (reg : ClusterRegistry F) (r : Report F)
      → generate_daily_report format now utc reg ≡ some r
      → WasMade format now utc reg r
  unfolding generate_daily_report WasMade
  generate_daily_report-some format now utc reg r h =
      parts (fleet_summary now reg) (team_power reg) refl refl
    where
      parts :
          (o : Option (FleetSummary F)) (p : Option (List (TeamPowerView F)))
          → fleet_summary now reg ≡ o
          → team_power reg ≡ p
          → WasMade format now utc reg r
      parts none p e d = ground (arith, rw (e, generate_daily_report) at h)
      parts (some fleet) none e d = ground (arith, rw (e, d, generate_daily_report) at h)
      parts (some fleet) (some teams) e d =
          (fleet, teams, e, d, ap (λ o. unwrap_or o r) (rw (e, d, generate_daily_report) at h))

  -- If no comparison meets a NaN, the clusters' rows of a daily report are, in some order, those of all
  -- clusters the registry holds, and it has a row for a team exactly if the team owns a namespace of a
  -- cluster's latest report: the energy, emissions and cost of a day at the sums over just its namespaces.
  pub generate_daily_report-rows :
      (format : ℕ → String) (now utc : ℕ) (reg : ClusterRegistry F) (team : String) (r : Report F)
      → generate_daily_report format now utc reg ≡ some r
      → Perm r.report_data.clusters (map cluster_day (map (view_of now) (values reg.clusters)))
        × (find (λ t. t.team == team) r.report_data.teams ≡ row_of team (items_of team reg))
  unfolding WasMade
  generate_daily_report-rows format now utc reg team r h =
      let (fleet, teams, e, d, same) = generate_daily_report-some format now utc reg r h in
      let views = map (view_of now) (values reg.clusters) in
      let sorted = fleet_summary-clusters now reg fleet e in
      let named = λ (t : TeamPeriodSummary F). t.team == team in
      (
        subst (λ cs. Perm cs (map cluster_day views))
            (ap (map cluster_day) sorted ∙ ap (λ u. u.report_data.clusters) same)
            (Perm.map cluster_day (sort_by-perm _ views)),
        ap (λ u. find named u.report_data.teams) (sym same)
            ∙ find-map team_day named teams
            ∙ ap (map_some team_day) (find-team_power reg team teams d)
            ∙ map_some-team_of team (items_of team reg),
      )
