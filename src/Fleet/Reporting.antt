-- ===== src/Fleet/Reporting.antt =====
-- keck-fleet/src/reporting/mod.rs. `now` is the clock of `Instant`, `utc` that of `Utc::now`, as in the
-- registry; the report's name is made of `utc` by `format`. `none` is the panic of the registry's views.
-- The field `data`, a reserved word, is `report_data`.
pub mod Rows
use keck.Base.{ℕ, ◌-◌, ◌*◌, String, Option, none, some, List, map, if◌then◌else◌, length}
use keck.Base.Float.{Float64}
use keck.Fleet.Registry.Types.{ClusterRegistry, ClusterView, FleetSummary, TeamPowerView}
use keck.Fleet.Registry.{second, fleet_summary, team_power}

pub data ReportType : Type 0 where
  daily_summary : ReportType
  monthly_esg : ReportType
  on_demand_audit : ReportType

pub record FleetPeriodSummary {ℓ} (F : Type ℓ) : Type ℓ where
  pub energy_kwh : F
  pub carbon_kg : F
  pub cost : F
  pub cost_currency : String
  pub avg_power_watts : F
  pub peak_power_watts : F
  pub avg_carbon_intensity : F

pub record ClusterPeriodSummary {ℓ} (F : Type ℓ) : Type ℓ where
  pub cluster_name : String
  pub region : String
  pub energy_kwh : F
  pub carbon_kg : F
  pub cost : F
  pub avg_power_watts : F

pub record TeamPeriodSummary {ℓ} (F : Type ℓ) : Type ℓ where
  pub team : String
  pub energy_kwh : F
  pub carbon_kg : F
  pub cost : F
  pub namespace_count : ℕ

pub record ReportData {ℓ} (F : Type ℓ) : Type ℓ where
  pub fleet : FleetPeriodSummary F
  pub clusters : List (ClusterPeriodSummary F)
  pub teams : List (TeamPeriodSummary F)

pub record Report {ℓ} (F : Type ℓ) : Type ℓ where
  pub id : String
  pub report_type : ReportType
  pub generated_at : ℕ
  pub period_start : ℕ
  pub period_end : ℕ
  pub report_data : ReportData F

module _ {ℓ} {F : Type ℓ} ⦃f : Float64 F⦄ where
  abbrev pub hours : F
  hours = f.lit 24 0

  -- The energy of a day, in kWh.
  abbrev pub day_energy : F → F
  day_energy watts = f.mul (f.div watts (f.lit 1000 0)) hours

  -- The emissions of a day, in kg.
  abbrev pub day_carbon : F → F
  day_carbon grams_per_hour = f.div (f.mul grams_per_hour hours) (f.lit 1000 0)

  abbrev pub cluster_day : ClusterView F → ClusterPeriodSummary F
  cluster_day c = record {
    cluster_name = c.cluster_name;
    region = c.region;
    energy_kwh = day_energy c.total_watts;
    carbon_kg = day_carbon c.carbon_grams_per_hour;
    cost = f.mul c.cost_per_hour hours;
    avg_power_watts = c.total_watts;
  }

  abbrev pub team_day : TeamPowerView F → TeamPeriodSummary F
  team_day t = record {
    team = t.team;
    energy_kwh = day_energy t.total_watts;
    carbon_kg = day_carbon t.carbon_grams_per_hour;
    cost = f.mul t.cost_per_hour hours;
    namespace_count = length t.per_cluster;
  }

  abbrev pub avg_intensity : F → F → F
  avg_intensity energy carbon =
      if f.lt (f.lit 0 0) energy then f.div (f.mul carbon (f.lit 1000 0)) energy else f.lit 0 0

  abbrev pub fleet_day : FleetSummary F → FleetPeriodSummary F
  fleet_day t =
      let energy = day_energy t.total_watts in
      let carbon = day_carbon t.total_carbon_grams_per_hour in
      record {
        energy_kwh = energy;
        carbon_kg = carbon;
        cost = f.mul t.total_cost_per_hour hours;
        cost_currency = t.total_cost_currency;
        avg_power_watts = t.total_watts;
        peak_power_watts = t.total_watts;
        avg_carbon_intensity = avg_intensity energy carbon;
      }

  abbrev pub made_of : (ℕ → String) → ℕ → FleetSummary F → List (TeamPowerView F) → Report F
  made_of format utc fleet teams = record {
    id = format utc;
    report_type = daily_summary;
    generated_at = utc;
    period_start = utc - 86400 * second;
    period_end = utc;
    report_data = record {
      fleet = fleet_day fleet;
      clusters = map cluster_day fleet.clusters;
      teams = map team_day teams;
    };
  }

  unfoldable pub generate_daily_report :
      (ℕ → String) → ℕ → ℕ → ClusterRegistry F → Option (Report F)
  generate_daily_report format now utc reg = elim (fleet_summary now reg) [
    | none ↦ none
    | some fleet ↦ elim (team_power reg) [
      | none ↦ none
      | some teams ↦ some (made_of format utc fleet teams)
    ]
  ]
