-- ===== src/Tests/Fleet.antt =====
-- The fleet's theorems at concrete inputs.
use mathlib.Core.List.{flat_map, Perm}
use keck.Base.{
  ℕ, ◌*◌, ◌+◌, ◌-◌, ◌≡◌, refl, String, string_eq, ◌==◌, Option, none, some, List, [], ◌∷◌, map,
  true, false, find, arith, unwrap_or,
}
use keck.Base.Maps.{get, values}
use keck.Fleet.Registry.Types.{ClusterReport, ClusterRegistry, TeamPowerView}
use keck.Fleet.Registry.{new, ingest, set_namespace_owner, second, team_power, view_of}
use keck.Fleet.Registry.History.{Arrival, ingest_all, get-ingest_all-new}
use keck.Fleet.Registry.Teams.{find-team_power, items_of}
use keck.Fleet.Reporting.{
  Report, TeamPeriodSummary, daily_summary, generate_daily_report, cluster_day,
}
use keck.Fleet.Reporting.Rows.{generate_daily_report-rows, row_of}
use keck.Fleet.Policy.{
  Policy, PolicyViolation, Severity, warning, critical, team_power_budget, metering_quality,
  cluster_staleness, carbon_intensity_preference, evaluate,
}
use keck.Fleet.Policy.Excesses.{verdict}
use keck.Fleet.Policy.Evaluation.{evaluate_complete}
use keck.Tests.Fixed.{fixed}

abbrev cluster_report : String → ℕ → ℕ → ℕ → ClusterReport ℕ
cluster_report id watts intensity at = record {
  cluster_id = id;
  cluster_name = id;
  region = "eu";
  provider = "metal";
  power = record {
    total_watts = watts;
    cpu_watts = watts;
    memory_watts = 0;
    gpu_watts = 0;
    idle_watts = 0;
    platform_watts = none;
  };
  namespaces =
      record { namespace = "prod"; total_watts = watts; pod_count = 4 }
      ∷ record { namespace = "test"; total_watts = 0; pod_count = 1 }
      ∷ [];
  carbon = record {
    intensity_grams_per_kwh = intensity;
    emissions_grams_per_hour = watts * intensity;
    cost_per_kwh = 100;
    currency = "EUR";
  };
  node_count = 3;
  pod_count = 5;
  avg_error_ratio = 250;
  timestamp = at;
}

abbrev month : ℕ
month = 2592000 * second

abbrev arrival : ℕ → ℕ → ClusterReport ℕ → Arrival ℕ
arrival now utc r = record { now = now; utc = utc; report = r }

-- Two reports of one cluster a month apart, with one of another cluster in between.
abbrev arrivals : List (Arrival ℕ)
arrivals =
    arrival 10 month (cluster_report "c1" 1000 400000 (month - 5))
    ∷ arrival 20 (month + 9) (cluster_report "c2" 2000 50000 (month + 8))
    ∷ arrival (40 * second) (month + month) (cluster_report "c1" 3000 400000 (month + month))
    ∷ []

get-ingest_all-new_example :
    get "c1" (ingest_all arrivals new).clusters
    ≡ some (record {
      latest_report = cluster_report "c1" 3000 400000 (month + month);
      received_at = 40 * second;
      power_history = (month + month, 3000) ∷ [];
      carbon_history = (month + month, 1200000000) ∷ [];
    })
get-ingest_all-new_example =
    get-ingest_all-new arrivals "c1" (omega arith, (omega arith, (omega arith, tt)))

abbrev fleet : ClusterRegistry ℕ
fleet = set_namespace_owner "prod" "shop" (ingest_all arrivals new)

abbrev budgets : List (Policy ℕ)
budgets =
    record {
      name = "budget";
      kind = team_power_budget "shop" 4000;
      severity = critical;
      enabled = true;
    }
    ∷ record { name = "quality"; kind = metering_quality 200; severity = warning; enabled = false }
    ∷ record { name = "stale"; kind = cluster_staleness 30; severity = warning; enabled = true }
    ∷ record {
      name = "clean";
      kind = carbon_intensity_preference 200000;
      severity = warning;
      enabled = true;
    }
    ∷ []

abbrev elapsed : ℕ
elapsed = 41 * second

find-team_power_example :
    find (λ (v : TeamPowerView ℕ). v.team == "shop") (unwrap_or (team_power fleet) [])
    ≡ some (record {
      team = "shop";
      total_watts = 5000;
      carbon_grams_per_hour = 1300;
      cost_per_hour = 0;
      per_cluster =
          record { cluster_name = "c1"; namespace = "prod"; watts = 3000 }
          ∷ record { cluster_name = "c2"; namespace = "prod"; watts = 2000 }
          ∷ [];
    })
unfolding team_power keck.Fleet.Registry.sort_watts keck.Base.Groups.group flat_map
    set_namespace_owner ingest keck.Base.Maps.insert new keck.Fleet.Registry.with_report
    keck.Base.Maps.upsert get keck.Fleet.Registry.add_to_team keck.Fleet.Registry.no_team
find-team_power_example = find-team_power fleet "shop" (unwrap_or (team_power fleet) []) refl

evaluate_complete_example : Perm (map verdict (unwrap_or (evaluate elapsed 0 fleet budgets) [])) (
    ("budget", critical, 5000, 4000)
    ∷ ("stale", warning, 40000, 30000)
    ∷ ("clean", warning, 400000, 200000)
    ∷ [])
unfolding evaluate keck.Fleet.Policy.check_policy team_power keck.Fleet.Registry.sort_watts
    keck.Base.Groups.group flat_map set_namespace_owner ingest keck.Base.Maps.insert new
    keck.Fleet.Registry.with_report keck.Base.Maps.upsert get keck.Fleet.Registry.add_to_team
    keck.Fleet.Registry.no_team keck.Fleet.Registry.fleet_summary keck.Fleet.Registry.fleet_totals
    keck.Base.Sorting.sort_by keck.Fleet.Registry.active_clusters keck.Fleet.Registry.add_cluster
    keck.Fleet.Registry.add_u32 keck.Fleet.Registry.team_map keck.Fleet.Registry.view_of
evaluate_complete_example =
    evaluate_complete elapsed 0 fleet budgets (unwrap_or (evaluate elapsed 0 fleet budgets) []) refl

abbrev named_daily : ℕ → String
named_daily at = "daily"

abbrev daily : Report ℕ
daily = record {
  id = "daily";
  report_type = daily_summary;
  generated_at = month;
  period_start = 2505600 * second;
  period_end = month;
  report_data = record {
    fleet = record {
      energy_kwh = 120;
      carbon_kg = 31200000;
      cost = 0;
      cost_currency = "USD";
      avg_power_watts = 5000;
      peak_power_watts = 5000;
      avg_carbon_intensity = 260000000000;
    };
    clusters =
        record {
          cluster_name = "c1";
          region = "eu";
          energy_kwh = 72;
          carbon_kg = 28800000;
          cost = 0;
          avg_power_watts = 3000;
        }
        ∷ record {
          cluster_name = "c2";
          region = "eu";
          energy_kwh = 48;
          carbon_kg = 2400000;
          cost = 0;
          avg_power_watts = 2000;
        }
        ∷ [];
    teams =
        record { team = "shop"; energy_kwh = 120; carbon_kg = 31; cost = 0; namespace_count = 2 }
        ∷ record {
          team = "unassigned";
          energy_kwh = 0;
          carbon_kg = 0;
          cost = 0;
          namespace_count = 2;
        }
        ∷ [];
  };
}

generate_daily_report-rows_example :
    Perm daily.report_data.clusters
      (map cluster_day (map (view_of elapsed) (values fleet.clusters)))
    × (find (λ (t : TeamPeriodSummary ℕ). t.team == "shop") daily.report_data.teams
        ≡ row_of "shop" (items_of "shop" fleet))
unfolding generate_daily_report keck.Fleet.Registry.fleet_summary keck.Fleet.Registry.sort_watts
    keck.Fleet.Registry.fleet_totals set_namespace_owner ingest keck.Base.Maps.insert new
    keck.Fleet.Registry.add_cluster view_of keck.Fleet.Registry.with_report team_power
    keck.Base.Groups.group flat_map keck.Base.Maps.upsert get keck.Fleet.Registry.add_to_team
    keck.Base.Sorting.sort_by keck.Fleet.Registry.add_u32 keck.Fleet.Registry.no_team
    keck.Fleet.Registry.team_map
generate_daily_report-rows_example =
    generate_daily_report-rows named_daily elapsed month fleet "shop" daily refl
