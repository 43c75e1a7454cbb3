-- ===== src/Fleet/Registry/Types.antt =====
-- keck-fleet/src/registry/mod.rs: the reports, the state and the views.
use keck.Base.{ℕ, String, Option, List}
use keck.Base.Maps.{Map}

pub record ClusterPowerSummary {ℓ} (F : Type ℓ) : Type ℓ where
  pub total_watts : F
  pub cpu_watts : F
  pub memory_watts : F
  pub gpu_watts : F
  pub idle_watts : F
  pub platform_watts : Option F

pub record NamespaceSummary {ℓ} (F : Type ℓ) : Type ℓ where
  pub namespace : String
  pub total_watts : F
  pub pod_count : ℕ

pub record CarbonData {ℓ} (F : Type ℓ) : Type ℓ where
  pub intensity_grams_per_kwh : F
  pub emissions_grams_per_hour : F
  pub cost_per_kwh : F
  pub currency : String

pub record ClusterReport {ℓ} (F : Type ℓ) : Type ℓ where
  pub cluster_id : String
  pub cluster_name : String
  pub region : String
  pub provider : String
  pub power : ClusterPowerSummary F
  pub namespaces : List (NamespaceSummary F)
  pub carbon : CarbonData F
  pub node_count : ℕ
  pub pod_count : ℕ
  pub avg_error_ratio : F
  pub timestamp : ℕ

pub record ClusterState {ℓ} (F : Type ℓ) : Type ℓ where
  pub latest_report : ClusterReport F
  pub received_at : ℕ
  pub power_history : List (ℕ × F)
  pub carbon_history : List (ℕ × F)

pub record ClusterView {ℓ} (F : Type ℓ) : Type ℓ where
  pub cluster_id : String
  pub cluster_name : String
  pub region : String
  pub total_watts : F
  pub carbon_grams_per_hour : F
  pub carbon_intensity : F
  pub cost_per_hour : F
  pub node_count : ℕ
  pub pod_count : ℕ
  pub error_ratio : F
  pub last_seen_secs_ago : ℕ

pub record FleetSummary {ℓ} (F : Type ℓ) : Type ℓ where
  pub total_watts : F
  pub total_cpu_watts : F
  pub total_memory_watts : F
  pub total_gpu_watts : F
  pub total_idle_watts : F
  pub total_carbon_grams_per_hour : F
  pub total_cost_per_hour : F
  pub total_cost_currency : String
  pub cluster_count : ℕ
  pub total_nodes : ℕ
  pub total_pods : ℕ
  pub clusters : List (ClusterView F)

pub record TeamClusterBreakdown {ℓ} (F : Type ℓ) : Type ℓ where
  pub cluster_name : String
  pub namespace : String
  pub watts : F

pub record TeamPowerView {ℓ} (F : Type ℓ) : Type ℓ where
  pub team : String
  pub total_watts : F
  pub carbon_grams_per_hour : F
  pub cost_per_hour : F
  pub per_cluster : List (TeamClusterBreakdown F)

pub record ClusterRegistry {ℓ} (F : Type ℓ) : Type ℓ where
  pub clusters : Map String (ClusterState F)
  pub staleness_threshold : ℕ
  pub history_retention : ℕ
  pub namespace_owners : Map String String
