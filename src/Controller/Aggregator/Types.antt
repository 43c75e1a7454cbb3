-- ===== src/Controller/Aggregator/Types.antt =====
-- keck-controller/src/aggregator/mod.rs: the reports and the cluster-wide state. An `Instant` or a
-- `SystemTime` is a number of nanoseconds; the clocks that an operation reads are its arguments.
use keck.Base.{ℕ, ◌^◌, String, string_eq, pair_eq, ◌==◌, Bool, Option, List, if◌then◌else◌}
use keck.Base.Maps.{Map}

pub record PodPowerReport : Type 0 where
  pub node_name : String
  pub pod_uid : String
  pub pod_name : String
  pub namespace : String
  pub cpu_uw : ℕ
  pub memory_uw : ℕ
  pub gpu_uw : ℕ
  pub storage_uw : ℕ
  pub io_uw : ℕ
  pub total_uw : ℕ
  pub timestamp : ℕ
  pub workload_uid : String
  pub workload_name : String
  pub workload_kind : String
  pub workload_category : String
  pub labels : Map String String
  pub metering_method : String

pub record SourceStatus : Type 0 where
  pub name : String
  pub node_name : String
  pub component : String
  pub reading_type : String
  pub available : Bool
  pub selected : Bool
  pub power_uw : ℕ

pub record NodePowerReport {ℓ} (F : Type ℓ) : Type ℓ where
  pub node_name : String
  pub cpu_uw : ℕ
  pub memory_uw : ℕ
  pub gpu_uw : ℕ
  pub platform_uw : Option ℕ
  pub psu_output_uw : Option ℕ
  pub idle_uw : ℕ
  pub error_ratio : F
  pub pod_count : ℕ
  pub process_count : ℕ
  pub timestamp : ℕ
  pub cpu_source : String
  pub memory_source : String
  pub cpu_reading_type : String
  pub sources : List SourceStatus
  pub metering_method : String

pub record AgentReport {ℓ} (F : Type ℓ) : Type ℓ where
  pub node : NodePowerReport F
  pub pods : List PodPowerReport

pub record PodState : Type 0 where
  pub report : PodPowerReport
  pub received_at : ℕ

pub record NodeState {ℓ} (F : Type ℓ) : Type ℓ where
  pub report : NodePowerReport F
  pub received_at : ℕ

-- A pod's uid, or a node's name, with the metering method.
abbrev pub Slot : Type 0
Slot = String × String

pub record ClusterAggregator {ℓ} (F : Type ℓ) : Type ℓ where
  pub pods : Map Slot PodState
  pub nodes : Map Slot (NodeState F)
  pub staleness_threshold : ℕ
  pub history : Map String (List (ℕ × ℕ))
  pub history_retention : ℕ

abbrev pub second : ℕ
second = 10 ^ 9

abbrev pub method_or_keck : String → String
method_or_keck m = if m == "" then "keck" else m
