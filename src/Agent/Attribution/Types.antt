-- ===== src/Agent/Attribution/Types.antt =====
-- keck-agent/src/attribution/types.rs. `F` is the type of the `f64` values; an `Instant` is a number
-- of nanoseconds, and an `i64` its bit pattern.
use keck.Base.{ℕ, String, Option, List}
use keck.Base.Words.{add_u64}

-- Per-component power in microwatts.
pub record PowerBreakdown : Type 0 where
  pub cpu_uw : ℕ
  pub memory_uw : ℕ
  pub gpu_uw : ℕ
  pub nic_uw : ℕ
  pub storage_uw : ℕ

-- `PowerBreakdown::default()`
abbrev pub no_power : PowerBreakdown
no_power = record { cpu_uw = 0; memory_uw = 0; gpu_uw = 0; nic_uw = 0; storage_uw = 0 }

unfoldable pub total_uw : PowerBreakdown → ℕ
total_uw p =
    add_u64 (add_u64 (add_u64 (add_u64 p.cpu_uw p.memory_uw) p.gpu_uw) p.nic_uw) p.storage_uw

pub record CoreAttribution : Type 0 where
  pub core : ℕ
  pub time_ns : ℕ
  pub avg_freq_khz : ℕ
  pub energy_uj : ℕ
  pub instructions : ℕ
  pub cycles : ℕ
  pub cache_misses : ℕ

pub data AttributionMethod : Type 0 where
  full_model frequency_weighted cpu_time_ratio : AttributionMethod

pub record ProcessPower : Type 0 where
  pub pid : ℕ
  pub comm : String
  pub cgroup_id : ℕ
  pub power : PowerBreakdown
  pub core_detail : List CoreAttribution
  pub attribution_method : AttributionMethod

pub record ContainerPower : Type 0 where
  pub container_id : String
  pub name : String
  pub cgroup_id : ℕ
  pub power : PowerBreakdown
  pub processes : List ProcessPower

pub record PodPower : Type 0 where
  pub pod_uid : String
  pub name : String
  pub namespace : String
  pub power : PowerBreakdown
  pub containers : List ContainerPower

pub record NamespacePower : Type 0 where
  pub namespace : String
  pub power : PowerBreakdown
  pub pod_count : ℕ

pub record NodePower : Type 0 where
  pub measured : PowerBreakdown
  pub platform_uw : Option ℕ
  pub attributed_total_uw : ℕ

pub record Reconciliation {ℓ} (F : Type ℓ) : Type ℓ where
  pub platform_uw : Option ℕ
  pub component_sum_uw : ℕ
  pub attributed_sum_uw : ℕ
  pub unaccounted_uw : ℕ
  pub error_ratio : F

pub record AttributionSnapshot {ℓ} (F : Type ℓ) : Type ℓ where
  pub timestamp : ℕ
  pub interval_ns : ℕ
  pub node : NodePower
  pub processes : List ProcessPower
  pub pods : List PodPower
  pub namespaces : List NamespacePower
  pub idle_power : PowerBreakdown
  pub reconciliation : Reconciliation F
