-- ===== src/Agent/Pods.antt =====
-- keck-agent/src/main.rs: the reports of the pods from what the kernel saw. `pod_of` says in which pod
-- the cgroup file of a process puts it, `rss_of` what its memory file says; a report's time is read
-- once, as `wall`.
pub mod Shares
use keck.Base.{
  ℕ, ◌+◌, String, string_eq, nat_eq, ◌==◌, Bool, true, false, Option, none, some, List, [], ◌∷◌,
  map, if◌then◌else◌, ltb, unwrap_or,
}
use keck.Base.Float.{Float64}
use keck.Base.Words.{add_u64, sum_u64}
use keck.Base.Maps.{Map, get, insert, contains_key, values}
use keck.Base.Groups.{group, run_steps}
use keck.Agent.Ebpf.{EbpfSnapshot}

pub data WorkloadCategory : Type 0 where
  platform operator application : WorkloadCategory

unfoldable pub as_str : WorkloadCategory → String
as_str platform = "platform"
as_str operator = "operator"
as_str application = "application"

pub record PodIdentity : Type 0 where
  pub name : String
  pub namespace : String
  pub workload_uid : String
  pub workload_name : String
  pub workload_kind : String
  pub workload_category : WorkloadCategory
  pub labels : Map String String

pub record PodPowerReport : Type 0 where
  pub node_name : String
  pub pod_uid : String
  pub pod_name : String
  pub namespace : String
  pub cpu_uw : ℕ
  pub memory_uw : ℕ
  pub gpu_uw : ℕ
  pub storage_uw : ℕ
  pub io_uw : ℕ
  pub total_uw : ℕ
  pub timestamp : ℕ
  pub workload_uid : String
  pub workload_name : String
  pub workload_kind : String
  pub workload_category : String
  pub labels : Map String String

unfoldable pub recalculate_total : PodPowerReport → PodPowerReport
recalculate_total p = record p {
  total_uw =
      add_u64 (add_u64 (add_u64 (add_u64 p.cpu_uw p.memory_uw) p.gpu_uw) p.storage_uw) p.io_uw;
}

-- CPU, PID and nanoseconds.
abbrev pub CpuTime : Type 0
CpuTime = ℕ × ℕ × ℕ

-- The body of the loop that finds the pods of the processes.
unfoldable pub find_pod : (ℕ → Option String) → CpuTime → Map ℕ String → Map ℕ String
find_pod pod_of x m =
    if contains_key x.1 m then m else elim (pod_of x.1) [ none ↦ m | some uid ↦ insert x.1 uid m ]

unfoldable pub pid_pod_uid : (ℕ → Option String) → List CpuTime → Map ℕ String
pid_pod_uid pod_of times = run_steps (find_pod pod_of) times []

-- `*entry(pod_uid).or_default() += time_ns` for each entry whose process is in a pod.
unfoldable pub pod_cpu_ns : Map ℕ String → List CpuTime → Map String ℕ
pod_cpu_ns pods times = group (λ x. get x.1 pods) (λ _. 0) (λ x n. add_u64 n x.2) times []

unfoldable pub pod_rss : (ℕ → Option ℕ) → Map ℕ String → Map String ℕ
pod_rss rss_of pods =
    group (λ x. some x.1) (λ _. 0) (λ x n. add_u64 n (unwrap_or (rss_of x.0) 0)) pods []

abbrev pub name_of : String → Option PodIdentity → String
name_of uid none = uid
name_of uid (some i) = i.name

abbrev pub namespace_of : Option PodIdentity → String
namespace_of none = "unknown"
namespace_of (some i) = i.namespace

-- `identity.map(g).unwrap_or(d)`
abbrev pub of_identity {ℓ} : {A : Type ℓ} → (PodIdentity → A) → A → Option PodIdentity → A
of_identity g d none = d
of_identity g d (some i) = g i

-- A report of CPU and memory power only.
abbrev pub report_of : String → ℕ → String → Option PodIdentity → ℕ → ℕ → PodPowerReport
report_of node_name wall uid identity cpu memory = record {
  node_name = node_name;
  pod_uid = uid;
  pod_name = name_of uid identity;
  namespace = namespace_of identity;
  cpu_uw = cpu;
  memory_uw = memory;
  gpu_uw = 0;
  storage_uw = 0;
  io_uw = 0;
  total_uw = add_u64 cpu memory;
  timestamp = wall;
  workload_uid = of_identity (λ i. i.workload_uid) "" identity;
  workload_name = of_identity (λ i. i.workload_name) "" identity;
  workload_kind = of_identity (λ i. i.workload_kind) "" identity;
  workload_category = of_identity (λ i. as_str i.workload_category) "application" identity;
  labels = of_identity (λ i. i.labels) [] identity;
}

module _ {ℓ} (F : Type ℓ) ⦃f : Float64 F⦄ where
  -- `part / whole` of the power, or nothing if the whole is 0.
  unfoldable pub share : ℕ → ℕ → ℕ → ℕ
  share power part whole =
      let ratio = if ltb 0 whole then f.div (f.of_u64 part) (f.of_u64 whole) else f.lit 0 0 in
      f.to_u64 (f.mul (f.of_u64 power) ratio)

  -- The reports are in the order of the table of pods; an empty table gives none.
  unfoldable pub enumerate_pods_ebpf :
      String
      → ℕ
      → (ℕ → Option String)
      → (ℕ → Option ℕ)
      → ℕ
      → ℕ
      → Map String PodIdentity
      → EbpfSnapshot
      → List PodPowerReport
  enumerate_pods_ebpf node_name wall pod_of rss_of total_cpu_uw total_mem_uw pod_cache snapshot =
      let pods = pid_pod_uid pod_of snapshot.pid_cpu_times in
      let cpu_ns = pod_cpu_ns pods snapshot.pid_cpu_times in
      let total_cpu_ns = sum_u64 (values cpu_ns) in
      let rss = pod_rss rss_of pods in
      let total_rss = sum_u64 (values rss) in
      map
        (λ (x : String × ℕ).
          report_of node_name wall x.0 (get x.0 pod_cache) (share total_cpu_uw x.1 total_cpu_ns)
            (share total_mem_uw (unwrap_or (get x.0 rss) 0) total_rss))
        cpu_ns
