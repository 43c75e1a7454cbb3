-- ===== src/Agent/Processes/Reports.antt =====
-- keck-agent/src/main.rs: the sums over the processes of each pod, and the reports made of them.
use keck.Base.{
  ℕ, ◌%◌, String, string_eq, nat_eq, Option, none, some, List, [], map, if◌then◌else◌, ltb, eqb,
}
use keck.Base.Float.{Float64}
use keck.Base.Words.{add_u64}
use keck.Base.Maps.{Map, get}
use keck.Base.Groups.{group, run_steps}
use keck.Agent.Procfs.{ProcFs}
use keck.Agent.Pods.{PodIdentity, PodPowerReport, name_of, namespace_of, of_identity, as_str}
use keck.Agent.Processes.{Caches, ProcessMetrics, ScanState, faults_of, scan_all}

pub record PodMetrics : Type 0 where
  pub cpu_ticks : ℕ
  pub pss_kb : ℕ
  pub pgfaults : ℕ
  pub io_bytes : ℕ
  pub net_bytes : ℕ

abbrev pub no_metrics : PodMetrics
no_metrics = record { cpu_ticks = 0; pss_kb = 0; pgfaults = 0; io_bytes = 0; net_bytes = 0 }

unfoldable pub add_metrics : ProcessMetrics → PodMetrics → PodMetrics
add_metrics pm e = record {
  cpu_ticks = add_u64 e.cpu_ticks pm.cpu_ticks;
  pss_kb = add_u64 e.pss_kb pm.rss_pages;
  pgfaults = add_u64 e.pgfaults (faults_of pm.minflt_delta pm.majflt_delta);
  io_bytes = add_u64 e.io_bytes pm.io_bytes_delta;
  net_bytes = add_u64 e.net_bytes pm.net_bytes;
}

unfoldable pub pod_metrics : List ProcessMetrics → Map String PodMetrics
pod_metrics pms = group (λ pm. some pm.pod_uid) (λ pm. no_metrics) add_metrics pms []

abbrev pub all_net_bytes : List ProcessMetrics → ℕ
all_net_bytes pms = run_steps (λ (pm : ProcessMetrics) n. add_u64 n pm.net_bytes) pms 0

-- The powers that are shared out, and the LLC misses.
pub record Powers : Type 0 where
  pub total_cpu_uw : ℕ
  pub total_mem_uw : ℕ
  pub total_storage_uw : ℕ
  pub total_io_uw : ℕ
  pub total_llc_misses : ℕ

-- The sums over all processes, and over those of pods for the network.
pub record Sums : Type 0 where
  pub cpu_ticks : ℕ
  pub pss : ℕ
  pub io_bytes : ℕ
  pub net_bytes : ℕ

abbrev pub sums_of : ScanState → Sums
sums_of s = record {
  cpu_ticks = s.total_all_cpu_ticks;
  pss = s.total_all_pss;
  io_bytes = s.total_all_io_bytes;
  net_bytes = all_net_bytes s.process_metrics;
}

module _ {ℓ} (F : Type ℓ) ⦃f : Float64 F⦄ where
  -- A quotient of two counts, or another value if the second is 0.
  abbrev pub ratio : ℕ → ℕ → F → F
  ratio part whole d = if ltb 0 whole then f.div (f.of_u64 part) (f.of_u64 whole) else d

  abbrev pub portion : ℕ → F → ℕ
  portion power r = f.to_u64 (f.mul (f.of_u64 power) r)

  abbrev pub cpu_ratio : Sums → PodMetrics → F
  cpu_ratio sums m = ratio m.cpu_ticks sums.cpu_ticks (f.lit 0 0)

  -- 60 % by memory and 40 % by CPU time if LLC misses were counted, and else by memory.
  abbrev pub mem_ratio : Powers → Sums → PodMetrics → F
  mem_ratio p sums m =
      let has_llc = ltb 0 p.total_llc_misses in
      let pss_weight = if has_llc then f.lit 6 1 else f.lit 1 0 in
      let llc_weight = if has_llc then f.lit 4 1 else f.lit 0 0 in
      f.add (f.mul pss_weight (ratio m.pss_kb sums.pss (f.lit 0 0)))
        (f.mul llc_weight (cpu_ratio sums m))

  unfoldable pub pod_report :
      String → ℕ → Powers → Sums → String → Option PodIdentity → PodMetrics → PodPowerReport
  pod_report node_name wall p sums uid identity m =
      let cpu = portion p.total_cpu_uw (cpu_ratio sums m) in
      let memory = portion p.total_mem_uw (mem_ratio p sums m) in
      let storage = portion p.total_storage_uw (ratio m.io_bytes sums.io_bytes (f.lit 0 0)) in
      let io = portion p.total_io_uw (ratio m.net_bytes sums.net_bytes (cpu_ratio sums m)) in
      record {
        node_name = node_name;
        pod_uid = uid;
        pod_name = name_of uid identity;
        namespace = namespace_of identity;
        cpu_uw = cpu;
        memory_uw = memory;
        gpu_uw = 0;
        storage_uw = storage;
        io_uw = io;
        total_uw = add_u64 (add_u64 (add_u64 cpu memory) storage) io;
        timestamp = wall;
        workload_uid = of_identity (λ i. i.workload_uid) "" identity;
        workload_name = of_identity (λ i. i.workload_name) "" identity;
        workload_kind = of_identity (λ i. i.workload_kind) "" identity;
        workload_category = of_identity (λ i. as_str i.workload_category) "application" identity;
        labels = of_identity (λ i. i.labels) [] identity;
      }

  -- The reports and what is kept for the next scan. With no process in a pod there are none.
  unfoldable pub enumerate_pods :
      String
      → ℕ
      → Powers
      → Map String PodIdentity
      → ProcFs
      → Map ℕ (ℕ × ℕ)
      → ℕ
      → Caches
      → List PodPowerReport × Caches
  enumerate_pods node_name wall p cache fs net tick_count c = elim fs.entries [
    | none ↦ ([], c)
    | some names ↦
        let s = scan_all (eqb (tick_count % 5) 0) fs net names c in
        (
          map
              (λ (x : String × PodMetrics).
                pod_report node_name wall p (sums_of s) x.0 (get x.0 cache) x.1)
              (pod_metrics s.process_metrics),
          s.caches,
        )
  ]
