-- ===== src/Controller/Aggregator/Views.antt =====
-- keck-controller/src/aggregator/mod.rs: what reads the state. A view may ask for one metering
-- method; `none` stands for Keck's own. The order of a map's entries is the table's.
pub mod Sums
pub mod Sources
use keck.Base.{
  ℕ, ◌+◌, ◌-◌, ◌/◌, ◌≡◌, String, string_eq, pair_eq, ◌==◌, Bool, true, false, ◌&&◌, Option, none,
  some, List, [], ◌∷◌, map, if◌then◌else◌, ltb, leb, unwrap_or, filter, find, length,
}
use mathlib.Core.List.{flat_map}
use keck.Base.Float.{Float64}
use keck.Base.Words.{add_u64}
use keck.Base.Maps.{Map, get, values}
use keck.Base.Groups.{group, run_steps}
use keck.Base.Sorting.{sort_desc}
use keck.Controller.Aggregator.Types.{
  PodPowerReport, NodePowerReport, PodState, NodeState, Slot, SourceStatus, ClusterAggregator,
  method_or_keck, second,
}

abbrev pub matches_method : String → Option String → Bool
matches_method report_method wanted = method_or_keck report_method == unwrap_or wanted "keck"

pub record NamespacePower : Type 0 where
  pub namespace : String
  pub cpu_uw : ℕ
  pub memory_uw : ℕ
  pub gpu_uw : ℕ
  pub storage_uw : ℕ
  pub io_uw : ℕ
  pub total_uw : ℕ
  pub pod_count : ℕ

pub record ClusterPower {ℓ} (F : Type ℓ) : Type ℓ where
  pub cpu_uw : ℕ
  pub memory_uw : ℕ
  pub gpu_uw : ℕ
  pub platform_uw : ℕ
  pub psu_output_uw : ℕ
  pub psu_loss_uw : ℕ
  pub idle_uw : ℕ
  pub total_attributed_uw : ℕ
  pub node_count : ℕ
  pub pod_count : ℕ
  pub avg_error_ratio : F

pub record NodeSummary {ℓ} (F : Type ℓ) : Type ℓ where
  pub node_name : String
  pub cpu_uw : ℕ
  pub memory_uw : ℕ
  pub gpu_uw : ℕ
  pub platform_uw : Option ℕ
  pub psu_output_uw : Option ℕ
  pub idle_uw : ℕ
  pub error_ratio : F
  pub pod_count : ℕ
  pub headroom_uw : Option ℕ
  pub cpu_source : String
  pub cpu_reading_type : String
  pub metering_method : String
  pub last_seen : ℕ
  pub last_seen_secs_ago : ℕ

-- The variables of the loop of `cluster_power`.
pub record Totals {ℓ} (F : Type ℓ) : Type ℓ where
  pub cpu : ℕ
  pub memory : ℕ
  pub gpu : ℕ
  pub platform : ℕ
  pub psu_output : ℕ
  pub idle : ℕ
  pub error_sum : F
  pub node_count : ℕ

abbrev pub pod_matches : Option String → PodState → Bool
pod_matches method s = matches_method s.report.metering_method method

-- The body of the loop of `namespace_power`.
unfoldable pub no_namespace : PodState → NamespacePower
no_namespace s = record {
  namespace = s.report.namespace;
  cpu_uw = 0;
  memory_uw = 0;
  gpu_uw = 0;
  storage_uw = 0;
  io_uw = 0;
  total_uw = 0;
  pod_count = 0;
}

unfoldable pub add_to_namespace : PodState → NamespacePower → NamespacePower
add_to_namespace s e = record e {
  cpu_uw = add_u64 e.cpu_uw s.report.cpu_uw;
  memory_uw = add_u64 e.memory_uw s.report.memory_uw;
  gpu_uw = add_u64 e.gpu_uw s.report.gpu_uw;
  storage_uw = add_u64 e.storage_uw s.report.storage_uw;
  io_uw = add_u64 e.io_uw s.report.io_uw;
  total_uw = add_u64 e.total_uw s.report.total_uw;
  pod_count = add_u64 e.pod_count 1;
}

abbrev pub namespace_key : Option String → PodState → Option String
namespace_key method s = if pod_matches method s then some s.report.namespace else none

module _ {ℓ} {F : Type ℓ} where
  abbrev pub node_matches : Option String → NodeState F → Bool
  node_matches method s = matches_method s.report.metering_method method

  -- The map that the loop of `namespace_power` fills.
  unfoldable pub namespace_map : Option String → ClusterAggregator F → Map String NamespacePower
  namespace_map method a =
      group (namespace_key method) no_namespace add_to_namespace (values a.pods) []

  unfoldable pub namespace_power : Option String → ClusterAggregator F → List NamespacePower
  unfolding namespace_map
  namespace_power method a = sort_desc (λ n. n.total_uw) (values (namespace_map method a))

  unfoldable pub pods_in_namespace :
      String → Option String → ClusterAggregator F → List PodPowerReport
  pods_in_namespace ns method a =
      map (λ s. s.report)
        (filter (λ s. (s.report.namespace == ns) && pod_matches method s) (values a.pods))

  unfoldable pub pod_power : String → ClusterAggregator F → Option PodPowerReport
  pod_power uid a = elim (find (λ (e : Slot × PodState). e.0.0 == uid) a.pods) [
    | none ↦ none
    | some e ↦ some e.1.report
  ]

  unfoldable pub namespace_history : String → ℕ → ClusterAggregator F → List (ℕ × ℕ)
  namespace_history ns since a = elim (get ns a.history) [
    | none ↦ []
    | some h ↦ filter (λ e. leb since e.0) h
  ]

  unfoldable pub all_pods_filtered : Option String → ClusterAggregator F → List PodPowerReport
  all_pods_filtered method a = map (λ s. s.report) (filter (pod_matches method) (values a.pods))

  unfoldable pub all_sources : ClusterAggregator F → List SourceStatus
  all_sources a =
      flat_map (λ s. s.report.sources) (filter (node_matches (some "keck")) (values a.nodes))

  -- `summarize` is the closure of `node_summaries`; `now` is the clock of `elapsed`.
  unfoldable pub summarize : ℕ → NodeState F → NodeSummary F
  summarize now s =
      let used = add_u64 (add_u64 s.report.cpu_uw s.report.memory_uw) s.report.gpu_uw in
      record {
        node_name = s.report.node_name;
        cpu_uw = s.report.cpu_uw;
        memory_uw = s.report.memory_uw;
        gpu_uw = s.report.gpu_uw;
        platform_uw = s.report.platform_uw;
        psu_output_uw = s.report.psu_output_uw;
        idle_uw = s.report.idle_uw;
        error_ratio = s.report.error_ratio;
        pod_count = s.report.pod_count;
        headroom_uw = elim s.report.platform_uw [ none ↦ none | some p ↦ some (p - used) ];
        cpu_source = s.report.cpu_source;
        cpu_reading_type = s.report.cpu_reading_type;
        metering_method = s.report.metering_method;
        last_seen = s.received_at;
        last_seen_secs_ago = (now - s.received_at) / second;
      }

  unfoldable pub node_summaries : ℕ → Option String → ClusterAggregator F → List (NodeSummary F)
  unfolding summarize
  node_summaries now method a = map (summarize now) (filter (node_matches method) (values a.nodes))

  unfoldable pub node_summary : ℕ → String → ClusterAggregator F → Option (NodeSummary F)
  unfolding node_summaries
  node_summary now name a = find (λ n. n.node_name == name) (node_summaries now none a)

module _ {ℓ} {F : Type ℓ} ⦃f : Float64 F⦄ where
  unfoldable pub add_node : NodeState F → Totals F → Totals F
  add_node s t = record {
    cpu = add_u64 t.cpu s.report.cpu_uw;
    memory = add_u64 t.memory s.report.memory_uw;
    gpu = add_u64 t.gpu s.report.gpu_uw;
    platform = add_u64 t.platform (unwrap_or s.report.platform_uw 0);
    psu_output = add_u64 t.psu_output (unwrap_or s.report.psu_output_uw 0);
    idle = add_u64 t.idle s.report.idle_uw;
    error_sum = f.add t.error_sum s.report.error_ratio;
    node_count = add_u64 t.node_count 1;
  }

  unfoldable pub node_totals : Option String → ClusterAggregator F → Totals F
  node_totals method a =
      run_steps (λ s t. if node_matches method s then add_node s t else t) (values a.nodes)
        (record {
          cpu = 0;
          memory = 0;
          gpu = 0;
          platform = 0;
          psu_output = 0;
          idle = 0;
          error_sum = f.lit 0 0;
          node_count = 0;
        })

  unfoldable pub cluster_power : Option String → ClusterAggregator F → ClusterPower F
  cluster_power method a =
      let t = node_totals method a in
      record {
        cpu_uw = t.cpu;
        memory_uw = t.memory;
        gpu_uw = t.gpu;
        platform_uw = t.platform;
        psu_output_uw = t.psu_output;
        psu_loss_uw = t.platform - t.psu_output;
        idle_uw = t.idle;
        total_attributed_uw = add_u64 (add_u64 t.cpu t.memory) t.gpu;
        node_count = t.node_count;
        pod_count = length (filter (pod_matches method) (values a.pods));
        avg_error_ratio =
            if ltb 0 t.node_count then f.div t.error_sum (f.of_u64 t.node_count) else f.lit 0 0;
      }
