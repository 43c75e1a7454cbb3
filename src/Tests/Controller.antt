-- ===== src/Tests/Controller.antt =====
-- The controller's theorems at concrete inputs.
use keck.Base.{
  ℕ, ◌+◌, ◌-◌, ◌*◌, ◌/◌, ◌^◌, ◌≤◌, ◌<◌, ◌≡◌, refl, Bool, true, false, not, Option, none, some, List,
  [], ◌∷◌, ◌++◌, map, filter, String, string_eq, pair_eq, ◌==◌, arith, unwrap_or, if◌then◌else◌,
  keep_if, contains, All, length, is_some, ltb, eqb, ◌||◌,
}
use keck.Base.Words.{sum_u64, add_u64}
use keck.Base.Sorting.{IsDescending}
use keck.Base.Maps.{get, IsMap, values}
use keck.Controller.Classification.{ClassificationData}
use keck.Controller.Aggregator.Types.{
  PodPowerReport, NodePowerReport, AgentReport, PodState, ClusterAggregator, second,
}
use keck.Controller.Aggregator.Ingest.{new, ingest, evict_removed_nodes}
use keck.Controller.Aggregator.Ingest.Lookup.{get-ingest, get-ingest_node}
use keck.Controller.Aggregator.Ingest.Invariant.{
  Event, reports, removes, run, IsValid, run-new-IsValid,
}
use keck.Controller.Aggregator.Ingest.History.{get-ingest_history}
use keck.Controller.Aggregator.Ingest.Removal.{IsAbsent, run-evict_removed_nodes}
use keck.Controller.Aggregator.Views.{
  namespace_map, namespace_power, pods_in_namespace, all_pods_filtered, cluster_power,
  node_summaries,
}
use keck.Controller.Aggregator.Views.Sums.{
  namespace_of, get-namespace_map, namespace_power_total, cluster_power_lem,
}
use keck.Controller.Aggregator.Grouping.{
  GroupBy, workload, namespace, place_all, group_map, group_power,
}
use keck.Controller.Aggregator.Grouping.Conservation.{
  group_from, power_shown, get-group_map, group_power_total, categories_partition,
}
use keck.Controller.Scheduler.{SchedulerConfig, default_config, filter_nodes, prioritize}
use keck.Controller.Scheduler.Filter.{verdict, filter_nodes_complete}
use keck.Controller.Scheduler.Scores.{known, prioritize_bounds}
use keck.Tests.Fixed.{fixed}

abbrev pub pod : String → String → String → ℕ → PodPowerReport
pod uid node ns power = record {
  node_name = node;
  pod_uid = uid;
  pod_name = uid;
  namespace = ns;
  cpu_uw = power;
  memory_uw = 0;
  gpu_uw = 0;
  storage_uw = 0;
  io_uw = 0;
  total_uw = power;
  timestamp = 90;
  workload_uid = "";
  workload_name = "";
  workload_kind = "";
  workload_category = "application";
  labels = [];
  metering_method = "keck";
}

abbrev pub node_report : String → ℕ → NodePowerReport ℕ
node_report name ratio = record {
  node_name = name;
  cpu_uw = 500;
  memory_uw = 100;
  gpu_uw = 0;
  platform_uw = some 1000;
  psu_output_uw = some 900;
  idle_uw = 50;
  error_ratio = ratio;
  pod_count = 2;
  process_count = 9;
  timestamp = 90;
  cpu_source = "rapl";
  memory_source = "rapl";
  cpu_reading_type = "measured";
  sources = [];
  metering_method = "";
}

abbrev pub report : AgentReport ℕ
report = record {
  node = node_report "n1" 50;
  pods = pod "u1" "n1" "shop" 300 ∷ pod "u2" "n1" "db" 200 ∷ [];
}

abbrev state_of : PodPowerReport → PodState
state_of p = record { report = p; received_at = 10 }

abbrev pub cluster : ClusterAggregator ℕ
cluster = record {
  pods =
      (("u0", "keck"), state_of (pod "u0" "n1" "shop" 100))
      ∷ (("u3", "keck"), state_of (pod "u3" "n2" "shop" 400))
      ∷ (("u4", "keck"), state_of (pod "u4" "n2" "db" 250))
      ∷ [];
  nodes =
      (("n1", "keck"), record { report = node_report "n1" 50; received_at = 10 })
      ∷ (("n2", "keck"), record { report = node_report "n2" 700; received_at = 10 })
      ∷ [];
  staleness_threshold = 60 * second;
  history = ("shop", (10, 500) ∷ []) ∷ [];
  history_retention = 3600 * second;
}

abbrev pub classification : ClassificationData
classification = record {
  co_namespaces = ("db", "etcd") ∷ [];
  operator_namespaces = [];
  app_defs = [];
}

run-new-IsValid_example : IsValid (run (reports 100 101 102 report ∷ removes ("n2" ∷ []) ∷ []) new)
run-new-IsValid_example = run-new-IsValid (reports 100 101 102 report ∷ removes ("n2" ∷ []) ∷ [])

get-ingest_example : get ("u0", "keck") (ingest 100 101 102 report cluster).pods ≡ none
unfolding get
get-ingest_example = get-ingest 100 101 102 report cluster "u0" "keck" (refl, (refl, (refl, tt)))

get-ingest_node_example :
    get ("n1", "keck") (ingest 100 101 102 report cluster).nodes
    ≡ some (record { report = node_report "n1" 50; received_at = 100 })
unfolding get
get-ingest_node_example = get-ingest_node 100 101 102 report cluster "n1" "keck" (refl, (refl, tt))

get-ingest_history_example :
    get "shop" (ingest 100 101 102 report cluster).history ≡ some ((10, 500) ∷ (90, 300) ∷ [])
unfolding get
get-ingest_history_example = get-ingest_history 100 101 102 report cluster "shop" (refl, tt)

abbrev later_events : List (Event ℕ)
later_events =
    reports 100 101 102
      (record report { node = node_report "n2" 60; pods = pod "u5" "n2" "shop" 10 ∷ [] })
    ∷ removes ("n2" ∷ "n3" ∷ [])
    ∷ []

run-evict_removed_nodes_example :
    let b = evict_removed_nodes ("n2" ∷ []) cluster in
    IsAbsent "n1" (run later_events b)
    × (get ("n2", "keck") b.nodes ≡ get ("n2", "keck") cluster.nodes)
    × (get ("u3", "keck") b.pods ≡ some (state_of (pod "u3" "n2" "shop" 400)))
unfolding get
run-evict_removed_nodes_example =
    run-evict_removed_nodes ("n2" ∷ []) "n1" "n2" "keck" ("u3", "keck")
      (state_of (pod "u3" "n2" "shop" 400)) later_events cluster (refl, (refl, (refl, tt)))
      (refl, (refl, tt)) refl refl refl refl (refl, (refl, tt))

get-namespace_map_example :
    get "shop" (namespace_map none cluster)
    ≡ namespace_of "shop" (pod "u0" "n1" "shop" 100 ∷ pod "u3" "n2" "shop" 400 ∷ [])
unfolding pods_in_namespace
get-namespace_map_example = get-namespace_map none cluster "shop"

namespace_power_total_example :
    IsDescending (λ n. n.total_uw) (namespace_power none cluster)
    × (sum_u64 (map (λ n. n.total_uw) (namespace_power none cluster)) ≡ 750)
unfolding sum_u64 all_pods_filtered add_u64
namespace_power_total_example = namespace_power_total none cluster

cluster_power_lem_example : cluster_power none cluster ≡ record {
  cpu_uw = 1000;
  memory_uw = 200;
  gpu_uw = 0;
  platform_uw = 2000;
  psu_output_uw = 1800;
  psu_loss_uw = 200;
  idle_uw = 100;
  total_attributed_uw = 1200;
  node_count = 2;
  pod_count = 3;
  avg_error_ratio = 375;
}
unfolding sum_u64 add_u64 all_pods_filtered
cluster_power_lem_example = cluster_power_lem none cluster

get-group_map_example :
    get "shop" (group_map namespace none classification cluster)
    ≡ group_from (
        filter
          (λ p. p.id.key == "shop")
          (place_all namespace none classification (values cluster.pods)))
get-group_map_example = get-group_map namespace none classification cluster "shop"

group_power_total_example :
    IsDescending (λ g. g.total_uw) (group_power workload none classification cluster)
    × (sum_u64 (map (λ g. g.total_uw) (group_power workload none classification cluster)) ≡ 750)
unfolding sum_u64 place_all keck.Controller.Aggregator.Grouping.place
    keck.Controller.Aggregator.Grouping.group_of add_u64
group_power_total_example = group_power_total workload none classification cluster

categories_partition_example :
    add_u64
      (add_u64
        (power_shown workload (some "platform") classification cluster)
        (power_shown workload (some "operator") classification cluster))
      (power_shown workload (some "application") classification cluster)
    ≡ power_shown workload none classification cluster
categories_partition_example = categories_partition workload classification cluster

filter_nodes_complete_example :
    ((filter_nodes 20 default_config ("n1" ∷ "n2" ∷ "n3" ∷ []) "shop" cluster).nodes
      ≡ "n1" ∷ "n3" ∷ [])
    × (get "n2" (filter_nodes 20 default_config ("n1" ∷ "n2" ∷ "n3" ∷ []) "shop" cluster).failed
        ≡ verdict 20 default_config "shop" cluster "n2")
unfolding get keck.Controller.Scheduler.node_map node_summaries keck.Base.Maps.insert
filter_nodes_complete_example =
    filter_nodes_complete 20 default_config ("n1" ∷ "n2" ∷ "n3" ∷ []) "shop" cluster "n2"

prioritize_bounds_example :
    let scores = prioritize 20 default_config ("n1" ∷ "n3" ∷ []) cluster in
    (map (λ s. s.node_name) scores ≡ "n1" ∷ "n3" ∷ [])
    × All (λ s. s.score ≤ 100) scores
    × All (λ s. (contains (known 20 cluster) s.node_name || eqb s.score 50) ≡ true) scores
prioritize_bounds_example = prioritize_bounds 20 default_config ("n1" ∷ "n3" ∷ []) cluster
