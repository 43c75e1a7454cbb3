-- ===== src/Controller/Aggregator/Views/Sources.antt =====
-- keck-controller/src/aggregator/mod.rs: the getters. The first node is the table's first.
use keck.Base.{ℕ, String, Option, none, some, List, [], ◌∷◌, map, find, length}
use keck.Base.Maps.{values}
use keck.Controller.Aggregator.Types.{PodPowerReport, NodeState, ClusterAggregator}
use keck.Controller.Aggregator.Views.{node_matches}

abbrev first_of {ℓ} : {A : Type ℓ} → List A → Option A
first_of [] = none
first_of (x ∷ xs) = some x

abbrev or_else {ℓ} : {A : Type ℓ} → Option A → Option A → Option A
or_else none o = o
or_else (some x) o = some x

module _ {ℓ} {F : Type ℓ} where
  unfoldable pub all_pods : ClusterAggregator F → List PodPowerReport
  all_pods a = map (λ s. s.report) (values a.pods)

  unfoldable pub node_count : ClusterAggregator F → ℕ
  node_count a = length a.nodes

  -- The first node that Keck reports, or else the first of any.
  unfoldable pub source_node : ClusterAggregator F → Option (NodeState F)
  source_node a =
      or_else (find (node_matches (some "keck")) (values a.nodes)) (first_of (values a.nodes))

  unfoldable pub cpu_source_info : ClusterAggregator F → String × String
  cpu_source_info a = elim (source_node a) [
    | none ↦ ("unknown", "none")
    | some s ↦ (s.report.cpu_source, s.report.cpu_reading_type)
  ]

  unfoldable pub memory_source_info : ClusterAggregator F → String
  memory_source_info a = elim (source_node a) [ none ↦ "unknown" | some s ↦ s.report.memory_source ]
