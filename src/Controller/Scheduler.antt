-- ===== src/Controller/Scheduler.antt =====
-- keck-controller/src/scheduler/mod.rs: the scheduler extender. The lock on the aggregator is read at
-- one moment, so an operation takes the state as an argument. A message of the result is kept as the
-- values that it prints.
pub mod Filter
pub mod Scores
use keck.Base.{
  ℕ, ◌+◌, ◌^◌, ◌≡◌, String, string_eq, ◌==◌, Bool, true, false, Option, none, some, List, [], ◌∷◌,
  ◌++◌, map, if◌then◌else◌, unwrap_or, find, min,
}
use keck.Base.Float.{Float64}
use keck.Base.Words.{add_u64}
use keck.Base.Maps.{Map, get, insert}
use keck.Base.Groups.{run_steps}
use keck.Controller.Aggregator.Types.{ClusterAggregator}
use keck.Controller.Aggregator.Views.{NodeSummary, NamespacePower, node_summaries, namespace_power}

pub data PlacementStrategy : Type 0 where
  bin_pack : PlacementStrategy
  spread : PlacementStrategy

pub record SchedulerConfig {ℓ} (F : Type ℓ) : Type ℓ where
  pub headroom_weight : F
  pub accuracy_weight : F
  pub strategy : PlacementStrategy
  pub namespace_budgets : Map String F

pub data Reason {ℓ} (F : Type ℓ) : Type ℓ where
  -- the error ratio
  unreliable : F → Reason F
  -- the namespace, its power and its budget
  over_budget : String → F → F → Reason F

pub data ScoreReason : Type 0 where
  no_power_data : ScoreReason
  scored : ℕ → ℕ → PlacementStrategy → ScoreReason

pub record NodeScore : Type 0 where
  pub node_name : String
  pub score : ℕ
  pub reason : ScoreReason

pub record FilterResult {ℓ} (F : Type ℓ) : Type ℓ where
  pub nodes : List String
  pub failed : Map String (Reason F)

module _ {ℓ} {F : Type ℓ} where
  -- The map that both operations look candidates up in.
  unfoldable pub node_map : ℕ → ClusterAggregator F → Map String (NodeSummary F)
  node_map now a = run_steps (λ s m. insert s.node_name s m) (node_summaries now (some "keck") a) []

module _ {ℓ} {F : Type ℓ} ⦃f : Float64 F⦄ where
  abbrev pub default_config : SchedulerConfig F
  default_config = record {
    headroom_weight = f.lit 7 1;
    accuracy_weight = f.lit 3 1;
    strategy = bin_pack;
    namespace_budgets = [];
  }

  unfoldable pub current_ns_power : String → ClusterAggregator F → F
  current_ns_power ns a = elim (find (λ n. n.namespace == ns) (namespace_power (some "keck") a)) [
    | none ↦ f.lit 0 0
    | some n ↦ f.div (f.of_u64 n.total_uw) (f.lit 1000000 0)
  ]

  -- The body of the loop of `filter`.
  unfoldable pub consider :
      Option (NodeSummary F) → Option F → String → F → String → FilterResult F → FilterResult F
  consider none budget ns current n r = record r { nodes = r.nodes ++ n ∷ [] }
  consider (some s) budget ns current n r =
      if f.lt (f.lit 5 1) s.error_ratio
      then record r { failed = insert n (unreliable s.error_ratio) r.failed }
      else elim budget [
        | none ↦ record r { nodes = r.nodes ++ n ∷ [] }
        | some b ↦
            if f.le b current
            then record r { failed = insert n (over_budget ns current b) r.failed }
            else record r { nodes = r.nodes ++ n ∷ [] }
      ]

  unfoldable pub filter_nodes :
      ℕ → SchedulerConfig F → List String → String → ClusterAggregator F → FilterResult F
  filter_nodes now config candidates ns a =
      let nodes = node_map now a in
      let budget = get ns config.namespace_budgets in
      let current = current_ns_power ns a in
      run_steps (λ n r. consider (get n nodes) budget ns current n r) candidates
        (record { nodes = []; failed = [] })

  -- Headroom and accuracy, by strategy.
  unfoldable pub component_scores : PlacementStrategy → NodeSummary F → ℕ × ℕ
  component_scores bin_pack s =
      let used = add_u64 (add_u64 s.cpu_uw s.memory_uw) s.gpu_uw in
      let utilization : F = elim s.platform_uw [
        | none ↦ f.lit 5 1
        | some p ↦ f.least (f.div (f.of_u64 used) (f.of_u64 p)) (f.lit 1 0)
      ] in
      (
        f.to_u32 (f.mul utilization (f.lit 100 0)),
        f.to_u32 (f.mul (f.sub (f.lit 1 0) s.error_ratio) (f.lit 100 0)),
      )
  component_scores spread s =
      let headroom : ℕ = elim s.headroom_uw [
        | none ↦ 50
        | some h ↦ elim s.platform_uw [
          | none ↦ 50
          | some p ↦ f.to_u32 (f.mul (f.div (f.of_u64 h) (f.of_u64 p)) (f.lit 100 0))
        ]
      ] in
      (headroom, f.to_u32 (f.mul (f.sub (f.lit 1 0) s.error_ratio) (f.lit 100 0)))

  unfoldable pub score_of : SchedulerConfig F → String → Option (NodeSummary F) → NodeScore
  score_of config n none = record { node_name = n; score = 50; reason = no_power_data }
  score_of config n (some s) =
      let parts = component_scores config.strategy s in
      let combined = f.to_u32 (
        f.add (f.mul (f.of_u64 parts.0) config.headroom_weight)
          (f.mul (f.of_u64 parts.1) config.accuracy_weight)) in
      record {
        node_name = n;
        score = min combined 100;
        reason = scored parts.0 parts.1 config.strategy;
      }

  unfoldable pub prioritize :
      ℕ → SchedulerConfig F → List String → ClusterAggregator F → List NodeScore
  prioritize now config candidates a =
      let nodes = node_map now a in map (λ n. score_of config n (get n nodes)) candidates
