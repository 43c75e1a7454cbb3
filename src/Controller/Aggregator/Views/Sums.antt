-- ===== src/Controller/Aggregator/Views/Sums.antt =====
-- keck-controller/src/aggregator/mod.rs: the views, and the entries that they sum.
use keck.Base.{
  ℕ, ◌-◌, ◌≡◌, refl, sym, ap, ◌∙◌, String, string_eq, pair_eq, true, Option, none, some, List, [],
  ◌∷◌, map, if◌then◌else◌, ltb, unwrap_or, filter, All, All-filter, filter-congr, length,
  length-map, arith,
}
use text.Mathlib.TextEquality.{eq_iff}
use keck.Base.Float.{Float64, sum_f64}
use mathlib.Core.List.{foldl, map-map}
use keck.Base.Words.{add_u64, sum_u64}
use keck.Base.Maps.{get, values}
use keck.Base.Groups.{
  run_steps, run_steps_if, field-run_steps, get-group, members, has_key, sum-group, entry_of,
}
use keck.Base.Sorting.{sort_desc-IsDescending, sum-sort_by, IsDescending}
use keck.Controller.Aggregator.Types.{
  PodPowerReport, NodePowerReport, PodState, NodeState, ClusterAggregator,
}
use keck.Controller.Aggregator.Views.{
  NamespacePower, Totals, pod_matches, node_matches, namespace_key, no_namespace, add_to_namespace,
  namespace_map, namespace_power, pods_in_namespace, all_pods_filtered, add_node, node_totals,
  cluster_power,
}

abbrev pub sums_of : String → List PodPowerReport → NamespacePower
sums_of ns ps = record {
  namespace = ns;
  cpu_uw = sum_u64 (map (λ q. q.cpu_uw) ps);
  memory_uw = sum_u64 (map (λ q. q.memory_uw) ps);
  gpu_uw = sum_u64 (map (λ q. q.gpu_uw) ps);
  storage_uw = sum_u64 (map (λ q. q.storage_uw) ps);
  io_uw = sum_u64 (map (λ q. q.io_uw) ps);
  total_uw = sum_u64 (map (λ q. q.total_uw) ps);
  pod_count = sum_u64 (map (λ _. 1) ps);
}

-- The entry of a namespace that has just these pods.
abbrev pub namespace_of : String → List PodPowerReport → Option NamespacePower
namespace_of ns [] = none
namespace_of ns (p ∷ ps) = some (sums_of ns (p ∷ ps))

-- The fields of an entry after the loop over its pods.
added :
    (field : NamespacePower → ℕ) (amount : PodPowerReport → ℕ) (ss : List PodState)
    (e : NamespacePower)
    → ((s : PodState) (v : NamespacePower)
        → field (add_to_namespace s v) ≡ add_u64 (field v) (amount s.report))
    → field e ≡ 0
    → field (run_steps add_to_namespace ss e) ≡ sum_u64 (map amount (map (λ s. s.report) ss))
added field amount ss e h z =
    field-run_steps add_to_namespace field (λ (s : PodState). amount s.report) ss e h z
    ∙ ap sum_u64 (sym (map-map amount (λ s. s.report) ss))

name_kept :
    (ss : List PodState) (e : NamespacePower)
    → (run_steps add_to_namespace ss e).namespace ≡ e.namespace
unfolding add_to_namespace
name_kept [] e = refl
name_kept (s ∷ ss) e = name_kept ss (add_to_namespace s e)

filled :
    (s : PodState) (ss : List PodState)
    → run_steps add_to_namespace (s ∷ ss) (no_namespace s)
      ≡ sums_of s.report.namespace (map (λ x. x.report) (s ∷ ss))
unfolding no_namespace add_to_namespace
filled s ss =
    let e = no_namespace s in
    let field = λ (g : NamespacePower → ℕ) (f : PodPowerReport → ℕ). added g f (s ∷ ss) e in
    let name = name_kept (s ∷ ss) e in
    let cpu = field (λ v. v.cpu_uw) (λ q. q.cpu_uw) (λ _ _. refl) refl in
    let memory = field (λ v. v.memory_uw) (λ q. q.memory_uw) (λ _ _. refl) refl in
    let gpu = field (λ v. v.gpu_uw) (λ q. q.gpu_uw) (λ _ _. refl) refl in
    let storage = field (λ v. v.storage_uw) (λ q. q.storage_uw) (λ _ _. refl) refl in
    let io = field (λ v. v.io_uw) (λ q. q.io_uw) (λ _ _. refl) refl in
    let all = field (λ v. v.total_uw) (λ q. q.total_uw) (λ _ _. refl) refl in
    let count = field (λ v. v.pod_count) (λ _. 1) (λ _ _. refl) refl in
    λ i. record {
      namespace = name i;
      cpu_uw = cpu i;
      memory_uw = memory i;
      gpu_uw = gpu i;
      storage_uw = storage i;
      io_uw = io i;
      total_uw = all i;
      pod_count = count i;
    }

entry-members :
    (ns : String) (method : Option String) (ss : List PodState)
    → All (λ s. has_key ns (namespace_key method s) ≡ true) ss
    → entry_of no_namespace add_to_namespace ss none ≡ namespace_of ns (map (λ x. x.report) ss)
entry-members ns method [] h = refl
entry-members ns method (s ∷ ss) h =
    let same : s.report.namespace ≡ ns = ground (arith, eq_iff s.report.namespace ns, h.0) in
    ap {B = Option NamespacePower} some (filled s ss)
    ∙ ap (λ n. some (sums_of n (map (λ x. x.report) (s ∷ ss)))) same

module _ {ℓ} {F : Type ℓ} where
  -- A namespace has an entry exactly if it has pods of the method, and then its entry holds the
  -- sums, modulo 2^64, of the fields of just the pods that `pods_in_namespace` lists, and their
  -- number.
  pub get-namespace_map :
      (method : Option String) (a : ClusterAggregator F) (ns : String)
      → get ns (namespace_map method a) ≡ namespace_of ns (pods_in_namespace ns method a)
  unfolding namespace_map pods_in_namespace get
  get-namespace_map method a ns =
      let ss = values a.pods in
      get-group (namespace_key method) no_namespace add_to_namespace ns ss []
      ∙ entry-members ns method (members (namespace_key method) ns ss) (All-filter _ ss)
      ∙ ap (λ xs. namespace_of ns (map (λ x. x.report) xs))
          (filter-congr _ _ ss (λ s. ground arith))

  -- The list has the entries in falling order of power, and their powers add up, modulo 2^64, to
  -- the power of all the pods of the method: no pod is left out or counted twice.
  pub namespace_power_total :
      (method : Option String) (a : ClusterAggregator F)
      → IsDescending (λ n. n.total_uw) (namespace_power method a)
        × (sum_u64 (map (λ n. n.total_uw) (namespace_power method a))
            ≡ sum_u64 (map (λ p. p.total_uw) (all_pods_filtered method a)))
  unfolding namespace_power all_pods_filtered no_namespace add_to_namespace
  namespace_power_total method a = (
    sort_desc-IsDescending (λ n. n.total_uw) _,
    sum-sort_by _ (λ n. n.total_uw) _
        ∙ sum-group (namespace_key method) no_namespace add_to_namespace (λ n. n.total_uw)
            (λ s. s.report.total_uw) (values a.pods) ((λ x. refl), λ x v. refl)
        ∙ ap (λ xs. sum_u64 (map (λ (s : PodState). s.report.total_uw) xs))
            (filter-congr _ _ (values a.pods) (λ s. ground arith))
        ∙ ap sum_u64 (
            sym (
              map-map (λ p. p.total_uw) (λ s. s.report)
                (filter (pod_matches method) (values a.pods)))),
  )

module _ {ℓ} {F : Type ℓ} ⦃f : Float64 F⦄ where
  error_sum-run_steps :
      (ss : List (NodeState F)) (t : Totals F)
      → (run_steps add_node ss t).error_sum
        ≡ foldl f.add t.error_sum (map (λ s. s.report.error_ratio) ss)
  unfolding add_node
  error_sum-run_steps [] t = refl
  error_sum-run_steps (s ∷ ss) t = error_sum-run_steps ss (add_node s t)

  totals_of : List (NodePowerReport F) → Totals F
  totals_of rs = record {
    cpu = sum_u64 (map (λ r. r.cpu_uw) rs);
    memory = sum_u64 (map (λ r. r.memory_uw) rs);
    gpu = sum_u64 (map (λ r. r.gpu_uw) rs);
    platform = sum_u64 (map (λ r. unwrap_or r.platform_uw 0) rs);
    psu_output = sum_u64 (map (λ r. unwrap_or r.psu_output_uw 0) rs);
    idle = sum_u64 (map (λ r. r.idle_uw) rs);
    error_sum = sum_f64 (map (λ r. r.error_ratio) rs);
    node_count = sum_u64 (map (λ _. 1) rs);
  }

  node_field :
      (field : Totals F → ℕ) (amount : NodePowerReport F → ℕ) (ss : List (NodeState F))
      (t : Totals F)
      → ((s : NodeState F) (v : Totals F)
          → field (add_node s v) ≡ add_u64 (field v) (amount s.report))
      → field t ≡ 0
      → field (run_steps add_node ss t) ≡ sum_u64 (map amount (map (λ s. s.report) ss))
  node_field field amount ss t h z =
      field-run_steps add_node field (λ (s : NodeState F). amount s.report) ss t h z
      ∙ ap sum_u64 (sym (map-map amount (λ s. s.report) ss))

  node_totals_lem :
      (method : Option String) (a : ClusterAggregator F)
      → node_totals method a
        ≡ totals_of (map (λ s. s.report) (filter (node_matches method) (values a.nodes)))
  unfolding node_totals totals_of add_node sum_u64
  node_totals_lem method a =
      let ss = filter (node_matches method) (values a.nodes) in
      let field =
        λ (g : Totals F → ℕ) (f : NodePowerReport F → ℕ). node_field g f ss (totals_of []) in
      let cpu = field (λ t. t.cpu) (λ r. r.cpu_uw) (λ _ _. refl) refl in
      let memory = field (λ t. t.memory) (λ r. r.memory_uw) (λ _ _. refl) refl in
      let gpu = field (λ t. t.gpu) (λ r. r.gpu_uw) (λ _ _. refl) refl in
      let platform = field (λ t. t.platform) (λ r. unwrap_or r.platform_uw 0) (λ _ _. refl) refl in
      let psu = field (λ t. t.psu_output) (λ r. unwrap_or r.psu_output_uw 0) (λ _ _. refl) refl in
      let idle = field (λ t. t.idle) (λ r. r.idle_uw) (λ _ _. refl) refl in
      let count = field (λ t. t.node_count) (λ _. 1) (λ _ _. refl) refl in
      let errors =
        error_sum-run_steps ss (totals_of [])
        ∙ ap (foldl f.add (f.lit 0 0)) (sym (map-map (λ r. r.error_ratio) (λ s. s.report) ss)) in
      run_steps_if (node_matches method) add_node (values a.nodes) (totals_of []) ∙ (λ i. record {
        cpu = cpu i;
        memory = memory i;
        gpu = gpu i;
        platform = platform i;
        psu_output = psu i;
        idle = idle i;
        error_sum = errors i;
        node_count = count i;
      })

  -- The cluster's power is taken over the nodes of the method: each field is the sum of the nodes'
  -- fields modulo 2^64, an unknown platform or PSU power counting as 0; the attributed power is the
  -- sum of the three component sums, the PSU loss the platform power less the PSU output, at least
  -- 0; the pods are those of the method; and the error ratio is the mean of the nodes' ratios, 0 if
  -- there is no node.
  pub cluster_power_lem :
      (method : Option String) (a : ClusterAggregator F)
      → let nodes = map (λ s. s.report) (filter (node_matches method) (values a.nodes)) in
        let n = sum_u64 (map (λ _. 1) nodes) in
        let platform = sum_u64 (map (λ r. unwrap_or r.platform_uw 0) nodes) in
        let psu = sum_u64 (map (λ r. unwrap_or r.psu_output_uw 0) nodes) in
        let cpu = sum_u64 (map (λ r. r.cpu_uw) nodes) in
        let memory = sum_u64 (map (λ r. r.memory_uw) nodes) in
        let gpu = sum_u64 (map (λ r. r.gpu_uw) nodes) in
        cluster_power method a ≡ record {
          cpu_uw = cpu;
          memory_uw = memory;
          gpu_uw = gpu;
          platform_uw = platform;
          psu_output_uw = psu;
          psu_loss_uw = platform - psu;
          idle_uw = sum_u64 (map (λ r. r.idle_uw) nodes);
          total_attributed_uw = add_u64 (add_u64 cpu memory) gpu;
          node_count = n;
          pod_count = length (all_pods_filtered method a);
          avg_error_ratio =
              if ltb 0 n
              then f.div (sum_f64 (map (λ r. r.error_ratio) nodes)) (f.of_u64 n)
              else f.lit 0 0;
        }
  unfolding cluster_power totals_of all_pods_filtered
  cluster_power_lem method a =
      let t = node_totals_lem method a in
      let pods = sym (length-map (filter (pod_matches method) (values a.pods)) (λ s. s.report)) in
      λ i. record {
        cpu_uw = (t i).cpu;
        memory_uw = (t i).memory;
        gpu_uw = (t i).gpu;
        platform_uw = (t i).platform;
        psu_output_uw = (t i).psu_output;
        psu_loss_uw = (t i).platform - (t i).psu_output;
        idle_uw = (t i).idle;
        total_attributed_uw = add_u64 (add_u64 (t i).cpu (t i).memory) (t i).gpu;
        node_count = (t i).node_count;
        pod_count = pods i;
        avg_error_ratio =
            if ltb 0 (t i).node_count
            then f.div (t i).error_sum (f.of_u64 (t i).node_count)
            else f.lit 0 0;
      }
