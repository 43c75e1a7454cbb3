-- ===== src/Controller/Api/Requests.antt =====
-- keck-controller/src/api/mod.rs with the aggregator: a server that is sent reports.
use keck.Base.{
  ap, ℕ, ◌+◌, ◌*◌, ◌≤◌, ◌<◌, ◌≡◌, refl, ◌∙◌, String, string_eq, pair_eq, Bool, true, Option, inl,
  inr, List, [], ◌∷◌, map, All, weaken-All, length, filter, arith, Bool-cases,
}
use mathlib.Core.List.{map-map}
use keck.Base.Results.{Result, is_ok, ok, err}
use keck.Base.Float.{Float64}
use keck.Base.Words.{u64_mod, add_u64, sum_u64, sum, sum_u64_exact}
use keck.Base.Maps.{Map, values, All-insert, All-retain}
use keck.Controller.Classification.{ClassificationData}
use keck.Controller.Aggregator.Types.{
  PodPowerReport, NodePowerReport, AgentReport, PodState, NodeState, Slot, ClusterAggregator,
}
use keck.Controller.Aggregator.Ingest.{
  new, ingest, ingest_pods, ingest_pod, evict_stale, trim_history, evict_removed_nodes, with_method,
}
use keck.Controller.Aggregator.Views.{
  cluster_power, namespace_power, all_pods_filtered, node_matches, pod_matches,
}
use keck.Controller.Aggregator.Views.Sums.{cluster_power_lem, namespace_power_total}
use keck.Controller.Api.{
  ServerState, StatusCode, max_power_uw, validate_report, handle_report, check_auth, Reason, answer,
  answer_valid,
}
use keck.Controller.Api.Validation.{IsAcceptable, IsAcceptablePod, validate_report_sound}

abbrev IsBoundedPod : Slot × PodState → Type 0
IsBoundedPod e = e.1.report.total_uw ≤ max_power_uw

with_method-total_uw : (m : String) (p : PodPowerReport) → (with_method m p).total_uw ≡ p.total_uw
with_method-total_uw m p = ground arith

-- The sum over the chosen entries of a map in which each amounts to at most `most`.
module _ {ℓ κ} {K : Type ℓ} {V : Type κ} where
  pub sum-filter-values-le :
      (p : V → Bool) (amount : V → ℕ) (most : ℕ) (m : Map K V)
      → All (λ e. amount e.1 ≤ most) m
      → sum (map amount (filter p (values m))) ≤ length m * most
  unfolding sum
  sum-filter-values-le p amount most [] h = omega arith
  sum-filter-values-le p amount most (e ∷ m) (h, hs) = elim (Bool-cases (p e.1)) [
    | inl chosen ↦ rw chosen (grind (arith, sum-filter-values-le p amount most m hs))
    | inr left ↦ rw left (grind (arith, sum-filter-values-le p amount most m hs))
  ]

module _ {ℓ} {F : Type ℓ} where
  record IsBoundedReport (r : NodePowerReport F) : Type 0 where
    cpu : r.cpu_uw ≤ max_power_uw
    memory : r.memory_uw ≤ max_power_uw
    gpu : r.gpu_uw ≤ max_power_uw

  abbrev IsBoundedNode : Slot × NodeState F → Type 0
  IsBoundedNode e = IsBoundedReport e.1.report

  -- No pod and no node of the state draws more than is plausible.
  record IsBounded (a : ClusterAggregator F) : Type 0 where
    pods : All IsBoundedPod a.pods
    nodes : All IsBoundedNode a.nodes

  ingest_pods-IsBounded :
      (now : ℕ) (method : String) (ps : List PodPowerReport) (a : ClusterAggregator F)
      → All IsAcceptablePod ps
      → IsBounded a
      → IsBounded (ingest_pods now method ps a)
  unfolding ingest_pods ingest_pod
  ingest_pods-IsBounded now method [] a h v = v
  ingest_pods-IsBounded now method (p ∷ ps) a (h, hs) v =
      ingest_pods-IsBounded now method ps _ hs (record {
        pods =
            All-insert IsBoundedPod (p.pod_uid, method) _ a.pods
              (rw (with_method-total_uw method p) h.bounded) v.pods;
        nodes = v.nodes;
      })

  ingest-IsBounded :
      (now later wall : ℕ) (r : AgentReport F) (a : ClusterAggregator F)
      → IsAcceptable r
      → IsBounded a
      → IsBounded (ingest now later wall r a)
  unfolding ingest evict_stale trim_history
  ingest-IsBounded now later wall r a h v =
      let node : IsBoundedReport r.node = record {
        cpu = h.cpu_bounded;
        memory = h.memory_bounded;
        gpu = h.gpu_bounded;
      } in
      let taken = ingest_pods-IsBounded now _ r.pods _ h.acceptable_pods (record {
        pods = All-retain IsBoundedPod _ a.pods v.pods;
        nodes = All-insert IsBoundedNode _ _ a.nodes node v.nodes;
      }) in
      record {
        pods = All-retain IsBoundedPod _ _ taken.pods;
        nodes = All-retain IsBoundedNode _ _ taken.nodes;
      }

  evict_removed_nodes-IsBounded :
      (live : List String) (a : ClusterAggregator F)
      → IsBounded a
      → IsBounded (evict_removed_nodes live a)
  unfolding evict_removed_nodes
  evict_removed_nodes-IsBounded live a v = record {
    pods = All-retain IsBoundedPod _ a.pods v.pods;
    nodes = All-retain IsBoundedNode _ a.nodes v.nodes;
  }

-- What a server is asked: a report is posted, with the clocks and the header, or all nodes but the
-- named ones are removed.
pub data Request {ℓ} (F : Type ℓ) : Type ℓ where
  posts : (now later wall : ℕ) → Option String → AgentReport F → Request F
  removes : (live : List String) → Request F

module _ {ℓ} {F : Type ℓ} where
  abbrev pub serve : Request F → ServerState F → ServerState F
  serve (posts now later wall header r) s = (handle_report now later wall header r s).0
  serve (removes live) s = record s { aggregator = evict_removed_nodes live s.aggregator }

  abbrev pub serve_all : List (Request F) → ServerState F → ServerState F
  serve_all [] s = s
  serve_all (q ∷ qs) s = serve_all qs (serve q s)

  abbrev start : ClassificationData → Option String → ServerState F
  start cls key = record {
    aggregator = new;
    classification = cls;
    api_key = key;
    agent_report_total = [];
  }

  -- The cluster's state after some requests to a new server.
  abbrev pub served : ClassificationData → Option String → List (Request F) → ClusterAggregator F
  served cls key qs = (serve_all qs (start cls key)).aggregator

  answer_valid-IsBounded :
      (c : Result Reason (Unit {0})) (now later wall : ℕ) (r : AgentReport F) (s : ServerState F)
      → (is_ok c ≡ true → IsAcceptable r)
      → IsBounded s.aggregator
      → IsBounded (answer_valid c now later wall r s).0.aggregator
  answer_valid-IsBounded (err why) now later wall r s h v = v
  answer_valid-IsBounded (ok _) now later wall r s h v =
      ingest-IsBounded now later wall r s.aggregator (h refl) v

  answer-IsBounded :
      (c : Result StatusCode (Unit {0})) (now later wall : ℕ) (r : AgentReport F)
      (s : ServerState F)
      → IsBounded s.aggregator
      → IsBounded (answer c now later wall r s).0.aggregator
  answer-IsBounded (err _) now later wall r s v = v
  answer-IsBounded (ok _) now later wall r s v =
      answer_valid-IsBounded (validate_report r) now later wall r s (validate_report_sound r) v

  serve-IsBounded :
      (q : Request F) (s : ServerState F)
      → IsBounded s.aggregator
      → IsBounded (serve q s).aggregator
  unfolding handle_report
  serve-IsBounded (removes live) s v = evict_removed_nodes-IsBounded live s.aggregator v
  serve-IsBounded (posts now later wall header r) s v =
      answer-IsBounded (check_auth header s.api_key) now later wall r s v

  serve_all-IsBounded :
      (qs : List (Request F)) (s : ServerState F)
      → IsBounded s.aggregator
      → IsBounded (serve_all qs s).aggregator
  serve_all-IsBounded [] s v = v
  serve_all-IsBounded (q ∷ qs) s v = serve_all-IsBounded qs (serve q s) (serve-IsBounded q s v)

  served-IsBounded :
      (cls : ClassificationData) (key : Option String) (qs : List (Request F))
      → IsBounded (served cls key qs)
  unfolding new
  served-IsBounded cls key qs =
      serve_all-IsBounded qs (start cls key) (record { pods = tt; nodes = tt })

  bounded_nodes :
      (amount : NodePowerReport F → ℕ) (p : NodeState F → Bool) (m : Map Slot (NodeState F))
      → ((r : NodePowerReport F) → IsBoundedReport r → amount r ≤ max_power_uw)
      → All IsBoundedNode m
      → sum (map amount (map (λ s. s.report) (filter p (values m)))) ≤ length m * max_power_uw
  bounded_nodes amount p m h v =
      rw (map-map amount (λ (s : NodeState F). s.report) (filter p (values m))) (
        sum-filter-values-le p (λ s. amount s.report) max_power_uw m
          (weaken-All (λ e b. h e.1.report b) m v))

  pods_exact :
      (method : Option String) (a : ClusterAggregator F)
      → IsBounded a
      → length a.pods * max_power_uw < u64_mod
      → sum_u64 (map (λ n. n.total_uw) (namespace_power method a))
        ≡ sum (map (λ p. p.total_uw) (all_pods_filtered method a))
  unfolding all_pods_filtered
  pods_exact method a v few =
      let ss = filter (pod_matches method) (values a.pods) in
      let small : sum (map (λ p. p.total_uw) (all_pods_filtered method a))
          ≤ length a.pods * max_power_uw =
        rw (map-map (λ (p : PodPowerReport). p.total_uw) (λ (s : PodState). s.report) ss) (
          sum-filter-values-le (pod_matches method) (λ s. s.report.total_uw) max_power_uw a.pods
            v.pods) in
      (namespace_power_total method a).1
      ∙ sum_u64_exact (map (λ p. p.total_uw) (all_pods_filtered method a)) (omega arith)

module _ {ℓ} {F : Type ℓ} ⦃f : Float64 F⦄ where
  attributed_exact :
      (method : Option String) (a : ClusterAggregator F)
      → IsBounded a
      → length a.nodes * (3 * max_power_uw) < u64_mod
      → let nodes = map (λ s. s.report) (filter (node_matches method) (values a.nodes)) in
        (cluster_power method a).total_attributed_uw
        ≡ sum (map (λ r. r.cpu_uw) nodes)
          + sum (map (λ r. r.memory_uw) nodes)
          + sum (map (λ r. r.gpu_uw) nodes)
  unfolding add_u64
  attributed_exact method a v few =
      let nodes = map (λ s. s.report) (filter (node_matches method) (values a.nodes)) in
      let cpu : sum (map (λ r. r.cpu_uw) nodes) ≤ length a.nodes * max_power_uw =
        bounded_nodes (λ r. r.cpu_uw) (node_matches method) a.nodes (λ r b. b.cpu) v.nodes in
      let memory : sum (map (λ r. r.memory_uw) nodes) ≤ length a.nodes * max_power_uw =
        bounded_nodes (λ r. r.memory_uw) (node_matches method) a.nodes (λ r b. b.memory) v.nodes in
      let gpu : sum (map (λ r. r.gpu_uw) nodes) ≤ length a.nodes * max_power_uw =
        bounded_nodes (λ r. r.gpu_uw) (node_matches method) a.nodes (λ r b. b.gpu) v.nodes in
      ap (λ c. c.total_attributed_uw) (cluster_power_lem method a)
      ∙ omega (
        arith,
        sum_u64_exact (map (λ r. r.cpu_uw) nodes),
        sum_u64_exact (map (λ r. r.memory_uw) nodes),
        sum_u64_exact (map (λ r. r.gpu_uw) nodes),
      )

  -- After any requests to a new server, whose headers and reports may be wrong, the sums that the
  -- views report have not wrapped around as long as the tables are small enough: with fewer nodes
  -- than 2^64 / 3·10^11 the cluster's attributed power is the plain sum of the three powers of the
  -- nodes of the method, and with fewer pods than 2^64 / 10^11 the namespaces' totals add up to the
  -- plain sum of the totals of the pods of the method.
  pub power_exact :
      (cls : ClassificationData) (key : Option String) (qs : List (Request F))
      (method : Option String)
      → let a = served cls key qs in
        length a.nodes * (3 * max_power_uw) < u64_mod
        → length a.pods * max_power_uw < u64_mod
        → let nodes = map (λ s. s.report) (filter (node_matches method) (values a.nodes)) in
          ((cluster_power method a).total_attributed_uw
            ≡ sum (map (λ r. r.cpu_uw) nodes)
              + sum (map (λ r. r.memory_uw) nodes)
              + sum (map (λ r. r.gpu_uw) nodes))
          × (sum_u64 (map (λ n. n.total_uw) (namespace_power method a))
              ≡ sum (map (λ p. p.total_uw) (all_pods_filtered method a)))
  power_exact cls key qs method few_nodes few_pods =
      let v = served-IsBounded cls key qs in
      (attributed_exact method _ v few_nodes, pods_exact method _ v few_pods)
