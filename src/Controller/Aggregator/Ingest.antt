-- ===== src/Controller/Aggregator/Ingest.antt =====
-- keck-controller/src/aggregator/mod.rs: what writes the state. `ingest` reads the monotonic clock
-- first for the stamps and, as `later`, when it evicts; `wall` is the system clock when it trims.
pub mod Lookup
pub mod Invariant
pub mod History
pub mod Removal
use keck.Base.{
  ℕ, ◌+◌, ◌*◌, ◌≡◌, String, string_eq, pair_eq, ◌==◌, Bool, true, false, not, ◌&&◌, List, [], ◌∷◌,
  ◌++◌, map, if◌then◌else◌, ltb, leb, contains, filter,
}
use keck.Base.Maps.{Map, get, insert, upsert, retain, map_values}
use keck.Controller.Aggregator.Types.{
  PodPowerReport, NodePowerReport, AgentReport, PodState, NodeState, Slot, ClusterAggregator,
  second, method_or_keck,
}

-- `received_at > now - threshold`. The clock may stand before its origin, so nothing underflows.
abbrev pub is_fresh : ℕ → ℕ → ℕ → Bool
is_fresh now threshold received_at = ltb now (received_at + threshold)

abbrev pub is_empty {ℓ} : {A : Type ℓ} → List A → Bool
is_empty [] = true
is_empty (x ∷ xs) = false

-- The pod as it is stored: with a metering method.
abbrev pub with_method : String → PodPowerReport → PodPowerReport
with_method method p = if p.metering_method == "" then record p { metering_method = method } else p

-- Whether `ingest` drops a pod: one that its own node no longer reports by this method.
abbrev pub is_gone : String → String → List String → Slot → PodState → Bool
is_gone method node uids (uid, m) s =
    (m == method) && (s.report.node_name == node) && not (contains uids uid)

module _ {ℓ} {F : Type ℓ} where
  unfoldable pub new : ClusterAggregator F
  new = record {
    pods = [];
    nodes = [];
    staleness_threshold = 60 * second;
    history = [];
    history_retention = 3600 * second;
  }

  unfoldable pub ingest_pod :
      ℕ → String → PodPowerReport → ClusterAggregator F → ClusterAggregator F
  ingest_pod now method p a = record a {
    pods =
        insert (p.pod_uid, method) (record { report = with_method method p; received_at = now })
          a.pods;
    history = upsert p.namespace [] (λ h. h ++ (p.timestamp, p.total_uw) ∷ []) a.history;
  }

  unfoldable pub ingest_pods :
      ℕ → String → List PodPowerReport → ClusterAggregator F → ClusterAggregator F
  ingest_pods now method [] a = a
  ingest_pods now method (p ∷ ps) a = ingest_pods now method ps (ingest_pod now method p a)

  unfoldable pub evict_stale : ℕ → ClusterAggregator F → ClusterAggregator F
  evict_stale now a = record a {
    pods = retain (λ k s. is_fresh now a.staleness_threshold s.received_at) a.pods;
    nodes = retain (λ k s. is_fresh now a.staleness_threshold s.received_at) a.nodes;
  }

  unfoldable pub trim_history : ℕ → ClusterAggregator F → ClusterAggregator F
  trim_history wall a = record a {
    history =
        retain (λ k h. not (is_empty h))
          (map_values (filter (λ e. leb wall (e.0 + a.history_retention))) a.history);
  }

  unfoldable pub ingest : ℕ → ℕ → ℕ → AgentReport F → ClusterAggregator F → ClusterAggregator F
  ingest now later wall r a =
      let node = r.node.node_name in
      let method = method_or_keck r.node.metering_method in
      let uids = map (λ p. p.pod_uid) r.pods in
      let seen = record a {
        nodes = insert (node, method) (record { report = r.node; received_at = now }) a.nodes;
        pods = retain (λ k s. not (is_gone method node uids k s)) a.pods;
      } in
      trim_history wall (evict_stale later (ingest_pods now method r.pods seen))

  unfoldable pub evict_removed_nodes : List String → ClusterAggregator F → ClusterAggregator F
  evict_removed_nodes live a = record a {
    nodes = retain (λ k s. contains live k.0) a.nodes;
    pods = retain (λ k s. contains live s.report.node_name) a.pods;
  }
