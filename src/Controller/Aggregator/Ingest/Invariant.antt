-- ===== src/Controller/Aggregator/Ingest/Invariant.antt =====
-- keck-controller/src/aggregator/mod.rs: runs of reports and removals, and the well-formed states.
use keck.Base.{ℕ, ◌≡◌, ◌≢◌, String, string_eq, pair_eq, true, not, List, [], ◌∷◌, All, arith}
use text.Mathlib.TextEquality.{eq_iff}
use keck.Base.Maps.{
  IsMap, insert-IsMap, retain-IsMap, upsert-IsMap, map_values-IsMap, All-insert, All-retain,
  retain_kept,
}
use keck.Controller.Aggregator.Types.{
  PodPowerReport, AgentReport, PodState, Slot, ClusterAggregator, method_or_keck,
}
use keck.Controller.Aggregator.Ingest.{
  new, ingest, ingest_pods, ingest_pod, evict_stale, trim_history, evict_removed_nodes, is_empty,
  with_method,
}

-- A pod stands under its uid, with a metering method.
abbrev pub IsFiled : Slot × PodState → Type 0
IsFiled e = (e.1.report.pod_uid ≡ e.0.0) × (e.1.report.metering_method ≢ "")

abbrev pub IsKept : String × List (ℕ × ℕ) → Type 0
IsKept e = not (is_empty e.1) ≡ true

pub record IsValid {ℓ} {F : Type ℓ} (a : ClusterAggregator F) : Type ℓ where
  pub pods_once : IsMap a.pods
  pub nodes_once : IsMap a.nodes
  pub history_once : IsMap a.history
  pub filed : All IsFiled a.pods
  pub kept : All IsKept a.history

method_or_keck-ne : (m : String) → method_or_keck m ≢ ""
method_or_keck-ne m = ground (arith, eq_iff m "", eq_iff "keck" "")

with_method-ne : (m : String) (p : PodPowerReport) → m ≢ "" → (with_method m p).metering_method ≢ ""
with_method-ne m p h = ground (arith, eq_iff p.metering_method "")

with_method-uid : (m : String) (p : PodPowerReport) → (with_method m p).pod_uid ≡ p.pod_uid
with_method-uid m p = ground arith

module _ {ℓ} {F : Type ℓ} where
  -- What the loop over the pods keeps: all but that no history is empty, which it may not disturb
  -- either, since a history only grows.
  record Midway (a : ClusterAggregator F) : Type ℓ where
    pods_once : IsMap a.pods
    nodes_once : IsMap a.nodes
    history_once : IsMap a.history
    filed : All IsFiled a.pods

  ingest_pods-Midway :
      (now : ℕ) (method : String) (ps : List PodPowerReport) (a : ClusterAggregator F)
      → method ≢ ""
      → Midway a
      → Midway (ingest_pods now method ps a)
  unfolding ingest_pods ingest_pod
  ingest_pods-Midway now method [] a h v = v
  ingest_pods-Midway now method (p ∷ ps) a h v = ingest_pods-Midway now method ps _ h (record {
    pods_once = insert-IsMap (p.pod_uid, method) _ a.pods v.pods_once;
    nodes_once = v.nodes_once;
    history_once = upsert-IsMap p.namespace [] _ a.history v.history_once;
    filed =
        All-insert IsFiled (p.pod_uid, method) _ a.pods
          (with_method-uid method p, with_method-ne method p h) v.filed;
  })

  sweep-IsValid :
      (later wall : ℕ) (a : ClusterAggregator F)
      → Midway a
      → IsValid (trim_history wall (evict_stale later a))
  unfolding evict_stale trim_history
  sweep-IsValid later wall a v = record {
    pods_once = retain-IsMap _ a.pods v.pods_once;
    nodes_once = retain-IsMap _ a.nodes v.nodes_once;
    history_once = retain-IsMap _ _ (map_values-IsMap _ a.history v.history_once);
    filed = All-retain IsFiled _ a.pods v.filed;
    kept = retain_kept (λ k h. not (is_empty h)) _;
  }

  ingest-IsValid :
      (now later wall : ℕ) (r : AgentReport F) (a : ClusterAggregator F)
      → IsValid a
      → IsValid (ingest now later wall r a)
  unfolding ingest
  ingest-IsValid now later wall r a v =
      let method = method_or_keck r.node.metering_method in
      sweep-IsValid later wall _ (
        ingest_pods-Midway now method r.pods _ (method_or_keck-ne r.node.metering_method) (record {
          pods_once = retain-IsMap _ a.pods v.pods_once;
          nodes_once = insert-IsMap (r.node.node_name, method) _ a.nodes v.nodes_once;
          history_once = v.history_once;
          filed = All-retain IsFiled _ a.pods v.filed;
        }))

  evict_removed_nodes-IsValid :
      (live : List String) (a : ClusterAggregator F)
      → IsValid a
      → IsValid (evict_removed_nodes live a)
  unfolding evict_removed_nodes
  evict_removed_nodes-IsValid live a v = record {
    pods_once = retain-IsMap _ a.pods v.pods_once;
    nodes_once = retain-IsMap _ a.nodes v.nodes_once;
    history_once = v.history_once;
    filed = All-retain IsFiled _ a.pods v.filed;
    kept = v.kept;
  }

-- What writes the state: a report, with the three readings of the clocks, or a removal of nodes.
pub data Event {ℓ} (F : Type ℓ) : Type ℓ where
  reports : (now later wall : ℕ) → AgentReport F → Event F
  removes : List String → Event F

module _ {ℓ} {F : Type ℓ} where
  abbrev pub step : Event F → ClusterAggregator F → ClusterAggregator F
  step (reports now later wall r) a = ingest now later wall r a
  step (removes live) a = evict_removed_nodes live a

  abbrev pub run : List (Event F) → ClusterAggregator F → ClusterAggregator F
  run [] a = a
  run (e ∷ es) a = run es (step e a)

  step-IsValid : (e : Event F) (a : ClusterAggregator F) → IsValid a → IsValid (step e a)
  step-IsValid (reports now later wall r) a v = ingest-IsValid now later wall r a v
  step-IsValid (removes live) a v = evict_removed_nodes-IsValid live a v

  run-IsValid : (es : List (Event F)) (a : ClusterAggregator F) → IsValid a → IsValid (run es a)
  run-IsValid [] a v = v
  run-IsValid (e ∷ es) a v = run-IsValid es _ (step-IsValid e a v)

  -- After any events each pod slot, node slot and namespace stands once, each pod stands under its
  -- own uid and has a metering method, and no namespace has an empty history.
  pub run-new-IsValid : (es : List (Event F)) → IsValid (run es new)
  unfolding new
  run-new-IsValid es =
      run-IsValid es new
        (record { pods_once = tt; nodes_once = tt; history_once = tt; filed = tt; kept = tt })
