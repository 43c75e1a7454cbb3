-- ===== src/Controller/Aggregator/Ingest/History.antt =====
-- keck-controller/src/aggregator/mod.rs: the histories under `ingest`.
use keck.Base.{
  ℕ, ◌+◌, ◌≡◌, refl, ap, String, string_eq, pair_eq, ◌==◌, not, Option, some, List, [], ◌∷◌, ◌++◌,
  map, if◌then◌else◌, leb, filter, keep_if, unwrap_or, inl, inr, Bool-cases,
}
use mathlib.Core.List.{append_assoc}
use text.Mathlib.TextEquality.{eq_iff}
use keck.Base.Maps.{
  IsMap, get, insert, retain, get-upsert, get-retain, get-map_values, map_option, map_values-IsMap,
  upsert-IsMap,
}
use keck.Controller.Aggregator.Types.{
  PodPowerReport, AgentReport, ClusterAggregator, method_or_keck,
}
use keck.Controller.Aggregator.Ingest.{
  ingest, ingest_pods, ingest_pod, evict_stale, trim_history, is_empty, is_gone,
}

-- The readings that a report has for a namespace, in its order.
abbrev pub readings : String → List PodPowerReport → List (ℕ × ℕ)
readings ns [] = []
readings ns (p ∷ ps) =
    if p.namespace == ns then (p.timestamp, p.total_uw) ∷ readings ns ps else readings ns ps

abbrev pub grown : Option (List (ℕ × ℕ)) → List (ℕ × ℕ) → Option (List (ℕ × ℕ))
grown old [] = old
grown old (e ∷ es) = some (unwrap_or old [] ++ (e ∷ es))

grown-grown :
    (old : Option (List (ℕ × ℕ))) (e : ℕ × ℕ) (es : List (ℕ × ℕ))
    → grown (some (unwrap_or old [] ++ e ∷ [])) es ≡ some (unwrap_or old [] ++ (e ∷ es))
grown-grown old e [] = refl
grown-grown old e (x ∷ es) =
    ap {B = Option (List (ℕ × ℕ))} some (append_assoc (unwrap_or old []) (e ∷ []) (x ∷ es))

module _ {ℓ} {F : Type ℓ} where
  get-ingest_pods_history :
      (now : ℕ) (method ns : String) (ps : List PodPowerReport) (a : ClusterAggregator F)
      → get ns (ingest_pods now method ps a).history ≡ grown (get ns a.history) (readings ns ps)
  unfolding ingest_pods ingest_pod
  get-ingest_pods_history now method ns [] a = refl
  get-ingest_pods_history now method ns (p ∷ ps) a =
      let e : ℕ × ℕ = (p.timestamp, p.total_uw) in
      let put = get-upsert p.namespace ns [] (λ h. h ++ e ∷ []) a.history in
      let rest = get-ingest_pods_history now method ns ps (ingest_pod now method p a) in
      elim (Bool-cases (p.namespace == ns)) [
        | inl same ↦
            rw (rest, put, same, (eq_iff p.namespace ns).0 same)
              (grown-grown (get ns a.history) e (readings ns ps))
        | inr other ↦ rw (rest, put, other)
      ]

  ingest_pods_retention :
      (now : ℕ) (method : String) (ps : List PodPowerReport) (a : ClusterAggregator F)
      → (ingest_pods now method ps a).history_retention ≡ a.history_retention
  unfolding ingest_pods ingest_pod
  ingest_pods_retention now method [] a = refl
  ingest_pods_retention now method (p ∷ ps) a =
      ingest_pods_retention now method ps (ingest_pod now method p a)

  ingest_pods-history_once :
      (now : ℕ) (method : String) (ps : List PodPowerReport) (a : ClusterAggregator F)
      → IsMap a.history
      → IsMap (ingest_pods now method ps a).history
  unfolding ingest_pods ingest_pod
  ingest_pods-history_once now method [] a h = h
  ingest_pods-history_once now method (p ∷ ps) a h =
      ingest_pods-history_once now method ps _ (upsert-IsMap p.namespace [] _ a.history h)

  -- A namespace's history after `ingest` is the old one with the report's readings of it behind,
  -- less what is older than the retention time; a history of which nothing is left is removed.
  pub get-ingest_history :
      (now later wall : ℕ) (r : AgentReport F) (a : ClusterAggregator F) (ns : String)
      → IsMap a.history
      → get ns (ingest now later wall r a).history
        ≡ keep_if
            (λ h. not (is_empty h))
            (map_option
              (filter (λ e. leb wall (e.0 + a.history_retention)))
              (grown (get ns a.history) (readings ns r.pods)))
  unfolding ingest evict_stale trim_history
  get-ingest_history now later wall r a ns h =
      let node = r.node.node_name in
      let method = method_or_keck r.node.metering_method in
      let seen : ClusterAggregator F = record a {
        nodes = insert (node, method) (record { report = r.node; received_at = now }) a.nodes;
        pods = retain (λ k s. not (is_gone method node (map (λ p. p.pod_uid) r.pods) k s)) a.pods;
      } in
      let once = ingest_pods-history_once now method r.pods seen h in
      rw (
        ingest_pods_retention now method r.pods seen,
        get-retain ns (λ k h. not (is_empty h)) _ (map_values-IsMap _ _ once),
        get-map_values ns,
        get-ingest_pods_history now method ns r.pods seen,
      )
