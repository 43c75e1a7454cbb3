-- ===== src/Controller/Aggregator/Ingest/Lookup.antt =====
-- keck-controller/src/aggregator/mod.rs: the entry of a key under `ingest`.
use keck.Base.{
  ℕ, ◌≡◌, refl, sym, String, string_eq, pair_eq, ◌==◌, not, Option, none, some, inl, inr,
  Bool-cases, List, [], ◌∷◌, map, if◌then◌else◌, contains, keep_if, is_some, arith,
}
use text.Mathlib.TextEquality.{eq_iff}
use keck.Base.Maps.{IsMap, get, insert, retain, get-insert, get-retain, insert-IsMap, retain-IsMap}
use keck.Controller.Aggregator.Types.{
  PodPowerReport, AgentReport, PodState, NodeState, Slot, ClusterAggregator, method_or_keck,
}
use keck.Controller.Aggregator.Ingest.{
  ingest, ingest_pods, ingest_pod, evict_stale, trim_history, is_gone, is_fresh, with_method,
}

abbrev prefer : Option PodPowerReport → Option PodPowerReport → Option PodPowerReport
prefer (some q) p = some q
prefer none p = p

-- The last pod of a report with a uid: a later one replaces an earlier one.
abbrev pub last_of : String → List PodPowerReport → Option PodPowerReport
last_of uid [] = none
last_of uid (p ∷ ps) = prefer (last_of uid ps) (if p.pod_uid == uid then some p else none)

abbrev pub stored : ℕ → String → Option PodPowerReport → Option PodState → Option PodState
stored now method none old = old
stored now method (some p) old = some (record { report = with_method method p; received_at = now })

stored-prefer :
    (now : ℕ) (method : String) (q p : Option PodPowerReport) (old : Option PodState)
    → stored now method (prefer q p) old ≡ stored now method q (stored now method p old)
stored-prefer now method none p old = refl
stored-prefer now method (some q) p old = refl

contains-last_of :
    (uid : String) (ps : List PodPowerReport)
    → contains (map (λ p. p.pod_uid) ps) uid ≡ is_some (last_of uid ps)
contains-last_of uid [] = refl
contains-last_of uid (p ∷ ps) = ground (arith, contains-last_of uid ps)

-- What a report of a node by a method leaves under a key, before the stale entries go.
abbrev pub after_report :
    ℕ → String → String → List PodPowerReport → Slot → Option PodState → Option PodState
after_report now method node ps (uid, m) old =
    if method == m
    then stored now method (last_of uid ps) (
        if is_some (last_of uid ps)
        then none
        else keep_if (λ s. not (s.report.node_name == node)) old)
    else old

after_report_lem :
    (now : ℕ) (method node uid m : String) (ps : List PodPowerReport) (old : Option PodState)
    → (if method == m
        then stored now method
            (last_of uid ps)
            (keep_if (λ s. not (is_gone method node (map (λ p. p.pod_uid) ps) (uid, m) s)) old)
        else keep_if (λ s. not (is_gone method node (map (λ p. p.pod_uid) ps) (uid, m) s)) old)
      ≡ after_report now method node ps (uid, m) old
after_report_lem now method node uid m ps none = ground (arith, eq_iff method m, eq_iff m method)
after_report_lem now method node uid m ps (some s) =
    ground (arith, eq_iff method m, eq_iff m method, contains-last_of uid ps)

module _ {ℓ} {F : Type ℓ} where
  get-ingest_pod :
      (now : ℕ) (method uid m : String) (p : PodPowerReport) (a : ClusterAggregator F)
      → get (uid, m) (ingest_pod now method p a).pods ≡ (
          if method == m
          then stored now method (if p.pod_uid == uid then some p else none) (get (uid, m) a.pods)
          else get (uid, m) a.pods)
  unfolding ingest_pod
  get-ingest_pod now method uid m p a = ground (
    arith,
    get-insert (p.pod_uid, method) (uid, m)
        (record { report = with_method method p; received_at = now }) a.pods,
  )

  get-ingest_pods :
      (now : ℕ) (method uid m : String) (ps : List PodPowerReport) (a : ClusterAggregator F)
      → get (uid, m) (ingest_pods now method ps a).pods ≡ (
          if method == m
          then stored now method (last_of uid ps) (get (uid, m) a.pods)
          else get (uid, m) a.pods)
  unfolding ingest_pods
  get-ingest_pods now method uid m [] a = ground arith
  get-ingest_pods now method uid m (p ∷ ps) a =
      let step = get-ingest_pod now method uid m p a in
      let rest = get-ingest_pods now method uid m ps (ingest_pod now method p a) in
      elim (Bool-cases (method == m)) [
        | inl same ↦ rw (rest, step, same) (sym (stored-prefer now method (last_of uid ps) _ _))
        | inr other ↦ rw (rest, step, other)
      ]

  -- The loop over the pods leaves the rest of the state alone.
  ingest_pods_frame :
      (now : ℕ) (method : String) (ps : List PodPowerReport) (a : ClusterAggregator F)
      → let b = ingest_pods now method ps a in
        (b.nodes ≡ a.nodes)
        × (b.staleness_threshold ≡ a.staleness_threshold)
        × (b.history_retention ≡ a.history_retention)
  unfolding ingest_pods ingest_pod
  ingest_pods_frame now method [] a = (refl, refl, refl)
  ingest_pods_frame now method (p ∷ ps) a =
      ingest_pods_frame now method ps (ingest_pod now method p a)

  ingest_pods-IsMap :
      (now : ℕ) (method : String) (ps : List PodPowerReport) (a : ClusterAggregator F)
      → IsMap a.pods
      → IsMap (ingest_pods now method ps a).pods
  unfolding ingest_pods ingest_pod
  ingest_pods-IsMap now method [] a h = h
  ingest_pods-IsMap now method (p ∷ ps) a h =
      ingest_pods-IsMap now method ps _ (insert-IsMap (p.pod_uid, method) _ a.pods h)

  -- After `ingest` a key of the reporting method holds the last pod that the report has under its
  -- uid, or, if there is none, what it held before unless that was a pod of the reporting node; a
  -- key of another method holds what it held; and of all these only what is fresh is left.
  pub get-ingest :
      (now later wall : ℕ) (r : AgentReport F) (a : ClusterAggregator F) (uid m : String)
      → IsMap a.pods
      → get (uid, m) (ingest now later wall r a).pods
        ≡ keep_if
            (λ s. is_fresh later a.staleness_threshold s.received_at)
            (after_report now
              (method_or_keck r.node.metering_method)
              r.node.node_name
              r.pods
              (uid, m)
              (get (uid, m) a.pods))
  unfolding ingest evict_stale trim_history
  get-ingest now later wall r a uid m h =
      let node = r.node.node_name in
      let method = method_or_keck r.node.metering_method in
      let gone =
        λ (k : Slot) (s : PodState). not (is_gone method node (map (λ p. p.pod_uid) r.pods) k s) in
      let seen : ClusterAggregator F = record a {
        nodes = insert (node, method) (record { report = r.node; received_at = now }) a.nodes;
        pods = retain gone a.pods;
      } in
      let once = retain-IsMap gone a.pods h in
      rw (
        get-retain (uid, m) _ _ (ingest_pods-IsMap now method r.pods seen once),
        get-ingest_pods now method uid m r.pods seen,
        (ingest_pods_frame now method r.pods seen).1,
        get-retain (uid, m) gone a.pods h,
        after_report_lem now method node uid m r.pods (get (uid, m) a.pods),
      )

  -- A node's entry is the new report; every other entry stays; and only what is fresh is left.
  pub get-ingest_node :
      (now later wall : ℕ) (r : AgentReport F) (a : ClusterAggregator F) (name m : String)
      → IsMap a.nodes
      → get (name, m) (ingest now later wall r a).nodes
        ≡ keep_if
            (λ s. is_fresh later a.staleness_threshold s.received_at)
            (if ◌==◌ {K = Slot} (r.node.node_name, method_or_keck r.node.metering_method) (name, m)
              then some (record { report = r.node; received_at = now })
              else get (name, m) a.nodes)
  unfolding ingest evict_stale trim_history
  get-ingest_node now later wall r a name m h =
      let node = r.node.node_name in
      let method = method_or_keck r.node.metering_method in
      let gone =
        λ (k : Slot) (s : PodState). not (is_gone method node (map (λ p. p.pod_uid) r.pods) k s) in
      let new : NodeState F = record { report = r.node; received_at = now } in
      let seen : ClusterAggregator F = record a {
        nodes = insert (node, method) new a.nodes;
        pods = retain gone a.pods;
      } in
      let frame = ingest_pods_frame now method r.pods seen in
      rw (
        frame.0,
        frame.1,
        get-retain (name, m) _ _ (insert-IsMap (node, method) new a.nodes h),
        get-insert (node, method) (name, m) new a.nodes,
      )
