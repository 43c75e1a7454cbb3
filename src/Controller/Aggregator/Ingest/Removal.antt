-- ===== src/Controller/Aggregator/Ingest/Removal.antt =====
-- keck-controller/src/aggregator/mod.rs: the removal of nodes, and what comes after it.
use keck.Base.{
  ℕ, ◌≡◌, String, string_eq, pair_eq, ◌==◌, Bool, true, false, ◌||◌, none, some, Option, refl, List,
  [], ◌∷◌, map, All, contains, keep_if, arith, ap, ◌∙◌,
}
use keck.Base.Maps.{IsMap, get, get-retain, All-insert, All-retain, retain_kept}
use keck.Controller.Aggregator.Types.{
  PodPowerReport, PodState, Slot, ClusterAggregator, method_or_keck,
}
use keck.Controller.Aggregator.Ingest.{
  ingest, ingest_pods, ingest_pod, evict_stale, trim_history, evict_removed_nodes, with_method,
}
use keck.Controller.Aggregator.Ingest.Invariant.{Event, reports, removes, run, step}

All_of {ℓ ℓ₁ ℓ₂} :
    {A : Type ℓ} {P : A → Type ℓ₁} {Q : A → Type ℓ₂}
    → ((x : A) → P x → Q x)
    → (xs : List A) → All P xs
    → All Q xs
All_of f [] h = tt
All_of f (x ∷ xs) h = (f x h.0, All_of f xs h.1)

-- A node that is not live differs from every live one.
live-ne :
    (live : List String) (n k : String)
    → contains live n ≡ false
    → contains live k ≡ true
    → (k == n) ≡ false
live-ne live n k h g = ground (arith, string_eq.beq_iff k n)

contains_cons :
    (x : String) (xs : List String) (n : String)
    → contains (x ∷ xs) n ≡ false
    → ((x == n) ≡ false) × (contains xs n ≡ false)
contains_cons x xs n h = ground arith

or_false : (a b : Bool) → (a || b) ≡ false → (a ≡ false) × (b ≡ false)
or_false a b h = ground arith

with_method-node : (m : String) (p : PodPowerReport) → (with_method m p).node_name ≡ p.node_name
with_method-node m p = ground arith

keep_if_all {ℓ} : {A : Type ℓ} (b : Bool) (o : Option A) → b ≡ true → keep_if (λ _. b) o ≡ o
keep_if_all b none h = refl
keep_if_all b (some x) h = rw h refl

module _ {ℓ} {F : Type ℓ} where
  -- A report from the node or with a pod of it.
  abbrev pub mentions : String → Event F → Bool
  mentions n (reports now later wall r) =
      (r.node.node_name == n) || contains (map (λ p. p.node_name) r.pods) n
  mentions n (removes live) = false

  -- No slot of the node and no pod of it is left.
  pub record IsAbsent (n : String) (a : ClusterAggregator F) : Type ℓ where
    pub no_slot : All (λ e. (e.0.0 == n) ≡ false) a.nodes
    pub no_pod : All (λ e. (e.1.report.node_name == n) ≡ false) a.pods

  removal-IsAbsent :
      (live : List String) (n : String) (a : ClusterAggregator F)
      → contains live n ≡ false
      → IsAbsent n (evict_removed_nodes live a)
  unfolding evict_removed_nodes
  removal-IsAbsent live n a h = record {
    no_slot =
        All_of (λ e g. live-ne live n e.0.0 h g) _ (retain_kept (λ k s. contains live k.0) a.nodes);
    no_pod =
        All_of (λ e g. live-ne live n e.1.report.node_name h g) _
          (retain_kept (λ k s. contains live s.report.node_name) a.pods);
  }

  ingest_pods-IsAbsent :
      (now : ℕ) (method n : String) (ps : List PodPowerReport) (a : ClusterAggregator F)
      → contains (map (λ p. p.node_name) ps) n ≡ false
      → IsAbsent n a
      → IsAbsent n (ingest_pods now method ps a)
  unfolding ingest_pods ingest_pod
  ingest_pods-IsAbsent now method n [] a h v = v
  ingest_pods-IsAbsent now method n (p ∷ ps) a h v =
      let c = contains_cons p.node_name (map (λ q. q.node_name) ps) n h in
      ingest_pods-IsAbsent now method n ps _ c.1 (record {
        no_slot = v.no_slot;
        no_pod =
            All-insert _ (p.pod_uid, method) _ a.pods
              (ap (λ x. x == n) (with_method-node method p) ∙ c.0) v.no_pod;
      })

  step-IsAbsent :
      (n : String) (e : Event F) (a : ClusterAggregator F)
      → mentions n e ≡ false
      → IsAbsent n a
      → IsAbsent n (step e a)
  unfolding ingest evict_stale trim_history evict_removed_nodes
  step-IsAbsent n (reports now later wall r) a h v =
      let method = method_or_keck r.node.metering_method in
      let c = or_false (r.node.node_name == n) (contains (map (λ p. p.node_name) r.pods) n) h in
      let all = ingest_pods-IsAbsent now method n r.pods _ c.1 (record {
        no_slot = All-insert _ (r.node.node_name, method) _ a.nodes c.0 v.no_slot;
        no_pod = All-retain _ _ a.pods v.no_pod;
      }) in
      record { no_slot = All-retain _ _ _ all.no_slot; no_pod = All-retain _ _ _ all.no_pod }
  step-IsAbsent n (removes live) a h v = record {
    no_slot = All-retain _ _ a.nodes v.no_slot;
    no_pod = All-retain _ _ a.pods v.no_pod;
  }

  run-IsAbsent :
      (n : String) (es : List (Event F)) (a : ClusterAggregator F)
      → All (λ e. mentions n e ≡ false) es
      → IsAbsent n a
      → IsAbsent n (run es a)
  run-IsAbsent n [] a h v = v
  run-IsAbsent n (e ∷ es) a h v = run-IsAbsent n es _ h.1 (step-IsAbsent n e a h.0 v)

  -- A node that a removal does not name as live is gone for good: as long as no report is from it or
  -- has a pod of it, whatever else happens, the state has no slot of it and no pod of it. A live node
  -- keeps its slots at the removal and its pods stay as they are, in a state whose slots stand once.
  pub run-evict_removed_nodes :
      (live : List String) (n m method : String) (k : Slot) (s : PodState) (es : List (Event F))
      (a : ClusterAggregator F)
      → IsMap a.pods
      → IsMap a.nodes
      → contains live n ≡ false
      → contains live m ≡ true
      → get k a.pods ≡ some s
      → s.report.node_name ≡ m
      → All (λ e. mentions n e ≡ false) es
      → let b = evict_removed_nodes live a in
        IsAbsent n (run es b)
        × (get (m, method) b.nodes ≡ get (m, method) a.nodes)
        × (get k b.pods ≡ some s)
  unfolding evict_removed_nodes
  run-evict_removed_nodes live n m method k s es a once once_nodes dead alive here of_m quiet = (
    run-IsAbsent n es _ quiet (removal-IsAbsent live n a dead),
    get-retain (m, method) (λ j _. contains live j.0) a.nodes once_nodes
        ∙ keep_if_all (contains live m) _ alive,
    get-retain k (λ _ t. contains live t.report.node_name) a.pods once
        ∙ ap (keep_if (λ t. contains live t.report.node_name)) here
        ∙ rw (of_m, alive) refl,
  )
