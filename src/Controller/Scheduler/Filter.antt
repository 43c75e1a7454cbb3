-- ===== src/Controller/Scheduler/Filter.antt =====
-- keck-controller/src/scheduler/mod.rs: the answers of `filter`.
use mathlib.Core.List.{append-nil, append_assoc}
use keck.Base.{
  ap, ℕ, ◌≡◌, refl, sym, ◌∙◌, String, string_eq, ◌==◌, Bool, true, false, Option, none, some, List,
  [], ◌∷◌, ◌++◌, arith, if◌then◌else◌, is_some, not, filter, contains, inl, inr, Bool-cases, ◌&&◌,
  All,
}
use keck.Base.Float.{Float64}
use keck.Base.Maps.{Map, get, insert, get-insert}
use keck.Base.Groups.{run_steps}
use keck.Controller.Aggregator.Types.{ClusterAggregator}
use keck.Controller.Aggregator.Views.{NodeSummary, node_summaries}
use keck.Controller.Scheduler.{
  SchedulerConfig, Reason, unreliable, over_budget, FilterResult, node_map, current_ns_power,
  consider, filter_nodes,
}

contains-filter :
    (p : String → Bool) (xs : List String) (n : String)
    → p n ≡ true
    → contains xs n ≡ true
    → contains (filter p xs) n ≡ true
contains-filter p [] n h k = k
contains-filter p (x ∷ xs) n h k = elim (Bool-cases (x == n)) [
  | inl hit ↦
      let same = (string_eq.beq_iff x n).0 hit in
      rw same (rw h (rw ((string_eq.beq_iff n n).1 refl) refl))
  | inr miss ↦ elim (Bool-cases (p x)) [
    | inl kept ↦ rw (kept, miss) (contains-filter p xs n h (ground arith))
    | inr dropped ↦ rw dropped (contains-filter p xs n h (ground arith))
  ]
]

module _ {ℓ} {F : Type ℓ} ⦃f : Float64 F⦄ where
  -- Why a node is rejected, if it is.
  abbrev rejection : Option (NodeSummary F) → Option F → String → F → Option (Reason F)
  rejection none budget ns current = none
  rejection (some s) budget ns current =
      if f.lt (f.lit 5 1) s.error_ratio then some (unreliable s.error_ratio) else elim budget [
        | none ↦ none
        | some b ↦ if f.le b current then some (over_budget ns current b) else none
      ]

  abbrev pub verdict :
      ℕ → SchedulerConfig F → String → ClusterAggregator F → String → Option (Reason F)
  verdict now config ns a n =
      rejection (get n (node_map now a)) (get ns config.namespace_budgets) ns
        (current_ns_power ns a)

  abbrev place : Option (Reason F) → String → FilterResult F → FilterResult F
  place none n r = record r { nodes = r.nodes ++ n ∷ [] }
  place (some why) n r = record r { failed = insert n why r.failed }

  consider_lem :
      (o : Option (NodeSummary F)) (budget : Option F) (ns : String) (current : F) (n : String)
      (r : FilterResult F)
      → consider o budget ns current n r ≡ place (rejection o budget ns current) n r
  unfolding consider
  consider_lem none budget ns current n r = refl
  consider_lem (some s) budget ns current n r = elim (Bool-cases (f.lt (f.lit 5 1) s.error_ratio)) [
    | inl bad ↦ rw bad refl
    | inr fine ↦ rw fine (consider_budget budget)
  ]
    where
      consider_budget :
          (o : Option F)
          → (elim o [
            | none ↦ record r { nodes = r.nodes ++ n ∷ [] }
            | some b ↦
                if f.le b current
                then record r { failed = insert n (over_budget ns current b) r.failed }
                else record r { nodes = r.nodes ++ n ∷ [] }
          ])
            ≡ place
                (elim o [
                  | none ↦ none
                  | some b ↦ if f.le b current then some (over_budget ns current b) else none
                ])
                n
                r
      consider_budget none = refl
      consider_budget (some b) = elim (Bool-cases (f.le b current)) [
        | inl over ↦ rw over refl
        | inr under ↦ rw under refl
      ]

  abbrev place_all : (String → Option (Reason F)) → List String → FilterResult F → FilterResult F
  place_all why = run_steps λ n r. place (why n) n r

  place-nodes :
      (o : Option (Reason F)) (n : String) (r : FilterResult F)
      → (place o n r).nodes ≡ r.nodes ++ (if not (is_some o) then n ∷ [] else [])
  place-nodes none n r = refl
  place-nodes (some why) n r = sym (append-nil r.nodes)

  place_all-nodes :
      (why : String → Option (Reason F)) (ns : List String) (r : FilterResult F)
      → (place_all why ns r).nodes ≡ r.nodes ++ filter (λ n. not (is_some (why n))) ns
  place_all-nodes why [] r = sym (append-nil r.nodes)
  place_all-nodes why (n ∷ ns) r =
      place_all-nodes why ns (place (why n) n r)
      ∙ ap (λ xs. xs ++ rest) (place-nodes (why n) n r)
      ∙ append_assoc r.nodes (if not (is_some (why n)) then n ∷ [] else []) rest
      ∙ ap (λ xs. r.nodes ++ xs) (joined (why n))
    where
      rest : List String
      rest = filter (λ m. not (is_some (why m))) ns

      joined :
          (o : Option (Reason F))
          → (if not (is_some o) then n ∷ [] else []) ++ rest
            ≡ (if not (is_some o) then n ∷ rest else rest)
      joined none = refl
      joined (some reason) = refl

  place-failed :
      (o : Option (Reason F)) (n m : String) (r : FilterResult F)
      → get m (place o n r).failed ≡ (if (n == m) && is_some o then o else get m r.failed)
  place-failed none n m r = ground arith
  place-failed (some why) n m r = get-insert n m why r.failed ∙ ground arith

  place_all-failed :
      (why : String → Option (Reason F)) (m : String) (ns : List String) (r : FilterResult F)
      → get m (place_all why ns r).failed
        ≡ (if contains ns m && is_some (why m) then why m else get m r.failed)
  place_all-failed why m [] r = refl
  place_all-failed why m (n ∷ ns) r =
      place_all-failed why m ns (place (why n) n r)
      ∙ ap (λ o. if contains ns m && is_some (why m) then why m else o) (place-failed (why n) n m r)
      ∙ same
    where
      same :
          (if contains ns m && is_some (why m)
            then why m
            else if (n == m) && is_some (why n)
            then why n
            else get m r.failed)
          ≡ (if contains (n ∷ ns) m && is_some (why m) then why m else get m r.failed)
      same = elim (Bool-cases (n == m)) [
        | inl hit ↦ rw ((string_eq.beq_iff n m).0 hit) (ground arith)
        | inr miss ↦ rw miss (ground arith)
      ]

  run_steps-congr :
      (why : String → Option (Reason F)) (step : String → FilterResult F → FilterResult F)
      → ((n : String) (r : FilterResult F) → step n r ≡ place (why n) n r)
      → (ns : List String) (r : FilterResult F) → run_steps step ns r ≡ place_all why ns r
  run_steps-congr why step h [] r = refl
  run_steps-congr why step h (n ∷ ns) r =
      ap (run_steps step ns) (h n r) ∙ run_steps-congr why step h ns (place (why n) n r)

  filter_nodes-eq-place_all :
      (now : ℕ) (config : SchedulerConfig F) (candidates : List String) (ns : String)
      (a : ClusterAggregator F)
      → filter_nodes now config candidates ns a
        ≡ place_all (verdict now config ns a) candidates (record { nodes = []; failed = [] })
  unfolding filter_nodes
  filter_nodes-eq-place_all now config candidates ns a =
      run_steps-congr (verdict now config ns a) _
        (λ n r.
          consider_lem (get n (node_map now a)) (get ns config.namespace_budgets) ns
            (current_ns_power ns a) n r)
        candidates _

  drop_test :
      (b : Bool) (o : Option (Reason F))
      → (if b && is_some o then o else none) ≡ (if b then o else none)
  drop_test true none = refl
  drop_test true (some why) = refl
  drop_test false o = refl

  -- Every candidate passes or fails, never both: the nodes that pass are the candidates, in their
  -- order, that have no reason against them, and the reason that a name is recorded with is the one
  -- against it, if it is a candidate and there is one.
  pub filter_nodes_complete :
      (now : ℕ) (config : SchedulerConfig F) (candidates : List String) (ns : String)
      (a : ClusterAggregator F) (n : String)
      → ((filter_nodes now config candidates ns a).nodes
          ≡ filter (λ m. not (is_some (verdict now config ns a m))) candidates)
        × (get n (filter_nodes now config candidates ns a).failed
            ≡ (if contains candidates n then verdict now config ns a n else none))
  unfolding get
  filter_nodes_complete now config candidates ns a n =
      let e = filter_nodes-eq-place_all now config candidates ns a in
      (
        ap (λ r. r.nodes) e ∙ place_all-nodes (verdict now config ns a) candidates _,
        ap (λ r. get n r.failed) e
            ∙ place_all-failed (verdict now config ns a) n candidates _
            ∙ drop_test (contains candidates n) (verdict now config ns a n),
      )

  pub get-insert-All :
      (n : String) (xs : List (NodeSummary F)) (m : Map String (NodeSummary F))
      → All (λ s. (s.node_name == n) ≡ false) xs
      → get n (run_steps (λ s m. insert s.node_name s m) xs m) ≡ get n m
  get-insert-All n [] m h = refl
  get-insert-All n (s ∷ xs) m h =
      get-insert-All n xs (insert s.node_name s m) h.1
      ∙ get-insert s.node_name n s m
      ∙ ap (λ b. if b then some s else get n m) h.0

  -- A node that has not reported to Keck is not filtered out, whatever the budget of the namespace.
  pub filter_nodes_unknown :
      (now : ℕ) (config : SchedulerConfig F) (candidates : List String) (ns : String)
      (a : ClusterAggregator F) (n : String)
      → All (λ s. (s.node_name == n) ≡ false) (node_summaries now (some "keck") a)
      → contains candidates n ≡ true
      → (contains (filter_nodes now config candidates ns a).nodes n ≡ true)
        × (get n (filter_nodes now config candidates ns a).failed ≡ none)
  unfolding node_map get
  filter_nodes_unknown now config candidates ns a n h k =
      let complete = filter_nodes_complete now config candidates ns a n in
      let absent : get n (node_map now a) ≡ none = get-insert-All n _ [] h in
      let unknown : verdict now config ns a n ≡ none =
        ap (λ o. rejection o (get ns config.namespace_budgets) ns (current_ns_power ns a)) absent in
      (
        ap (λ xs. contains xs n) complete.0
            ∙ contains-filter _ candidates n (ap (λ o. not (is_some o)) unknown) k,
        complete.1 ∙ ground (arith, k, unknown),
      )
