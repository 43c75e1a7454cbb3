-- ===== src/Controller/Scheduler/Scores.antt =====
-- keck-controller/src/scheduler/mod.rs: the scores of `prioritize`.
use native.Mathlib.Nat.{min-le_right}
use keck.Base.{
  ℕ, ◌≤◌, ◌≡◌, refl, String, string_eq, List, [], ◌∷◌, map, All, arith, Option, none, some, ◌==◌,
  ◌||◌, eqb, true, false, contains, Bool-cases, inl, inr,
}
use keck.Base.Float.{Float64}
use keck.Base.Maps.{get}
use keck.Controller.Aggregator.Types.{ClusterAggregator}
use keck.Controller.Aggregator.Views.{NodeSummary, node_summaries}
use keck.Controller.Scheduler.Filter.{get-insert-All}
use keck.Controller.Scheduler.{SchedulerConfig, node_map, score_of, prioritize}

module _ {ℓ} {F : Type ℓ} ⦃f : Float64 F⦄ where
  score_of-node_name :
      (config : SchedulerConfig F) (n : String) (o : Option (NodeSummary F))
      → (score_of config n o).node_name ≡ n
  unfolding score_of
  score_of-node_name config n none = refl
  score_of-node_name config n (some s) = refl

  score_of-le :
      (config : SchedulerConfig F) (n : String) (o : Option (NodeSummary F))
      → (score_of config n o).score ≤ 100
  unfolding score_of
  score_of-le config n none = omega arith
  score_of-le config n (some s) = min-le_right _ 100

  -- The nodes that have reported to Keck.
  abbrev pub known : ℕ → ClusterAggregator F → List String
  known now a = map (λ s. s.node_name) (node_summaries now (some "keck") a)

  not_contained :
      (n : String) (xs : List (NodeSummary F))
      → contains (map (λ s. s.node_name) xs) n ≡ false
      → All (λ s. (s.node_name == n) ≡ false) xs
  not_contained n [] h = tt
  not_contained n (x ∷ xs) h =
      let c : ((x.node_name == n) ≡ false) × (contains (map (λ s. s.node_name) xs) n ≡ false) =
        ground arith in
      (c.0, not_contained n xs c.1)

  score_of_unknown :
      (now : ℕ) (config : SchedulerConfig F) (a : ClusterAggregator F) (n : String)
      → (contains (known now a) n || eqb (score_of config n (get n (node_map now a))).score 50)
        ≡ true
  unfolding node_map score_of get
  score_of_unknown now config a n = elim (Bool-cases (contains (known now a) n)) [
    | inl reported ↦ rw reported refl
    | inr unknown ↦
        rw
          (
            unknown,
            get-insert-All n _ [] (not_contained n (node_summaries now (some "keck") a) unknown),
          )
          refl
  ]

  bounds :
      (now : ℕ) (config : SchedulerConfig F) (a : ClusterAggregator F) (ns : List String)
      → let scores = map (λ n. score_of config n (get n (node_map now a))) ns in
        (map (λ s. s.node_name) scores ≡ ns)
        × All (λ s. s.score ≤ 100) scores
        × All (λ s. (contains (known now a) s.node_name || eqb s.score 50) ≡ true) scores
  bounds now config a [] = (refl, tt, tt)
  bounds now config a (n ∷ ns) =
      let rest = bounds now config a ns in
      let o = get n (node_map now a) in
      (
        rw (score_of-node_name config n o, rest.0) refl,
        (score_of-le config n o, rest.1),
        (rw (score_of-node_name config n o) (score_of_unknown now config a n), rest.2),
      )

  -- There is one score for each candidate, in the order of the candidates. Each is at most 100,
  -- whatever the nodes report, a platform power of 0 included, and that of a node that has not
  -- reported to Keck is the neutral 50.
  pub prioritize_bounds :
      (now : ℕ) (config : SchedulerConfig F) (candidates : List String) (a : ClusterAggregator F)
      → let scores = prioritize now config candidates a in
        (map (λ s. s.node_name) scores ≡ candidates)
        × All (λ s. s.score ≤ 100) scores
        × All (λ s. (contains (known now a) s.node_name || eqb s.score 50) ≡ true) scores
  unfolding prioritize
  prioritize_bounds now config candidates a = bounds now config a candidates
