-- ===== src/Fleet/Registry/Teams.antt =====
-- keck-fleet/src/registry/mod.rs: the power of the teams.
use keck.Base.{
  Eq, ltb, length, any, ◌&&◌, ◌≡◌, refl, sym, ap, ◌∙◌, String, string_eq, ◌==◌, true, Option, none,
  some, List, [], ◌∷◌, ◌++◌, map, if◌then◌else◌, filter, find, All, All-filter, arith, inl, inr,
  Bool-cases, unwrap_or,
}
use mathlib.Core.List.{foldl, append_assoc, append-nil}
use keck.Base.Float.{Float64, sum_f64}
use keck.Base.Maps.{Map, get, values, IsMap}
use keck.Base.Groups.{get-group, group-IsMap, has_key, entry_of, run_steps, All-group}
use keck.Base.Sorting.{sort_by, IsUnique, find-sort_by}
use keck.Fleet.Registry.Types.{ClusterReport, NamespaceSummary, ClusterRegistry, TeamPowerView}
use keck.Fleet.Registry.{
  items, owner, breakdown, per_kilowatt, no_team, add_to_team, team_key, team_map, team_power,
  sort_watts, is_nan,
}

-- In a map whose entries carry their keys, looking for a name in the values is looking up the key.
module _ {ℓ κ} {K : Type ℓ} {V : Type κ} ⦃e : Eq K⦄ (name : V → K) where
  find-values :
      (k : K) (m : Map K V)
      → All (λ x. name x.1 ≡ x.0) m
      → find (λ v. name v == k) (values m) ≡ get k m
  unfolding get
  find-values k [] h = refl
  find-values k (x ∷ m) (h, hs) = rw h (λ i. if x.0 == k then some x.1 else find-values k m hs i)

  values-IsUnique :
      (k : K) (m : Map K V)
      → IsMap m
      → All (λ x. name x.1 ≡ x.0) m
      → IsUnique (λ v. name v == k) (values m)
  values-IsUnique k [] d h = tt
  values-IsUnique k (x ∷ m) (d, ds) (h, hs) = (
    λ hit.
        let here : x.0 ≡ k = sym h ∙ (e.beq_iff (name x.1) k).0 hit in
        find-values k m hs ∙ ap (λ i. get i m) (sym here) ∙ d,
    values-IsUnique k m ds hs,
  )

module _ {ℓ} {F : Type ℓ} where
  -- The namespaces of a team, over all clusters.
  abbrev pub items_of : String → ClusterRegistry F → List (ClusterReport F × NamespaceSummary F)
  items_of team reg = filter (λ x. owner reg x.1 == team) (items reg)

module _ {ℓ} {F : Type ℓ} ⦃f : Float64 F⦄ where
  abbrev pub view_from : String → List (ClusterReport F × NamespaceSummary F) → TeamPowerView F
  view_from team xs = record {
    team = team;
    total_watts = sum_f64 (map (λ x. x.1.total_watts) xs);
    carbon_grams_per_hour =
        sum_f64 (map (λ x. per_kilowatt x.1.total_watts x.0.carbon.intensity_grams_per_kwh) xs);
    cost_per_hour = sum_f64 (map (λ x. per_kilowatt x.1.total_watts x.0.carbon.cost_per_kwh) xs);
    per_cluster = map breakdown xs;
  }

  -- The view of a team that has just these namespaces.
  abbrev pub team_of :
      String → List (ClusterReport F × NamespaceSummary F) → Option (TeamPowerView F)
  team_of team [] = none
  team_of team (x ∷ xs) = some (view_from team (x ∷ xs))

  added :
      (xs : List (ClusterReport F × NamespaceSummary F)) (v : TeamPowerView F)
      → run_steps add_to_team xs v ≡ record {
        team = v.team;
        total_watts = foldl f.add v.total_watts (map (λ x. x.1.total_watts) xs);
        carbon_grams_per_hour =
            foldl f.add v.carbon_grams_per_hour
              (map (λ x. per_kilowatt x.1.total_watts x.0.carbon.intensity_grams_per_kwh) xs);
        cost_per_hour =
            foldl f.add v.cost_per_hour
              (map (λ x. per_kilowatt x.1.total_watts x.0.carbon.cost_per_kwh) xs);
        per_cluster = v.per_cluster ++ map breakdown xs;
      }
  unfolding add_to_team
  added [] v = let same = sym (append-nil v.per_cluster) in λ i. record v { per_cluster = same i }
  added (x ∷ xs) v =
      let w = add_to_team x v in
      let pushed = append_assoc v.per_cluster (breakdown x ∷ []) (map breakdown xs) in
      added xs w ∙ (λ i. record {
        team = v.team;
        total_watts = foldl f.add w.total_watts (map (λ y. y.1.total_watts) xs);
        carbon_grams_per_hour =
            foldl f.add w.carbon_grams_per_hour
              (map (λ y. per_kilowatt y.1.total_watts y.0.carbon.intensity_grams_per_kwh) xs);
        cost_per_hour =
            foldl f.add w.cost_per_hour
              (map (λ y. per_kilowatt y.1.total_watts y.0.carbon.cost_per_kwh) xs);
        per_cluster = pushed i;
      })

  entry-items_of :
      (reg : ClusterRegistry F) (team : String) (xs : List (ClusterReport F × NamespaceSummary F))
      → All (λ x. has_key team (team_key reg x) ≡ true) xs
      → entry_of (no_team reg) add_to_team xs none ≡ team_of team xs
  unfolding no_team
  entry-items_of reg team [] h = refl
  entry-items_of reg team (x ∷ xs) h =
      let own : owner reg x.1 ≡ team = (string_eq.beq_iff (owner reg x.1) team).0 h.0 in
      let same = added (x ∷ xs) (no_team reg x) in
      (λ i. some (same i)) ∙ (λ i. some (view_from (own i) (x ∷ xs)))

  get-team_map :
      (reg : ClusterRegistry F) (team : String)
      → get team (team_map reg) ≡ team_of team (items_of team reg)
  unfolding team_map get
  get-team_map reg team =
      get-group (team_key reg) (no_team reg) add_to_team team (items reg) []
      ∙ entry-items_of reg team (items_of team reg)
          (All-filter (λ x. owner reg x.1 == team) (items reg))

  team_map-names : (reg : ClusterRegistry F) → All (λ e. e.1.team ≡ e.0) (team_map reg)
  unfolding team_map no_team add_to_team
  team_map-names reg =
      All-group (team_key reg) (no_team reg) add_to_team (λ e. e.1.team ≡ e.0) (items reg) []
        (λ x k q. ap (λ o. unwrap_or o "") q, λ x k v q. q) tt

  pub sort_watts-some {κ} :
      {A : Type κ} (key : A → F) (xs ys : List A)
      → sort_watts key xs ≡ some ys
      → sort_by (λ x y. f.le (key y) (key x)) xs ≡ ys
  unfolding sort_watts
  sort_watts-some key xs ys h =
      elim (Bool-cases (ltb 1 (length xs) && any (λ x. is_nan (key x)) xs)) [
        | inl panics ↦ ground (arith, panics, h)
        | inr sorted ↦ ap (λ o. unwrap_or o ys) (rw sorted at h)
      ]

  -- If no comparison meets a NaN, a team is found in the list exactly if it owns a namespace of a
  -- cluster's latest report: its view has the sums, in the order of the clusters and namespaces, of the
  -- powers, emissions and costs of just its namespaces, and lists each of them.
  pub find-team_power :
      (reg : ClusterRegistry F) (team : String) (views : List (TeamPowerView F))
      → team_power reg ≡ some views
      → find (λ v. v.team == team) views ≡ team_of team (items_of team reg)
  unfolding team_power team_map
  find-team_power reg team views h =
      let names = team_map-names reg in
      let d : IsMap (team_map reg) =
        group-IsMap (team_key reg) (no_team reg) add_to_team (items reg) [] tt in
      let name = λ (v : TeamPowerView F). v.team in
      let sorted = sort_watts-some (λ v. v.total_watts) (values (team_map reg)) views h in
      ap (find (λ v. v.team == team)) (sym sorted)
      ∙ find-sort_by _ (λ v. v.team == team) (values (team_map reg))
          (values-IsUnique name team (team_map reg) d names)
      ∙ find-values name team (team_map reg) names
      ∙ get-team_map reg team
