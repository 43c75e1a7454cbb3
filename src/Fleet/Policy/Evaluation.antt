-- ===== src/Fleet/Policy/Evaluation.antt =====
-- keck-fleet/src/policy/mod.rs: which violations an evaluation reports.
use mathlib.Core.List.{flat_map, Perm, map-map}
use mathlib.Core.List.Perm
use keck.Base.{
  ℕ, ◌≡◌, refl, ap, ◌∙◌, String, string_eq, Option, none, some, List, [], ◌∷◌, map, ltb, filter,
  Bool-cases, inl, inr, arith, Option-cases,
}
use mathlib.Core.Path.{subst}
use keck.Base.Float.{Float64, sum_f64}
use keck.Base.Maps.{values}
use keck.Base.Sorting.{flat_map-sort_by}
use keck.Fleet.Registry.Types.{
  ClusterReport, ClusterState, NamespaceSummary, ClusterView, FleetSummary, ClusterRegistry,
}
use keck.Fleet.Registry.Views.{fleet_summary-clusters}
use keck.Fleet.Registry.{team_power, fleet_summary, view_of, active_clusters}
use keck.Fleet.Registry.Teams.{items_of, team_of, view_from, find-team_power}
use keck.Fleet.Policy.{
  Severity, PolicyKind, team_power_budget, namespace_carbon_budget, metering_quality,
  carbon_intensity_preference, cluster_staleness, Policy, PolicyViolation, namespace_named,
  carbon_per_month, check_team, check_namespace, check_quality, check_intensity, check_staleness,
  check_kind, check_policy, evaluate,
}
use keck.Fleet.Policy.Excesses.{
  verdict, carbon_in, power_in, over, seconds_ago, excesses, forbidden, one_if, pushed, pushed_all,
  settled, settled_append, equal,
}

module _ {ℓ} {F : Type ℓ} ⦃f : Float64 F⦄ (utc : ℕ) (p : Policy F) where
  quality_over :
      (max : F) (rs : List (ClusterReport F))
      → map verdict (flat_map (check_quality utc p max) rs)
        ≡ over p max (map (λ r. r.avg_error_ratio) rs)
  quality_over max rs =
      pushed (f.lt max) _ (check_quality utc p max) (λ r. r.avg_error_ratio) rs
        (λ r. one_if (f.lt max r.avg_error_ratio) _)

  intensity_over_lem :
      (max : F) (rs : List (ClusterReport F))
      → map verdict (flat_map (check_intensity utc p max) rs)
        ≡ over p max (map (λ r. r.carbon.intensity_grams_per_kwh) rs)
  intensity_over_lem max rs =
      pushed (f.lt max) _ (check_intensity utc p max) (λ r. r.carbon.intensity_grams_per_kwh) rs
        (λ r. one_if (f.lt max r.carbon.intensity_grams_per_kwh) _)

  namespace_over_lem :
      (namespace : String) (max : F) (rs : List (ClusterReport F))
      → map verdict (flat_map (check_namespace utc p namespace max) rs)
        ≡ over p max (flat_map (carbon_in namespace) rs)
  namespace_over_lem namespace max rs =
      pushed_all (f.lt max) _ (check_namespace utc p namespace max) (carbon_in namespace) rs
        (λ r. found r (namespace_named namespace r) refl)
    where
      found :
          (r : ClusterReport F) (o : Option (NamespaceSummary F))
          → namespace_named namespace r ≡ o
          → map verdict (check_namespace utc p namespace max r) ≡ over p max (carbon_in namespace r)
      found r none e = rw (e, check_namespace, carbon_in) refl
      found r (some ns) e =
          rw (e, check_namespace, carbon_in)
            (elim (Bool-cases (f.lt max (carbon_per_month r ns))) [
              | inl above ↦ rw above refl
              | inr kept ↦ rw kept refl
            ])

  stale_over_lem :
      (now max : ℕ) (ss : List (ClusterState F))
      → map verdict (flat_map (check_staleness utc p max) (map (view_of now) ss))
        ≡ map
            (λ n. (p.name, p.severity, f.of_u64 n, f.of_u64 max))
            (filter (ltb max) (map (seconds_ago now) ss))
  unfolding view_of
  stale_over_lem now max ss =
      let w : ℕ → String × Severity × F × F = λ n. (p.name, p.severity, f.of_u64 n, f.of_u64 max) in
      pushed (ltb max) w (check_staleness utc p max) (λ v. v.last_seen_secs_ago)
        (map (view_of now) ss) (λ v. one_if (ltb max v.last_seen_secs_ago) _)
      ∙ ap (λ ns. map w (filter (ltb max) ns))
          (map-map (λ (v : ClusterView F). v.last_seen_secs_ago) (view_of now) ss)

  team_over_lem :
      (team : String) (max : F) (reg : ClusterRegistry F)
      → map verdict (check_team utc p team max (team_of team (items_of team reg)))
        ≡ over p max (power_in team reg)
  team_over_lem team max reg = by_items (items_of team reg)
    where
      by_items :
          (xs : List (ClusterReport F × NamespaceSummary F))
          → map verdict (check_team utc p team max (team_of team xs))
            ≡ over p max
                (elim xs [ [] ↦ [] | y ∷ ys ↦ sum_f64 (map (λ y. y.1.total_watts) (y ∷ ys)) ∷ [] ])
      by_items [] = refl
      by_items (x ∷ xs) = elim (Bool-cases (f.lt max (view_from team (x ∷ xs)).total_watts)) [
        | inl above ↦ rw above refl
        | inr kept ↦ rw kept refl
      ]

  stale_perm :
      (now max : ℕ) (reg : ClusterRegistry F) (t : FleetSummary F)
      → fleet_summary now reg ≡ some t
      → Perm
          (map verdict (flat_map (check_staleness utc p max) t.clusters))
          (excesses now reg p (cluster_staleness max))
  stale_perm now max reg t e =
      let views = map (view_of now) (values reg.clusters) in
      subst
        (λ cs.
          Perm (map verdict (flat_map (check_staleness utc p max) cs))
            (excesses now reg p (cluster_staleness max)))
        (fleet_summary-clusters now reg t e)
        (Perm.trans (Perm.map verdict (flat_map-sort_by _ (check_staleness utc p max) views))
          (equal _ _ (stale_over_lem now max (values reg.clusters))))

  check_kind-excesses :
      (now : ℕ) (reg : ClusterRegistry F) (kind : PolicyKind F) (vs : List (PolicyViolation F))
      → check_kind utc p now reg kind ≡ some vs
      → Perm (map verdict vs) (excesses now reg p kind)
  check_kind-excesses now reg (team_power_budget team max) vs h =
      elim (Option-cases (team_power reg)) [
        | inl panics ↦ ground (arith, rw (panics, check_kind) at h)
        | inr (views, e) ↦ settled _ vs _ (rw (e, check_kind) at h) (
            equal _ _ (
              ap (λ o. map verdict (check_team utc p team max o)) (find-team_power reg team views e)
              ∙ team_over_lem team max reg))
      ]
  check_kind-excesses now reg (namespace_carbon_budget namespace max) vs h =
      settled _ vs _ h (equal _ _ (namespace_over_lem namespace max (active_clusters now reg)))
  check_kind-excesses now reg (metering_quality max) vs h =
      settled _ vs _ h (equal _ _ (quality_over max (active_clusters now reg)))
  check_kind-excesses now reg (carbon_intensity_preference max) vs h =
      settled _ vs _ h (equal _ _ (intensity_over_lem max (active_clusters now reg)))
  check_kind-excesses now reg (cluster_staleness max) vs h =
      elim (Option-cases (fleet_summary now reg)) [
        | inl panics ↦ ground (arith, rw (panics, check_kind) at h)
        | inr (t, e) ↦ settled _ vs _ (rw (e, check_kind) at h) (stale_perm now max reg t e)
      ]

  check_policy-forbidden :
      (now : ℕ) (reg : ClusterRegistry F) (vs : List (PolicyViolation F))
      → check_policy utc p now reg ≡ some vs
      → Perm (map verdict vs) (forbidden now reg p)
  unfolding check_policy
  check_policy-forbidden now reg vs h = elim (Bool-cases p.enabled) [
    | inl on ↦ rw on (check_kind-excesses now reg p.kind vs (rw (on, check_policy) at h))
    | inr off ↦ rw off (settled [] vs [] (rw (off, check_policy) at h) (Perm.refl []))
  ]

module _ {ℓ} {F : Type ℓ} ⦃f : Float64 F⦄ where
  -- Unless a comparison meets a NaN, an evaluation reports exactly what the enabled policies forbid and
  -- the registry shows, each of it once, whatever the order: a team's power over its budget; of each
  -- active cluster the monthly emissions of the namespace, the error ratio or the carbon intensity over
  -- the limit; and of every cluster, active or not, the age of its report over the limit.
  pub evaluate_complete :
      (now utc : ℕ) (reg : ClusterRegistry F) (ps : List (Policy F)) (vs : List (PolicyViolation F))
      → evaluate now utc reg ps ≡ some vs
      → Perm (map verdict vs) (flat_map (forbidden now reg) ps)
  unfolding evaluate flat_map
  evaluate_complete now utc reg [] vs h = settled [] vs [] h (Perm.refl [])
  evaluate_complete now utc reg (p ∷ ps) vs h =
      settled_append (check_policy utc p now reg) (evaluate now utc reg ps) vs (forbidden now reg p)
        (flat_map (forbidden now reg) ps) h (check_policy-forbidden utc p now reg)
        (evaluate_complete now utc reg ps)
