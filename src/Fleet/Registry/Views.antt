-- ===== src/Fleet/Registry/Views.antt =====
-- keck-fleet/src/registry/mod.rs: the clusters of the fleet's summary.
use keck.Base.{ℕ, ◌≡◌, refl, sym, ap, ◌∙◌, Option, none, some, List, [], ◌∷◌, ◌++◌, map, arith}
use mathlib.Core.List.{append_assoc, append-nil}
use keck.Base.Float.{Float64}
use keck.Base.Maps.{values}
use keck.Base.Groups.{run_steps}
use keck.Base.Sorting.{sort_by}
use keck.Fleet.Registry.Types.{ClusterState, ClusterView, FleetSummary, ClusterRegistry}
use keck.Fleet.Registry.{fleet_totals, fleet_summary, add_cluster, view_of, sort_watts}
use keck.Fleet.Registry.Teams.{sort_watts-some}

module _ {ℓ} {F : Type ℓ} ⦃f : Float64 F⦄ where
  fleet_totals-views :
      (now : ℕ) (reg : ClusterRegistry F)
      → (fleet_totals now reg).clusters ≡ map (view_of now) (values reg.clusters)
  unfolding fleet_totals add_cluster
  fleet_totals-views now reg = collected (values reg.clusters) _
    where
      collected :
          (ss : List (ClusterState F)) (t : FleetSummary F)
          → (run_steps (add_cluster now) ss t).clusters ≡ t.clusters ++ map (view_of now) ss
      collected [] t = sym (append-nil t.clusters)
      collected (s ∷ ss) t =
          collected ss (add_cluster now s t)
          ∙ append_assoc t.clusters (view_of now s ∷ []) (map (view_of now) ss)

  pub fleet_summary-clusters :
      (now : ℕ) (reg : ClusterRegistry F) (t : FleetSummary F)
      → fleet_summary now reg ≡ some t
      → sort_by
          (λ (x y : ClusterView F). f.le y.total_watts x.total_watts)
          (map (view_of now) (values reg.clusters))
        ≡ t.clusters
  unfolding fleet_summary
  fleet_summary-clusters now reg t h =
      ap (sort_by (λ (x y : ClusterView F). f.le y.total_watts x.total_watts))
        (sym (fleet_totals-views now reg))
      ∙ sorted (sort_watts (λ c. c.total_watts) (fleet_totals now reg).clusters) refl
    where
      sorted :
          (o : Option (List (ClusterView F)))
          → sort_watts (λ c. c.total_watts) (fleet_totals now reg).clusters ≡ o
          → sort_by
              (λ (x y : ClusterView F). f.le y.total_watts x.total_watts)
              (fleet_totals now reg).clusters
            ≡ t.clusters
      sorted none e = ground (arith, rw (e, fleet_summary) at h)
      sorted (some cs) e =
          sort_watts-some (λ c. c.total_watts) (fleet_totals now reg).clusters cs e
          ∙ ap (λ o. elim o [ none ↦ cs | some u ↦ u.clusters ]) (rw (e, fleet_summary) at h)
