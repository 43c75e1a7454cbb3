-- ===== src/Fleet/Registry.antt =====
-- keck-fleet/src/registry/mod.rs. `now` is the clock of `Instant`, `utc` that of `Utc::now`, both in
-- nanoseconds; a `DateTime` is counted from a time at least 30 days before the reports. `none` is the
-- panic of a comparison with NaN.
pub mod Types
pub mod History
pub mod Teams
pub mod Views
use keck.Base.{
  ℕ, ◌+◌, ◌-◌, ◌*◌, ◌/◌, ◌%◌, ◌^◌, String, string_eq, ◌==◌, Bool, true, false, not, ◌&&◌, Option,
  none, some, List, [], ◌∷◌, ◌++◌, map, if◌then◌else◌, ltb, leb, unwrap_or, filter, any, length,
}
use mathlib.Core.List.{flat_map}
use keck.Base.Float.{Float64}
use keck.Base.Maps.{Map, get, insert, retain, values}
use keck.Base.Groups.{group, run_steps}
use keck.Base.Sorting.{sort_by}
use keck.Fleet.Registry.Types.{
  ClusterPowerSummary, NamespaceSummary, CarbonData, ClusterReport, ClusterState, ClusterView,
  FleetSummary, TeamClusterBreakdown, TeamPowerView, ClusterRegistry,
}

abbrev pub second : ℕ
second = 10 ^ 9

-- Addition of `u32`.
unfoldable pub add_u32 : ℕ → ℕ → ℕ
add_u32 a b = (a + b) % 2 ^ 32

module _ {ℓ} {F : Type ℓ} where
  unfoldable pub new : ClusterRegistry F
  new = record {
    clusters = [];
    staleness_threshold = 120 * second;
    history_retention = 86400 * 30 * second;
    namespace_owners = [];
  }

  abbrev pub since : ℕ → List (ℕ × F) → List (ℕ × F)
  since cutoff = filter (λ e. leb cutoff e.0)

  -- The state of a cluster that sends a report, `old` being its state before, if it has one.
  unfoldable pub with_report : ℕ → ℕ → ClusterReport F → Option (ClusterState F) → ClusterState F
  with_report now cutoff r old = record {
    latest_report = r;
    received_at = now;
    power_history = since cutoff (
        elim old [ none ↦ [] | some s ↦ s.power_history ]
        ++ (r.timestamp, r.power.total_watts) ∷ []);
    carbon_history = since cutoff (
        elim old [ none ↦ [] | some s ↦ s.carbon_history ]
        ++ (r.timestamp, r.carbon.emissions_grams_per_hour) ∷ []);
  }

  unfoldable pub ingest : ℕ → ℕ → ClusterReport F → ClusterRegistry F → ClusterRegistry F
  ingest now utc r reg =
      let cutoff = utc - reg.history_retention / second * second in
      record reg {
        clusters =
            insert r.cluster_id (with_report now cutoff r (get r.cluster_id reg.clusters))
              reg.clusters;
      }

  unfoldable pub set_namespace_owner : String → String → ClusterRegistry F → ClusterRegistry F
  set_namespace_owner namespace team reg = record reg {
    namespace_owners = insert namespace team reg.namespace_owners;
  }

  unfoldable pub cluster_power_history : String → ℕ → ClusterRegistry F → List (ℕ × F)
  cluster_power_history id from reg = elim (get id reg.clusters) [
    | none ↦ []
    | some s ↦ since from s.power_history
  ]

  -- `received_at.elapsed() < staleness_threshold`
  abbrev pub is_active : ℕ → ClusterRegistry F → ClusterState F → Bool
  is_active now reg s = ltb (now - s.received_at) reg.staleness_threshold

  unfoldable pub active_clusters : ℕ → ClusterRegistry F → List (ClusterReport F)
  active_clusters now reg =
      map (λ s. s.latest_report) (filter (is_active now reg) (values reg.clusters))

  unfoldable pub evict_stale : ℕ → ClusterRegistry F → ClusterRegistry F
  evict_stale now reg = record reg { clusters = retain (λ id s. is_active now reg s) reg.clusters }

  -- The items of the two loops of `team_power`, in their order.
  abbrev pub items : ClusterRegistry F → List (ClusterReport F × NamespaceSummary F)
  items reg =
      flat_map (λ s. map (λ ns. (s.latest_report, ns)) s.latest_report.namespaces)
        (values reg.clusters)

  abbrev pub owner : ClusterRegistry F → NamespaceSummary F → String
  owner reg ns = unwrap_or (get ns.namespace reg.namespace_owners) "unassigned"

  abbrev pub breakdown : ClusterReport F × NamespaceSummary F → TeamClusterBreakdown F
  breakdown (r, ns) = record {
    cluster_name = r.cluster_name;
    namespace = ns.namespace;
    watts = ns.total_watts;
  }

  abbrev pub team_key : ClusterRegistry F → ClusterReport F × NamespaceSummary F → Option String
  team_key reg x = some (owner reg x.1)

module _ {ℓ} {F : Type ℓ} ⦃f : Float64 F⦄ where
  abbrev pub is_nan : F → Bool
  is_nan x = not (f.le x x)

  -- `sort_by(|a, b| b.key.partial_cmp(&a.key).unwrap())`
  unfoldable pub sort_watts {κ} : {A : Type κ} → (A → F) → List A → Option (List A)
  sort_watts key xs =
      if ltb 1 (length xs) && any (λ x. is_nan (key x)) xs
      then none
      else some (sort_by (λ x y. f.le (key y) (key x)) xs)

  abbrev pub per_kilowatt : F → F → F
  per_kilowatt watts rate = f.mul (f.div watts (f.lit 1000 0)) rate

  unfoldable pub view_of : ℕ → ClusterState F → ClusterView F
  view_of now s =
      let r = s.latest_report in
      record {
        cluster_id = r.cluster_id;
        cluster_name = r.cluster_name;
        region = r.region;
        total_watts = r.power.total_watts;
        carbon_grams_per_hour = r.carbon.emissions_grams_per_hour;
        carbon_intensity = r.carbon.intensity_grams_per_kwh;
        cost_per_hour = per_kilowatt r.power.total_watts r.carbon.cost_per_kwh;
        node_count = r.node_count;
        pod_count = r.pod_count;
        error_ratio = r.avg_error_ratio;
        last_seen_secs_ago = (now - s.received_at) / second;
      }

  -- The body of the loop of `fleet_summary`, with the views in the order in which they are pushed.
  unfoldable pub add_cluster : ℕ → ClusterState F → FleetSummary F → FleetSummary F
  add_cluster now s t =
      let r = s.latest_report in
      record t {
        total_watts = f.add t.total_watts r.power.total_watts;
        total_cpu_watts = f.add t.total_cpu_watts r.power.cpu_watts;
        total_memory_watts = f.add t.total_memory_watts r.power.memory_watts;
        total_gpu_watts = f.add t.total_gpu_watts r.power.gpu_watts;
        total_idle_watts = f.add t.total_idle_watts r.power.idle_watts;
        total_carbon_grams_per_hour =
            f.add t.total_carbon_grams_per_hour r.carbon.emissions_grams_per_hour;
        total_cost_per_hour =
            f.add t.total_cost_per_hour (per_kilowatt r.power.total_watts r.carbon.cost_per_kwh);
        total_nodes = add_u32 t.total_nodes r.node_count;
        total_pods = add_u32 t.total_pods r.pod_count;
        clusters = t.clusters ++ view_of now s ∷ [];
      }

  unfoldable pub fleet_totals : ℕ → ClusterRegistry F → FleetSummary F
  fleet_totals now reg = run_steps (add_cluster now) (values reg.clusters) (record {
    total_watts = f.lit 0 0;
    total_cpu_watts = f.lit 0 0;
    total_memory_watts = f.lit 0 0;
    total_gpu_watts = f.lit 0 0;
    total_idle_watts = f.lit 0 0;
    total_carbon_grams_per_hour = f.lit 0 0;
    total_cost_per_hour = f.lit 0 0;
    total_cost_currency = "USD";
    cluster_count = length reg.clusters;
    total_nodes = 0;
    total_pods = 0;
    clusters = [];
  })

  unfoldable pub fleet_summary : ℕ → ClusterRegistry F → Option (FleetSummary F)
  fleet_summary now reg =
      let t = fleet_totals now reg in
      elim (sort_watts (λ (c : ClusterView F). c.total_watts) t.clusters) [
        | none ↦ none
        | some cs ↦ some (record t { clusters = cs })
      ]

  -- The body of the loop of `team_power`.
  unfoldable pub no_team :
      ClusterRegistry F → ClusterReport F × NamespaceSummary F → TeamPowerView F
  no_team reg (r, ns) = record {
    team = owner reg ns;
    total_watts = f.lit 0 0;
    carbon_grams_per_hour = f.lit 0 0;
    cost_per_hour = f.lit 0 0;
    per_cluster = [];
  }

  unfoldable pub add_to_team :
      ClusterReport F × NamespaceSummary F → TeamPowerView F → TeamPowerView F
  add_to_team (r, ns) v = record v {
    total_watts = f.add v.total_watts ns.total_watts;
    carbon_grams_per_hour =
        f.add v.carbon_grams_per_hour
          (per_kilowatt ns.total_watts r.carbon.intensity_grams_per_kwh);
    cost_per_hour = f.add v.cost_per_hour (per_kilowatt ns.total_watts r.carbon.cost_per_kwh);
    per_cluster = v.per_cluster ++ breakdown (r, ns) ∷ [];
  }

  unfoldable pub team_map : ClusterRegistry F → Map String (TeamPowerView F)
  team_map reg = group (team_key reg) (no_team reg) add_to_team (items reg) []

  unfoldable pub team_power : ClusterRegistry F → Option (List (TeamPowerView F))
  unfolding team_map
  team_power reg = sort_watts (λ v. v.total_watts) (values (team_map reg))

  -- The first of the lowest, as `min_by` finds it.
  abbrev lowest : List (ClusterReport F) → ClusterReport F → ClusterReport F
  lowest [] best = best
  lowest (r ∷ rs) best =
      let next =
        if f.lt r.carbon.intensity_grams_per_kwh best.carbon.intensity_grams_per_kwh
        then r
        else best in
      lowest rs next

  abbrev lowest_of : List (ClusterReport F) → Option (ClusterReport F)
  lowest_of [] = none
  lowest_of (r ∷ rs) = some (lowest rs r)

  -- The outer `none` is the panic, the inner one that no cluster is active.
  unfoldable pub lowest_carbon_cluster : ℕ → ClusterRegistry F → Option (Option (ClusterReport F))
  lowest_carbon_cluster now reg =
      let rs = active_clusters now reg in
      if ltb 1 (length rs) && any (λ r. is_nan r.carbon.intensity_grams_per_kwh) rs
      then none
      else some (lowest_of rs)
