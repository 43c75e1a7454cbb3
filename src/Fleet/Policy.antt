-- ===== src/Fleet/Policy.antt =====
-- keck-fleet/src/policy/mod.rs. `none` is a panic of the registry; `now` and `utc` are the clocks. A
-- message is kept as the values that it prints.
pub mod Excesses
pub mod Evaluation
use keck.Base.{
  ℕ, String, string_eq, ◌==◌, Bool, true, false, Option, none, some, List, [], ◌∷◌, ◌++◌, map,
  if◌then◌else◌, ltb, find, not,
}
use mathlib.Core.List.{flat_map}
use keck.Base.Float.{Float64}
use keck.Fleet.Registry.Types.{
  ClusterReport, NamespaceSummary, ClusterView, FleetSummary, TeamPowerView, ClusterRegistry,
}
use keck.Fleet.Registry.{team_power, fleet_summary, active_clusters}

pub data Severity : Type 0 where
  info warning critical : Severity

pub data PolicyKind {ℓ} (F : Type ℓ) : Type ℓ where
  team_power_budget : (team : String) → (max_watts : F) → PolicyKind F
  namespace_carbon_budget : (namespace : String) → (max_grams_per_month : F) → PolicyKind F
  metering_quality : (max_error_ratio : F) → PolicyKind F
  carbon_intensity_preference : (max_grams_per_kwh : F) → PolicyKind F
  cluster_staleness : (max_stale_secs : ℕ) → PolicyKind F

pub record Policy {ℓ} (F : Type ℓ) : Type ℓ where
  pub name : String
  pub kind : PolicyKind F
  pub severity : Severity
  pub enabled : Bool

pub data Message {ℓ} (F : Type ℓ) : Type ℓ where
  team_over : String → F → F → Message F
  namespace_over : String → String → F → F → Message F
  error_over intensity_over : String → F → F → Message F
  stale_over : String → ℕ → ℕ → Message F

pub record PolicyViolation {ℓ} (F : Type ℓ) : Type ℓ where
  pub policy_name : String
  pub severity : Severity
  pub message : Message F
  pub current_value : F
  pub threshold : F
  pub timestamp : ℕ

module _ {ℓ} {F : Type ℓ} where
  -- `violations.push` of a violation of this policy.
  abbrev pub violation : ℕ → Policy F → Message F → F → F → PolicyViolation F
  violation utc p message current threshold = record {
    policy_name = p.name;
    severity = p.severity;
    message = message;
    current_value = current;
    threshold = threshold;
    timestamp = utc;
  }

  abbrev pub namespace_named : String → ClusterReport F → Option (NamespaceSummary F)
  namespace_named name r = find (λ n. n.namespace == name) r.namespaces

  abbrev pub append_all :
      Option (List (PolicyViolation F))
      → Option (List (PolicyViolation F))
      → Option (List (PolicyViolation F))
  append_all none rest = none
  append_all (some vs) none = none
  append_all (some vs) (some ws) = some (vs ++ ws)

module _ {ℓ} {F : Type ℓ} ⦃f : Float64 F⦄ where
  abbrev pub carbon_per_month : ClusterReport F → NamespaceSummary F → F
  carbon_per_month r ns =
      let kwh_per_month =
        f.mul (f.mul (f.div ns.total_watts (f.lit 1000 0)) (f.lit 24 0)) (f.lit 3044 2) in
      f.mul kwh_per_month r.carbon.intensity_grams_per_kwh

module _ {ℓ} {F : Type ℓ} ⦃f : Float64 F⦄ (utc : ℕ) (p : Policy F) where
  abbrev check_team : String → F → Option (TeamPowerView F) → List (PolicyViolation F)
  check_team team max_watts none = []
  check_team team max_watts (some v) =
      if f.lt max_watts v.total_watts
      then violation utc p (team_over team v.total_watts max_watts) v.total_watts max_watts ∷ []
      else []

  abbrev check_namespace : String → F → ClusterReport F → List (PolicyViolation F)
  check_namespace namespace max r = elim (namespace_named namespace r) [
    | none ↦ []
    | some ns ↦
        let carbon = carbon_per_month r ns in
        if f.lt max carbon
        then violation utc p (namespace_over namespace r.cluster_name carbon max) carbon max ∷ []
        else []
  ]

  abbrev check_quality : F → ClusterReport F → List (PolicyViolation F)
  check_quality max r =
      if f.lt max r.avg_error_ratio
      then (let message =
            error_over r.cluster_name (f.mul r.avg_error_ratio (f.lit 100 0))
              (f.mul max (f.lit 100 0)) in
          violation utc p message r.avg_error_ratio max ∷ [])
      else []

  abbrev check_intensity : F → ClusterReport F → List (PolicyViolation F)
  check_intensity max r =
      let intensity = r.carbon.intensity_grams_per_kwh in
      if f.lt max intensity
      then violation utc p (intensity_over r.cluster_name intensity max) intensity max ∷ []
      else []

  abbrev check_staleness : ℕ → ClusterView F → List (PolicyViolation F)
  check_staleness max v =
      if ltb max v.last_seen_secs_ago
      then (let message = stale_over v.cluster_name v.last_seen_secs_ago max in
          violation utc p message (f.of_u64 v.last_seen_secs_ago) (f.of_u64 max) ∷ [])
      else []

  abbrev check_kind : ℕ → ClusterRegistry F → PolicyKind F → Option (List (PolicyViolation F))
  check_kind now reg (team_power_budget team max) = elim (team_power reg) [
    | none ↦ none
    | some views ↦ some (check_team team max (find (λ v. v.team == team) views))
  ]
  check_kind now reg (namespace_carbon_budget namespace max) =
      some (flat_map (check_namespace namespace max) (active_clusters now reg))
  check_kind now reg (metering_quality max) =
      some (flat_map (check_quality max) (active_clusters now reg))
  check_kind now reg (carbon_intensity_preference max) =
      some (flat_map (check_intensity max) (active_clusters now reg))
  check_kind now reg (cluster_staleness max) = elim (fleet_summary now reg) [
    | none ↦ none
    | some summary ↦ some (flat_map (check_staleness max) summary.clusters)
  ]

  unfoldable pub check_policy : ℕ → ClusterRegistry F → Option (List (PolicyViolation F))
  check_policy now reg = if p.enabled then check_kind now reg p.kind else some []

module _ {ℓ} {F : Type ℓ} ⦃f : Float64 F⦄ where
  -- `now` stands for every reading of the clock that the policies take.
  unfoldable pub evaluate :
      ℕ → ℕ → ClusterRegistry F → List (Policy F) → Option (List (PolicyViolation F))
  evaluate now utc reg [] = some []
  evaluate now utc reg (p ∷ ps) = append_all (check_policy utc p now reg) (evaluate now utc reg ps)
