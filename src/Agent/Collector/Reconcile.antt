-- ===== src/Agent/Collector/Reconcile.antt =====
-- keck-agent/src/hardware/collector.rs: the reconciliation of the components with the platform.
use keck.Base.{
  ℕ, ◌+◌, ◌-◌, ◌^◌, ◌<◌, ◌≡◌, refl, sym, ap, ◌∙◌, some, none, is_some, List, map, lt→ltb, filter,
}
use mathlib.Core.List.{map-id}
use keck.Base.Maps.{values}
use keck.Base.Float.{Float64}
use keck.Base.Words.{add_u64, sum_u64, unsigned_abs-sub}
use keck.Base.Groups.{sum-group}
use keck.Agent.Collector.{RegisteredSource}
use keck.Agent.Collector.State.{
  component_eq, reconcile, component_powers, component_key, power_or_zero, source_power,
  platform_power,
}

-- The sum, modulo 2^64, of the powers of all sources that have a power and are no platform sources.
abbrev pub reported : List RegisteredSource → ℕ
reported ss = sum_u64 (
    map (λ s. power_or_zero (source_power s))
      (filter (λ s. is_some (component_key (source_power s))) ss))

-- The powers in the map of the components add up to the powers of all sources that have a power and
-- are no platform sources, modulo 2^64: none of them is lost and none stands twice.
component_powers_sum :
    (ss : List RegisteredSource) → sum_u64 (values (component_powers ss)) ≡ reported ss
unfolding component_powers
component_powers_sum ss =
    ap sum_u64 (sym (map-id (values (component_powers ss))))
    ∙ sum-group (λ (s : RegisteredSource). component_key (source_power s)) (λ s. 0)
        (λ s total. add_u64 total (power_or_zero (source_power s))) (λ total. total)
        (λ s. power_or_zero (source_power s)) ss ((λ s. refl), λ s total. refl)

module _ {ℓ} {F : Type ℓ} ⦃f : Float64 F⦄ where
  -- The component sum is that of all sources with a power but the platform's, none of them lost or
  -- counted twice; and with a platform power that is not 0, both below 2^63 microwatts, the error
  -- ratio is the distance of the two over the platform's power, in `f64`.
  pub reconcile_lem :
      (now : ℕ) (ss : List RegisteredSource) (p : ℕ)
      → platform_power ss none ≡ some p
      → 0 < p
      → p < 2 ^ 63
      → reported ss < 2 ^ 63
      → ((reconcile {F = F} now ss).component_sum_uw ≡ reported ss)
        × ((reconcile {F = F} now ss).error_ratio
            ≡ f.div (f.of_u64 ((p - reported ss) + (reported ss - p))) (f.of_u64 p))
  unfolding reconcile
  reconcile_lem now ss p e pos small small' =
      let sum = component_powers_sum ss in
      (sum, rw (e, sum, lt→ltb 0 p pos, unsigned_abs-sub p (reported ss) small small'))
