-- ===== src/Agent/Collector/Ticks.antt =====
-- keck-agent/src/hardware/collector.rs: one tick.
use keck.Base.{
  ℕ, ◌≡◌, refl, sym, ap, ◌∙◌, Bool, true, false, ◌&&◌, ◌||◌, some, inl, inr, List, [], ◌∷◌, map,
  if◌then◌else◌, arith, Bool-cases,
}
use mathlib.Core.List.{map-map}
use keck.Base.Float.{Float64}
use keck.Agent.Collector.{Tier, fast, medium, slow, RegisteredSource, Hardware}
use keck.Agent.Collector.State.{
  HardwareCollector, tier_eqb, read_source, read_all, read_tier, reconcile, elapsed, tick,
}

-- A source of the tier is read, if the tier is due.
abbrev pass : Hardware → Bool → Tier → RegisteredSource → RegisteredSource
pass hw due tier s = if due && tier_eqb s.tier tier then (read_source hw s).0 else s

map_same {ℓ} : {A : Type ℓ} (f : A → A) (xs : List A) → ((x : A) → f x ≡ x) → map f xs ≡ xs
map_same f [] h = refl
map_same f (x ∷ xs) h = rw (h x, map_same f xs h)

map_congr {ℓ} :
    {A : Type ℓ} (f g : A → A) (xs : List A) → ((x : A) → f x ≡ g x) → map f xs ≡ map g xs
map_congr f g [] h = refl
map_congr f g (x ∷ xs) h = rw (h x, map_congr f g xs h)

read_all_lem :
    (hw : Hardware) (ss : List RegisteredSource)
    → read_all hw ss ≡ map (λ s. (read_source hw s).0) ss
unfolding read_all
read_all_lem hw [] = refl
read_all_lem hw (s ∷ ss) = rw (read_all_lem hw ss)

read_tier_lem :
    (hw : Hardware) (tier : Tier) (ss : List RegisteredSource)
    → (read_tier hw tier ss).0 ≡ map (pass hw true tier) ss
unfolding read_tier
read_tier_lem hw tier [] = refl
read_tier_lem hw tier (s ∷ ss) = elim (Bool-cases (tier_eqb s.tier tier)) [
  | inl hit ↦ rw (hit, read_tier_lem hw tier ss)
  | inr miss ↦ rw (miss, read_tier_lem hw tier ss)
]

round_lem :
    (hw : Hardware) (due : Bool) (tier : Tier) (ss : List RegisteredSource)
    → (if due then (read_tier hw tier ss).0 else ss) ≡ map (pass hw due tier) ss
round_lem hw true tier ss = read_tier_lem hw tier ss
round_lem hw false tier ss = sym (map_same (pass hw false tier) ss (λ s. refl))

read_source-tier : (hw : Hardware) (s : RegisteredSource) → (read_source hw s).0.tier ≡ s.tier
unfolding read_source
read_source-tier hw s = ground arith

-- Three passes read a source once, in the pass of its own tier.
one_pass :
    (hw : Hardware) (a b c : Bool) (s : RegisteredSource)
    → pass hw c slow (pass hw b medium (pass hw a fast s))
      ≡ (if (elim s.tier [ fast ↦ a | medium ↦ b | slow ↦ c ]) then (read_source hw s).0 else s)
one_pass hw a b c s = ground (arith, read_source-tier hw s)

rounds_lem :
    (hw : Hardware) (a b c : Bool) (ss : List RegisteredSource)
    → let first = if a then (read_tier hw fast ss).0 else ss in
      let second = if b then (read_tier hw medium first).0 else first in
      (if c then (read_tier hw slow second).0 else second)
      ≡ map
          (λ s.
            if (elim s.tier [ fast ↦ a | medium ↦ b | slow ↦ c ]) then (read_source hw s).0 else s)
          ss
rounds_lem hw a b c ss =
    rw
      (round_lem hw a fast ss, round_lem hw b medium (map (pass hw a fast) ss), round_lem hw c slow)
      (ap (map (pass hw c slow)) (map-map (pass hw b medium) (pass hw a fast) ss)
        ∙ map-map (pass hw c slow) (λ s. pass hw b medium (pass hw a fast s)) ss
        ∙ map_congr _ _ ss (one_pass hw a b c))

module _ {ℓ} {F : Type ℓ} ⦃f : Float64 F⦄ where
  abbrev pub heartbeat_due : ℕ → HardwareCollector F → Bool
  heartbeat_due now c = elapsed now c.last_heartbeat c.config.heartbeat_interval

  abbrev pub tier_due : ℕ → HardwareCollector F → Tier → Bool
  tier_due now c fast = elapsed now c.last_fast c.config.fast_interval
  tier_due now c medium = elapsed now c.last_medium c.config.medium_interval
  tier_due now c slow = elapsed now c.last_slow c.config.slow_interval

  -- A tick reads each source at most once: at a heartbeat all of them, otherwise those whose tier's
  -- interval is over. It stamps just the clocks of what was due with the time at its start, and
  -- reconciles at a heartbeat, and only then, over the readings just taken and with the time after
  -- they are.
  pub tick_lem :
      (now later : ℕ) (hw : Hardware) (c : HardwareCollector F)
      → let after = (tick now later hw c).0 in
        let beat = heartbeat_due now c in
        let due = λ (t : Tier). beat || tier_due now c t in
        (after.sources ≡ map (λ s. if due s.tier then (read_source hw s).0 else s) c.sources)
        × (after.last_heartbeat ≡ (if beat then now else c.last_heartbeat))
        × (after.last_fast ≡ (if due fast then now else c.last_fast))
        × (after.last_medium ≡ (if due medium then now else c.last_medium))
        × (after.last_slow ≡ (if due slow then now else c.last_slow))
        × (after.last_reconciliation
            ≡ (if beat then some (reconcile later after.sources) else c.last_reconciliation))
        × (after.config ≡ c.config)
  unfolding tick
  tick_lem now later hw c = elim (Bool-cases (heartbeat_due now c)) [
    | inl beat ↦ rw beat (read_all_lem hw c.sources, refl, refl, refl, refl, refl, refl)
    | inr quiet ↦ rw quiet (
      rounds_lem hw (tier_due now c fast) (tier_due now c medium) (tier_due now c slow) c.sources
          ∙ map_congr _ _ c.sources (λ s. ground arith),
      refl,
      refl,
      refl,
      refl,
      refl,
      refl,
    )
  ]
