-- ===== src/Agent/Collector/State.antt =====
-- keck-agent/src/hardware/collector.rs: the collector's state and its operations. `hw` is what the
-- sources answer when they are read, and `now` the clock.
use keck.Base.{
  ℕ, String, ◌-◌, ◌*◌, ◌/◌, ◌^◌, ◌≡◌, ◌==◌, ◌↔◌, Bool, true, false, ◌&&◌, ◌||◌, Option, none, some,
  List, [], ◌∷◌, map, if◌then◌else◌, ltb, leb, eqb, arith,
}
use keck.Base.Keys.{Eq}
use keck.Base.Float.{Float64}
use keck.Base.Words.{add_u64, sub_u64, cast_u64, sum_u64, unsigned_abs}
use keck.Base.Maps.{Map, values}
use keck.Base.Groups.{group}
use keck.Agent.Collector.{
  Component, cpu, memory, gpu, nic, storage, fan, platform, PowerReading, Tier, fast, medium, slow,
  CollectorConfig, RegisteredSource, Hardware, compute_energy_delta, classify_tier,
}

abbrev component_index : Component → ℕ
component_index cpu = 0
component_index memory = 1
component_index gpu = 2
component_index nic = 3
component_index storage = 4
component_index fan = 5
component_index platform = 6

abbrev pub component_beq : Component → Component → Bool
component_beq a b = eqb (component_index a) (component_index b)

pub component_beq_iff : (a b : Component) → (component_beq a b ≡ true) ↔ (a ≡ b)
component_beq_iff a b = ground arith

instance abbrev pub component_eq : Eq Component
component_eq = record { beq = component_beq; beq_iff = component_beq_iff }

pub record Reconciliation {ℓ} (F : Type ℓ) : Type ℓ where
  pub platform_uw : Option ℕ
  pub component_sum_uw : ℕ
  pub per_component : Map Component ℕ
  pub unaccounted_uw : ℕ
  pub error_ratio : F
  pub timestamp : ℕ

pub record HardwareCollector {ℓ} (F : Type ℓ) : Type ℓ where
  pub sources : List RegisteredSource
  pub config : CollectorConfig
  pub last_heartbeat : ℕ
  pub last_fast : ℕ
  pub last_medium : ℕ
  pub last_slow : ℕ
  pub last_reconciliation : Option (Reconciliation F)
  pub num_sockets : ℕ

abbrev pub tier_eqb : Tier → Tier → Bool
tier_eqb fast fast = true
tier_eqb medium medium = true
tier_eqb slow slow = true
tier_eqb _ _ = false

rotate : RegisteredSource → Option PowerReading → RegisteredSource × Bool
rotate reg none = (reg, false)
rotate reg (some r) = (record reg { prev_reading = reg.last_reading; last_reading = some r }, true)

-- A failed read changes nothing.
unfoldable pub read_source : Hardware → RegisteredSource → RegisteredSource × Bool
unfolding rotate
read_source hw reg = rotate reg (hw reg.name)

unfoldable pub read_all : Hardware → List RegisteredSource → List RegisteredSource
read_all hw [] = []
read_all hw (s ∷ ss) = (read_source hw s).0 ∷ read_all hw ss

-- The sources, and whether one of the tier was read.
unfoldable pub read_tier : Hardware → Tier → List RegisteredSource → List RegisteredSource × Bool
read_tier hw tier [] = ([], false)
read_tier hw tier (s ∷ ss) =
    let (rest, any) = read_tier hw tier ss in
    let (read, done) = read_source hw s in
    if tier_eqb s.tier tier then (read ∷ rest, done || any) else (s ∷ rest, any)

-- The power of a source that has a single reading, or two.
unfoldable pub pair_power : Option PowerReading → PowerReading → Option ℕ
pair_power none curr = none
pair_power (some prev) curr =
    let interval = cast_u64 (curr.timestamp - prev.timestamp) in
    some
      (if ltb 0 interval then cast_u64 (compute_energy_delta curr prev * 10 ^ 9 / interval) else 0)

unfoldable pub reading_power : RegisteredSource → PowerReading → Option ℕ
reading_power reg r = elim r.power_uw [ none ↦ pair_power reg.prev_reading r | some pw ↦ some pw ]

-- `none` is `continue`: no reading yet, or only one of an energy counter.
unfoldable pub source_power : RegisteredSource → Option (Component × ℕ)
unfolding pair_power reading_power
source_power reg = elim reg.last_reading [
  | none ↦ none
  | some r ↦ elim (reading_power reg r) [ none ↦ none | some pw ↦ some (r.component, pw) ]
]

abbrev pub component_key : Option (Component × ℕ) → Option Component
component_key none = none
component_key (some (platform, pw)) = none
component_key (some (c, pw)) = some c

abbrev pub power_or_zero : Option (Component × ℕ) → ℕ
power_or_zero none = 0
power_or_zero (some (c, pw)) = pw

-- The platform's power: that of the last platform source with a power.
unfoldable pub platform_power : List RegisteredSource → Option ℕ → Option ℕ
platform_power [] found = found
platform_power (s ∷ ss) found = platform_power ss (elim (source_power s) [
  | none ↦ found
  | some (c, pw) ↦ if c == platform then some pw else found
])

unfoldable pub component_powers : List RegisteredSource → Map Component ℕ
component_powers ss =
    group (λ s. component_key (source_power s)) (λ s. 0)
      (λ s total. add_u64 total (power_or_zero (source_power s))) ss []

-- `now.duration_since(since) >= interval`
abbrev pub elapsed : ℕ → ℕ → ℕ → Bool
elapsed now since interval = leb interval (now - since)

-- A discovered source: its name and the poll interval that it asks for.
unfoldable pub register : CollectorConfig → String × ℕ → RegisteredSource
register config (name, interval) = record {
  name = name;
  poll_interval = interval;
  tier = classify_tier interval config;
  last_reading = none;
  prev_reading = none;
}

module _ {ℓ} {F : Type ℓ} where
  unfoldable pub new : ℕ → List (String × ℕ) → CollectorConfig → ℕ → HardwareCollector F
  unfolding register
  new now found config num_sockets = record {
    sources = map (register config) found;
    config = config;
    last_heartbeat = now;
    last_fast = now;
    last_medium = now;
    last_slow = now;
    last_reconciliation = none;
    num_sockets = num_sockets;
  }

module _ {ℓ} {F : Type ℓ} ⦃f : Float64 F⦄ where
  abbrev pub ratio_of : Option ℕ → ℕ → ℕ × F
  ratio_of none sum = (0, f.lit 0 0)
  ratio_of (some p) sum =
      let unaccounted = sub_u64 p sum in
      (
        unaccounted,
        if ltb 0 p then f.div (f.of_u64 (unsigned_abs unaccounted)) (f.of_u64 p) else f.lit 0 0,
      )

  unfoldable pub reconcile : ℕ → List RegisteredSource → Reconciliation F
  reconcile now ss =
      let sum = sum_u64 (values (component_powers ss)) in
      let (unaccounted, ratio) = ratio_of (platform_power ss none) sum in
      record {
        platform_uw = platform_power ss none;
        component_sum_uw = sum;
        per_component = component_powers ss;
        unaccounted_uw = unaccounted;
        error_ratio = ratio;
        timestamp = now;
      }

  -- `reconcile` reads the clock again, at `later`, after the sources are read.
  abbrev heartbeat : (now later : ℕ) → Hardware → HardwareCollector F → HardwareCollector F × Bool
  heartbeat now later hw c =
      let sources = read_all hw c.sources in
      (
        record c {
          sources = sources;
          last_reconciliation = some (reconcile later sources);
          last_heartbeat = now;
          last_fast = now;
          last_medium = now;
          last_slow = now;
        },
        true,
      )

  abbrev fast_round : ℕ → Hardware → HardwareCollector F → HardwareCollector F × Bool
  fast_round now hw c =
      let (sources, any) = read_tier hw fast c.sources in
      let due = elapsed now c.last_fast c.config.fast_interval in
      (
        record c {
          sources = if due then sources else c.sources;
          last_fast = if due then now else c.last_fast;
        },
        due && any,
      )

  abbrev medium_round : ℕ → Hardware → HardwareCollector F → HardwareCollector F × Bool
  medium_round now hw c =
      let (sources, any) = read_tier hw medium c.sources in
      let due = elapsed now c.last_medium c.config.medium_interval in
      (
        record c {
          sources = if due then sources else c.sources;
          last_medium = if due then now else c.last_medium;
        },
        due && any,
      )

  abbrev slow_round : ℕ → Hardware → HardwareCollector F → HardwareCollector F × Bool
  slow_round now hw c =
      let (sources, any) = read_tier hw slow c.sources in
      let due = elapsed now c.last_slow c.config.slow_interval in
      (
        record c {
          sources = if due then sources else c.sources;
          last_slow = if due then now else c.last_slow;
        },
        due && any,
      )

  unfoldable pub tick :
      (now later : ℕ) → Hardware → HardwareCollector F → HardwareCollector F × Bool
  tick now later hw c =
      let (c1, a) = fast_round now hw c in
      let (c2, b) = medium_round now hw c1 in
      let (c3, d) = slow_round now hw c2 in
      if elapsed now c.last_heartbeat c.config.heartbeat_interval
      then heartbeat now later hw c
      else (c3, a || b || d)
