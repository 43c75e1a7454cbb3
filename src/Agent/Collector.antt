-- ===== src/Agent/Collector.antt =====
-- keck-agent/src/hardware/collector.rs and the types of hardware/mod.rs: tiered polling of the power
-- sources, energy deltas and reconciliation. Times are nanoseconds of the monotonic clock.
pub mod State
pub mod Energy
pub mod Delta
pub mod Ticks
pub mod Reconcile
use keck.Base.{
  ℕ, ◌+◌, ◌-◌, ◌*◌, ◌/◌, ◌%◌, ◌^◌, ◌≡◌, String, Bool, true, false, ◌||◌, Option, none, some, List,
  [], ◌∷◌, map, if◌then◌else◌, ltb, leb, is_some,
}
use keck.Base.Words.{add_u64, sub_u64, cast_u64}

pub data ReadingType : Type 0 where
  measured estimated derived : ReadingType

pub data Component : Type 0 where
  cpu memory gpu nic storage fan platform : Component

pub data Granularity : Type 0 where
  node : Granularity
  socket : ℕ → Granularity
  core : ℕ → ℕ → Granularity
  device : ℕ → Granularity

pub record PowerReading : Type 0 where
  pub source_id : String
  pub timestamp : ℕ
  pub component : Component
  pub granularity : Granularity
  pub reading_type : ReadingType
  pub energy_uj : Option ℕ
  pub power_uw : Option ℕ
  pub max_energy_uj : ℕ

pub data Tier : Type 0 where
  fast medium slow : Tier

pub record CollectorConfig : Type 0 where
  pub fast_interval : ℕ
  pub medium_interval : ℕ
  pub slow_interval : ℕ
  pub heartbeat_interval : ℕ

abbrev pub millisecond : ℕ
millisecond = 10 ^ 6

-- `CollectorConfig::default()`
abbrev pub default_config : CollectorConfig
default_config = record {
  fast_interval = 100 * millisecond;
  medium_interval = 500 * millisecond;
  slow_interval = 3000 * millisecond;
  heartbeat_interval = 5000 * millisecond;
}

-- A source as the collector sees it: its own poll interval, and the readings taken so far. What the
-- hardware answers is an argument of the operations that read.
pub record RegisteredSource : Type 0 where
  pub name : String
  pub poll_interval : ℕ
  pub tier : Tier
  pub last_reading : Option PowerReading
  pub prev_reading : Option PowerReading

-- `PowerSource::read` of each source: `none` is an error.
abbrev pub Hardware : Type 0
Hardware = String → Option PowerReading

unfoldable pub classify_tier : ℕ → CollectorConfig → Tier
classify_tier interval config =
    if leb interval config.fast_interval
    then fast
    else if leb interval config.medium_interval
    then medium
    else slow

-- `(max - prev) + curr` wraps in a release build, as each of the two operations does.
unfoldable pub counter_delta : ℕ → ℕ → ℕ → ℕ
counter_delta curr prev max =
    if leb prev curr
    then curr - prev
    else if ltb 0 max
    then add_u64 (sub_u64 max prev) curr
    else curr

-- Microwatts over nanoseconds, in `u128` and cut to `u64`.
unfoldable pub power_energy : ℕ → ℕ → ℕ
power_energy power_uw interval_ns = cast_u64 (power_uw * interval_ns / 10 ^ 9)

power_delta : Option ℕ → Option ℕ → ℕ → ℕ
unfolding power_energy
power_delta (some curr) (some prev) interval = power_energy curr interval
power_delta _ _ interval = 0

energy_delta : Option ℕ → Option ℕ → PowerReading → PowerReading → ℕ
unfolding counter_delta power_delta
energy_delta (some curr) (some prev) c p = counter_delta curr prev c.max_energy_uj
energy_delta none none c p =
    power_delta c.power_uw p.power_uw (cast_u64 (c.timestamp - p.timestamp))
energy_delta _ _ c p = 0

unfoldable pub compute_energy_delta : PowerReading → PowerReading → ℕ
unfolding energy_delta
compute_energy_delta c p = energy_delta c.energy_uj p.energy_uj c p
