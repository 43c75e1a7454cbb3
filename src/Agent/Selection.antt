-- ===== src/Agent/Selection.antt =====
-- keck-agent/src/main.rs: a round over the power sources, the choice among them and the node's report.
-- `interval` is the time of a round in nanoseconds.
pub mod Report
pub mod Offers
pub mod Best
use keck.Base.{
  ℕ, ◌-◌, ◌%◌, ◌^◌, String, string_eq, ◌==◌, Bool, true, false, ◌&&◌, not, Option, none, some, List,
  [], ◌∷◌, ◌++◌, map, if◌then◌else◌, ltb, leb, unwrap_or, is_some, filter, length,
}
use keck.Base.Float.{Float64}
use keck.Base.Words.{add_u64, sub_u64, sum_u64, cast_u64, unsigned_abs}
use keck.Base.Text.{behind}
use keck.Base.Maps.{Map, get, insert}
use keck.Base.Groups.{run_steps}
use keck.Agent.Attribution.Energy.{energy_to_power}
use keck.Agent.Collector.{
  ReadingType, measured, estimated, derived, Component, cpu, memory, gpu, nic, storage, fan,
  platform, PowerReading, counter_delta,
}
use keck.Controller.Aggregator.Types.{SourceStatus}

-- What a source says of itself.
pub record Source : Type 0 where
  pub id : String
  pub name : String
  pub component : Component
  pub reading_type : ReadingType

pub record ComponentReading : Type 0 where
  pub power_uw : ℕ
  pub source : String
  pub reading_type : ReadingType

-- An entry of the list of all sources.
pub record SourceReading : Type 0 where
  pub name : String
  pub component : String
  pub reading_type : String
  pub available : Bool
  pub power_uw : ℕ

pub record Selection : Type 0 where
  pub cpu_best : Option ComponentReading
  pub mem_best : Option ComponentReading
  pub gpu_best : Option ComponentReading
  pub platform_reading : Option ComponentReading
  pub io_best : Option ComponentReading
  pub storage_best : Option ComponentReading
  pub fan_best : Option ComponentReading

abbrev pub nothing_selected : Selection
nothing_selected = record {
  cpu_best = none;
  mem_best = none;
  gpu_best = none;
  platform_reading = none;
  io_best = none;
  storage_best = none;
  fan_best = none;
}

pub record Round : Type 0 where
  pub prev_readings : Map String ℕ
  pub all_source_readings : List SourceReading
  pub selection : Selection

unfoldable pub type_str : ReadingType → String
type_str measured = "measured"
type_str estimated = "estimated"
type_str derived = "derived"

-- `Display` of a component
unfoldable pub component_str : Component → String
component_str cpu = "cpu"
component_str memory = "memory"
component_str gpu = "gpu"
component_str nic = "nic"
component_str storage = "storage"
component_str fan = "fan"
component_str platform = "platform"

abbrev pub rank : ReadingType → ℕ
rank measured = 3
rank estimated = 2
rank derived = 1

-- A measured reading beats an estimated one, and this a derived one.
unfoldable pub is_better : Option ComponentReading → ComponentReading → Bool
is_better none new = true
is_better (some old) new = ltb (rank old.reading_type) (rank new.reading_type)

unfoldable pub take_better : ComponentReading → Option ComponentReading → Option ComponentReading
unfolding is_better
take_better new old = if is_better old new then some new else old

-- For the platform the highest power counts.
unfoldable pub take_stronger : ComponentReading → Option ComponentReading → Option ComponentReading
take_stronger new none = some new
take_stronger new (some existing) =
    if ltb existing.power_uw new.power_uw then some new else some existing

unfoldable pub choose : Component → ComponentReading → Selection → Selection
choose cpu cr s = record s { cpu_best = take_better cr s.cpu_best }
choose memory cr s = record s { mem_best = take_better cr s.mem_best }
choose gpu cr s = record s { gpu_best = take_better cr s.gpu_best }
choose platform cr s = record s { platform_reading = take_stronger cr s.platform_reading }
choose nic cr s = record s { io_best = take_better cr s.io_best }
choose storage cr s = record s { storage_best = take_better cr s.storage_best }
choose fan cr s = record s { fan_best = take_better cr s.fan_best }

-- The power of a reading, by its energy since the last round if it has one.
unfoldable pub power_of : ℕ → Map String ℕ → Source → PowerReading → ℕ
power_of interval prev s r = elim r.energy_uj [
  | some current ↦
      energy_to_power (counter_delta current (unwrap_or (get s.id prev) current) r.max_energy_uj)
        (cast_u64 interval)
  | none ↦ unwrap_or r.power_uw 0
]

abbrev pub remember_energy : Source → PowerReading → Map String ℕ → Map String ℕ
remember_energy s r prev = elim r.energy_uj [
  | none ↦ prev
  | some current ↦ insert s.id current prev
]

abbrev pub status_line : Source → ReadingType → ℕ → SourceReading
status_line s t power = record {
  name = s.name;
  component = component_str s.component;
  reading_type = type_str t;
  available = ltb 0 power;
  power_uw = power;
}

abbrev pub choose_positive : Source → ReadingType → ℕ → Selection → Selection
choose_positive s t power sel =
    if ltb 0 power
    then choose s.component (record { power_uw = power; source = s.name; reading_type = t }) sel
    else sel

-- The body of the loop over the sources; `none` is a source that could not be read.
unfoldable pub read_source : ℕ → Source × Option PowerReading → Round → Round
read_source interval (s, none) t = record t {
  all_source_readings = t.all_source_readings ++ status_line s s.reading_type 0 ∷ [];
}
read_source interval (s, some r) t =
    let power = power_of interval t.prev_readings s r in
    record {
      prev_readings = remember_energy s r t.prev_readings;
      all_source_readings = t.all_source_readings ++ status_line s r.reading_type power ∷ [];
      selection = choose_positive s r.reading_type power t.selection;
    }

unfoldable pub read_sources : ℕ → Map String ℕ → List (Source × Option PowerReading) → Round
read_sources interval prev answers =
    run_steps (read_source interval) answers
      (record { prev_readings = prev; all_source_readings = []; selection = nothing_selected })
