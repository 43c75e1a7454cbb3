-- ===== src/Tests/Selection.antt =====
-- The theorem on the selection of sources at concrete readings.
use keck.Base.{ℕ, ◌≤◌, ◌≡◌, refl, none, some, Option, List, [], ◌∷◌, String}
use keck.Base.Maps.{Map}
use keck.Agent.Collector.{
  ReadingType, measured, estimated, derived, Component, cpu, memory, gpu, nic, storage, fan,
  platform, PowerReading, node,
}
use keck.Agent.Selection.{Source, read_sources}
use keck.Agent.Selection.Best.{IsStrongest, readings_of, read_sources-best}

abbrev source : String → Component → ReadingType → Source
source name c t = record { id = name; name = name; component = c; reading_type = t }

abbrev reading : String → Component → ReadingType → Option ℕ → Option ℕ → PowerReading
reading name c t energy power = record {
  source_id = name;
  timestamp = 0;
  component = c;
  granularity = node;
  reading_type = t;
  energy_uj = energy;
  power_uw = power;
  max_energy_uj = 0;
}

-- An estimate by energy, a source that fails, a measurement, one that reads 0, and two of the platform.
abbrev answers : List (Source × Option PowerReading)
answers =
    (source "rapl" cpu estimated, some (reading "rapl" cpu estimated (some 900) none))
    ∷ (source "broken" cpu measured, none)
    ∷ (source "redfish" cpu measured, some (reading "redfish" cpu measured none (some 70)))
    ∷ (source "zero" memory measured, some (reading "zero" memory measured none (some 0)))
    ∷ (source "psu" platform measured, some (reading "psu" platform measured none (some 300)))
    ∷ (
      source "chipset" platform measured,
      some (reading "chipset" platform measured none (some 40)),
    )
    ∷ []

abbrev before : Map String ℕ
before = ("rapl", 400) ∷ []

read_sources-best_example :
    let s = (read_sources 1000 before answers).selection in
    (s.cpu_best ≡ some (record { power_uw = 70; source = "redfish"; reading_type = measured }))
    × (s.mem_best ≡ none)
    × (s.gpu_best ≡ none)
    × (s.io_best ≡ none)
    × (s.storage_best ≡ none)
    × (s.fan_best ≡ none)
    × IsStrongest (readings_of 1000 before answers platform) s.platform_reading
unfolding keck.Agent.Selection.power_of keck.Agent.Attribution.Energy.energy_to_power
    keck.Base.Words.cast_u64 keck.Agent.Collector.counter_delta keck.Base.Maps.get
read_sources-best_example = read_sources-best 1000 before answers
