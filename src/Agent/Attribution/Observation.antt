-- ===== src/Agent/Attribution/Observation.antt =====
-- keck-agent/src/attribution/engine.rs: what was observed of the cores and their processes, and the
-- sharing of counters and of memory energy by it.
use keck.Base.{
  ℕ, nat_eq, ◌==◌, Bool, true, false, not, Option, none, some, List, [], ◌∷◌, map, if◌then◌else◌,
  ltb, eqb, unwrap_or, filter, ◌&&◌,
}
use keck.Base.Float.{Float64}
use keck.Base.Words.{add_u64, sum_u64}
use keck.Base.Maps.{Map, get, insert, upsert, values}
use keck.Base.Groups.{run_steps}
use keck.Agent.Attribution.Energy.{EnergyInput}
use keck.Agent.Attribution.Model.{PidCoreObservation}

pub record PidCpuKey : Type 0 where
  pub cpu : ℕ
  pub pid : ℕ

pub record CpuFreqKey : Type 0 where
  pub cpu : ℕ
  pub freq_khz : ℕ

pub record CoreCounters : Type 0 where
  pub instructions : ℕ
  pub cycles : ℕ
  pub cache_misses : ℕ
  pub cache_refs : ℕ

pub record ObservationSnapshot : Type 0 where
  pub pid_cpu_times : List (PidCpuKey × ℕ)
  pub cpu_freq_times : List (CpuFreqKey × ℕ)
  pub core_counters : List (ℕ × CoreCounters)
  pub pid_cgroups : Map ℕ ℕ

abbrev pub is_nil {ℓ} : {A : Type ℓ} → List A → Bool
is_nil [] = true
is_nil (x ∷ xs) = false

unfoldable pub build_core_pid_observations : ObservationSnapshot → Map ℕ (Map ℕ ℕ)
build_core_pid_observations obs =
    run_steps (λ e m. upsert e.0.cpu [] (λ pids. insert e.0.pid e.1 pids) m) obs.pid_cpu_times []

module _ {ℓ} {F : Type ℓ} ⦃f : Float64 F⦄ where
  -- The sums of frequency times time and of time.
  abbrev add_freq : CpuFreqKey × ℕ → F × F → F × F
  add_freq e s =
      (f.add s.0 (f.mul (f.of_u64 e.0.freq_khz) (f.of_u64 e.1)), f.add s.1 (f.of_u64 e.1))

  unfoldable pub freq_sums : ℕ → ObservationSnapshot → F × F
  freq_sums cpu obs =
      run_steps add_freq (filter (λ e. e.0.cpu == cpu) obs.cpu_freq_times) (f.lit 0 0, f.lit 0 0)

-- The functions that compute numbers by way of `f64`.
module _ {ℓ} {F : Type ℓ} (f : Float64 F) where
  unfoldable pub compute_core_avg_freq : ObservationSnapshot → Map ℕ ℕ
  compute_core_avg_freq obs =
      let sums =
        run_steps (λ e m. upsert e.0.cpu (f.lit 0 0, f.lit 0 0) (add_freq ⦃f = f⦄ e) m)
          obs.cpu_freq_times [] in
      map (λ e. (e.0, if f.lt (f.lit 0 0) e.1.1 then f.to_u32 (f.div e.1.0 e.1.1) else 1000000))
        sums

  -- `(n as f64 * (time as f64 / total as f64)) as u64`
  abbrev pub portion : ℕ → ℕ → ℕ → ℕ
  portion n time total = f.to_u64 (f.mul (f.of_u64 n) (f.div (f.of_u64 time) (f.of_u64 total)))

  abbrev counters_of : CoreCounters → ℕ → ℕ → CoreCounters
  counters_of c time total = record {
    instructions = portion c.instructions time total;
    cycles = portion c.cycles time total;
    cache_misses = portion c.cache_misses time total;
    cache_refs = portion c.cache_refs time total;
  }

  -- The body of the loop of `build_core_counter_map`.
  unfoldable pub add_core_counters :
      Option (Map ℕ ℕ) → ℕ → CoreCounters → Map ℕ (Map ℕ CoreCounters) → Map ℕ (Map ℕ CoreCounters)
  add_core_counters none core c m = m
  add_core_counters (some pid_times) core c m =
      let total = sum_u64 (values pid_times) in
      if eqb total 0
      then m
      else upsert core []
          (λ per_pid. run_steps (λ e p. insert e.0 (counters_of c e.1 total) p) pid_times per_pid) m

  unfoldable pub build_core_counter_map : ObservationSnapshot → Map ℕ (Map ℕ CoreCounters)
  build_core_counter_map obs =
      let times = build_core_pid_observations obs in
      run_steps (λ e m. add_core_counters (get e.0 times) e.0 e.1 m) obs.core_counters []

  -- The body of the loop of `aggregate_pid_counter`, with `cache_misses`, its one use.
  unfoldable pub add_core_misses : Option (Map ℕ ℕ) → ℕ → Map ℕ ℕ → Map ℕ ℕ
  add_core_misses none misses m = m
  add_core_misses (some pid_times) misses m =
      let total = sum_u64 (values pid_times) in
      if eqb total 0
      then m
      else run_steps (λ e r. upsert e.0 0 (λ n. add_u64 n (portion misses e.1 total)) r) pid_times m

  unfoldable pub aggregate_cache_misses : ObservationSnapshot → Map ℕ ℕ
  aggregate_cache_misses obs =
      let times = build_core_pid_observations obs in
      run_steps (λ e m. add_core_misses (get e.0 times) e.1.cache_misses m) obs.core_counters []

  -- Each entry's part of an energy, by its part of the sum.
  abbrev in_proportion : ℕ → Map ℕ ℕ → Map ℕ ℕ
  in_proportion energy m = map (λ e. (e.0, portion energy e.1 (sum_u64 (values m)))) m

  unfoldable pub attribute_memory : EnergyInput → ObservationSnapshot → Map ℕ ℕ → Map ℕ ℕ
  attribute_memory energy obs cpu_energy =
      let dram = sum_u64 energy.dram_energy_uj in
      let misses = aggregate_cache_misses obs in
      if eqb dram 0
      then []
      else if not (is_nil obs.core_counters) && ltb 0 (sum_u64 (values misses))
      then in_proportion dram misses
      else if eqb (sum_u64 (values cpu_energy)) 0
      then []
      else in_proportion dram cpu_energy

no_counters : CoreCounters
no_counters = record { instructions = 0; cycles = 0; cache_misses = 0; cache_refs = 0 }

abbrev observation : ℕ × ℕ → CoreCounters → PidCoreObservation
observation e c = record {
  pid = e.0;
  time_ns = e.1;
  instructions = c.instructions;
  cycles = c.cycles;
  cache_misses = c.cache_misses;
}

-- The observations of a core.
unfoldable pub observe_core :
    Option (Map ℕ ℕ) → Option (Map ℕ CoreCounters) → List PidCoreObservation
unfolding no_counters
observe_core none counters = []
observe_core (some pid_times) counters =
    map (λ e. observation e (unwrap_or (get e.0 (unwrap_or counters [])) no_counters)) pid_times
