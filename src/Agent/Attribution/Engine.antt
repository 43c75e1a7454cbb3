-- ===== src/Agent/Attribution/Engine.antt =====
-- keck-agent/src/attribution/engine.rs: the engine's state and one interval. `none` is a panic.
pub mod Cores
pub mod Processes
use keck.Base.{
  ℕ, zero, suc, ◌+◌, ◌-◌, ◌*◌, ◌/◌, ◌%◌, ◌^◌, ◌≡◌, nat_eq, ◌==◌, Bool, true, false, not, Option,
  none, some, List, [], ◌∷◌, ◌++◌, map, if◌then◌else◌, ltb, eqb, unwrap_or, filter, ◌&&◌,
}
use keck.Base.Float.{Float64, sum_f64}
use keck.Base.Words.{add_u64, sub_u64, sum_u64, unsigned_abs}
use keck.Base.Maps.{Map, get, upsert, keys, values}
use keck.Base.Groups.{run_steps}
use keck.Agent.Attribution.Types.{
  PowerBreakdown, no_power, CoreAttribution, ProcessPower, NodePower, Reconciliation,
  AttributionSnapshot,
}
use keck.Agent.Attribution.Energy.{EnergyInput, energy_to_power}
use keck.Agent.Attribution.Model.{
  PidCoreObservation, PidCoreWeight, AttributionModel, method, compute_weights, select_model,
}
use keck.Agent.Attribution.Observation.{
  ObservationSnapshot, is_nil, build_core_pid_observations, compute_core_avg_freq,
  build_core_counter_map, attribute_memory, observe_core,
}
use keck.Agent.Attribution.Split.{range, core_weights, split_sockets}

pub record AttributionEngine {ℓ} (F : Type ℓ) : Type ℓ where
  pub model : AttributionModel F
  pub num_cores : ℕ
  pub cores_per_socket : ℕ

module _ {ℓ} {F : Type ℓ} ⦃f : Float64 F⦄ where
  unfoldable pub new : ℕ → ℕ → AttributionEngine F
  new num_cores num_sockets = record {
    model = select_model false false;
    num_cores = num_cores;
    cores_per_socket = if ltb 0 num_sockets then num_cores / num_sockets else num_cores;
  }

  unfoldable pub split_socket_to_cores :
      AttributionEngine F → EnergyInput → ObservationSnapshot → Option (Map ℕ ℕ)
  split_socket_to_cores g energy obs =
      split_sockets ⦃f = f⦄ g.cores_per_socket (core_weights ⦃f = f⦄ obs) 0 energy.socket_energy_uj
        []

-- The two maps that the loop over the cores fills.
pub record Attributed : Type 0 where
  pub cpu_energy : Map ℕ ℕ
  pub core_detail : Map ℕ (List CoreAttribution)

-- What the loop over a core's processes does with the energy of one.
unfoldable pub credit : ℕ → CoreAttribution → Attributed → Attributed
credit pid d t = record {
  cpu_energy = upsert pid 0 (λ e. add_u64 e d.energy_uj) t.cpu_energy;
  core_detail = upsert pid [] (λ ds. ds ++ d ∷ []) t.core_detail;
}

module _ {ℓ} {F : Type ℓ} ⦃f : Float64 F⦄ where
  -- The loop over the weights and the observations, which stand side by side.
  unfoldable pub credit_all :
      ℕ → ℕ → ℕ → F → List (PidCoreWeight F) → List PidCoreObservation → Attributed → Attributed
  credit_all core energy freq total (w ∷ ws) (o ∷ os) t =
      let share = f.to_u64 (f.mul (f.of_u64 energy) (f.div w.raw_weight total)) in
      credit_all core energy freq total ws os (
        credit w.pid
          (record {
            core = core;
            time_ns = o.time_ns;
            avg_freq_khz = freq;
            energy_uj = share;
            instructions = o.instructions;
            cycles = o.cycles;
            cache_misses = o.cache_misses;
          })
          t)
  credit_all core energy freq total _ _ t = t

  -- The body of the loop over the cores.
  unfoldable pub attribute_core :
      AttributionModel F → ObservationSnapshot → Map ℕ ℕ → ℕ → Attributed → Attributed
  attribute_core model obs core_energies core t =
      let energy = unwrap_or (get core core_energies) 0 in
      let freq = unwrap_or (get core (compute_core_avg_freq f obs)) 1000000 in
      let os =
        observe_core (get core (build_core_pid_observations obs))
          (get core (build_core_counter_map f obs)) in
      let ws = compute_weights model os freq in
      let total = sum_f64 (map (λ w. w.raw_weight) ws) in
      if eqb energy 0
      then t
      else if is_nil os
      then t
      else if f.le total (f.lit 0 0)
      then t
      else credit_all core energy freq total ws os t

  unfoldable pub attribute_cores :
      AttributionModel F → ObservationSnapshot → Map ℕ ℕ → ℕ → Attributed
  attribute_cores model obs core_energies num_cores =
      run_steps (attribute_core model obs core_energies) (range 0 num_cores)
        (record { cpu_energy = []; core_detail = [] })

  -- Step 7 for a process. Each key is visited once, so that nothing was removed before.
  unfoldable pub process_power :
      AttributionModel F → ObservationSnapshot → ℕ → Map ℕ ℕ → Attributed → ℕ → ProcessPower
  process_power model obs interval memory t pid = record {
    pid = pid;
    comm = "";
    cgroup_id = unwrap_or (get pid obs.pid_cgroups) 0;
    power = record {
      cpu_uw = energy_to_power (unwrap_or (get pid t.cpu_energy) 0) interval;
      memory_uw = energy_to_power (unwrap_or (get pid memory) 0) interval;
      gpu_uw = 0;
      nic_uw = 0;
      storage_uw = 0;
    };
    core_detail = unwrap_or (get pid t.core_detail) [];
    attribution_method = method model;
  }

  abbrev unaccounted_of : Option ℕ → ℕ → ℕ × F
  unaccounted_of none sum = (0, f.lit 0 0)
  unaccounted_of (some p) sum =
      let rest = sub_u64 p sum in
      (rest, if ltb 0 p then f.div (f.of_u64 (unsigned_abs rest)) (f.of_u64 p) else f.lit 0 0)

  -- Steps 2 to 9, from the energy of the cores.
  unfoldable pub attribute_from :
      ℕ
      → AttributionModel F
      → ℕ
      → ObservationSnapshot
      → EnergyInput
      → Map ℕ ℕ
      → AttributionSnapshot F
  attribute_from now model num_cores obs energy core_energies =
      let t = attribute_cores model obs core_energies num_cores in
      let memory = attribute_memory f energy obs t.cpu_energy in
      let attributed = sum_u64 (values t.cpu_energy) in
      let cores = sum_u64 (values core_energies) in
      let idle = cores - attributed in
      let dram = sum_u64 energy.dram_energy_uj in
      let gpus = sum_u64 energy.gpu_energy_uj in
      let sum = add_u64 (add_u64 cores dram) gpus in
      let shared = add_u64 attributed idle in
      let to_power = λ (e : ℕ). energy_to_power e energy.interval_ns in
      let platform : Option ℕ = elim energy.platform_energy_uj [
        | none ↦ none
        | some e ↦ some (to_power e)
      ] in
      let (rest, ratio) = unaccounted_of energy.platform_energy_uj sum in
      record {
        timestamp = now;
        interval_ns = energy.interval_ns;
        node = record {
          measured = record no_power {
            cpu_uw = to_power cores;
            memory_uw = to_power dram;
            gpu_uw = to_power gpus;
          };
          platform_uw = platform;
          attributed_total_uw = to_power shared;
        };
        processes = map (process_power model obs energy.interval_ns memory t) (keys t.cpu_energy);
        pods = [];
        namespaces = [];
        idle_power = record no_power { cpu_uw = to_power idle };
        reconciliation = record {
          platform_uw = platform;
          component_sum_uw = to_power sum;
          attributed_sum_uw = to_power shared;
          unaccounted_uw = rest;
          error_ratio = ratio;
        };
      }

  -- The snapshot, and the engine with the model chosen.
  unfoldable pub attribute :
      ℕ
      → ObservationSnapshot
      → EnergyInput
      → AttributionEngine F
      → Option (AttributionSnapshot F × AttributionEngine F)
  attribute now obs energy g =
      let model = select_model (not (is_nil obs.cpu_freq_times)) (not (is_nil obs.core_counters)) in
      elim (split_socket_to_cores g energy obs) [
        | none ↦ none
        | some cores ↦
            some (attribute_from now model g.num_cores obs energy cores, record g { model = model })
      ]
