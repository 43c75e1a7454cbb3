-- ===== src/Tests/Agent.antt =====
-- The agent's theorems at concrete inputs.
use keck.Base.{
  ℕ, ◌+◌, ◌*◌, ◌^◌, ◌≤◌, ◌<◌, ◌≡◌, refl, Option, none, some, List, [], ◌∷◌, map, String, string_eq,
  ◌==◌, length, arith, get_elem?, if◌then◌else◌,
}
use mathlib.Core.List.{flat_map}
use keck.Base.Words.{sum_u64, add_u64, cast_u64, sub_u64}
use keck.Agent.Attribution.Types.{
  AttributionSnapshot, PodPower, ProcessPower, no_power, cpu_time_ratio,
}
use keck.Agent.Attribution.Energy.{energy_to_power}
use keck.Agent.Store.{
  LocalStore, StoreProfile, minimal, new, drain_outbox, requeue, query_pod_processes,
  query_namespace_pods, processes_of_pod,
}
use keck.Agent.Store.History.{Call, pushes, drains, Holds, run, summaries_pushed, run-new-Holds}
use keck.Agent.Store.Outbox.{all_pushes, requeue-drain_outbox, length-outbox}
use keck.Agent.Store.Queries.{query_complete}
use keck.Agent.Collector.{
  PowerReading, RegisteredSource, cpu, platform, socket, node, measured, fast, slow, default_config,
  counter_delta, compute_energy_delta,
}
use keck.Agent.Collector.State.{
  HardwareCollector, reconcile, platform_power, read_source, tick, source_power,
}
use keck.Agent.Collector.Delta.{counter_delta_exact, energy_to_power-compute_energy_delta}
use keck.Agent.Collector.Ticks.{tick_lem}
use keck.Agent.Collector.Reconcile.{reconcile_lem, reported}
use keck.Agent.Collector.Energy.{energy_input, energy_input_socket}
use keck.Tests.Fixed.{fixed}

abbrev web_process : ProcessPower
web_process = record {
  pid = 41;
  comm = "nginx";
  cgroup_id = 7;
  power = record no_power { cpu_uw = 900 };
  core_detail = [];
  attribution_method = cpu_time_ratio;
}

abbrev web_pod : PodPower
web_pod = record {
  pod_uid = "u1";
  name = "web";
  namespace = "shop";
  power = record no_power { cpu_uw = 900 };
  containers =
      (record {
        container_id = "c1";
        name = "nginx";
        cgroup_id = 7;
        power = record no_power { cpu_uw = 900 };
        processes = web_process ∷ [];
      })
      ∷ [];
}

abbrev snapshot : ℕ → AttributionSnapshot ℕ
snapshot t = record {
  timestamp = t;
  interval_ns = 100;
  node = record { measured = no_power; platform_uw = none; attributed_total_uw = 0 };
  processes = web_process ∷ [];
  pods = web_pod ∷ [];
  namespaces = [];
  idle_power = no_power;
  reconciliation = record {
    platform_uw = none;
    component_sum_uw = 0;
    attributed_sum_uw = 0;
    unaccounted_uw = 0;
    error_ratio = 0;
  };
}

abbrev clock : ℕ → ℕ → ℕ
clock t n = t + n

abbrev profile : StoreProfile
profile = minimal 2 2

abbrev calls : List (Call ℕ)
calls =
    pushes (clock 10) (snapshot 10)
    ∷ pushes (clock 20) (snapshot 20)
    ∷ drains
    ∷ pushes (clock 30) (snapshot 30)
    ∷ []

run-new-Holds_example :
    Holds profile
      (snapshot 10 ∷ snapshot 20 ∷ snapshot 30 ∷ [])
      (summaries_pushed calls)
      (run calls (new profile))
run-new-Holds_example = run-new-Holds profile calls

abbrev two_pushes : List ((ℕ → ℕ) × AttributionSnapshot ℕ)
two_pushes = (clock 40, snapshot 40) ∷ (clock 50, snapshot 50) ∷ []

abbrev filled : LocalStore ℕ
filled = run calls (new profile)

requeue-drain_outbox_example :
    requeue (drain_outbox filled).0 (run (all_pushes two_pushes) (drain_outbox filled).1)
    ≡ run (all_pushes two_pushes) filled
requeue-drain_outbox_example = requeue-drain_outbox filled two_pushes

length-outbox_example :
    length (run (all_pushes two_pushes) filled).outbox ≡ length filled.outbox + 2
length-outbox_example = length-outbox two_pushes filled

abbrev ordered : LocalStore ℕ
ordered = record {
  detail_ring = snapshot 10 ∷ snapshot 20 ∷ snapshot 30 ∷ [];
  summary_ring = [];
  outbox = [];
  profile = minimal 5 5;
}

query_complete_example :
    (query_pod_processes "u1" 20 ordered
      ≡ flat_map (processes_of_pod "u1") (snapshot 30 ∷ snapshot 20 ∷ []))
    × (query_namespace_pods "u1" 20 ordered ≡ [])
query_complete_example =
    query_complete ordered "u1" 20 ((omega arith, (omega arith, tt)), ((omega arith, tt), (tt, tt)))
      tt

counter_delta_exact_example : counter_delta 5 95 100 ≡ 10
counter_delta_exact_example =
    counter_delta_exact 95 10 100 (omega arith) (omega arith) (omega arith)

abbrev package_reading : ℕ → ℕ → PowerReading
package_reading t energy = record {
  source_id = "package-0";
  timestamp = t;
  component = cpu;
  granularity = socket 0;
  reading_type = measured;
  energy_uj = some energy;
  power_uw = none;
  max_energy_uj = 1000;
}

abbrev psu_reading : PowerReading
psu_reading = record {
  source_id = "psu";
  timestamp = 10 ^ 9;
  component = platform;
  granularity = node;
  reading_type = measured;
  energy_uj = none;
  power_uw = some 80;
  max_energy_uj = 0;
}

abbrev earlier_psu_reading : PowerReading
earlier_psu_reading = record psu_reading { timestamp = 899999999; power_uw = some 75 }

energy_to_power-compute_energy_delta_example :
    let back = energy_to_power (compute_energy_delta psu_reading earlier_psu_reading) 100000001 in
    (back ≤ 80) × (80 * 100000001 < (back + 1) * 100000001 + 10 ^ 9)
energy_to_power-compute_energy_delta_example =
    energy_to_power-compute_energy_delta psu_reading earlier_psu_reading 80 75 refl refl refl refl
      (omega arith) (omega arith) (omega arith) (omega arith)

abbrev sources : List RegisteredSource
sources =
    (record {
      name = "package-0";
      poll_interval = 0;
      tier = fast;
      last_reading = some (package_reading (10 ^ 9) 20);
      prev_reading = some (package_reading 0 970);
    })
    ∷ (record {
      name = "psu";
      poll_interval = 10 ^ 9;
      tier = slow;
      last_reading = some psu_reading;
      prev_reading = none;
    })
    ∷ []

abbrev collector : HardwareCollector ℕ
collector = record {
  sources = sources;
  config = default_config;
  last_heartbeat = 0;
  last_fast = 0;
  last_medium = 0;
  last_slow = 0;
  last_reconciliation = none;
  num_sockets = 1;
}

abbrev hardware : String → Option PowerReading
hardware name = if name == "package-0" then some (package_reading (10 ^ 9) 40) else none

reconcile_lem_example :
    ((reconcile {F = ℕ} 5 sources).component_sum_uw ≡ reported sources)
    × ((reconcile {F = ℕ} 5 sources).error_ratio ≡ 375)
unfolding sum_u64 source_power add_u64 cast_u64 compute_energy_delta sub_u64 platform_power
    counter_delta
reconcile_lem_example =
    reconcile_lem {F = ℕ} 5 sources 80 refl (omega arith) (omega arith) (omega arith)

tick_lem_example :
    let after = (tick (6 * 10 ^ 9) (6 * 10 ^ 9 + 7) hardware collector).0 in
    (after.sources ≡ map (λ s. (read_source hardware s).0) sources)
    × (after.last_heartbeat ≡ 6 * 10 ^ 9)
    × (after.last_fast ≡ 6 * 10 ^ 9)
    × (after.last_medium ≡ 6 * 10 ^ 9)
    × (after.last_slow ≡ 6 * 10 ^ 9)
    × (after.last_reconciliation ≡ some (reconcile (6 * 10 ^ 9 + 7) after.sources))
    × (after.config ≡ default_config)
tick_lem_example = tick_lem (6 * 10 ^ 9) (6 * 10 ^ 9 + 7) hardware collector

energy_input_socket_example : get_elem? (energy_input 100 collector).socket_energy_uj 0 ≡ some 50
unfolding compute_energy_delta counter_delta add_u64 sub_u64
energy_input_socket_example = energy_input_socket 100 0 collector
