-- ===== src/Tests/Engine.antt =====
-- The engine's theorems at concrete inputs.
use keck.Base.{ℕ, ◌-◌, ◌≡◌, refl, true, false, some, [], ◌∷◌, All, is_some, arith, ◌^◌}
use Prim.Native.Nat.{max}
use keck.Base.Maps.{Map}
use keck.Base.Words.{sum_u64, add_u64}
use keck.Agent.Attribution.Types.{AttributionSnapshot}
use keck.Agent.Attribution.Energy.{EnergyInput, energy_to_power}
use keck.Agent.Attribution.Model.{by_cpu_time}
use keck.Agent.Attribution.Observation.{ObservationSnapshot}
use keck.Agent.Attribution.Engine.{attribute, attribute_from, new}
use keck.Agent.Attribution.Engine.Processes.{spent, spent_all, attribute_from_accounts}
use keck.Agent.Attribution.Engine.Cores.{attribute_total, attribute_panics}
use keck.Tests.Fixed.{fixed}

abbrev observed : ObservationSnapshot
observed = record {
  pid_cpu_times = (record { cpu = 0; pid = 41 }, 300) ∷ (record { cpu = 0; pid = 42 }, 100) ∷ [];
  cpu_freq_times = [];
  core_counters = [];
  pid_cgroups = (41, 7) ∷ [];
}

abbrev input : EnergyInput
input = record {
  socket_energy_uj = 1000 ∷ [];
  dram_energy_uj = 200 ∷ [];
  gpu_energy_uj = [];
  platform_energy_uj = some 1500;
  interval_ns = 10 ^ 9;
}

abbrev core_energies : Map ℕ ℕ
core_energies = (0, 1000) ∷ (1, 500) ∷ []

abbrev result : AttributionSnapshot ℕ
result = attribute_from 5 by_cpu_time 2 observed input core_energies

attribute_from_accounts_example :
    All (λ p. p.power.cpu_uw ≡ energy_to_power (spent p.core_detail) (10 ^ 9)) result.processes
    × (result.idle_power.cpu_uw ≡ energy_to_power (1500 - spent_all result.processes) (10 ^ 9))
    × (result.reconciliation.attributed_sum_uw
        ≡ energy_to_power (max 1500 (spent_all result.processes)) (10 ^ 9))
    × (result.node.attributed_total_uw ≡ result.reconciliation.attributed_sum_uw)
unfolding sum_u64 add_u64
attribute_from_accounts_example =
    attribute_from_accounts 5 by_cpu_time 2 observed input core_energies

attribute_total_example :
    is_some (attribute ⦃f = fixed⦄ 5 observed input (new ⦃f = fixed⦄ 4 2)) ≡ true
attribute_total_example = attribute_total fixed 5 4 2 observed input (omega arith) (omega arith)

attribute_panics_example :
    is_some (attribute ⦃f = fixed⦄ 5 observed input (new ⦃f = fixed⦄ 1 2)) ≡ false
attribute_panics_example = attribute_panics fixed 5 1 2 observed input refl (omega arith) refl
