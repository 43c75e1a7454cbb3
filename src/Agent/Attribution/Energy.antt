-- ===== src/Agent/Attribution/Energy.antt =====
-- keck-agent/src/attribution/engine.rs: the energy that the engine is given, and its conversion to
-- power.
use keck.Base.{ℕ, ◌*◌, ◌/◌, ◌^◌, Option, List, if◌then◌else◌, eqb}
use keck.Base.Words.{cast_u64}

pub record EnergyInput : Type 0 where
  pub socket_energy_uj : List ℕ
  pub dram_energy_uj : List ℕ
  pub gpu_energy_uj : List ℕ
  pub platform_energy_uj : Option ℕ
  pub interval_ns : ℕ

-- Computed in `u128`, where it cannot overflow, and cut to `u64`.
unfoldable pub energy_to_power : ℕ → ℕ → ℕ
energy_to_power energy_uj interval_ns =
    if eqb interval_ns 0 then 0 else cast_u64 (energy_uj * 10 ^ 9 / interval_ns)
