-- ===== src/Agent/Collector/Delta.antt =====
-- keck-agent/src/hardware/collector.rs: the energy between two readings.
use keck.Base.{
  ℕ, ◌+◌, ◌-◌, ◌*◌, ◌/◌, ◌%◌, ◌^◌, ◌≤◌, ◌<◌, ◌≡◌, ◌∙◌, inl, inr, arith, ltb, Bool-cases, some, none,
}
use native.Mathlib.Nat.{mod-eq_of_lt, mod-eq-sub-mod}
use keck.Base.Words.{add_u64, sub_u64, cast_u64, u64_mod}
use native.Mathlib.Nat.{div-le_of_le-mul, lt-mul-div-succ, mul_comm}
use keck.Agent.Attribution.Energy.{energy_to_power}
use keck.Agent.Collector.{PowerReading, compute_energy_delta, counter_delta, power_energy}

-- The delta of a counter that counts modulo its range: the energy since the last reading, also if
-- the counter wrapped around once between, as long as less than the whole range was used.
pub counter_delta_exact :
    (prev used max : ℕ)
    → prev < max
    → used < max
    → max < u64_mod
    → counter_delta ((prev + used) % max) prev max ≡ used
unfolding counter_delta add_u64 sub_u64
counter_delta_exact prev used max h k b = elim (Bool-cases (ltb (prev + used) max)) [
  | inl below ↦
      let e : (prev + used) % max ≡ prev + used = mod-eq_of_lt (ground arith) in rw e (ground arith)
  | inr wrapped ↦
      let e : (prev + used) % max ≡ prev + used - max =
        mod-eq-sub-mod (ground arith) ∙ mod-eq_of_lt (ground arith) in
      rw e (ground arith)
]

floor_bounds :
    (power interval : ℕ)
    → power * interval / 10 ^ 9 < u64_mod
    → (power_energy power interval * 10 ^ 9 ≤ power * interval)
      × (power * interval < (power_energy power interval + 1) * 10 ^ 9)
unfolding power_energy cast_u64
floor_bounds power interval h = omega arith

-- From the energy of an interval back to a power that is at most the one it was made from.
back_bounds :
    (power energy interval : ℕ)
    → 0 < interval
    → power < u64_mod
    → energy * 10 ^ 9 ≤ power * interval
    → power * interval < (energy + 1) * 10 ^ 9
    → (energy_to_power energy interval ≤ power)
      × (power * interval < (energy_to_power energy interval + 1) * interval + 10 ^ 9)
unfolding energy_to_power cast_u64
back_bounds power energy interval positive fits low high =
    let swap = mul_comm power interval in
    let le : energy * 10 ^ 9 / interval ≤ power =
      div-le_of_le-mul interval (omega (arith, low, swap)) in
    let e : energy_to_power energy interval ≡ energy * 10 ^ 9 / interval = ground arith in
    let next = lt-mul-div-succ (energy * 10 ^ 9) positive in
    rw e (le, omega (arith, high, next, mul_comm interval (energy * 10 ^ 9 / interval + 1)))

-- From a meter's power to energy and back. Between two readings of a source that measures power only
-- the collector makes the latter reading's power an energy, and the engine makes this energy over
-- the same interval a power again. If the interval is not 0, it and the energy fit 64 bits, and the
-- power is a u64, nothing overflows on the way: the power that comes back is at most the measured
-- one, and the measured one is less than it plus one microwatt plus what one microjoule is over the
-- interval.
pub energy_to_power-compute_energy_delta :
    (c p : PowerReading) (power before : ℕ)
    → c.energy_uj ≡ none
    → p.energy_uj ≡ none
    → c.power_uw ≡ some power
    → p.power_uw ≡ some before
    → let interval = c.timestamp - p.timestamp in
      0 < interval
      → interval < u64_mod
      → power < u64_mod
      → power * interval / 10 ^ 9 < u64_mod
      → let back = energy_to_power (compute_energy_delta c p) interval in
        (back ≤ power) × (power * interval < (back + 1) * interval + 10 ^ 9)
unfolding compute_energy_delta cast_u64
energy_to_power-compute_energy_delta c p power before e1 e2 e3 e4 positive short fits small =
    let span = c.timestamp - p.timestamp in
    let bounds = floor_bounds power span small in
    rw (e1, e2, e3, e4, mod-eq_of_lt short)
      (back_bounds power (power_energy power span) span positive fits bounds.0 bounds.1)
