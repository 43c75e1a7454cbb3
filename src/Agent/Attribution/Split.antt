-- ===== src/Agent/Attribution/Split.antt =====
-- keck-agent/src/attribution/engine.rs: the split of a socket's energy over its cores. `none` is the
-- panic of a division by zero. A u32 product or sum wraps as in a release build.
use mathlib.Core.List.{flat_map}
use keck.Base.{
  ℕ, zero, suc, ◌+◌, ◌-◌, ◌*◌, ◌/◌, ◌%◌, ◌^◌, nat_eq, Option, none, some, List, [], ◌∷◌,
  if◌then◌else◌, eqb, unwrap_or,
}
use keck.Base.Float.{Float64, sum_f64}
use keck.Base.Maps.{Map, get, insert, upsert}
use keck.Base.Groups.{run_steps}
use keck.Agent.Attribution.Observation.{PidCpuKey, ObservationSnapshot, freq_sums}

-- `first..first + n`
abbrev pub range : ℕ → ℕ → List ℕ
range first zero = []
range first (suc n) = first ∷ range (suc first) n

-- `first_core..last_core`
abbrev pub socket_cores : ℕ → ℕ → List ℕ
socket_cores per_socket idx =
    let first = idx % 2 ^ 32 * per_socket % 2 ^ 32 in
    let last = (first + per_socket) % 2 ^ 32 in range first (last - first)

abbrev insert_all : (ℕ → ℕ) → List ℕ → Map ℕ ℕ → Map ℕ ℕ
insert_all energy = run_steps λ c m. insert c (energy c) m

module _ {ℓ} {F : Type ℓ} ⦃f : Float64 F⦄ where
  unfoldable pub busy_weight : ObservationSnapshot → PidCpuKey × ℕ → F
  unfolding freq_sums
  busy_weight obs e =
      let freq = freq_sums e.0.cpu obs in
      let avg = if f.lt (f.lit 0 0) freq.1 then f.div freq.0 freq.1 else f.lit 1000000 0 in
      f.mul (f.of_u64 e.1) (f.powi (f.div avg (f.lit 1000000 0)) 2)

  unfoldable pub core_weights : ObservationSnapshot → Map ℕ F
  core_weights obs =
      run_steps (λ e m. upsert e.0.cpu (f.lit 0 0) (λ w. f.add w (busy_weight obs e)) m)
        obs.pid_cpu_times []

  abbrev some_of : Option F → List F
  some_of none = []
  some_of (some w) = w ∷ []

  abbrev pub total_weight : Map ℕ F → List ℕ → F
  total_weight weights cores = sum_f64 (flat_map (λ c. some_of (get c weights)) cores)

  -- A socket's energy, evenly if nothing ran, otherwise by weight.
  unfoldable pub share_out : ℕ → F → Map ℕ F → ℕ → List ℕ → Map ℕ ℕ → Option (Map ℕ ℕ)
  share_out per_socket total weights energy cores m =
      let share = λ (c : ℕ).
        f.to_u64 (f.mul (f.of_u64 energy) (f.div (unwrap_or (get c weights) (f.lit 0 0)) total)) in
      if f.le total (f.lit 0 0)
      then if eqb per_socket 0 then none else some (insert_all (λ c. energy / per_socket) cores m)
      else some (insert_all share cores m)

  -- The body of the loop over the sockets.
  unfoldable pub split_socket : ℕ → Map ℕ F → ℕ → ℕ → Map ℕ ℕ → Option (Map ℕ ℕ)
  split_socket per_socket weights idx energy m =
      let cores = socket_cores per_socket idx in
      share_out per_socket (total_weight weights cores) weights energy cores m

  unfoldable pub split_sockets : ℕ → Map ℕ F → ℕ → List ℕ → Map ℕ ℕ → Option (Map ℕ ℕ)
  split_sockets per_socket weights idx [] m = some m
  split_sockets per_socket weights idx (e ∷ es) m = elim (split_socket per_socket weights idx e m) [
    | none ↦ none
    | some n ↦ split_sockets per_socket weights (suc idx) es n
  ]
