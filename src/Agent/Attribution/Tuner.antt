-- ===== src/Agent/Attribution/Tuner.antt =====
-- keck-agent/src/attribution/tuner.rs. `lr` is the learning rate of the environment, as it is parsed.
-- The cores are visited in the order of the table.
pub mod Bounds
use keck.Base.{
  ℕ, ◌+◌, Bool, true, false, ◌||◌, Option, List, [], ◌∷◌, ◌++◌, map, if◌then◌else◌, ltb, eqb,
  length, unwrap_or, nat_eq, pair_eq, none, some,
}
use mathlib.Core.List.{foldl}
use keck.Base.Words.{add_u64}
use keck.Base.Float.{Float64, sum_f64, clamp}
use keck.Base.Maps.{Map, get, values}
use keck.Base.Groups.{group, run_steps}

pub record CoefficientTuner {ℓ} (F : Type ℓ) : Type ℓ where
  pub alpha : F
  pub beta : F
  pub learning_rate : F
  pub alpha_grad_ema : F
  pub beta_grad_ema : F
  pub ema_decay : F
  pub min_ipc_diversity : F
  pub updates : ℕ
  pub qualifying_cores : ℕ
  pub last_logged_alpha : F
  pub last_logged_beta : F

pub record PidObs {ℓ} (F : Type ℓ) : Type ℓ where
  pub time_ns : ℕ
  pub ipc : F
  pub miss_ratio : F
  pub cycles : F

-- The sums of the two gradients, and the number of cores that count.
pub record Gradient {ℓ} (F : Type ℓ) : Type ℓ where
  pub d_alpha : F
  pub d_beta : F
  pub qualifying : ℕ

-- CPU, PID and nanoseconds.
abbrev pub CpuTime : Type 0
CpuTime = ℕ × ℕ × ℕ

-- Instructions, cycles and cache misses by CPU and PID.
abbrev pub Counters : Type 0
Counters = Map (ℕ × ℕ) (ℕ × ℕ × ℕ)

abbrev pub counters_of : Counters → CpuTime → ℕ × ℕ × ℕ
counters_of counters (cpu, pid, time_ns) = unwrap_or (get (cpu, pid) counters) (0, 0, 0)

-- An entry with no time or no cycles is passed over.
unfoldable pub core_of : Counters → CpuTime → Option ℕ
core_of counters x =
    if eqb x.2 0 then none else if eqb (counters_of counters x).1 0 then none else some x.0

module _ {ℓ} {F : Type ℓ} ⦃f : Float64 F⦄ where
  unfoldable pub new : Option F → F → F → CoefficientTuner F
  new lr alpha beta = record {
    alpha = alpha;
    beta = beta;
    learning_rate = unwrap_or lr (f.lit 1 3);
    alpha_grad_ema = f.lit 0 0;
    beta_grad_ema = f.lit 0 0;
    ema_decay = f.lit 9 1;
    min_ipc_diversity = f.lit 2 0;
    updates = 0;
    qualifying_cores = 0;
    last_logged_alpha = alpha;
    last_logged_beta = beta;
  }

  abbrev pub current : CoefficientTuner F → F × F
  current t = (t.alpha, t.beta)

  unfoldable pub observation : Counters → CpuTime → PidObs F
  observation counters x =
      let (instr, cycles, misses) = counters_of counters x in
      record {
        time_ns = x.2;
        ipc = f.div (f.of_u64 instr) (f.of_u64 cycles);
        miss_ratio = if ltb 0 instr then f.div (f.of_u64 misses) (f.of_u64 instr) else f.lit 0 0;
        cycles = f.of_u64 cycles;
      }

  unfoldable pub core_pids : Counters → List CpuTime → Map ℕ (List (PidObs F))
  core_pids counters times =
      group (core_of counters) (λ x. []) (λ x os. os ++ observation counters x ∷ []) times []

  abbrev pub weight : F → F → PidObs F → F
  weight alpha beta p =
      let workload_factor =
        f.add (f.add (f.lit 1 0) (f.mul alpha p.ipc)) (f.mul beta p.miss_ratio) in
      f.mul (f.of_u64 p.time_ns) workload_factor

  abbrev pub variation : List F → F
  variation epc =
      let n = f.of_u64 (length epc) in
      let mean = f.div (sum_f64 epc) n in
      if f.le mean (f.lit 0 0)
      then f.lit 0 0
      else f.div (f.sqrt (f.div (sum_f64 (map (λ e. f.powi (f.sub e mean) 2) epc)) n)) mean

  unfoldable pub consistency_error : List (PidObs F) → F → F → F
  consistency_error pids alpha beta =
      let total_weight = sum_f64 (map (weight alpha beta) pids) in
      let total_cycles = sum_f64 (map (λ (p : PidObs F). p.cycles) pids) in
      if f.le total_weight (f.lit 0 0)
      then f.lit 0 0
      else variation (
          map
            (λ (p : PidObs F).
              f.div (f.mul (f.div (weight alpha beta p) total_weight) total_cycles) p.cycles)
            pids)

  -- Two processes at least, whose IPCs differ enough.
  unfoldable pub qualifies : F → List (PidObs F) → Bool
  qualifies diversity pids =
      let max_ipc = foldl f.greatest (f.lit 0 0) (map (λ (p : PidObs F). p.ipc) pids) in
      let min_ipc = foldl f.least f.infinity (map (λ (p : PidObs F). p.ipc) pids) in
      if ltb (length pids) 2
      then false
      else if f.le min_ipc (f.lit 0 0) || f.lt (f.div max_ipc min_ipc) diversity
      then false
      else true

  -- The body of the loop over the cores.
  unfoldable pub add_core : CoefficientTuner F → List (PidObs F) → Gradient F → Gradient F
  add_core t pids g =
      let eps = f.lit 1 2 in
      let here = consistency_error pids t.alpha t.beta in
      let err_da = consistency_error pids (f.add t.alpha eps) t.beta in
      let err_db = consistency_error pids t.alpha (f.add t.beta eps) in
      if qualifies t.min_ipc_diversity pids
      then record {
        d_alpha = f.add g.d_alpha (f.div (f.sub err_da here) eps);
        d_beta = f.add g.d_beta (f.div (f.sub err_db here) eps);
        qualifying = add_u64 g.qualifying 1;
      }
      else g

  unfoldable pub gradient : CoefficientTuner F → Counters → List CpuTime → Gradient F
  gradient t counters times =
      run_steps (add_core t) (values (core_pids counters times))
        (record { d_alpha = f.lit 0 0; d_beta = f.lit 0 0; qualifying = 0 })

  abbrev pub averaged : F → F → F → F
  averaged decay ema d = f.add (f.mul decay ema) (f.mul (f.sub (f.lit 1 0) decay) d)

  abbrev pub changed : F → F → Bool
  changed x last = f.lt (f.lit 5 2) (f.div (f.abs (f.sub x last)) last)

  -- What is logged is remembered.
  unfoldable pub log_change : CoefficientTuner F → CoefficientTuner F
  log_change t =
      if changed t.alpha t.last_logged_alpha || changed t.beta t.last_logged_beta
      then record t { last_logged_alpha = t.alpha; last_logged_beta = t.beta }
      else t

  abbrev pub moved : CoefficientTuner F → Gradient F → CoefficientTuner F
  moved t g =
      let n = f.of_u64 g.qualifying in
      let ema_a = averaged t.ema_decay t.alpha_grad_ema (f.div g.d_alpha n) in
      let ema_b = averaged t.ema_decay t.beta_grad_ema (f.div g.d_beta n) in
      record t {
        alpha_grad_ema = ema_a;
        beta_grad_ema = ema_b;
        alpha = clamp (f.sub t.alpha (f.mul t.learning_rate ema_a)) (f.lit 5 2) (f.lit 2 0);
        beta = clamp (f.sub t.beta (f.mul t.learning_rate ema_b)) (f.lit 1 2) (f.lit 10 0);
        updates = add_u64 t.updates 1;
        qualifying_cores = add_u64 t.qualifying_cores g.qualifying;
      }

  unfoldable pub descend : CoefficientTuner F → Gradient F → CoefficientTuner F
  descend t g = log_change (moved t g)

  unfoldable pub update : Counters → List CpuTime → CoefficientTuner F → CoefficientTuner F
  update counters times t =
      if eqb (length counters) 0 || eqb (length times) 0
      then t
      else if eqb (gradient t counters times).qualifying 0
      then t
      else descend t (gradient t counters times)
