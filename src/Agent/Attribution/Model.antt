-- ===== src/Agent/Attribution/Model.antt =====
-- keck-agent/src/attribution/model.rs: the models that weigh the processes of a core. The trait's
-- implementations are the cases of one type.
use keck.Base.{ℕ, Bool, true, false, List, map, if◌then◌else◌, ltb}
use keck.Base.Float.{Float64}
use keck.Agent.Attribution.Types.{AttributionMethod, full_model, frequency_weighted, cpu_time_ratio}

pub record PidCoreObservation : Type 0 where
  pub pid : ℕ
  pub time_ns : ℕ
  pub instructions : ℕ
  pub cycles : ℕ
  pub cache_misses : ℕ

pub record PidCoreWeight {ℓ} (F : Type ℓ) : Type ℓ where
  pub pid : ℕ
  pub raw_weight : F

pub data AttributionModel {ℓ} (F : Type ℓ) : Type ℓ where
  with_coefficients : (alpha beta : F) → AttributionModel F
  by_frequency : AttributionModel F
  by_cpu_time : AttributionModel F

module _ {ℓ} {F : Type ℓ} where
  abbrev pub method : AttributionModel F → AttributionMethod
  method (with_coefficients alpha beta) = full_model
  method by_frequency = frequency_weighted
  method by_cpu_time = cpu_time_ratio

module _ {ℓ} {F : Type ℓ} ⦃f : Float64 F⦄ where
  -- A quotient of two counters, 0 if the second is 0.
  abbrev ratio_or_zero : ℕ → ℕ → F
  ratio_or_zero a b = if ltb 0 b then f.div (f.of_u64 a) (f.of_u64 b) else f.lit 0 0

  abbrev pub freq_factor : ℕ → F
  freq_factor khz = f.powi (f.div (f.of_u64 khz) (f.lit 1000000 0)) 2

  unfoldable pub weigh : AttributionModel F → ℕ → PidCoreObservation → PidCoreWeight F
  weigh (with_coefficients alpha beta) khz o =
      let ipc = ratio_or_zero o.instructions o.cycles in
      let miss_ratio = ratio_or_zero o.cache_misses o.instructions in
      let workload = f.add (f.add (f.lit 1 0) (f.mul alpha ipc)) (f.mul beta miss_ratio) in
      record {
        pid = o.pid;
        raw_weight = f.mul (f.mul (f.of_u64 o.time_ns) (freq_factor khz)) workload;
      }
  weigh by_frequency khz o = record {
    pid = o.pid;
    raw_weight = f.mul (f.of_u64 o.time_ns) (freq_factor khz);
  }
  weigh by_cpu_time khz o = record { pid = o.pid; raw_weight = f.of_u64 o.time_ns }

  unfoldable pub compute_weights :
      AttributionModel F → List PidCoreObservation → ℕ → List (PidCoreWeight F)
  compute_weights m os khz = map (weigh m khz) os

  abbrev pub select_model : Bool → Bool → AttributionModel F
  select_model true true = with_coefficients (f.lit 3 1) (f.lit 15 1)
  select_model true false = by_frequency
  select_model false counters = by_cpu_time
