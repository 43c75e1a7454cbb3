-- ===== src/Agent/Selection/Report.antt =====
-- keck-agent/src/main.rs: the node's report of a round.
use keck.Base.{
  ℕ, ◌-◌, ◌%◌, ◌^◌, String, string_eq, ◌==◌, Bool, false, ◌&&◌, Option, none, some, List, map,
  if◌then◌else◌, ltb, is_some, filter,
}
use keck.Base.Float.{Float64}
use keck.Base.Words.{add_u64, sub_u64, sum_u64, unsigned_abs}
use keck.Base.Text.{behind}
use keck.Controller.Aggregator.Types.{SourceStatus}
use keck.Agent.Selection.{ComponentReading, SourceReading, Selection, Round, type_str}

abbrev pub power_or_zero : Option ComponentReading → ℕ
power_or_zero none = 0
power_or_zero (some r) = r.power_uw

abbrev pub map_power : Option ComponentReading → Option ℕ
map_power none = none
map_power (some r) = some r.power_uw

abbrev pub source_or_none : Option ComponentReading → String
source_or_none none = "none"
source_or_none (some r) = r.source

abbrev pub type_or_none : Option ComponentReading → String
type_or_none none = "none"
type_or_none (some r) = type_str r.reading_type

-- The sum of the outputs of the power supplies, if it is not 0.
unfoldable pub psu_output : List SourceReading → Option ℕ
psu_output rs =
    let outputs =
      filter (λ (r : SourceReading). r.available && is_some (behind "Output" r.name)) rs in
    let total = sum_u64 (map (λ (r : SourceReading). r.power_uw) outputs) in
    if ltb 0 total then some total else none

-- PSU output, or else the platform's reading.
abbrev pub reference_of : Option ℕ → Option ℕ → Option ℕ
reference_of none q = q
reference_of (some p) q = some p

abbrev pub idle_over : Option ℕ → ℕ → ℕ
idle_over none total = 0
idle_over (some p) total = p - total

unfoldable pub total_attributed : Selection → ℕ
total_attributed s =
    add_u64
      (add_u64
        (add_u64
          (add_u64 (add_u64 (power_or_zero s.cpu_best) (power_or_zero s.mem_best))
            (power_or_zero s.gpu_best))
          (power_or_zero s.io_best))
        (power_or_zero s.storage_best))
      (power_or_zero s.fan_best)

abbrev pub is_selected : Selection → SourceReading → Bool
is_selected s r =
    if r.component == "cpu"
    then source_or_none s.cpu_best == r.name
    else if r.component == "memory"
    then source_or_none s.mem_best == r.name
    else if r.component == "gpu"
    then ltb 0 (power_or_zero s.gpu_best) && r.available
    else if r.component == "platform"
    then is_some s.platform_reading && r.available
    else false

unfoldable pub source_status : String → Selection → SourceReading → SourceStatus
source_status node_name s r = record {
  name = r.name;
  node_name = node_name;
  component = r.component;
  reading_type = r.reading_type;
  available = r.available;
  selected = is_selected s r;
  power_uw = r.power_uw;
}

pub record NodePowerReport {ℓ} (F : Type ℓ) : Type ℓ where
  pub node_name : String
  pub cpu_uw : ℕ
  pub memory_uw : ℕ
  pub gpu_uw : ℕ
  pub platform_uw : Option ℕ
  pub psu_output_uw : Option ℕ
  pub idle_uw : ℕ
  pub error_ratio : F
  pub pod_count : ℕ
  pub process_count : ℕ
  pub timestamp : ℕ
  pub cpu_source : String
  pub memory_source : String
  pub cpu_reading_type : String
  pub sources : List SourceStatus

module _ {ℓ} {F : Type ℓ} ⦃f : Float64 F⦄ where
  abbrev pub error_over : Option ℕ → ℕ → F
  error_over none total = f.lit 0 0
  error_over (some p) total =
      if ltb 0 p then f.div (f.of_u64 (unsigned_abs (sub_u64 p total))) (f.of_u64 p) else f.lit 0 0

  unfoldable pub node_power_report : String → ℕ → ℕ → ℕ → Round → NodePowerReport F
  node_power_report node_name wall process_count pod_count t =
      let s = t.selection in
      let platform_uw = map_power s.platform_reading in
      let psu_output_uw = psu_output t.all_source_readings in
      let reference_power = reference_of psu_output_uw platform_uw in
      let total = total_attributed s in
      record {
        node_name = node_name;
        cpu_uw = power_or_zero s.cpu_best;
        memory_uw = power_or_zero s.mem_best;
        gpu_uw = power_or_zero s.gpu_best;
        platform_uw = platform_uw;
        psu_output_uw = psu_output_uw;
        idle_uw = idle_over reference_power total;
        error_ratio = error_over reference_power total;
        pod_count = pod_count % 2 ^ 32;
        process_count = process_count;
        timestamp = wall;
        cpu_source = source_or_none s.cpu_best;
        memory_source = source_or_none s.mem_best;
        cpu_reading_type = type_or_none s.cpu_best;
        sources = map (source_status node_name s) t.all_source_readings;
      }
