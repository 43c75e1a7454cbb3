-- ===== src/Agent/Gpu.antt =====
-- keck-agent/src/main.rs: the GPU power that the DCGM exporter gives by pod, and the reports of a round.
-- `page` is its text, `none` if there is none or it cannot be read; `parse_f64` is `str::parse::<f64>`.
use keck.Base.{
  ℕ, ◌+◌, ◌%◌, String, string_eq, nat_eq, ◌==◌, Bool, false, not, ◌&&◌, ◌||◌, Option, none, some,
  List, [], ◌∷◌, ◌++◌, map, if◌then◌else◌, ltb, eqb, unwrap_or, find, length,
}
use keck.Base.Float.{Float64}
use keck.Base.Words.{add_u64}
use keck.Base.Text
use keck.Base.Text.{lines, behind, starts_with, after_last, append}
use keck.Base.Maps.{Map, get, insert}
use keck.Base.Groups.{run_steps}
use keck.Agent.Ebpf.{EbpfSnapshot}
use keck.Agent.Procfs.{ProcFs, ◌>>=◌}
use keck.Agent.Pods.{PodIdentity, PodPowerReport, as_str, recalculate_total}
use keck.Agent.Processes.{Caches, cleanup_stale_pids}
use keck.Agent.Processes.Reports.{Powers, enumerate_pods}
use keck.Agent.Weighted.{CoreCounterDeltas, enumerate_pods_ebpf_weighted}

-- The text in quotes behind `label="`.
unfoldable pub extract_dcgm_label : String → String → Option String
extract_dcgm_label line label = do
  rest ← behind (append label "=\"") line
  end ← Text.find b'"' rest
  some (Text.take end rest)

abbrev pub is_pod : String → String → PodPowerReport → Bool
is_pod pod_name namespace p = (p.pod_name == pod_name) && (p.namespace == namespace)

abbrev pub add_gpu : ℕ → PodPowerReport → PodPowerReport
add_gpu gpu_uw p = recalculate_total (record p { gpu_uw = add_u64 p.gpu_uw gpu_uw })

-- The first pod with these names gets the power; `none` if there is no such pod.
unfoldable pub add_to_first :
    String → String → ℕ → List PodPowerReport → Option (List PodPowerReport)
add_to_first pod_name namespace gpu_uw [] = none
add_to_first pod_name namespace gpu_uw (p ∷ ps) =
    let rest = add_to_first pod_name namespace gpu_uw ps in
    if is_pod pod_name namespace p
    then some (add_gpu gpu_uw p ∷ ps)
    else elim rest [ none ↦ none | some qs ↦ some (p ∷ qs) ]

-- A report of a pod that only the cache knows.
abbrev pub gpu_report : String → ℕ → ℕ → String × PodIdentity → PodPowerReport
gpu_report node_name wall gpu_uw (uid, identity) = record {
  node_name = node_name;
  pod_uid = uid;
  pod_name = identity.name;
  namespace = identity.namespace;
  cpu_uw = 0;
  memory_uw = 0;
  gpu_uw = gpu_uw;
  storage_uw = 0;
  io_uw = 0;
  total_uw = gpu_uw;
  timestamp = wall;
  workload_uid = identity.workload_uid;
  workload_name = identity.workload_name;
  workload_kind = identity.workload_kind;
  workload_category = as_str identity.workload_category;
  labels = identity.labels;
}

unfoldable pub give_gpu_power :
    String
    → ℕ
    → Map String PodIdentity
    → String
    → String
    → ℕ
    → List PodPowerReport
    → List PodPowerReport
give_gpu_power node_name wall cache pod_name namespace gpu_uw pods =
    elim (add_to_first pod_name namespace gpu_uw pods) [
      | some changed ↦ changed
      | none ↦
          elim (find
            (λ (e : String × PodIdentity). (e.1.name == pod_name) && (e.1.namespace == namespace))
            cache) [ none ↦ pods | some e ↦ pods ++ gpu_report node_name wall gpu_uw e ∷ [] ]
    ]

-- A line for another host, if it names one.
abbrev pub is_elsewhere : String → Option String → Bool
is_elsewhere node_name none = false
is_elsewhere node_name (some h) = not (h == node_name)

module _ {ℓ} {F : Type ℓ} ⦃f : Float64 F⦄ (parse_f64 : String → Option F) where
  -- The body of the loop over the lines.
  unfoldable pub add_gpu_line :
      String → ℕ → Map String PodIdentity → String → List PodPowerReport → List PodPowerReport
  add_gpu_line node_name wall cache line pods =
      let pod_name = unwrap_or (extract_dcgm_label line "pod") "" in
      let namespace = unwrap_or (extract_dcgm_label line "namespace") "" in
      let watts = unwrap_or (after_last b' ' line >>= parse_f64) (f.lit 0 0) in
      if not (starts_with line "DCGM_FI_DEV_POWER_USAGE{")
      then pods
      else if is_elsewhere node_name (extract_dcgm_label line "Hostname")
      then pods
      else if pod_name == ""
      then pods
      else if f.le watts (f.lit 0 0)
      then pods
      else give_gpu_power node_name wall cache pod_name namespace
          (f.to_u64 (f.mul watts (f.lit 1000000 0))) pods

  unfoldable pub add_gpu_power_to_pods :
      String
      → ℕ
      → Map String PodIdentity
      → Option String
      → List PodPowerReport
      → List PodPowerReport
  add_gpu_power_to_pods node_name wall cache none pods = pods
  add_gpu_power_to_pods node_name wall cache (some body) pods =
      run_steps (add_gpu_line node_name wall cache) (lines body) pods

-- The CPU and memory power by the kernel's times takes the place of that by /proc.
abbrev pub ebpf_map : List PodPowerReport → Map String (ℕ × ℕ)
ebpf_map ps = run_steps (λ (p : PodPowerReport) m. insert p.pod_uid (p.cpu_uw, p.memory_uw) m) ps []

abbrev pub with_powers : Option (ℕ × ℕ) → PodPowerReport → PodPowerReport
with_powers none p = p
with_powers (some (cpu, memory)) p =
    recalculate_total (record p { cpu_uw = cpu; memory_uw = memory })

unfoldable pub merge_ebpf : List PodPowerReport → List PodPowerReport → List PodPowerReport
merge_ebpf ebpf_pods pods = map (λ p. with_powers (get p.pod_uid (ebpf_map ebpf_pods)) p) pods

-- What a round has besides /proc: the cgroup files and the memory of processes by their numbers.
pub record RoundInput {ℓ} (F : Type ℓ) : Type ℓ where
  pub node_name : String
  pub wall : ℕ
  pub powers : Powers
  pub gpu_uw : ℕ
  pub cpu_type : String
  pub cache : Map String PodIdentity
  pub proc : ProcFs
  pub files : ℕ → Option String
  pub pss_of : ℕ → Option ℕ
  pub snapshot : Option EbpfSnapshot
  pub counters : List CoreCounterDeltas
  pub alpha : F
  pub beta : F
  pub page : Option String

module _ {ℓ} {F : Type ℓ} ⦃f : Float64 F⦄ (parse_f64 : String → Option F) where
  abbrev pub weighted_pods : RoundInput F → EbpfSnapshot → List PodPowerReport
  weighted_pods i snapshot =
      enumerate_pods_ebpf_weighted i.node_name i.wall i.files i.pss_of i.powers.total_cpu_uw
        i.powers.total_mem_uw i.powers.total_llc_misses i.counters i.cache snapshot i.alpha i.beta

  -- Only where the CPU power is estimated and the kernel saw processes.
  unfoldable pub refine_pods : RoundInput F → List PodPowerReport → List PodPowerReport
  refine_pods i pods = elim i.snapshot [
    | none ↦ pods
    | some snapshot ↦
        if not (i.cpu_type == "estimated") || eqb (length snapshot.pid_cpu_times) 0
        then pods
        else merge_ebpf (weighted_pods i snapshot) pods
  ]

  -- The reports of the pods of a round, and what is kept for the next.
  unfoldable pub round_pods : RoundInput F → ℕ → Caches → List PodPowerReport × Caches
  round_pods i tick_count c =
      let net : Map ℕ (ℕ × ℕ) = elim i.snapshot [ none ↦ [] | some s ↦ s.pid_net_bytes ] in
      let (pods, kept) =
        enumerate_pods F i.node_name i.wall i.powers i.cache i.proc net tick_count c in
      let refined = refine_pods i pods in
      let with_gpu =
        if ltb 0 i.gpu_uw
        then add_gpu_power_to_pods parse_f64 i.node_name i.wall i.cache i.page refined
        else refined in
      (with_gpu, if eqb ((tick_count + 1) % 30) 0 then cleanup_stale_pids i.proc kept else kept)
