-- ===== src/Agent/Weighted.antt =====
-- keck-agent/src/main.rs: the reports of the pods by the work of each core. `files` are the cgroup files
-- of the processes and `pss` what `read_pss_kb` reads of them; the tables are visited in their order.
use keck.Base.{
  ℕ, String, string_eq, nat_eq, pair_eq, Option, some, List, [], ◌∷◌, ◌++◌, map, if◌then◌else◌, ltb,
  unwrap_or, length, contains, filter, not, eqb,
}
use keck.Base.Float.{Float64, sum_f64}
use keck.Base.Words.{add_u64}
use keck.Base.Maps.{Map, get, insert, keys, values}
use keck.Base.Groups.{group, run_steps}
use keck.Agent.Ebpf.{EbpfSnapshot}
use keck.Agent.Procfs.{pod_of_file}
use keck.Agent.Pods.{PodIdentity, PodPowerReport, CpuTime, report_of, pid_pod_uid, pod_rss}

pub record CoreCounterDeltas : Type 0 where
  pub core_id : ℕ
  pub instructions : ℕ
  pub cycles : ℕ
  pub cache_misses : ℕ

-- The processes of each core with their times.
unfoldable pub core_pid_time : List CpuTime → Map ℕ (List (ℕ × ℕ))
core_pid_time times = group (λ x. some x.0) (λ x. []) (λ x ps. ps ++ (x.1, x.2) ∷ []) times []

module _ {ℓ} {F : Type ℓ} ⦃f : Float64 F⦄ where
  abbrev pub zero : F
  zero = f.lit 0 0

  -- `*entry(k).or_default() += x`
  abbrev pub add_to {κ} : {X : Type κ} → (X → ℕ) → (X → F) → List X → Map ℕ F → Map ℕ F
  add_to key amount xs m = group (λ x. some (key x)) (λ x. zero) (λ x w. f.add w (amount x)) xs m

  unfoldable pub cycle_weights : List CoreCounterDeltas → Map ℕ F → Map ℕ F
  cycle_weights [] m = m
  cycle_weights (c ∷ cs) m =
      cycle_weights cs (if ltb 0 c.cycles then insert c.core_id (f.of_u64 c.cycles) m else m)

  abbrev pub freq_weights : List (ℕ × ℕ × ℕ) → Map ℕ F
  freq_weights xs =
      add_to (λ x. x.0)
        (λ x. f.mul (f.powi (f.div (f.of_u64 x.1) (f.lit 1000000 0)) 2) (f.of_u64 x.2)) xs []

  abbrev pub time_weights : List CpuTime → Map ℕ F
  time_weights xs = add_to (λ x. x.0) (λ x. f.of_u64 x.2) xs []

  -- The first of two tables that is not empty.
  abbrev pub or_else : Map ℕ F → Map ℕ F → Map ℕ F
  or_else [] n = n
  or_else (x ∷ m) n = x ∷ m

  -- By cycles, or by the frequency's square and time, or by time.
  unfoldable pub core_weight : List CoreCounterDeltas → EbpfSnapshot → Map ℕ F
  core_weight counters snapshot =
      or_else (or_else (cycle_weights counters []) (freq_weights snapshot.cpu_freq_times))
        (time_weights snapshot.pid_cpu_times)

  abbrev pub core_energy : ℕ → F → Map ℕ F → Map ℕ F
  core_energy total_cpu_uw total ws =
      map (λ x. (x.0, f.mul (f.of_u64 total_cpu_uw) (f.div x.1 total))) ws

  -- The work of a process on a core.
  unfoldable pub pid_weight : F → F → Map (ℕ × ℕ) (ℕ × ℕ × ℕ) → ℕ → ℕ × ℕ → F
  pid_weight alpha beta counters cpu (pid, time_ns) =
      let (instr, cyc, misses) = unwrap_or (get (cpu, pid) counters) (0, 0, 0) in
      let ipc = if ltb 0 cyc then f.div (f.of_u64 instr) (f.of_u64 cyc) else zero in
      let miss_ratio = if ltb 0 instr then f.div (f.of_u64 misses) (f.of_u64 instr) else zero in
      let workload_factor = f.add (f.add (f.lit 1 0) (f.mul alpha ipc)) (f.mul beta miss_ratio) in
      if eqb (length counters) 0 then f.of_u64 time_ns else f.mul (f.of_u64 time_ns) workload_factor

  -- A core's energy goes to the pods of its processes by their weights.
  unfoldable pub give_energy : Map ℕ String → F → F → List (ℕ × F) → Map String F → Map String F
  give_energy pods ce total ws m =
      group (λ x. get x.0 pods) (λ x. zero) (λ x e. f.add e (f.mul ce (f.div x.1 total))) ws m

  -- The body of the loop over the cores.
  unfoldable pub attribute_core :
      F
      → F
      → Map (ℕ × ℕ) (ℕ × ℕ × ℕ)
      → Map ℕ String
      → Map ℕ F
      → ℕ × List (ℕ × ℕ)
      → Map String F
      → Map String F
  attribute_core alpha beta counters pods energy (cpu, pids) m =
      let ce = unwrap_or (get cpu energy) zero in
      let ws = map (λ x. (x.0, pid_weight alpha beta counters cpu x)) pids in
      let total = sum_f64 (map (λ x. x.1) ws) in
      if f.le ce zero then m else if f.le total zero then m else give_energy pods ce total ws m

  unfoldable pub pod_cpu_uw :
      F → F → Map (ℕ × ℕ) (ℕ × ℕ × ℕ) → Map ℕ String → Map ℕ F → List CpuTime → Map String F
  pod_cpu_uw alpha beta counters pods energy times =
      run_steps (attribute_core alpha beta counters pods energy) (core_pid_time times) []

  -- The uids in either table, each of them once.
  abbrev pub all_uids : Map String F → Map String ℕ → List String
  all_uids cpu pss = keys cpu ++ filter (λ uid. not (contains (keys cpu) uid)) (keys pss)

  abbrev pub mem_ratio : ℕ → F → F → F
  mem_ratio llc_misses pss_ratio llc_ratio =
      if ltb 0 llc_misses
      then f.add (f.mul (f.lit 6 1) pss_ratio) (f.mul (f.lit 4 1) llc_ratio)
      else pss_ratio

  unfoldable pub weighted_report :
      String
      → ℕ
      → ℕ
      → ℕ
      → Map String PodIdentity
      → Map String F
      → Map String ℕ
      → ℕ
      → String
      → PodPowerReport
  weighted_report node_name wall total_mem_uw llc_misses cache cpu pss total_pss uid =
      let total_pod_cpu = sum_f64 (values cpu) in
      let own = unwrap_or (get uid cpu) zero in
      let pss_ratio =
        if ltb 0 total_pss
        then f.div (f.of_u64 (unwrap_or (get uid pss) 0)) (f.of_u64 total_pss)
        else zero in
      let llc_ratio = if f.lt zero total_pod_cpu then f.div own total_pod_cpu else zero in
      let memory =
        f.to_u64 (f.mul (f.of_u64 total_mem_uw) (mem_ratio llc_misses pss_ratio llc_ratio)) in
      report_of node_name wall uid (get uid cache) (f.to_u64 own) memory

  unfoldable pub enumerate_pods_ebpf_weighted :
      String
      → ℕ
      → (ℕ → Option String)
      → (ℕ → Option ℕ)
      → ℕ
      → ℕ
      → ℕ
      → List CoreCounterDeltas
      → Map String PodIdentity
      → EbpfSnapshot
      → F
      → F
      → List PodPowerReport
  enumerate_pods_ebpf_weighted node_name wall files pss_of total_cpu_uw total_mem_uw llc_misses
        counters cache snapshot alpha beta =
      let ws = core_weight counters snapshot in
      let total = sum_f64 (values ws) in
      let pods = pid_pod_uid (λ pid. pod_of_file (files pid)) snapshot.pid_cpu_times in
      let cpu =
        pod_cpu_uw alpha beta snapshot.pid_hw_counters pods (core_energy total_cpu_uw total ws)
          snapshot.pid_cpu_times in
      let pss = pod_rss pss_of pods in
      let total_pss = run_steps (λ x n. add_u64 n (unwrap_or (pss_of x.0) 0)) pods 0 in
      if f.le total zero
      then []
      else map (weighted_report node_name wall total_mem_uw llc_misses cache cpu pss total_pss)
          (all_uids cpu pss)
