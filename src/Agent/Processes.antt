-- ===== src/Agent/Processes.antt =====
-- keck-agent/src/main.rs: the reports of the pods from what /proc says of all processes.
pub mod Reports
pub mod Powers
pub mod Scan
pub mod Shares
use keck.Base.{
  ℕ, ◌+◌, ◌-◌, ◌*◌, ◌%◌, String, string_eq, nat_eq, ◌==◌, Bool, true, false, not, ◌||◌, Option,
  none, some, List, [], ◌∷◌, ◌++◌, map, if◌then◌else◌, ltb, eqb, unwrap_or, contains,
}
use keck.Base.Float.{Float64}
use keck.Base.Words.{add_u64, u64_mod}
use keck.Base.Text.{parse_u32}
use keck.Base.Maps.{Map, get, insert, retain}
use keck.Base.Groups.{group, run_steps}
use keck.Agent.Procfs.{
  ProcFs, ProcStat, read_proc_stat, read_memory, read_io_bytes, is_pid, is_leader, pod_of_file,
}
use keck.Agent.Pods.{PodIdentity, PodPowerReport, name_of, namespace_of, of_identity, as_str}

-- What is kept between two scans.
pub record Caches : Type 0 where
  pub prev_cpu_ticks : Map ℕ ℕ
  pub prev_page_faults : Map ℕ (ℕ × ℕ)
  pub prev_io_bytes : Map ℕ ℕ
  pub pss_cache : Map ℕ ℕ

pub record ProcessMetrics : Type 0 where
  pub pod_uid : String
  pub cpu_ticks : ℕ
  pub rss_pages : ℕ
  pub minflt_delta : ℕ
  pub majflt_delta : ℕ
  pub io_bytes_delta : ℕ
  pub net_bytes : ℕ

-- The variables of the loop over the processes.
pub record ScanState : Type 0 where
  pub caches : Caches
  pub process_metrics : List ProcessMetrics
  pub total_all_cpu_ticks : ℕ
  pub total_all_pss : ℕ
  pub total_all_pgfaults : ℕ
  pub total_all_io_bytes : ℕ

-- The memory of a process: read at a refresh or if it is new, and otherwise remembered.
abbrev pub memory_of : Bool → ProcFs → String → ℕ → Map ℕ ℕ → ℕ
memory_of refresh fs name pid cache =
    if refresh then read_memory fs name else unwrap_or (get pid cache) (read_memory fs name)

abbrev pub io_of : ProcFs → String → ℕ
io_of fs name = unwrap_or (read_io_bytes (fs.io name)) 0

-- Transmitted and received.
abbrev pub net_of : Map ℕ (ℕ × ℕ) → ℕ → ℕ
net_of net pid = elim (get pid net) [ none ↦ 0 | some (tx, rx) ↦ add_u64 tx rx ]

abbrev pub faults_of : ℕ → ℕ → ℕ
faults_of minor major = add_u64 minor (major * 10 % u64_mod)

-- How far a process has come since the last scan.
pub record Deltas : Type 0 where
  pub cpu : ℕ
  pub minor : ℕ
  pub major : ℕ
  pub io : ℕ
  pub memory : ℕ

abbrev pub deltas_of : Bool → ProcFs → Caches → String → ℕ → ProcStat → Deltas
deltas_of refresh fs c name pid stat =
    let faults = unwrap_or (get pid c.prev_page_faults) (stat.minflt, stat.majflt) in
    record {
      cpu = stat.cpu_ticks - unwrap_or (get pid c.prev_cpu_ticks) stat.cpu_ticks;
      minor = stat.minflt - faults.0;
      major = stat.majflt - faults.1;
      io = io_of fs name - unwrap_or (get pid c.prev_io_bytes) (io_of fs name);
      memory = memory_of refresh fs name pid c.pss_cache;
    }

-- What the loop remembers of a process.
abbrev pub remember : ProcFs → String → ℕ → ProcStat → ℕ → Caches → Caches
remember fs name pid stat memory c = record {
  prev_cpu_ticks = insert pid stat.cpu_ticks c.prev_cpu_ticks;
  prev_page_faults = insert pid (stat.minflt, stat.majflt) c.prev_page_faults;
  prev_io_bytes = insert pid (io_of fs name) c.prev_io_bytes;
  pss_cache = insert pid memory c.pss_cache;
}

abbrev pub metrics_of : Map ℕ (ℕ × ℕ) → ℕ → Deltas → Option String → List ProcessMetrics
metrics_of net pid d none = []
metrics_of net pid d (some uid) =
    record {
      pod_uid = uid;
      cpu_ticks = d.cpu;
      rss_pages = d.memory;
      minflt_delta = d.minor;
      majflt_delta = d.major;
      io_bytes_delta = d.io;
      net_bytes = net_of net pid;
    }
    ∷ []

abbrev pub add_process :
    Bool → ProcFs → Map ℕ (ℕ × ℕ) → String → ℕ → ProcStat → ScanState → ScanState
add_process refresh fs net name pid stat s =
    let d = deltas_of refresh fs s.caches name pid stat in
    record {
      caches = remember fs name pid stat d.memory s.caches;
      process_metrics = s.process_metrics ++ metrics_of net pid d (pod_of_file (fs.cgroup name));
      total_all_cpu_ticks = add_u64 s.total_all_cpu_ticks d.cpu;
      total_all_pss = add_u64 s.total_all_pss d.memory;
      total_all_pgfaults = add_u64 s.total_all_pgfaults (faults_of d.minor d.major);
      total_all_io_bytes = add_u64 s.total_all_io_bytes d.io;
    }

-- The process that an entry of /proc is, unless it is passed over.
unfoldable pub process_of : ProcFs → String → Option (ℕ × ProcStat)
process_of fs name =
    if not (is_pid name)
    then none
    else if not (is_leader (fs.status name) name)
    then none
    else elim (read_proc_stat (fs.stat name)) [
      | none ↦ none
      | some stat ↦ some (unwrap_or (parse_u32 name) 0, stat)
    ]

-- The body of the loop over the entries of /proc.
unfoldable pub scan_entry : Bool → ProcFs → Map ℕ (ℕ × ℕ) → String → ScanState → ScanState
scan_entry refresh fs net name s = elim (process_of fs name) [
  | none ↦ s
  | some (pid, stat) ↦ add_process refresh fs net name pid stat s
]

unfoldable pub scan_all : Bool → ProcFs → Map ℕ (ℕ × ℕ) → List String → Caches → ScanState
scan_all refresh fs net names c = run_steps (scan_entry refresh fs net) names (record {
  caches = c;
  process_metrics = [];
  total_all_cpu_ticks = 0;
  total_all_pss = 0;
  total_all_pgfaults = 0;
  total_all_io_bytes = 0;
})

-- The names that are numbers.
abbrev pub pids_in : List String → List ℕ
pids_in [] = []
pids_in (n ∷ ns) = elim (parse_u32 n) [ none ↦ pids_in ns | some pid ↦ pid ∷ pids_in ns ]

-- Only the processes in /proc are remembered.
unfoldable pub cleanup_stale_pids : ProcFs → Caches → Caches
cleanup_stale_pids fs c =
    let pids : List ℕ = elim fs.entries [ none ↦ [] | some names ↦ pids_in names ] in
    record {
      prev_cpu_ticks = retain (λ pid v. contains pids pid) c.prev_cpu_ticks;
      prev_page_faults = retain (λ pid v. contains pids pid) c.prev_page_faults;
      prev_io_bytes = retain (λ pid v. contains pids pid) c.prev_io_bytes;
      pss_cache = retain (λ pid v. contains pids pid) c.pss_cache;
    }
