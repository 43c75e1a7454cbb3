-- ===== src/Kernel.antt =====
-- keck-ebpf/src/main.rs and keck-common/src/lib.rs: the programs that run in the kernel. The maps of
-- the BPF runtime are a parameter (Kernel/Maps.antt); a per-CPU array is a function of the CPU. What
-- a handler reads from its context or from a helper is an argument, with the error or `none` where
-- the read fails; a number of type `i64` is its bit pattern.
pub mod Maps
pub mod Lookups
pub mod Time
use keck.Base.{
  ℕ, ◌-◌, ◌^◌, ◌==◌, Eq, nat_eq, pair_eq, Bool, true, false, not, ◌&&◌, ◌||◌, Option, none, some,
  ltb, if◌then◌else◌,
}
use keck.Base.Results.{Result, err, ok, ◌>>=◌}
use keck.Base.Words.{add_u64}
use keck.Kernel.Maps.{BpfMaps}

-- CPU and PID.
abbrev pub PidCpuKey : Type 0
PidCpuKey = ℕ × ℕ

-- CPU and frequency.
abbrev pub CpuFreqKey : Type 0
CpuFreqKey = ℕ × ℕ

abbrev pub PidCpuCounterKey : Type 0
PidCpuCounterKey = ℕ × ℕ

pub record PidCpuTime : Type 0 where
  pub time_ns : ℕ

pub record CpuFreqTime : Type 0 where
  pub time_ns : ℕ

pub record CpuSchedState : Type 0 where
  pub current_pid : ℕ
  pub start_time_ns : ℕ
  pub start_instructions : ℕ
  pub start_cycles : ℕ
  pub start_cache_misses : ℕ

pub record CpuFreqState : Type 0 where
  pub current_freq_khz : ℕ
  pub start_time_ns : ℕ

pub record PidCpuCounters : Type 0 where
  pub instructions : ℕ
  pub cycles : ℕ
  pub cache_misses : ℕ

pub record PidCgroupValue : Type 0 where
  pub cgroup_id : ℕ

pub record PidNetBytes : Type 0 where
  pub tx_bytes : ℕ
  pub rx_bytes : ℕ

abbrev pub max_pid_cpu_entries : ℕ
max_pid_cpu_entries = 65536

abbrev pub max_cpu_freq_entries : ℕ
max_cpu_freq_entries = 32768

abbrev pub max_pid_cgroup_entries : ℕ
max_pid_cgroup_entries = 65536

abbrev pub max_pid_net_entries : ℕ
max_pid_net_entries = 65536

abbrev pub max_pid_hw_counter_entries : ℕ
max_pid_hw_counter_entries = 65536

-- The maps that the programs share with the agent.
pub record KernelState (M : Type 0 → Type 0 → Type 0) : Type 0 where
  pub pid_cpu_time : M PidCpuKey PidCpuTime
  pub cpu_sched_state : ℕ → CpuSchedState
  pub cpu_freq_time : M CpuFreqKey CpuFreqTime
  pub cpu_freq_state : ℕ → CpuFreqState
  pub pid_cgroup : M ℕ PidCgroupValue
  pub pid_net_bytes : M ℕ PidNetBytes
  pub pid_hw_counters : M PidCpuCounterKey PidCpuCounters
  pub pmc_enabled : ℕ

-- What `bpf_perf_event_read` returns for the three counters.
pub record PerfReads : Type 0 where
  pub of_instructions : ℕ
  pub of_cycles : ℕ
  pub of_cache_misses : ℕ

-- `result < 0`
abbrev pub is_negative : ℕ → Bool
is_negative n = not (ltb n (2 ^ 63))

unfoldable pub read_perf_counter : ℕ → ℕ
read_perf_counter result = if is_negative result then 0 else result

-- The slot of a per-CPU array.
abbrev pub set_at {ℓ} : {A : Type ℓ} → ℕ → A → (ℕ → A) → ℕ → A
set_at cpu x a j = if cpu == j then x else a j

abbrev pub add_time : ℕ → PidCpuTime → PidCpuTime
add_time elapsed v = record { time_ns = add_u64 v.time_ns elapsed }

abbrev pub add_freq_time : ℕ → CpuFreqTime → CpuFreqTime
add_freq_time elapsed v = record { time_ns = add_u64 v.time_ns elapsed }

abbrev pub add_counters : PidCpuCounters → PidCpuCounters → PidCpuCounters
add_counters d v = record {
  instructions = add_u64 v.instructions d.instructions;
  cycles = add_u64 v.cycles d.cycles;
  cache_misses = add_u64 v.cache_misses d.cache_misses;
}

-- The counters since the task started, at least 0.
abbrev pub counter_deltas : CpuSchedState → PerfReads → PidCpuCounters
counter_deltas state r = record {
  instructions = read_perf_counter r.of_instructions - state.start_instructions;
  cycles = read_perf_counter r.of_cycles - state.start_cycles;
  cache_misses = read_perf_counter r.of_cache_misses - state.start_cache_misses;
}

abbrev pub start_task : ℕ → ℕ → Bool → PerfReads → CpuSchedState → CpuSchedState
start_task next_pid now false r state = record state { current_pid = next_pid; start_time_ns = now }
start_task next_pid now true r state = record {
  current_pid = next_pid;
  start_time_ns = now;
  start_instructions = read_perf_counter r.of_instructions;
  start_cycles = read_perf_counter r.of_cycles;
  start_cache_misses = read_perf_counter r.of_cache_misses;
}

module _ (M : Type 0 → Type 0 → Type 0) ⦃b : BpfMaps M⦄ where
  -- The state when the programs are loaded; the agent sets the flag if it counts events.
  abbrev pub loaded : ℕ → KernelState M
  loaded pmc_enabled = record {
    pid_cpu_time = b.empty;
    cpu_sched_state = λ _. record {
      current_pid = 0;
      start_time_ns = 0;
      start_instructions = 0;
      start_cycles = 0;
      start_cache_misses = 0;
    };
    cpu_freq_time = b.empty;
    cpu_freq_state = λ _. record { current_freq_khz = 0; start_time_ns = 0 };
    pid_cgroup = b.empty;
    pid_net_bytes = b.empty;
    pid_hw_counters = b.empty;
    pmc_enabled = pmc_enabled;
  }

  -- `if let Some(val) = map.get_ptr_mut(&key) { f } else { let _ = map.insert(&key, &d, 0); }`
  abbrev pub accumulate : {K V : Type 0} ⦃e : Eq K⦄ → ℕ → K → V → (V → V) → M K V → M K V
  accumulate max k d f m = elim (b.lookup k m) [
    | none ↦ b.insert max k d m
    | some v ↦ b.write k (f v) m
  ]

  abbrev count_outgoing : ℕ → ℕ → PidCpuCounters → KernelState M → KernelState M
  count_outgoing cpu prev_pid d s =
      if ltb 0 d.instructions || ltb 0 d.cycles
      then record s {
        pid_hw_counters =
            accumulate max_pid_hw_counter_entries (cpu, prev_pid) d (add_counters d)
              s.pid_hw_counters;
      }
      else s

  -- The time and the counters of the outgoing task.
  unfoldable pub account_outgoing : ℕ → ℕ → ℕ → PerfReads → KernelState M → KernelState M
  account_outgoing now cpu prev_pid ending s =
      let state = s.cpu_sched_state cpu in
      let elapsed = now - state.start_time_ns in
      if not (state.current_pid == 0) && not (state.start_time_ns == 0) && ltb 0 elapsed
      then (let timed = record s {
        pid_cpu_time =
            accumulate max_pid_cpu_entries (cpu, prev_pid) (record { time_ns = elapsed })
              (add_time elapsed) s.pid_cpu_time;
      } in
          if s.pmc_enabled == 0
          then timed
          else count_outgoing cpu prev_pid (counter_deltas state ending) timed)
      else s

  -- The counters are read twice: `ending` for the outgoing task, `starting` for the incoming one.
  -- `cgroup_id` is what `bpf_get_current_cgroup_id` returns.
  unfoldable pub switch_task :
      ℕ → ℕ → ℕ → ℕ → ℕ → PerfReads → PerfReads → KernelState M → KernelState M
  switch_task now cpu prev_pid next_pid cgroup_id ending starting s =
      let t = account_outgoing now cpu prev_pid ending s in
      record t {
        cpu_sched_state =
            set_at cpu
              (start_task next_pid now (not (s.pmc_enabled == 0)) starting (t.cpu_sched_state cpu))
              t.cpu_sched_state;
        pid_cgroup =
            if next_pid == 0
            then t.pid_cgroup
            else b.insert max_pid_cgroup_entries next_pid (record { cgroup_id = cgroup_id })
                t.pid_cgroup;
      }

  unfoldable pub handle_sched_switch :
      ℕ
      → ℕ
      → Result ℕ ℕ
      → Result ℕ ℕ
      → ℕ
      → PerfReads
      → PerfReads
      → KernelState M
      → Result ℕ (KernelState M)
  handle_sched_switch now cpu prev_pid next_pid cgroup_id ending starting s = do
    prev ← prev_pid
    next ← next_pid
    ok (switch_task now cpu prev next cgroup_id ending starting s)

  abbrev account_frequency :
      ℕ → ℕ → CpuFreqState → M CpuFreqKey CpuFreqTime → M CpuFreqKey CpuFreqTime
  account_frequency now cpu_id state m =
      let elapsed = now - state.start_time_ns in
      if not (state.current_freq_khz == 0) && not (state.start_time_ns == 0) && ltb 0 elapsed
      then accumulate max_cpu_freq_entries (cpu_id, state.current_freq_khz)
          (record { time_ns = elapsed }) (add_freq_time elapsed) m
      else m

  -- `cpu` runs the handler, `cpu_id` is the CPU of the event.
  unfoldable pub handle_cpu_frequency :
      ℕ → ℕ → Result ℕ ℕ → Result ℕ ℕ → KernelState M → Result ℕ (KernelState M)
  handle_cpu_frequency now cpu freq_khz cpu_id s = do
    new_freq_khz ← freq_khz
    id ← cpu_id
    ok (record s {
      cpu_freq_time = account_frequency now id (s.cpu_freq_state cpu) s.cpu_freq_time;
      cpu_freq_state =
          set_at cpu (record { current_freq_khz = new_freq_khz; start_time_ns = now })
            s.cpu_freq_state;
    })

  -- What a tracepoint leaves and returns.
  abbrev pub returned : KernelState M → Result ℕ (KernelState M) → KernelState M × ℕ
  returned s (err _) = (s, 1)
  returned s (ok t) = (t, 0)

  unfoldable pub sched_switch :
      ℕ
      → ℕ
      → Result ℕ ℕ
      → Result ℕ ℕ
      → ℕ
      → PerfReads
      → PerfReads
      → KernelState M
      → KernelState M × ℕ
  sched_switch now cpu prev_pid next_pid cgroup_id ending starting s =
      returned s (handle_sched_switch now cpu prev_pid next_pid cgroup_id ending starting s)

  unfoldable pub cpu_frequency : ℕ → ℕ → Result ℕ ℕ → Result ℕ ℕ → KernelState M → KernelState M × ℕ
  cpu_frequency now cpu freq_khz cpu_id s =
      returned s (handle_cpu_frequency now cpu freq_khz cpu_id s)

  unfoldable pub tcp_sendmsg : ℕ → Option ℕ → KernelState M → KernelState M
  tcp_sendmsg pid none s = s
  tcp_sendmsg pid (some size) s = if pid == 0 then s else record s {
    pid_net_bytes =
        accumulate max_pid_net_entries pid (record { tx_bytes = size; rx_bytes = 0 })
          (λ v. record v { tx_bytes = add_u64 v.tx_bytes size }) s.pid_net_bytes;
  }

  unfoldable pub tcp_recvmsg : ℕ → Option ℕ → KernelState M → KernelState M
  tcp_recvmsg pid none s = s
  tcp_recvmsg pid (some ret) s =
      if (pid == 0) || is_negative ret || (ret == 0) then s else record s {
        pid_net_bytes =
            accumulate max_pid_net_entries pid (record { tx_bytes = 0; rx_bytes = ret })
              (λ v. record v { rx_bytes = add_u64 v.rx_bytes ret }) s.pid_net_bytes;
      }
