-- ===== src/Agent/Ebpf.antt =====
-- keck-agent/src/ebpf/mod.rs: reading and emptying the maps that the kernel's programs fill. A map is
-- read and emptied with no handler in between, and the maps are there. `exists` says which directories
-- of /proc exist.
use keck.Base.{ℕ, nat_eq, pair_eq, Eq, Bool, not, List, [], ◌∷◌, map, filter, length, if◌then◌else◌}
use keck.Base.Maps.{Map, insert, keys}
use mathlib.Core.List.{foldl}
use keck.Kernel.{
  KernelState, PidCgroupValue, PidNetBytes, PidCpuCounters, PidCpuCounterKey, PidCpuTime, PidCpuKey,
  CpuFreqTime, CpuFreqKey,
}
use keck.Kernel.Maps.{BpfMaps}

pub record EbpfSnapshot : Type 0 where
  pub pid_cpu_times : List (ℕ × ℕ × ℕ)
  pub cpu_freq_times : List (ℕ × ℕ × ℕ)
  pub pid_cgroups : Map ℕ ℕ
  pub pid_net_bytes : Map ℕ (ℕ × ℕ)
  pub pid_hw_counters : Map (ℕ × ℕ) (ℕ × ℕ × ℕ)

-- A `HashMap` into which the items go one after the other.
abbrev insert_all : {K V : Type 0} ⦃e : Eq K⦄ → List (K × V) → Map K V
insert_all = foldl (λ m x. insert x.0 x.1 m) []

abbrev net_item : ℕ × PidNetBytes → ℕ × (ℕ × ℕ)
net_item (pid, v) = (pid, (v.tx_bytes, v.rx_bytes))

abbrev counter_item : PidCpuCounterKey × PidCpuCounters → (ℕ × ℕ) × (ℕ × ℕ × ℕ)
counter_item (key, v) = (key, (v.instructions, v.cycles, v.cache_misses))

module _ (M : Type 0 → Type 0 → Type 0) ⦃b : BpfMaps M⦄ where
  -- `for key in &keys_to_delete { let _ = map.remove(key); }`
  unfoldable pub remove_all : {K V : Type 0} ⦃e : Eq K⦄ → List K → M K V → M K V
  remove_all [] m = m
  remove_all (k ∷ ks) m = remove_all ks (b.remove k m)

  -- The entries of a map are read, and their keys then removed.
  abbrev pub drained : {K V : Type 0} ⦃e : Eq K⦄ → M K V → M K V
  drained m = remove_all (keys (b.iter m)) m

  unfoldable pub drain : Bool → KernelState M → KernelState M × EbpfSnapshot
  drain pid_pmc_active s = (
    record s {
      pid_cpu_time = drained s.pid_cpu_time;
      cpu_freq_time = drained s.cpu_freq_time;
      pid_net_bytes = drained s.pid_net_bytes;
      pid_hw_counters = if pid_pmc_active then drained s.pid_hw_counters else s.pid_hw_counters;
    },
    record {
      pid_cpu_times =
          map (λ (x : PidCpuKey × PidCpuTime). (x.0.0, x.0.1, x.1.time_ns)) (b.iter s.pid_cpu_time);
      cpu_freq_times =
          map (λ (x : CpuFreqKey × CpuFreqTime). (x.0.0, x.0.1, x.1.time_ns))
            (b.iter s.cpu_freq_time);
      pid_cgroups =
          insert_all (map (λ (x : ℕ × PidCgroupValue). (x.0, x.1.cgroup_id)) (b.iter s.pid_cgroup));
      pid_net_bytes = insert_all (map net_item (b.iter s.pid_net_bytes));
      pid_hw_counters =
          if pid_pmc_active then insert_all (map counter_item (b.iter s.pid_hw_counters)) else [];
    },
  )

  unfoldable pub cleanup_dead_pids : (ℕ → Bool) → KernelState M → KernelState M × ℕ
  cleanup_dead_pids exists s =
      let dead_pids = filter (λ pid. not (exists pid)) (keys (b.iter s.pid_cgroup)) in
      (record s { pid_cgroup = remove_all dead_pids s.pid_cgroup }, length dead_pids)
