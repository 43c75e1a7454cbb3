-- ===== src/Kernel/Time.antt =====
-- keck-ebpf/src/main.rs with keck-agent/src/ebpf/mod.rs: the time on each CPU of each process, over runs
-- in which the kernel's programs and the agent take turns.
pub mod Steps
pub mod Totals
use keck.Base.{
  ℕ, zero, suc, ◌+◌, ◌-◌, ◌*◌, ◌≤◌, ◌<◌, ◌≡◌, refl, sym, ap, ◌∙◌, ◌==◌, Eq, nat_eq, pair_eq, Bool,
  true, false, not, ◌&&◌, ◌||◌, Option, none, some, Option-cases, inl, inr, List, [], ◌∷◌, map,
  ◌++◌, filter, length, ltb, if◌then◌else◌, unwrap_or, arith, Bool-cases,
}
use keck.Base.Results.{Result, ok, err}
use keck.Base.Words.{u64_mod, add_u64, add_u64_exact, sum, sum-append}
use keck.Base.Maps.{keys}
use keck.Kernel.{
  KernelState, PerfReads, PidCpuKey, PidCpuTime, CpuSchedState, max_pid_cpu_entries, accumulate,
  add_time, account_outgoing, switch_task, handle_sched_switch, sched_switch, cpu_frequency,
  handle_cpu_frequency, tcp_sendmsg, tcp_recvmsg, returned, set_at, start_task,
}
use keck.Kernel.Maps.{BpfMaps, LawfulMaps, entries_of}
use keck.Kernel.Lookups.{
  time_or_0, time_in, time_in-iter, accumulate_le, accumulate_room, accumulate-count,
  lookup-drained, iter-drained,
}
use keck.Agent.Ebpf.{EbpfSnapshot, drain, drained, remove_all, cleanup_dead_pids}

-- What happens: a program runs in the kernel, or the agent reads the maps or removes dead processes.
pub data Event : Type 0 where
  switches :
      (now cpu : ℕ)
      → (prev_pid next_pid : Result ℕ ℕ) → (cgroup_id : ℕ) → (ending starting : PerfReads) → Event
  changes_frequency : (now cpu : ℕ) → (freq_khz cpu_id : Result ℕ ℕ) → Event
  sends : (pid : ℕ) → Option ℕ → Event
  receives : (pid : ℕ) → Option ℕ → Event
  drains : (pid_pmc_active : Bool) → Event
  cleans : (exists : ℕ → Bool) → Event

-- The time of one process on one CPU, in what the agent was given.
abbrev pub time_of : PidCpuKey → List (ℕ × ℕ × ℕ) → ℕ
time_of k xs = sum (map (λ x. x.2) (filter (λ x. (x.0, x.1) == k) xs))

-- From the start of a task to its end, unless the CPU was idle or had not been seen yet.
abbrev pub slice : ℕ → ℕ → ℕ → ℕ
slice current_pid start now = if not (current_pid == 0) && not (start == 0) then now - start else 0

-- The time that the switches of a CPU give a process: from each switch to the CPU's next one, if that
-- one has the process as its previous task. `current_pid` and `start` are of the CPU's last switch.
unfoldable pub ran : (cpu pid current_pid start : ℕ) → List Event → ℕ
ran cpu pid current_pid start [] = 0
ran cpu pid current_pid start (switches now c (ok prev) (ok next) _ _ _ ∷ es) =
    let rest = if c == cpu then ran cpu pid next now es else ran cpu pid current_pid start es in
    if (c == cpu) && (prev == pid) then slice current_pid start now + rest else rest
ran cpu pid current_pid start (_ ∷ es) = ran cpu pid current_pid start es

-- A switch whose context could be read.
abbrev pub is_switch : Event → Bool
is_switch (switches _ _ (ok _) (ok _) _ _ _) = true
is_switch _ = false

abbrev pub room_after : ℕ → Event → ℕ
room_after room (drains _) = max_pid_cpu_entries
room_after room e = if is_switch e then room - 1 else room

-- Up to the first drain there are at most `room` switches, and after a drain at most as many as the
-- map has entries.
unfoldable pub fits : ℕ → List Event → Bool
fits room [] = true
fits room (e ∷ es) = (not (is_switch e) || ltb 0 room) && fits (room_after room e) es

module _ (M : Type 0 → Type 0 → Type 0) ⦃b : BpfMaps M⦄ where
  unfoldable pub step : Event → KernelState M → KernelState M × List (ℕ × ℕ × ℕ)
  step (switches now cpu prev next cgroup ending starting) s =
      ((sched_switch M now cpu prev next cgroup ending starting s).0, [])
  step (changes_frequency now cpu freq cpu_id) s = ((cpu_frequency M now cpu freq cpu_id s).0, [])
  step (sends pid size) s = (tcp_sendmsg M pid size s, [])
  step (receives pid ret) s = (tcp_recvmsg M pid ret s, [])
  step (drains active) s = let (t, snapshot) = drain M active s in (t, snapshot.pid_cpu_times)
  step (cleans exists) s = ((cleanup_dead_pids M exists s).0, [])

  -- The kernel's state after the events, and the times that the agent was given, in order.
  unfoldable pub run : List Event → KernelState M → KernelState M × List (ℕ × ℕ × ℕ)
  run [] s = (s, [])
  run (e ∷ es) s = let (t, given) = step e s in let (u, later) = run es t in (u, given ++ later)

  -- The time of a process on a CPU that the map holds.
  abbrev pub held : PidCpuKey → KernelState M → ℕ
  held k s = time_or_0 (b.lookup k s.pid_cpu_time)

  -- `ran` from the last switch that the state records.
  abbrev pub ran_from : PidCpuKey → KernelState M → List Event → ℕ
  ran_from (cpu, pid) s es =
      ran cpu pid (s.cpu_sched_state cpu).current_pid (s.cpu_sched_state cpu).start_time_ns es
