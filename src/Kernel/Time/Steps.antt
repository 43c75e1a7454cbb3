-- ===== src/Kernel/Time/Steps.antt =====
-- keck-ebpf/src/main.rs and keck-agent/src/ebpf/mod.rs: what one event does to the times.
use keck.Base.{
  ℕ, suc, ◌+◌, ◌≤◌, ◌<◌, ◌≡◌, refl, ap, ◌==◌, nat_eq, pair_eq, Bool, true, false, not, ◌&&◌, Option,
  none, some, inl, inr, List, [], ◌∷◌, map, ◌++◌, length, ltb, if◌then◌else◌, arith, Bool-cases,
}
use keck.Base.Results.{Result, ok, err}
use keck.Base.Words.{u64_mod, sum}
use keck.Kernel.{
  KernelState, PerfReads, PidCpuKey, PidCpuTime, CpuSchedState, max_pid_cpu_entries, accumulate,
  add_time, account_outgoing, switch_task, cpu_frequency, handle_cpu_frequency, tcp_sendmsg,
  tcp_recvmsg, start_task,
}
use keck.Kernel.Maps.{BpfMaps, LawfulMaps}
use keck.Kernel.Lookups.{
  time_in, time_in-iter, accumulate_le, accumulate_room, accumulate-count, lookup-drained,
}
use keck.Agent.Ebpf.{drain}
use keck.Kernel.Time.{Event, switches, time_of, slice, ran, held, ran_from}

module _ (M : Type 0 → Type 0 → Type 0) ⦃b : BpfMaps M⦄ (now cpu prev : ℕ) (ending : PerfReads)
    (s : KernelState M) where
  account_outgoing-sched :
      (account_outgoing M now cpu prev ending s).cpu_sched_state ≡ s.cpu_sched_state
  unfolding account_outgoing
  account_outgoing-sched = ground arith

  account_outgoing-time :
      let state = s.cpu_sched_state cpu in
      let elapsed = slice state.current_pid state.start_time_ns now in
      (account_outgoing M now cpu prev ending s).pid_cpu_time ≡ (
        if ltb 0 elapsed
        then accumulate M max_pid_cpu_entries
            (cpu, prev)
            (record { time_ns = elapsed })
            (add_time elapsed)
            s.pid_cpu_time
        else s.pid_cpu_time)
  unfolding account_outgoing
  account_outgoing-time = ground arith

module _ {M : Type 0 → Type 0 → Type 0} ⦃b : BpfMaps M⦄ (l : LawfulMaps M) where
  switch_task-time :
      (now cpu prev next cgroup : ℕ) (ending starting : PerfReads) (s : KernelState M)
      → (switch_task M now cpu prev next cgroup ending starting s).pid_cpu_time
        ≡ (account_outgoing M now cpu prev ending s).pid_cpu_time
  unfolding switch_task
  switch_task-time now cpu prev next cgroup ending starting s = refl

  started-pid :
      (next now : ℕ) (counts : Bool) (r : PerfReads) (state : CpuSchedState)
      → (start_task next now counts r state).current_pid ≡ next
  started-pid next now true r state = refl
  started-pid next now false r state = refl

  started-time :
      (next now : ℕ) (counts : Bool) (r : PerfReads) (state : CpuSchedState)
      → (start_task next now counts r state).start_time_ns ≡ now
  started-time next now true r state = refl
  started-time next now false r state = refl

  -- The time of an outgoing task enters the map, or is lost if the map takes no more.
  pub switch_le :
      (now c prev next cgroup : ℕ) (ending starting : PerfReads) (s : KernelState M) (k : PidCpuKey)
      → let state = s.cpu_sched_state c in
        held M k (switch_task M now c prev next cgroup ending starting s)
        ≤ held M k s
          + (if (c, prev) == k then slice state.current_pid state.start_time_ns now else 0)
  unfolding switch_task
  switch_le now c prev next cgroup ending starting s k =
      let state = s.cpu_sched_state c in
      let elapsed = slice state.current_pid state.start_time_ns now in
      rw (account_outgoing-time M now c prev ending s) (elim (Bool-cases (ltb 0 elapsed)) [
        | inl some_time ↦
            rw some_time (accumulate_le l max_pid_cpu_entries elapsed (c, prev) k s.pid_cpu_time)
        | inr no_time ↦ rw no_time (omega arith)
      ])

  pub switch_room :
      (now c prev next cgroup : ℕ) (ending starting : PerfReads) (s : KernelState M) (k : PidCpuKey)
      → let state = s.cpu_sched_state c in
        let own = if (c, prev) == k then slice state.current_pid state.start_time_ns now else 0 in
        length (b.iter s.pid_cpu_time) < max_pid_cpu_entries
        → held M k s + own < u64_mod
        → held M k (switch_task M now c prev next cgroup ending starting s) ≡ held M k s + own
  unfolding switch_task
  switch_room now c prev next cgroup ending starting s k room small =
      let state = s.cpu_sched_state c in
      let elapsed = slice state.current_pid state.start_time_ns now in
      rw (account_outgoing-time M now c prev ending s) (elim (Bool-cases (ltb 0 elapsed)) [
        | inl some_time ↦
            rw some_time
              (accumulate_room l max_pid_cpu_entries elapsed (c, prev) k s.pid_cpu_time room small)
        | inr no_time ↦ rw no_time (ground arith)
      ])

  pub switch_count :
      (now c prev next cgroup : ℕ) (ending starting : PerfReads) (s : KernelState M)
      → length (b.iter (switch_task M now c prev next cgroup ending starting s).pid_cpu_time)
        ≤ suc (length (b.iter s.pid_cpu_time))
  unfolding switch_task
  switch_count now c prev next cgroup ending starting s =
      let state = s.cpu_sched_state c in
      let elapsed = slice state.current_pid state.start_time_ns now in
      rw (account_outgoing-time M now c prev ending s) (elim (Bool-cases (ltb 0 elapsed)) [
        | inl some_time ↦ rw some_time (
            accumulate-count l max_pid_cpu_entries (c, prev) (record { time_ns = elapsed })
              (add_time elapsed) s.pid_cpu_time)
        | inr no_time ↦ rw no_time (omega arith)
      ])

  split_if :
      (x rest : ℕ) (own : Bool) → (if own then x + rest else rest) ≡ (if own then x else 0) + rest
  split_if x rest true = refl
  split_if x rest false = omega arith

  pub switch-ran :
      (now c prev next cgroup : ℕ) (ending starting : PerfReads) (s : KernelState M) (cpu pid : ℕ)
      (es : List Event)
      → let state = s.cpu_sched_state c in
        let own =
          if (c == cpu) && (prev == pid)
          then slice state.current_pid state.start_time_ns now
          else 0 in
        ran_from M (cpu, pid) s (switches now c (ok prev) (ok next) cgroup ending starting ∷ es)
        ≡ own + ran_from M (cpu, pid) (switch_task M now c prev next cgroup ending starting s) es
  unfolding switch_task ran
  switch-ran now c prev next cgroup ending starting s cpu pid es =
      let counts : Bool = not (s.pmc_enabled == 0) in
      let state : CpuSchedState = s.cpu_sched_state c in
      rw (account_outgoing-sched M now c prev ending s) (elim (Bool-cases (c == cpu)) [
        | inl same ↦
            rw
              (
                same,
                started-pid next now counts starting state,
                started-time next now counts starting state,
                ap s.cpu_sched_state ((nat_eq.beq_iff c cpu).0 same),
              )
              (split_if _ _ (prev == pid))
        | inr other ↦ rw other (omega arith)
      ])

  -- What an event that is no switch leaves.
  abbrev pub IsQuiet : KernelState M → KernelState M → Type 0
  IsQuiet s t = (t.pid_cpu_time ≡ s.pid_cpu_time) × (t.cpu_sched_state ≡ s.cpu_sched_state)

  if-IsQuiet :
      (s : KernelState M) (c : Bool) (t u : KernelState M)
      → IsQuiet s t
      → IsQuiet s u
      → IsQuiet s (if c then t else u)
  if-IsQuiet s true t u h k = h
  if-IsQuiet s false t u h k = k

  pub frequency-IsQuiet :
      (now cpu : ℕ) (freq cpu_id : Result ℕ ℕ) (s : KernelState M)
      → IsQuiet s (cpu_frequency M now cpu freq cpu_id s).0
  unfolding cpu_frequency handle_cpu_frequency
  frequency-IsQuiet now cpu (err _) cpu_id s = (refl, refl)
  frequency-IsQuiet now cpu (ok freq) (err _) s = (refl, refl)
  frequency-IsQuiet now cpu (ok freq) (ok cpu_id) s = (refl, refl)

  pub tcp_sendmsg-IsQuiet :
      (pid : ℕ) (size : Option ℕ) (s : KernelState M) → IsQuiet s (tcp_sendmsg M pid size s)
  unfolding tcp_sendmsg
  tcp_sendmsg-IsQuiet pid none s = (refl, refl)
  tcp_sendmsg-IsQuiet pid (some size) s = if-IsQuiet s _ s _ (refl, refl) (refl, refl)

  pub tcp_recvmsg-IsQuiet :
      (pid : ℕ) (ret : Option ℕ) (s : KernelState M) → IsQuiet s (tcp_recvmsg M pid ret s)
  unfolding tcp_recvmsg
  tcp_recvmsg-IsQuiet pid none s = (refl, refl)
  tcp_recvmsg-IsQuiet pid (some ret) s = if-IsQuiet s _ s _ (refl, refl) (refl, refl)

  pub time_of-append :
      (k : PidCpuKey) (xs ys : List (ℕ × ℕ × ℕ))
      → time_of k (xs ++ ys) ≡ time_of k xs + time_of k ys
  unfolding sum
  time_of-append k [] ys = omega arith
  time_of-append k (x ∷ xs) ys = elim (Bool-cases ((x.0 == k.0) && (x.1 == k.1))) [
    | inl own ↦ rw own (omega (arith, time_of-append k xs ys))
    | inr other ↦ rw other (time_of-append k xs ys)
  ]

  abbrev triple : PidCpuKey × PidCpuTime → ℕ × ℕ × ℕ
  triple x = (x.0.0, x.0.1, x.1.time_ns)

  time_of-triples :
      (k : PidCpuKey) (xs : List (PidCpuKey × PidCpuTime))
      → time_of k (map triple xs) ≡ time_in k xs
  unfolding sum
  time_of-triples k [] = refl
  time_of-triples k (x ∷ xs) = elim (Bool-cases ((x.0.0 == k.0) && (x.0.1 == k.1))) [
    | inl own ↦ rw own (ap (λ n. x.1.time_ns + n) (time_of-triples k xs))
    | inr other ↦ rw other (time_of-triples k xs)
  ]

  -- The agent is given what the map held, and the map then holds no time.
  pub drain-time :
      (k : PidCpuKey) (active : Bool) (s : KernelState M)
      → time_of k (drain M active s).1.pid_cpu_times + held M k (drain M active s).0 ≡ held M k s
  unfolding drain
  drain-time k active s =
      rw (lookup-drained l k s.pid_cpu_time)
        (omega (arith, time_of-triples k (b.iter s.pid_cpu_time), time_in-iter l k s.pid_cpu_time))

  -- What the events after a quiet one add up to.
  pub quiet_total :
      (cpu pid : ℕ) (s t : KernelState M) (es : List Event)
      → IsQuiet s t
      → held M (cpu, pid) t + ran_from M (cpu, pid) t es
        ≡ held M (cpu, pid) s + ran_from M (cpu, pid) s es
  quiet_total cpu pid s t es (same_map, same_states) = rw (same_map, same_states) refl
