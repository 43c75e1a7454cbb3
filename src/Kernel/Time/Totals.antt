-- ===== src/Kernel/Time/Totals.antt =====
-- keck-ebpf/src/main.rs and keck-agent/src/ebpf/mod.rs: the times over a whole run.
use keck.Base.{
  ℕ, ◌+◌, ◌≤◌, ◌<◌, ◌≡◌, refl, ap, nat_eq, pair_eq, Bool, true, false, not, ◌||◌, List, [], ◌∷◌,
  length, ltb, arith,
}
use keck.Base.Results.{ok, err}
use keck.Base.Words.{u64_mod, sum}
use keck.Kernel.{
  KernelState, loaded, PerfReads, PidCpuKey, PidCpuTime, max_pid_cpu_entries, handle_sched_switch,
  sched_switch, cpu_frequency, tcp_sendmsg, tcp_recvmsg,
}
use keck.Kernel.Maps.{BpfMaps, LawfulMaps}
use keck.Kernel.Lookups.{time_or_0, iter-drained}
use keck.Agent.Ebpf.{drain, cleanup_dead_pids}
use keck.Kernel.Time.{
  Event, switches, changes_frequency, sends, receives, drains, cleans, time_of, ran, fits,
  is_switch, room_after, step, run, held, ran_from,
}
use keck.Kernel.Time.Steps.{
  switch_le, switch_room, switch_count, switch-ran, frequency-IsQuiet, tcp_sendmsg-IsQuiet,
  tcp_recvmsg-IsQuiet, time_of-append, drain-time, quiet_total, IsQuiet,
}

module _ {M : Type 0 → Type 0 → Type 0} ⦃b : BpfMaps M⦄ (l : LawfulMaps M) (cpu pid : ℕ) where
  abbrev k : PidCpuKey
  k = (cpu, pid)

  -- The times after an event, and those that are left.
  abbrev total : Event → KernelState M → List Event → ℕ
  total e s es =
      time_of k (step M e s).1 + (held M k (step M e s).0 + ran_from M k (step M e s).0 es)

  -- The times before an event.
  abbrev before : Event → KernelState M → List Event → ℕ
  before e s es = held M k s + ran_from M k s (e ∷ es)

  quiet_step :
      (s t : KernelState M) (es : List Event)
      → IsQuiet l s t
      → time_of k [] + (held M k t + ran_from M k t es) ≡ held M k s + ran_from M k s es
  unfolding sum
  quiet_step s t es q = omega (arith, quiet_total l cpu pid s t es q)

  drain_step :
      (active : Bool) (s : KernelState M) (es : List Event)
      → total (drains active) s es ≡ before (drains active) s es
  unfolding step drain ran
  drain_step active s es = omega (arith, drain-time l k active s)

  -- All events but switches keep the times, wherever they stand.
  step_kept :
      (e : Event) (s : KernelState M) (es : List Event)
      → is_switch e ≡ false
      → total e s es ≡ before e s es
  unfolding step ran cleanup_dead_pids sched_switch handle_sched_switch
  step_kept (switches now c (ok prev) (ok next) g ending starting) s es h = ground (arith, h)
  step_kept (switches now c (err _) next g ending starting) s es h = quiet_step s s es (refl, refl)
  step_kept (switches now c (ok prev) (err _) g ending starting) s es h =
      quiet_step s s es (refl, refl)
  step_kept (changes_frequency now c freq cpu_id) s es h =
      quiet_step s (cpu_frequency M now c freq cpu_id s).0 es
        (frequency-IsQuiet l now c freq cpu_id s)
  step_kept (sends p size) s es h =
      quiet_step s (tcp_sendmsg M p size s) es (tcp_sendmsg-IsQuiet l p size s)
  step_kept (receives p ret) s es h =
      quiet_step s (tcp_recvmsg M p ret s) es (tcp_recvmsg-IsQuiet l p ret s)
  step_kept (drains active) s es h = drain_step active s es
  step_kept (cleans exists) s es h = quiet_step s (cleanup_dead_pids M exists s).0 es (refl, refl)

  kept_le :
      (e : Event) (s : KernelState M) (es : List Event)
      → is_switch e ≡ false
      → total e s es ≤ before e s es
  kept_le e s es h = omega (arith, step_kept e s es h)

  step_le : (e : Event) (s : KernelState M) (es : List Event) → total e s es ≤ before e s es
  unfolding step sum sched_switch handle_sched_switch
  step_le (switches now c (ok prev) (ok next) g ending starting) s es = omega (
    arith,
    switch_le l now c prev next g ending starting s k,
    switch-ran l now c prev next g ending starting s cpu pid es,
  )
  step_le (switches now c (err n) next g ending starting) s es =
      kept_le (switches now c (err n) next g ending starting) s es refl
  step_le (switches now c (ok prev) (err n) g ending starting) s es =
      kept_le (switches now c (ok prev) (err n) g ending starting) s es refl
  step_le (changes_frequency now c freq cpu_id) s es =
      kept_le (changes_frequency now c freq cpu_id) s es refl
  step_le (sends p size) s es = kept_le (sends p size) s es refl
  step_le (receives p ret) s es = kept_le (receives p ret) s es refl
  step_le (drains active) s es = kept_le (drains active) s es refl
  step_le (cleans exists) s es = kept_le (cleans exists) s es refl

  time_le :
      (es : List Event) (s : KernelState M)
      → let (t, given) = run M es s in time_of k given + held M k t ≤ held M k s + ran_from M k s es
  unfolding run ran sum
  time_le [] s = omega arith
  time_le (e ∷ es) s =
      let (t, given) = step M e s in
      let (u, later) = run M es t in
      omega (arith, time_of-append l k given later, time_le es t, step_le e s es)

  -- The number of entries that the map has and may get.
  abbrev HasRoom : ℕ → KernelState M → Type 0
  HasRoom room s = length (b.iter s.pid_cpu_time) + room ≤ max_pid_cpu_entries

  quiet_room : (s t : KernelState M) (room : ℕ) → IsQuiet l s t → HasRoom room s → HasRoom room t
  quiet_room s t room (same_map, _) h = rw same_map h

  drain_room :
      (active : Bool) (s : KernelState M) → HasRoom max_pid_cpu_entries (drain M active s).0
  unfolding drain
  drain_room active s = rw (iter-drained l s.pid_cpu_time) (omega arith)

  step-HasRoom :
      (e : Event) (s : KernelState M) (room : ℕ)
      → (not (is_switch e) || ltb 0 room) ≡ true
      → HasRoom room s
      → HasRoom (room_after room e) (step M e s).0
  unfolding step sched_switch handle_sched_switch cleanup_dead_pids
  step-HasRoom (switches now c (ok prev) (ok next) g ending starting) s room f h =
      ground (arith, switch_count l now c prev next g ending starting s, f)
  step-HasRoom (switches now c (err _) next g ending starting) s room f h = h
  step-HasRoom (switches now c (ok prev) (err _) g ending starting) s room f h = h
  step-HasRoom (changes_frequency now c freq cpu_id) s room f h =
      quiet_room s (cpu_frequency M now c freq cpu_id s).0 room
        (frequency-IsQuiet l now c freq cpu_id s) h
  step-HasRoom (sends p size) s room f h =
      quiet_room s (tcp_sendmsg M p size s) room (tcp_sendmsg-IsQuiet l p size s) h
  step-HasRoom (receives p ret) s room f h =
      quiet_room s (tcp_recvmsg M p ret s) room (tcp_recvmsg-IsQuiet l p ret s) h
  step-HasRoom (drains active) s room f h = drain_room active s
  step-HasRoom (cleans exists) s room f h = h

  switch_exact :
      (now c prev next g : ℕ) (ending starting : PerfReads) (s : KernelState M) (es : List Event)
      → let e = switches now c (ok prev) (ok next) g ending starting in
        length (b.iter s.pid_cpu_time) < max_pid_cpu_entries
        → before e s es < u64_mod
        → total e s es ≡ before e s es
  unfolding step sum sched_switch handle_sched_switch
  switch_exact now c prev next g ending starting s es room small =
      let left = switch-ran l now c prev next g ending starting s cpu pid es in
      omega (
        arith,
        left,
        switch_room l now c prev next g ending starting s k room (omega (arith, left)),
      )

  step_exact :
      (e : Event) (s : KernelState M) (es : List Event) (room : ℕ)
      → (not (is_switch e) || ltb 0 room) ≡ true
      → HasRoom room s
      → before e s es < u64_mod
      → total e s es ≡ before e s es
  step_exact (switches now c (ok prev) (ok next) g ending starting) s es room f h small =
      switch_exact now c prev next g ending starting s es (ground (arith, f, h)) small
  step_exact (switches now c (err n) next g ending starting) s es room f h small =
      step_kept (switches now c (err n) next g ending starting) s es refl
  step_exact (switches now c (ok prev) (err n) g ending starting) s es room f h small =
      step_kept (switches now c (ok prev) (err n) g ending starting) s es refl
  step_exact (changes_frequency now c freq cpu_id) s es room f h small =
      step_kept (changes_frequency now c freq cpu_id) s es refl
  step_exact (sends p size) s es room f h small = step_kept (sends p size) s es refl
  step_exact (receives p ret) s es room f h small = step_kept (receives p ret) s es refl
  step_exact (drains active) s es room f h small = step_kept (drains active) s es refl
  step_exact (cleans exists) s es room f h small = step_kept (cleans exists) s es refl

  time_exact :
      (es : List Event) (s : KernelState M) (room : ℕ)
      → fits room es ≡ true
      → HasRoom room s
      → held M k s + ran_from M k s es < u64_mod
      → let (t, given) = run M es s in time_of k given + held M k t ≡ held M k s + ran_from M k s es
  unfolding run ran sum fits
  time_exact [] s room f h small = omega arith
  time_exact (e ∷ es) s room f h small =
      let (t, given) = step M e s in
      let (u, later) = run M es t in
      let able : (not (is_switch e) || ltb 0 room) ≡ true = ground arith in
      let fitting : fits (room_after room e) es ≡ true = ground arith in
      let now = step_exact e s es room able h small in
      let rest =
        time_exact es t (room_after room e) fitting (step-HasRoom e s room able h)
          (omega (arith, now)) in
      omega (arith, time_of-append l k given later, now, rest)

  -- Whatever runs in the kernel and whenever the agent drains, what the agent was given of the time of
  -- a process on a CPU and what the map still holds of it are together at most the time that the
  -- switches of the CPU give the process, from each switch to the next with the process as its
  -- previous task: no time is invented or given twice.
  pub drained_time_le :
      (pmc_enabled : ℕ) (es : List Event)
      → let (t, given) = run M es (loaded M pmc_enabled) in
        time_of (cpu, pid) given + held M (cpu, pid) t ≤ ran cpu pid 0 0 es
  drained_time_le pmc_enabled es =
      let none_yet : held M k (loaded M pmc_enabled) ≡ 0 = ap time_or_0 (l.lookup-empty k) in
      omega (arith, time_le es (loaded M pmc_enabled), none_yet)

  -- If from one drain to the next there are no more switches than the map has entries, and the time of
  -- the process on the CPU is less than 2^64 ns, then none of it is lost: what the agent was given and
  -- what the map still holds are together that time.
  pub drained_time_exact :
      (pmc_enabled : ℕ) (es : List Event)
      → fits max_pid_cpu_entries es ≡ true
      → ran cpu pid 0 0 es < u64_mod
      → let (t, given) = run M es (loaded M pmc_enabled) in
        time_of (cpu, pid) given + held M (cpu, pid) t ≡ ran cpu pid 0 0 es
  drained_time_exact pmc_enabled es f small =
      let none_yet : held M k (loaded M pmc_enabled) ≡ 0 = ap time_or_0 (l.lookup-empty k) in
      let room : HasRoom max_pid_cpu_entries (loaded M pmc_enabled) =
        rw (l.iter-empty {K = PidCpuKey} {V = PidCpuTime}) (omega arith) in
      omega (
        arith,
        time_exact es (loaded M pmc_enabled) max_pid_cpu_entries f room (omega (arith, none_yet)),
        none_yet,
      )
