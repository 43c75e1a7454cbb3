-- ===== src/Agent/Processes/Scan.antt =====
-- keck-agent/src/main.rs: a scan of /proc, process by process.
use keck.Base.{
  ℕ, ◌-◌, ◌≡◌, refl, sym, ap, ◌∙◌, String, string_eq, nat_eq, ◌==◌, Bool, false, Option, none, some,
  Option-cases, List, [], ◌∷◌, ◌++◌, map, if◌then◌else◌, unwrap_or, All, inl, inr,
}
use mathlib.Core.List.{flat_map, append_assoc, append-nil}
use keck.Base.Words.{add_u64, sum_u64}
use keck.Base.Maps.{Map, get, get-insert, insert}
use keck.Base.Groups.{run_steps, field-run_steps}
use keck.Agent.Procfs.{ProcFs, ProcStat, pod_of_file, read_memory}
use keck.Agent.Processes.{
  Caches, ScanState, ProcessMetrics, Deltas, deltas_of, remember, metrics_of, add_process,
  faults_of, process_of, scan_entry, scan_all, io_of,
}

-- A process that is counted: its name, its number and its counters.
pub record Process : Type 0 where
  pub name : String
  pub pid : ℕ
  pub stat : ProcStat

abbrev pub processes : ProcFs → List String → List Process
processes fs [] = []
processes fs (n ∷ ns) = elim (process_of fs n) [
  | none ↦ processes fs ns
  | some (pid, stat) ↦ record { name = n; pid = pid; stat = stat } ∷ processes fs ns
]

-- No two processes have one number.
abbrev pub IsDistinct : List Process → Type 0
IsDistinct [] = Unit
IsDistinct (p ∷ ps) = All (λ q. (p.pid == q.pid) ≡ false) ps × IsDistinct ps

-- The pod of a process.
abbrev pub pod : ProcFs → Process → Option String
pod fs p = pod_of_file (fs.cgroup p.name)

module _ (refresh : Bool) (fs : ProcFs) (net : Map ℕ (ℕ × ℕ)) where
  abbrev pub deltas : Caches → Process → Deltas
  deltas c p = deltas_of refresh fs c p.name p.pid p.stat

  abbrev step : Process → ScanState → ScanState
  step p = add_process refresh fs net p.name p.pid p.stat

  scan-processes :
      (names : List String) (s : ScanState)
      → run_steps (scan_entry refresh fs net) names s ≡ run_steps step (processes fs names) s
  unfolding scan_entry
  scan-processes [] s = refl
  scan-processes (n ∷ ns) s = elim (Option-cases (process_of fs n)) [
    | inl e ↦ rw (e, scan_entry, processes) (scan-processes ns s)
    | inr ((pid, stat), e) ↦
        rw (e, scan_entry, processes) (scan-processes ns (add_process refresh fs net n pid stat s))
  ]

  -- A process leaves what is known of the others.
  deltas-remember :
      (p q : Process) (memory : ℕ) (c : Caches)
      → (p.pid == q.pid) ≡ false
      → deltas (remember fs p.name p.pid p.stat memory c) q ≡ deltas c q
  deltas-remember p q memory c h =
      let ticks = unchanged c.prev_cpu_ticks p.stat.cpu_ticks in
      let faults = unchanged c.prev_page_faults (p.stat.minflt, p.stat.majflt) in
      let io = unchanged c.prev_io_bytes (io_of fs p.name) in
      let kb = unchanged c.pss_cache memory in
      λ i. record {
        cpu = q.stat.cpu_ticks - unwrap_or (ticks i) q.stat.cpu_ticks;
        minor = q.stat.minflt - (unwrap_or (faults i) (q.stat.minflt, q.stat.majflt)).0;
        major = q.stat.majflt - (unwrap_or (faults i) (q.stat.minflt, q.stat.majflt)).1;
        io = io_of fs q.name - unwrap_or (io i) (io_of fs q.name);
        memory =
            if refresh then read_memory fs q.name else unwrap_or (kb i) (read_memory fs q.name);
      }
    where
      unchanged : {V : Type 0} (m : Map ℕ V) (v : V) → get q.pid (insert p.pid v m) ≡ get q.pid m
      unchanged m v = rw (get-insert, h) refl

  -- The step, with the deltas of the process given.
  abbrev pub count : Process → Deltas → ScanState → ScanState
  count p d s = record {
    caches = remember fs p.name p.pid p.stat d.memory s.caches;
    process_metrics = s.process_metrics ++ metrics_of net p.pid d (pod_of_file (fs.cgroup p.name));
    total_all_cpu_ticks = add_u64 s.total_all_cpu_ticks d.cpu;
    total_all_pss = add_u64 s.total_all_pss d.memory;
    total_all_pgfaults = add_u64 s.total_all_pgfaults (faults_of d.minor d.major);
    total_all_io_bytes = add_u64 s.total_all_io_bytes d.io;
  }

  -- With the deltas against the caches before the scan.
  abbrev pub step_from : Caches → Process → ScanState → ScanState
  step_from c p = count p (deltas c p)

  deltas_kept :
      (c b : Caches) (p : Process) (memory : ℕ) (qs : List Process)
      → All (λ q. (p.pid == q.pid) ≡ false) qs
      → All (λ q. deltas b q ≡ deltas c q) qs
      → All (λ q. deltas (remember fs p.name p.pid p.stat memory b) q ≡ deltas c q) qs
  deltas_kept c b p memory [] d h = tt
  deltas_kept c b p memory (q ∷ qs) (d, ds) (h, hs) =
      (deltas-remember p q memory b d ∙ h, deltas_kept c b p memory qs ds hs)

  run-step_from :
      (c : Caches) (ps : List Process) (s : ScanState)
      → IsDistinct ps
      → All (λ q. deltas s.caches q ≡ deltas c q) ps
      → run_steps step ps s ≡ run_steps (step_from c) ps s
  run-step_from c [] s d h = refl
  run-step_from c (p ∷ ps) s (d, ds) (h, hs) =
      let memory = (deltas s.caches p).memory in
      run-step_from c ps (step p s) ds (deltas_kept c s.caches p memory ps d hs)
      ∙ ap (λ e. run_steps (step_from c) ps (count p e s)) h

  -- What a scan tells the second phase of a process.
  abbrev pub metrics : Caches → Process → List ProcessMetrics
  metrics c p = metrics_of net p.pid (deltas c p) (pod fs p)

  metrics-step_from :
      (c : Caches) (ps : List Process) (s : ScanState)
      → (run_steps (step_from c) ps s).process_metrics
        ≡ s.process_metrics ++ flat_map (metrics c) ps
  unfolding flat_map
  metrics-step_from c [] s = sym (append-nil s.process_metrics)
  metrics-step_from c (p ∷ ps) s =
      metrics-step_from c ps (step_from c p s)
      ∙ append_assoc s.process_metrics (metrics c p) (flat_map (metrics c) ps)

  itself : (c : Caches) (ps : List Process) → All (λ q. deltas c q ≡ deltas c q) ps
  itself c [] = tt
  itself c (p ∷ ps) = (refl, itself c ps)

  module _ (names : List String) (c : Caches) (d : IsDistinct (processes fs names)) where
    abbrev start : ScanState
    start = record {
      caches = c;
      process_metrics = [];
      total_all_cpu_ticks = 0;
      total_all_pss = 0;
      total_all_pgfaults = 0;
      total_all_io_bytes = 0;
    }

    scan_all-steps :
        scan_all refresh fs net names c ≡ run_steps (step_from c) (processes fs names) start
    unfolding scan_all
    scan_all-steps =
        scan-processes names start
        ∙ run-step_from c (processes fs names) start d (itself c (processes fs names))

    pub metrics-scan_all :
        (scan_all refresh fs net names c).process_metrics
        ≡ flat_map (metrics c) (processes fs names)
    metrics-scan_all =
        ap (λ s. s.process_metrics) scan_all-steps ∙ metrics-step_from c (processes fs names) start

    -- A total of the scan is the sum over all processes.
    total :
        (field : ScanState → ℕ) (amount : Process → ℕ)
        → ((p : Process) (s : ScanState) → field (step_from c p s) ≡ add_u64 (field s) (amount p))
        → field start ≡ 0
        → field (scan_all refresh fs net names c) ≡ sum_u64 (map amount (processes fs names))
    total field amount h z =
        ap field scan_all-steps
        ∙ field-run_steps (step_from c) field amount (processes fs names) start h z

    pub cpu-scan_all :
        (scan_all refresh fs net names c).total_all_cpu_ticks
        ≡ sum_u64 (map (λ p. (deltas c p).cpu) (processes fs names))
    cpu-scan_all = total (λ s. s.total_all_cpu_ticks) (λ p. (deltas c p).cpu) (λ p s. refl) refl

    pub pss-scan_all :
        (scan_all refresh fs net names c).total_all_pss
        ≡ sum_u64 (map (λ p. (deltas c p).memory) (processes fs names))
    pss-scan_all = total (λ s. s.total_all_pss) (λ p. (deltas c p).memory) (λ p s. refl) refl

    pub io-scan_all :
        (scan_all refresh fs net names c).total_all_io_bytes
        ≡ sum_u64 (map (λ p. (deltas c p).io) (processes fs names))
    io-scan_all = total (λ s. s.total_all_io_bytes) (λ p. (deltas c p).io) (λ p s. refl) refl
