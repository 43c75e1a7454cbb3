-- ===== src/Agent/Processes/Shares.antt =====
-- keck-agent/src/main.rs: what each pod is given by a scan of /proc.
use keck.Base.{
  ℕ, ◌%◌, ◌≡◌, refl, ap, ◌∙◌, String, string_eq, nat_eq, ◌==◌, Bool, Option, none, some,
  Option-cases, List, [], ◌∷◌, map, filter, find, is_some, eqb, Bool-cases, inl, inr,
}
use mathlib.Core.List.{flat_map, map-map}
use keck.Base.Float.{Float64}
use keck.Base.Words.{add_u64, sum_u64}
use keck.Base.Maps.{Map, get, find-entries}
use keck.Base.Groups.{get-group, members, has_key, entry_of, run_steps, field-run_steps}
use keck.Agent.Procfs.{ProcFs}
use keck.Agent.Pods.{PodIdentity}
use keck.Agent.Processes.{Caches, Deltas, ProcessMetrics, faults_of, net_of, scan_all}
use keck.Agent.Processes.Reports.{
  PodMetrics, Powers, Sums, no_metrics, add_metrics, pod_metrics, pod_report, sums_of,
  enumerate_pods,
}
use keck.Agent.Processes.Powers.{shares, pod_report_lem}
use keck.Agent.Processes.Scan.{
  Process, processes, IsDistinct, deltas, pod, metrics, metrics-scan_all, cpu-scan_all,
  pss-scan_all, io-scan_all,
}

-- The processes of a pod, and of all pods.
abbrev pub in_pod : ProcFs → String → List Process → List Process
in_pod fs uid = filter (λ p. has_key uid (pod fs p))

abbrev pub in_pods : ProcFs → List Process → List Process
in_pods fs = filter (λ p. is_some (pod fs p))

module _ (refresh : Bool) (fs : ProcFs) (net : Map ℕ (ℕ × ℕ)) (c : Caches) where
  abbrev delta : Process → Deltas
  delta = deltas refresh fs net c

  abbrev all_metrics : List Process → List ProcessMetrics
  all_metrics = flat_map (metrics refresh fs net c)

  abbrev metric : String → Process → ProcessMetrics
  metric uid p = record {
    pod_uid = uid;
    cpu_ticks = (delta p).cpu;
    rss_pages = (delta p).memory;
    minflt_delta = (delta p).minor;
    majflt_delta = (delta p).major;
    io_bytes_delta = (delta p).io;
    net_bytes = net_of net p.pid;
  }

  members-all_metrics :
      (uid : String) (ps : List Process)
      → members (λ pm. some pm.pod_uid) uid (all_metrics ps) ≡ map (metric uid) (in_pod fs uid ps)
  unfolding flat_map
  members-all_metrics uid [] = refl
  members-all_metrics uid (p ∷ ps) = elim (Option-cases (pod fs p)) [
    | inl outside ↦ rw (outside, metrics) (members-all_metrics uid ps)
    | inr (j, inside) ↦ elim (Bool-cases (j == uid)) [
      | inl own ↦
          let same : j ≡ uid = (string_eq.beq_iff j uid).0 own in
          let rest = members-all_metrics uid ps in
          rw (inside, metrics, own) (λ i. metric (same i) p ∷ rest i)
      | inr other ↦ rw (inside, metrics, other) (members-all_metrics uid ps)
    ]
  ]

  net-all_metrics :
      (ps : List Process)
      → sum_u64 (map (λ pm. pm.net_bytes) (all_metrics ps))
        ≡ sum_u64 (map (λ p. net_of net p.pid) (in_pods fs ps))
  unfolding flat_map sum_u64
  net-all_metrics [] = refl
  net-all_metrics (p ∷ ps) = elim (Option-cases (pod fs p)) [
    | inl outside ↦ rw (outside, metrics) (net-all_metrics ps)
    | inr (j, inside) ↦
        rw (inside, metrics) (ap (λ n. add_u64 (net_of net p.pid) n) (net-all_metrics ps))
  ]

  -- What some processes used together.
  abbrev pub usage : List Process → PodMetrics
  usage ps = record {
    cpu_ticks = sum_u64 (map (λ p. (delta p).cpu) ps);
    pss_kb = sum_u64 (map (λ p. (delta p).memory) ps);
    pgfaults = sum_u64 (map (λ p. faults_of (delta p).minor (delta p).major) ps);
    io_bytes = sum_u64 (map (λ p. (delta p).io) ps);
    net_bytes = sum_u64 (map (λ p. net_of net p.pid) ps);
  }

  abbrev pub usage_of : List Process → Option PodMetrics
  usage_of [] = none
  usage_of (p ∷ ps) = some (usage (p ∷ ps))

  field-add_metrics :
      (field : PodMetrics → ℕ) (amount : ProcessMetrics → ℕ) (uid : String) (ps : List Process)
      → ((pm : ProcessMetrics) (e : PodMetrics)
          → field (add_metrics pm e) ≡ add_u64 (field e) (amount pm))
      → field no_metrics ≡ 0
      → field (run_steps add_metrics (map (metric uid) ps) no_metrics)
        ≡ sum_u64 (map (λ p. amount (metric uid p)) ps)
  field-add_metrics field amount uid ps h z =
      field-run_steps add_metrics field amount (map (metric uid) ps) no_metrics h z
      ∙ ap sum_u64 (map-map amount (metric uid) ps)

  run-add_metrics :
      (uid : String) (ps : List Process)
      → run_steps add_metrics (map (metric uid) ps) no_metrics ≡ usage ps
  unfolding add_metrics
  run-add_metrics uid ps =
      let cpu =
        field-add_metrics (λ e. e.cpu_ticks) (λ pm. pm.cpu_ticks) uid ps (λ x e. refl) refl in
      let pss = field-add_metrics (λ e. e.pss_kb) (λ pm. pm.rss_pages) uid ps (λ x e. refl) refl in
      let faults =
        field-add_metrics (λ e. e.pgfaults) (λ pm. faults_of pm.minflt_delta pm.majflt_delta) uid ps
          (λ x e. refl) refl in
      let io =
        field-add_metrics (λ e. e.io_bytes) (λ pm. pm.io_bytes_delta) uid ps (λ x e. refl) refl in
      let bytes =
        field-add_metrics (λ e. e.net_bytes) (λ pm. pm.net_bytes) uid ps (λ x e. refl) refl in
      λ i. record {
        cpu_ticks = cpu i;
        pss_kb = pss i;
        pgfaults = faults i;
        io_bytes = io i;
        net_bytes = bytes i;
      }

  get-pod_metrics :
      (uid : String) (ps : List Process)
      → get uid (pod_metrics (all_metrics ps)) ≡ usage_of (in_pod fs uid ps)
  unfolding pod_metrics get
  get-pod_metrics uid ps =
      get-group (λ pm. some pm.pod_uid) (λ pm. no_metrics) add_metrics uid (all_metrics ps) []
      ∙ ap (λ pms. entry_of (λ pm. no_metrics) add_metrics pms none) (members-all_metrics uid ps)
      ∙ entry (in_pod fs uid ps)
    where
      entry :
          (qs : List Process)
          → entry_of (λ pm. no_metrics) add_metrics (map (metric uid) qs) none ≡ usage_of qs
      entry [] = refl
      entry (q ∷ qs) = ap some (run-add_metrics uid (q ∷ qs))

  -- The sums over all processes, and over those of pods for the network.
  abbrev pub sums : List Process → Sums
  sums ps = record {
    cpu_ticks = sum_u64 (map (λ p. (delta p).cpu) ps);
    pss = sum_u64 (map (λ p. (delta p).memory) ps);
    io_bytes = sum_u64 (map (λ p. (delta p).io) ps);
    net_bytes = sum_u64 (map (λ p. net_of net p.pid) (in_pods fs ps));
  }

  sums_of-scan_all :
      (names : List String)
      → IsDistinct (processes fs names)
      → sums_of (scan_all refresh fs net names c) ≡ sums (processes fs names)
  sums_of-scan_all names d =
      let cpu = cpu-scan_all refresh fs net names c d in
      let pss = pss-scan_all refresh fs net names c d in
      let io = io-scan_all refresh fs net names c d in
      let s = scan_all refresh fs net names c in
      let bytes =
        field-run_steps (λ (pm : ProcessMetrics) n. add_u64 n pm.net_bytes) (λ n. n)
          (λ pm. pm.net_bytes) s.process_metrics 0 (λ x v. refl) refl
        ∙ ap (λ pms. sum_u64 (map (λ (pm : ProcessMetrics). pm.net_bytes) pms))
            (metrics-scan_all refresh fs net names c d)
        ∙ net-all_metrics (processes fs names) in
      λ i. record { cpu_ticks = cpu i; pss = pss i; io_bytes = io i; net_bytes = bytes i }

module _ {ℓ} (F : Type ℓ) ⦃f : Float64 F⦄ where
  -- If no two processes have one number, a pod has a report exactly if a process, none of those that
  -- are passed over, is in it. Of the CPU power it gets the share that its processes' ticks since the
  -- last scan are of the ticks of all processes, in pods or not, and of the storage power the share
  -- by the disk bytes since then. Of the memory power it gets the share by memory or, if LLC misses
  -- were counted, 0.6 times that and 0.4 times the share of the CPU power. Of the network power it
  -- gets the share by bytes among the pods or, if no pod has any, the share of the CPU power. The
  -- sums are modulo 2^64, and a share of nothing is 0. Names and labels are those of the cache.
  pub find-enumerate_pods :
      (node_name : String) (wall : ℕ) (p : Powers) (cache : Map String PodIdentity) (fs : ProcFs)
      (net : Map ℕ (ℕ × ℕ)) (tick_count : ℕ) (c : Caches) (names : List String) (uid : String)
      → fs.entries ≡ some names
      → IsDistinct (processes fs names)
      → let refresh = eqb (tick_count % 5) 0 in
        let ps = processes fs names in
        find (λ r. r.pod_uid == uid) (enumerate_pods F node_name wall p cache fs net tick_count c).0
        ≡ elim (usage_of refresh fs net c (in_pod fs uid ps)) [
          | none ↦ none
          | some m ↦
              some (shares F node_name wall p (sums refresh fs net c ps) uid (get uid cache) m)
        ]
  unfolding enumerate_pods pod_report
  find-enumerate_pods node_name wall p cache fs net tick_count c names uid e d =
      let refresh = eqb (tick_count % 5) 0 in
      let ps = processes fs names in
      let s = scan_all refresh fs net names c in
      let entry =
        ap (λ pms. get uid (pod_metrics pms)) (metrics-scan_all refresh fs net names c d)
        ∙ get-pod_metrics refresh fs net c uid ps in
      let totals = sums_of-scan_all refresh fs net c names d in
      rw (e, enumerate_pods)
        (find-entries (λ r. r.pod_uid)
            (λ u m. pod_report F node_name wall p (sums_of s) u (get u cache) m) uid
            (pod_metrics s.process_metrics) (λ u m. refl)
          ∙ (λ i. elim (entry i) [
            | none ↦ none
            | some m ↦ some (pod_report F node_name wall p (totals i) uid (get uid cache) m)
          ])
          ∙ spelled_out (usage_of refresh fs net c (in_pod fs uid ps)))
    where
      spelled_out :
          (o : Option PodMetrics)
          → elim o [
            | none ↦ none
            | some m ↦ some (
                pod_report F node_name wall p
                  (sums (eqb (tick_count % 5) 0) fs net c (processes fs names))
                  uid
                  (get uid cache)
                  m)
          ]
            ≡ elim o [
              | none ↦ none
              | some m ↦ some (
                  shares F node_name wall p
                    (sums (eqb (tick_count % 5) 0) fs net c (processes fs names))
                    uid
                    (get uid cache)
                    m)
            ]
      spelled_out none = refl
      spelled_out (some m) = ap some (pod_report_lem F node_name wall p _ uid (get uid cache) m)
