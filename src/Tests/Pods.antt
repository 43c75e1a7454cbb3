-- ===== src/Tests/Pods.antt =====
-- The theorem on the pods' reports at a concrete input.
use keck.Base.{
  ℕ, ◌≡◌, refl, String, string_eq, nat_eq, ◌==◌, Option, none, some, List, [], ◌∷◌, find,
}
use keck.Base.Maps.{get}
use keck.Agent.Ebpf.{EbpfSnapshot}
use keck.Agent.Pods.{PodIdentity, PodPowerReport, application, report_of, enumerate_pods_ebpf}
use keck.Agent.Pods.Shares.{find-enumerate_pods_ebpf}
use keck.Tests.Fixed.{fixed}

abbrev pod_of : ℕ → Option String
pod_of pid = get pid ((7, "u1") ∷ (8, "u2") ∷ (9, "u1") ∷ [])

abbrev rss_of : ℕ → Option ℕ
rss_of pid = get pid ((7, 10) ∷ (8, 30) ∷ [])

-- Process 1 is in no pod; process 7 ran on two CPUs.
abbrev snapshot : EbpfSnapshot
snapshot = record {
  pid_cpu_times = (0, 7, 100) ∷ (0, 1, 500) ∷ (1, 7, 50) ∷ (1, 8, 200) ∷ (1, 9, 50) ∷ [];
  cpu_freq_times = [];
  pid_cgroups = [];
  pid_net_bytes = [];
  pid_hw_counters = [];
}

find-enumerate_pods_ebpf_example :
    find (λ r. r.pod_uid == "u1") (enumerate_pods_ebpf ℕ "n1" 90 pod_of rss_of 1000 400 [] snapshot)
    ≡ some (report_of "n1" 90 "u1" none 500 100)
unfolding get keck.Agent.Pods.share keck.Base.Words.sum_u64 keck.Base.Words.add_u64
    keck.Agent.Pods.pid_pod_uid keck.Agent.Pods.find_pod keck.Base.Maps.insert
find-enumerate_pods_ebpf_example =
    find-enumerate_pods_ebpf ℕ "n1" 90 pod_of rss_of 1000 400 [] snapshot "u1"
