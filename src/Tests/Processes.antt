-- ===== src/Tests/Processes.antt =====
-- The theorem on a scan of /proc at concrete files.
use keck.Base.{
  ℕ, ◌≡◌, refl, String, string_eq, nat_eq, ◌==◌, Option, none, some, List, [], ◌∷◌, find,
}
use keck.Base.Maps.{Map, get}
use keck.Agent.Procfs.{ProcFs}
use keck.Agent.Processes.{Caches}
use keck.Agent.Processes.Reports.{Powers, enumerate_pods}
use keck.Agent.Processes.Shares.{find-enumerate_pods}
use keck.Tests.Fixed.{fixed}

abbrev file : Map String String → String → Option String
file files name = get name files

-- Processes 7 and 8 are in pods, process 1 is in none; 9 is a thread, and `self` no process.
abbrev proc : ProcFs
proc = record {
  entries = some ("1" ∷ "7" ∷ "self" ∷ "8" ∷ "9" ∷ []);
  stat = file (
      ("1", "1 (init) S 0 1 1 0 -1 4 0 0 0 0 40 20 0")
      ∷ ("7", "7 (a) b) S 1 7 7 0 -1 4 100 0 3 0 30 20 0")
      ∷ ("8", "8 (db) S 1 8 8 0 -1 4 0 0 0 0 99 1 0")
      ∷ ("9", "9 (db) S 1 8 8 0 -1 4 0 0 0 0 99 1 0")
      ∷ []);
  status = file (("9", "Name:\tdb\nTgid:\t8\n") ∷ ("7", "Name:\ta\nTgid:\t7\n") ∷ []);
  smaps_rollup = file (("8", "Rss: 90 kB\nPss: 75 kB\n") ∷ []);
  statm = file (("1", "500 50 3") ∷ []);
  io = file (("7", "rchar: 9\nread_bytes: 70\nwrite_bytes: 30\n") ∷ []);
  cgroup = file (
      ("1", "0::/init.scope")
      ∷ ("7", "0::/kubepods.slice/kubepods-burstable-pod1a2b_3c4d.slice/crio-9.scope")
      ∷ ("8", "0::/kubepods.slice/kubepods-podffff_0000.slice/crio-8.scope")
      ∷ []);
}

abbrev before : Caches
before = record {
  prev_cpu_ticks = (7, 40) ∷ (1, 0) ∷ (8, 70) ∷ [];
  prev_page_faults = [];
  prev_io_bytes = (7, 0) ∷ [];
  pss_cache = (7, 25) ∷ [];
}

abbrev powers : Powers
powers = record {
  total_cpu_uw = 1000;
  total_mem_uw = 400;
  total_storage_uw = 10;
  total_io_uw = 20;
  total_llc_misses = 0;
}

find-enumerate_pods_example :
    find
      (λ r. r.pod_uid == "1a2b-3c4d")
      (enumerate_pods ℕ "n1" 90 powers [] proc ((7, (4, 6)) ∷ []) 1 before).0
    ≡ some (record {
      node_name = "n1";
      pod_uid = "1a2b-3c4d";
      pod_name = "1a2b-3c4d";
      namespace = "unknown";
      cpu_uw = 100;
      memory_uw = 33;
      gpu_uw = 0;
      storage_uw = 10;
      io_uw = 20;
      total_uw = 163;
      timestamp = 90;
      workload_uid = "";
      workload_name = "";
      workload_kind = "";
      workload_category = "application";
      labels = [];
    })
unfolding get keck.Agent.Procfs.read_proc_stat keck.Agent.Procfs.read_memory
    keck.Agent.Procfs.read_pss_kb keck.Agent.Procfs.read_rss_pages keck.Agent.Procfs.read_io_bytes
    keck.Agent.Procfs.sum_io keck.Agent.Procfs.is_leader keck.Agent.Procfs.uid_of_line
    keck.Agent.Procfs.first_uid keck.Agent.Procfs.extract_pod_uid keck.Agent.Procfs.pod_of_file
    keck.Agent.Processes.process_of keck.Agent.Processes.Reports.pod_report keck.Base.Text.lines
    keck.Base.Text.words keck.Base.Text.after_last keck.Base.Text.behind keck.Base.Text.replace
    keck.Base.Text.take_while keck.Base.Text.starts_with keck.Base.Text.drop
    keck.Base.Text.parse_unsigned keck.Base.Text.digits keck.Base.Text.is_whitespace
    keck.Base.Words.add_u64 keck.Base.Words.sum_u64
find-enumerate_pods_example =
    find-enumerate_pods ℕ "n1" 90 powers [] proc ((7, (4, 6)) ∷ []) 1 before
      ("1" ∷ "7" ∷ "self" ∷ "8" ∷ "9" ∷ []) "1a2b-3c4d" refl
      ((refl, (refl, tt)), ((refl, tt), (tt, tt)))
