-- ===== src/Agent/Processes/Powers.antt =====
-- keck-agent/src/main.rs: the powers of a pod in numbers, told apart from how `enumerate_pods` makes
-- them.
use keck.Base.{
  ℕ, ◌+◌, ◌%◌, ◌≡◌, String, Option, none, some, [], if◌then◌else◌, ltb, arith, ap, ◌∙◌, refl, Bool,
  true, false,
}
use keck.Base.Float.{Float64}
use keck.Base.Words.{add_u64, u64_mod}
use keck.Agent.Pods.{PodIdentity, PodPowerReport, as_str}
use keck.Agent.Processes.Reports.{PodMetrics, Powers, Sums, pod_report}

add_four : (a b c d : ℕ) → add_u64 (add_u64 (add_u64 a b) c) d ≡ (a + b + c + d) % u64_mod
unfolding add_u64
add_four a b c d = omega arith

-- A report of these powers, with the names and labels of the identity if there is one.
abbrev report :
    String
    → ℕ
    → String
    → Option PodIdentity
    → (cpu memory storage network total : ℕ) → PodPowerReport
report node wall uid identity cpu memory storage network total = record {
  node_name = node;
  pod_uid = uid;
  pod_name = elim identity [ none ↦ uid | some i ↦ i.name ];
  namespace = elim identity [ none ↦ "unknown" | some i ↦ i.namespace ];
  cpu_uw = cpu;
  memory_uw = memory;
  gpu_uw = 0;
  storage_uw = storage;
  io_uw = network;
  total_uw = total;
  timestamp = wall;
  workload_uid = elim identity [ none ↦ "" | some i ↦ i.workload_uid ];
  workload_name = elim identity [ none ↦ "" | some i ↦ i.workload_name ];
  workload_kind = elim identity [ none ↦ "" | some i ↦ i.workload_kind ];
  workload_category = elim identity [ none ↦ "application" | some i ↦ as_str i.workload_category ];
  labels = elim identity [ none ↦ [] | some i ↦ i.labels ];
}

module _ {ℓ} (F : Type ℓ) ⦃f : Float64 F⦄ where
  -- What some count is of a whole; as a share, 0 of an empty whole.
  abbrev quotient : ℕ → ℕ → F
  quotient part whole = f.div (f.of_u64 part) (f.of_u64 whole)

  abbrev fraction : ℕ → ℕ → F
  fraction part whole = if ltb 0 whole then quotient part whole else f.lit 0 0

  abbrev times : ℕ → F → ℕ
  times power x = f.to_u64 (f.mul (f.of_u64 power) x)

  -- By whether LLC misses were counted.
  abbrev memory_share : Bool → ℕ → F → F → ℕ
  memory_share true power resident busy =
      times power (f.add (f.mul (f.lit 6 1) resident) (f.mul (f.lit 4 1) busy))
  memory_share false power resident busy =
      times power (f.add (f.mul (f.lit 1 0) resident) (f.mul (f.lit 0 0) busy))

  memory_share_lem :
      (llc : Bool) (power : ℕ) (resident busy : F)
      → times power (
          f.add
            (f.mul (if llc then f.lit 6 1 else f.lit 1 0) resident)
            (f.mul (if llc then f.lit 4 1 else f.lit 0 0) busy))
        ≡ memory_share llc power resident busy
  memory_share_lem true power resident busy = refl
  memory_share_lem false power resident busy = refl

  -- The report of a pod whose processes used `m`, where all used `all`.
  abbrev pub shares :
      String → ℕ → Powers → Sums → String → Option PodIdentity → PodMetrics → PodPowerReport
  shares node wall p all uid identity m =
      let busy = fraction m.cpu_ticks all.cpu_ticks in
      let resident = fraction m.pss_kb all.pss in
      let cpu = times p.total_cpu_uw busy in
      let memory = memory_share (ltb 0 p.total_llc_misses) p.total_mem_uw resident busy in
      let storage = times p.total_storage_uw (fraction m.io_bytes all.io_bytes) in
      let network =
        times p.total_io_uw
          (if ltb 0 all.net_bytes then quotient m.net_bytes all.net_bytes else busy) in
      report node wall uid identity cpu memory storage network
        ((cpu + memory + storage + network) % u64_mod)

  pub pod_report_lem :
      (node : String) (wall : ℕ) (p : Powers) (all : Sums) (uid : String)
      (identity : Option PodIdentity) (m : PodMetrics)
      → pod_report F node wall p all uid identity m ≡ shares node wall p all uid identity m
  unfolding pod_report
  pod_report_lem node wall p all uid identity m =
      let busy = fraction m.cpu_ticks all.cpu_ticks in
      let cpu = times p.total_cpu_uw busy in
      let storage = times p.total_storage_uw (fraction m.io_bytes all.io_bytes) in
      let network =
        times p.total_io_uw
          (if ltb 0 all.net_bytes then quotient m.net_bytes all.net_bytes else busy) in
      let memory =
        memory_share_lem (ltb 0 p.total_llc_misses) p.total_mem_uw (fraction m.pss_kb all.pss)
          busy in
      let total =
        add_four cpu _ storage network ∙ ap (λ n. (cpu + n + storage + network) % u64_mod) memory in
      elim identity
        as (λ k. pod_report F node wall p all uid k m ≡ shares node wall p all uid k m) [
          | none ↦ λ i. report node wall uid none cpu (memory i) storage network (total i)
          | some k ↦ λ i. report node wall uid (some k) cpu (memory i) storage network (total i)
        ]
