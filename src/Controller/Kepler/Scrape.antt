-- ===== src/Controller/Kepler/Scrape.antt =====
-- keck-controller/src/kepler_scraper.rs: the reports of a page, and their ingestion. `fetch` is the
-- answer of the HTTP client, `none` for an error; a panic is `none` outside of it.
use keck.Base.{
  ℕ, ◌^◌, ◌%◌, String, string_eq, Option, none, some, List, [], ◌∷◌, ◌++◌, if◌then◌else◌, ltb,
  length, unwrap_or, is_some,
}
use keck.Base.Float.{Float64}
use keck.Base.Words.{add_u64, sub_u64, unsigned_abs}
use keck.Base.Maps.{Map, get}
use keck.Base.Groups.{group, run_steps}
use keck.Controller.Kepler.{PodKey, PodAccum, Readings, read_page}
use keck.Controller.Aggregator.Types.{PodPowerReport, AgentReport, ClusterAggregator}
use keck.Controller.Aggregator.Ingest.{ingest}

-- The readings of the clocks: those of `ingest` and of a node's report by the node's name, that of a
-- pod's report by its key.
pub record Clocks : Type 0 where
  pub now : String → ℕ
  pub later : String → ℕ
  pub wall : String → ℕ
  pub node_time : String → ℕ
  pub pod_time : PodKey → ℕ

module _ {ℓ} {F : Type ℓ} ⦃f : Float64 F⦄ where
  -- `(watts * 1_000_000.0) as u64`
  abbrev pub micro : F → ℕ
  micro watts = f.to_u64 (f.mul watts (f.lit 1000000 0))

  abbrev pub pod_report : Clocks → PodKey × PodAccum F → PodPowerReport
  pod_report clocks (key, accum) =
      let cpu_uw = micro accum.cpu_watts in
      let gpu_uw = micro accum.gpu_watts in
      record {
        node_name = key.node_name;
        pod_uid = key.pod_id;
        pod_name = key.pod_name;
        namespace = key.pod_namespace;
        cpu_uw = cpu_uw;
        memory_uw = 0;
        gpu_uw = gpu_uw;
        storage_uw = 0;
        io_uw = 0;
        total_uw = add_u64 cpu_uw gpu_uw;
        timestamp = clocks.pod_time key;
        workload_uid = "";
        workload_name = "";
        workload_kind = "";
        workload_category = "";
        labels = [];
        metering_method = "kepler";
      }

  abbrev pub node_key : PodKey × PodAccum F → Option String
  node_key e = some e.0.node_name

  abbrev pub add_report : Clocks → PodKey × PodAccum F → List PodPowerReport → List PodPowerReport
  add_report clocks e ps = ps ++ pod_report clocks e ∷ []

  -- Pods by node.
  unfoldable pub pods_by_node : Clocks → Map PodKey (PodAccum F) → Map String (List PodPowerReport)
  pods_by_node clocks pod_data = group node_key (λ e. []) (add_report clocks) pod_data []

  abbrev pub watts_of : String → Map String F → F
  watts_of node m = unwrap_or (get node m) (f.lit 0 0)

  abbrev pub map_micro : Option F → Option ℕ
  map_micro none = none
  map_micro (some w) = some (micro w)

  unfoldable pub ratio_over : Option ℕ → ℕ → F
  ratio_over none total = f.lit 0 0
  ratio_over (some p) total =
      if ltb 0 p then f.div (f.of_u64 (unsigned_abs (sub_u64 p total))) (f.of_u64 p) else f.lit 0 0

  unfoldable pub node_report : Clocks → Readings F → String × List PodPowerReport → AgentReport F
  node_report clocks t (node_name, pods) =
      let cpu_uw = micro (watts_of node_name t.node_cpu_watts) in
      let gpu_uw = micro (watts_of node_name t.node_gpu_watts) in
      let platform = get node_name t.node_platform_watts in
      let platform_uw = map_micro platform in
      record {
        node = record {
          node_name = node_name;
          cpu_uw = cpu_uw;
          memory_uw = 0;
          gpu_uw = gpu_uw;
          platform_uw = platform_uw;
          psu_output_uw = none;
          idle_uw = micro (watts_of node_name t.node_idle_watts);
          error_ratio = ratio_over platform_uw (add_u64 cpu_uw gpu_uw);
          pod_count = length pods % 2 ^ 32;
          process_count = 0;
          timestamp = clocks.node_time node_name;
          cpu_source = if is_some platform then "kepler (RAPL + Redfish)" else "kepler (RAPL)";
          memory_source = "kepler";
          cpu_reading_type = "estimated";
          sources = [];
          metering_method = "kepler";
        };
        pods = pods;
      }

  abbrev pub ingest_node :
      Clocks → Readings F → String × List PodPowerReport → ClusterAggregator F → ClusterAggregator F
  ingest_node clocks t e =
      ingest (clocks.now e.0) (clocks.later e.0) (clocks.wall e.0) (node_report clocks t e)

  unfoldable pub ingest_readings : Clocks → Readings F → ClusterAggregator F → ClusterAggregator F
  ingest_readings clocks t = run_steps (ingest_node clocks t) (pods_by_node clocks t.pod_data)

  -- The state and the number of pods, `none` for an error.
  unfoldable pub scrape_and_ingest :
      (String → Option F)
      → Clocks
      → Option String
      → ClusterAggregator F
      → Option (ClusterAggregator F × Option ℕ)
  scrape_and_ingest parse_f64 clocks none agg = some (agg, none)
  scrape_and_ingest parse_f64 clocks (some body) agg = elim (read_page parse_f64 body) [
    | none ↦ none
    | some t ↦ some (ingest_readings clocks t agg, some (length t.pod_data))
  ]

  -- A round of `run_kepler_scraper` over the addresses of Kepler's pods, with the total it logs.
  unfoldable pub scrape_round :
      (String → Option F)
      → (String → Clocks)
      → (String → Option String)
      → List String
      → ClusterAggregator F × ℕ
      → Option (ClusterAggregator F × ℕ)
  scrape_round parse_f64 clocks fetch [] s = some s
  scrape_round parse_f64 clocks fetch (ip ∷ ips) (agg, total) =
      elim (scrape_and_ingest parse_f64 (clocks ip) (fetch ip) agg) [
        | none ↦ none
        | some (next, count) ↦
            scrape_round parse_f64 clocks fetch ips (next, add_u64 total (unwrap_or count 0))
      ]
