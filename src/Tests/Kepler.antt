-- ===== src/Tests/Kepler.antt =====
-- The theorems about the scraper of Kepler's text at concrete inputs.
use keck.Base.{
  ℕ, ◌+◌, ◌-◌, ◌≡◌, refl, String, string_eq, Option, none, some, List, [], ◌∷◌, arith,
  if◌then◌else◌, ◌==◌,
}
use keck.Base.Text.{append}
use keck.Base.Maps.{get}
use keck.Controller.Aggregator.Types.{ClusterAggregator}
use keck.Controller.Aggregator.Ingest.{new}
use keck.Controller.Kepler.{PodKey, found, parse_pod_metric}
use keck.Controller.Kepler.Scrape.{Clocks, scrape_round}
use keck.Controller.Kepler.Safety.{scrape_round_total}
use keck.Controller.Kepler.RoundTrip.{print_line}
use keck.Controller.Kepler.Lines.{parse_pod_metric-print}
use keck.Tests.Fixed.{fixed, parse_fixed}

abbrev labels : List (String × String)
labels =
    ("node_name", "node-1")
    ∷ ("pod_id", "abc-123")
    ∷ ("pod_name", "web-1")
    ∷ ("pod_namespace", "default")
    ∷ ("state", "running")
    ∷ ("zone", "{package")
    ∷ []

abbrev key : PodKey
key = record {
  pod_id = "abc-123";
  pod_name = "web-1";
  pod_namespace = "default";
  node_name = "node-1";
  state = "running";
}

parse_pod_metric-print_example :
    parse_pod_metric parse_fixed (print_line "kepler_pod_cpu_watts" labels "25")
    ≡ found (key, 25000)
unfolding get keck.Base.Text.find keck.Base.Text.is_whitespace
parse_pod_metric-print_example =
    parse_pod_metric-print parse_fixed "kepler_pod_cpu_watts" labels "25" 25000 key refl
      (
        (refl, (refl, refl)),
        (
          (refl, (refl, refl)),
          (
            (refl, (refl, refl)),
            ((refl, (refl, refl)), ((refl, (refl, refl)), ((refl, (refl, refl)), tt))),
          ),
        ),
      )
      (refl, (refl, (refl, (refl, (refl, (refl, tt)))))) (refl, (refl, tt)) refl
      (refl, refl, refl, refl, refl)

abbrev clocks : String → Clocks
clocks ip = record {
  now = λ n. 10;
  later = λ n. 11;
  wall = λ n. 12;
  node_time = λ n. 12;
  pod_time = λ k. 12;
}

-- A page, a line that is cut off, and an address that does not answer.
abbrev answers : String → Option String
answers ip =
    if ip == "10.0.0.1"
    then some (append (print_line "kepler_pod_cpu_watts" labels "25") "\nkepler_node_cpu_watts{")
    else none

scrape_round_total_example :
    (next : ClusterAggregator ℕ × ℕ) × (scrape_round parse_fixed clocks answers
        ("10.0.0.1" ∷ "10.0.0.2" ∷ [])
        (new, 0)
      ≡ some next)
scrape_round_total_example =
    scrape_round_total parse_fixed clocks answers ("10.0.0.1" ∷ "10.0.0.2" ∷ []) new 0
