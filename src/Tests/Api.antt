-- ===== src/Tests/Api.antt =====
-- The theorems on the API at concrete inputs.
use Prim.Native.String
use keck.Base.{◌≡◌, ℕ, List, ◌↔◌, refl, true, Option, none, some, [], ◌∷◌, arith, map, ◌+◌, length}
use keck.Base.Results.{is_ok}
use keck.Base.Words.{sum_u64, sum}
use keck.Controller.Aggregator.Views.{cluster_power, namespace_power, all_pods_filtered}
use keck.Controller.Api.{bearer, handle_report, ServerState}
use keck.Controller.Aggregator.Ingest.{new, ingest}
use keck.Controller.Api.Answers.{handle_report_iff}
use keck.Controller.Api.Validation.{IsAcceptable}
use keck.Controller.Api.Requests.{posts, removes, served, power_exact, Request}
use keck.Tests.Controller.{report, classification}
use keck.Tests.Fixed.{fixed}

abbrev server : ServerState ℕ
server = record {
  aggregator = new;
  classification = classification;
  api_key = some "k1";
  agent_report_total = ("n1", 4) ∷ [];
}

handle_report_iff_example :
    let (t, out) = handle_report 100 101 102 (some "Bearer k1") report server in
    ((is_ok out ≡ true)
      ↔ ((some "Bearer k1" ≡ some (String.◌++◌ bearer "k1")) × IsAcceptable report))
    × (t ≡ record server {
      aggregator = ingest 100 101 102 report new;
      agent_report_total = ("n1", 5) ∷ [];
    })
unfolding handle_report keck.Controller.Api.check_auth keck.Controller.Api.strip_prefix
    keck.Controller.Api.validate_report keck.Controller.Api.validate_pods
    keck.Controller.Api.validate_pod keck.Base.Maps.upsert keck.Base.Words.add_u64
handle_report_iff_example = handle_report_iff 100 101 102 report server (some "Bearer k1")

abbrev requests : List (Request ℕ)
requests =
    posts 100 101 102 (some "Bearer k1") report
    ∷ posts 110 111 112 (some "Bearer k2") report
    ∷ removes ("n1" ∷ [])
    ∷ []

power_exact_example :
    let a = served classification (some "k1") requests in
    ((cluster_power none a).total_attributed_uw ≡ 600)
    × (sum_u64 (map (λ n. n.total_uw) (namespace_power none a)) ≡ 500)
unfolding keck.Controller.Aggregator.Ingest.evict_removed_nodes keck.Base.Maps.retain handle_report
    keck.Controller.Api.check_auth keck.Controller.Api.strip_prefix
    keck.Controller.Api.validate_report keck.Controller.Api.validate_pods
    keck.Controller.Api.validate_pod ingest keck.Controller.Aggregator.Ingest.trim_history
    keck.Controller.Aggregator.Ingest.evict_stale keck.Controller.Aggregator.Ingest.ingest_pods
    keck.Controller.Aggregator.Ingest.ingest_pod keck.Base.Maps.insert new sum all_pods_filtered
    keck.Base.Maps.map_values keck.Base.Maps.upsert keck.Base.Words.add_u64
power_exact_example =
    power_exact classification (some "k1") requests none (omega arith) (omega arith)
