-- ===== src/Controller/Api.antt =====
-- keck-controller/src/api/mod.rs: the endpoint that takes reports. A message is kept as the value that
-- it prints; the request's body was parsed before. `later` and `wall` are the clocks that `ingest`
-- reads, `now` the first of them.
pub mod Auth
pub mod Validation
pub mod Requests
pub mod Answers
use Prim.Native.String
use keck.Base.{
  ℕ, ◌+◌, ◌*◌, ◌^◌, ◌≡◌, ◌==◌, string_eq, String, Bool, true, false, not, ◌||◌, Option, none, some,
  List, [], ◌∷◌, ltb, length, if◌then◌else◌,
}
use text.Mathlib.Text.{starts_with}
use keck.Base.Results.{Result, ok, err, ◌>>=◌, ◌>>◌, fail_if}
use keck.Base.Words.{add_u64}
use keck.Base.Maps.{Map, upsert}
use keck.Controller.Classification.{ClassificationData}
use keck.Controller.Aggregator.Types.{
  PodPowerReport, NodePowerReport, AgentReport, ClusterAggregator,
}
use keck.Controller.Aggregator.Ingest.{ingest}

pub data StatusCode : Type 0 where
  ok_status unauthorized bad_request : StatusCode

-- Why a report is rejected.
pub data Reason : Type 0 where
  node_name_length cpu_power memory_power gpu_power too_many_pods : ℕ → Reason
  pod_uid_length pod_name_length namespace_length : ℕ → Reason
  pod_power : String → ℕ → Reason

pub data Failure : Type 0 where
  not_authorized : Failure
  invalid : Reason → Failure

-- `agent_report_total` counts the accepted reports by node.
pub record ServerState {ℓ} (F : Type ℓ) : Type ℓ where
  pub aggregator : ClusterAggregator F
  pub classification : ClassificationData
  pub api_key : Option String
  pub agent_report_total : Map String ℕ

abbrev pub bearer : String
bearer = "Bearer "

-- `str::strip_prefix`
unfoldable pub strip_prefix : String → String → Option String
strip_prefix s prefix =
    if starts_with s prefix then some (String.slice s (String.len prefix) (String.len s)) else none

abbrev check_token : Option String → String → Result StatusCode (Unit {0})
check_token none expected = err unauthorized
check_token (some token) expected = if token == expected then ok tt else err unauthorized

abbrev check_header : Option String → String → Result StatusCode (Unit {0})
check_header none expected = err unauthorized
check_header (some header) expected = check_token (strip_prefix header bearer) expected

-- `header` is the `authorization` header, if there is one and it is text.
unfoldable pub check_auth : Option String → Option String → Result StatusCode (Unit {0})
check_auth header none = ok tt
check_auth header (some expected) = check_header header expected

abbrev pub max_pods_per_report : ℕ
max_pods_per_report = 2000

abbrev pub max_name_len : ℕ
max_name_len = 512

abbrev pub max_power_uw : ℕ
max_power_uw = 100000000000

abbrev pub is_empty : String → Bool
is_empty s = s == ""

abbrev pub is_long : String → Bool
is_long s = ltb max_name_len (String.len s)

unfoldable pub validate_pod : PodPowerReport → Result Reason (Unit {0})
validate_pod p = do
  fail_if (is_empty p.pod_uid || is_long p.pod_uid) (pod_uid_length (String.len p.pod_uid))
  fail_if (is_long p.pod_name) (pod_name_length (String.len p.pod_name))
  fail_if (is_long p.namespace) (namespace_length (String.len p.namespace))
  fail_if (ltb max_power_uw p.total_uw) (pod_power p.pod_uid p.total_uw)

unfoldable pub validate_pods : List PodPowerReport → Result Reason (Unit {0})
validate_pods [] = ok tt
validate_pods (p ∷ ps) = do validate_pod p; validate_pods ps

module _ {ℓ} {F : Type ℓ} where
  unfoldable pub validate_report : AgentReport F → Result Reason (Unit {0})
  validate_report r = do
    fail_if (is_empty r.node.node_name || is_long r.node.node_name)
        (node_name_length (String.len r.node.node_name))
    fail_if (ltb max_power_uw r.node.cpu_uw) (cpu_power r.node.cpu_uw)
    fail_if (ltb max_power_uw r.node.memory_uw) (memory_power r.node.memory_uw)
    fail_if (ltb max_power_uw r.node.gpu_uw) (gpu_power r.node.gpu_uw)
    fail_if (ltb max_pods_per_report (length r.pods)) (too_many_pods (length r.pods))
    validate_pods r.pods

  abbrev pub accept : ℕ → ℕ → ℕ → AgentReport F → ServerState F → ServerState F
  accept now later wall r s = record s {
    aggregator = ingest now later wall r s.aggregator;
    agent_report_total = upsert r.node.node_name 0 (λ n. add_u64 n 1) s.agent_report_total;
  }

  abbrev pub answer_valid :
      Result Reason (Unit {0})
      → ℕ
      → ℕ
      → ℕ
      → AgentReport F
      → ServerState F
      → ServerState F × Result (StatusCode × Failure) StatusCode
  answer_valid (err why) now later wall r s = (s, err (bad_request, invalid why))
  answer_valid (ok _) now later wall r s = (accept now later wall r s, ok ok_status)

  abbrev pub answer :
      Result StatusCode (Unit {0})
      → ℕ
      → ℕ
      → ℕ
      → AgentReport F
      → ServerState F
      → ServerState F × Result (StatusCode × Failure) StatusCode
  answer (err status) now later wall r s = (s, err (status, not_authorized))
  answer (ok _) now later wall r s = answer_valid (validate_report r) now later wall r s

  unfoldable pub handle_report :
      ℕ
      → ℕ
      → ℕ
      → Option String
      → AgentReport F
      → ServerState F
      → ServerState F × Result (StatusCode × Failure) StatusCode
  handle_report now later wall header r s = answer (check_auth header s.api_key) now later wall r s
