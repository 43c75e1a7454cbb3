-- ===== src/Controller/Api/Validation.antt =====
-- keck-controller/src/api/mod.rs: which reports are taken.
use Prim.Native.String
use mathlib.Core.Logic.{◌↔◌}
use keck.Base.{◌≤◌, ◌≡◌, ◌≢◌, refl, string_eq, true, List, [], ◌∷◌, All, length, arith}
use text.Mathlib.TextEquality.{eq_iff}
use keck.Base.Results.{is_ok}
use keck.Controller.Aggregator.Types.{PodPowerReport, AgentReport}
use keck.Controller.Api.{
  validate_pod, validate_pods, validate_report, max_name_len, max_power_uw, max_pods_per_report,
}

pub record IsAcceptablePod (p : PodPowerReport) : Type 0 where
  pub has_uid : p.pod_uid ≢ ""
  pub short_uid : String.len p.pod_uid ≤ max_name_len
  pub short_name : String.len p.pod_name ≤ max_name_len
  pub short_namespace : String.len p.namespace ≤ max_name_len
  pub bounded : p.total_uw ≤ max_power_uw

validate_pod_sound : (p : PodPowerReport) → is_ok (validate_pod p) ≡ true → IsAcceptablePod p
unfolding validate_pod
validate_pod_sound p h = ground (arith, eq_iff p.pod_uid "")

validate_pod_complete : (p : PodPowerReport) → IsAcceptablePod p → is_ok (validate_pod p) ≡ true
unfolding validate_pod
validate_pod_complete p v = ground (arith, eq_iff p.pod_uid "")

validate_pods_sound :
    (ps : List PodPowerReport) → is_ok (validate_pods ps) ≡ true → All IsAcceptablePod ps
unfolding validate_pods
validate_pods_sound [] h = tt
validate_pods_sound (p ∷ ps) h =
    let first : is_ok (validate_pod p) ≡ true = ground arith in
    (validate_pod_sound p first, validate_pods_sound ps (ground arith))

validate_pods_complete :
    (ps : List PodPowerReport) → All IsAcceptablePod ps → is_ok (validate_pods ps) ≡ true
unfolding validate_pods
validate_pods_complete [] v = refl
validate_pods_complete (p ∷ ps) (v, vs) =
    ground (arith, validate_pod_complete p v, validate_pods_complete ps vs)

pub record IsAcceptable {ℓ} {F : Type ℓ} (r : AgentReport F) : Type ℓ where
  pub has_name : r.node.node_name ≢ ""
  pub short_node_name : String.len r.node.node_name ≤ max_name_len
  pub cpu_bounded : r.node.cpu_uw ≤ max_power_uw
  pub memory_bounded : r.node.memory_uw ≤ max_power_uw
  pub gpu_bounded : r.node.gpu_uw ≤ max_power_uw
  pub few_pods : length r.pods ≤ max_pods_per_report
  pub acceptable_pods : All IsAcceptablePod r.pods

module _ {ℓ} {F : Type ℓ} where
  pub validate_report_sound :
      (r : AgentReport F) → is_ok (validate_report r) ≡ true → IsAcceptable r
  unfolding validate_report
  validate_report_sound r h =
      let pods : is_ok (validate_pods r.pods) ≡ true = ground arith in
      record {
        has_name = ground (arith, eq_iff r.node.node_name "");
        short_node_name = ground arith;
        cpu_bounded = ground arith;
        memory_bounded = ground arith;
        gpu_bounded = ground arith;
        few_pods = ground arith;
        acceptable_pods = validate_pods_sound r.pods pods;
      }

  validate_report_complete : (r : AgentReport F) → IsAcceptable r → is_ok (validate_report r) ≡ true
  unfolding validate_report
  validate_report_complete r v =
      ground (arith, eq_iff r.node.node_name "", validate_pods_complete r.pods v.acceptable_pods)

  -- A report is taken exactly if its node has a name, no name or uid is too long, every pod has a uid,
  -- and the node's three component powers, the pods' totals and the number of pods are within bounds.
  pub validate_report_iff :
      (r : AgentReport F) → (is_ok (validate_report r) ≡ true) ↔ IsAcceptable r
  validate_report_iff r = (validate_report_sound r, validate_report_complete r)
