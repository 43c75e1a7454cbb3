-- ===== src/Controller/Aggregator/Grouping.antt =====
-- keck-controller/src/aggregator/mod.rs: `GroupBy` and `group_power`.
pub mod Conservation
use keck.Base.{
  ℕ, ◌+◌, ◌≡◌, refl, String, string_eq, ◌==◌, Bool, true, false, not, ◌&&◌, ◌||◌, Option, none,
  some, List, [], ◌∷◌, ◌++◌, map, if◌then◌else◌, contains,
}
use Prim.Native.String
use text.Mathlib.Text.{starts_with}
use keck.Base.Words.{add_u64}
use keck.Base.Maps.{Map, get, values}
use keck.Base.Groups.{group}
use keck.Base.Sorting.{sort_desc}
use keck.Controller.Aggregator.Types.{PodPowerReport, PodState, ClusterAggregator}
use keck.Controller.Classification.{ClassificationData, ApplicationDef, classify}

pub data GroupBy : Type 0 where
  workload : GroupBy
  label : String → GroupBy
  namespace : GroupBy
  application : GroupBy

pub record PodPowerSummary : Type 0 where
  pub pod_uid : String
  pub pod_name : String
  pub cpu_uw : ℕ
  pub memory_uw : ℕ
  pub gpu_uw : ℕ
  pub total_uw : ℕ

pub record GroupPower : Type 0 where
  pub group_key : String
  pub group_name : String
  pub group_kind : String
  pub namespace : String
  pub category : String
  pub cpu_uw : ℕ
  pub memory_uw : ℕ
  pub gpu_uw : ℕ
  pub storage_uw : ℕ
  pub io_uw : ℕ
  pub total_uw : ℕ
  pub pod_count : ℕ
  pub pods : List PodPowerSummary

-- A group's key, name and kind.
pub record GroupId : Type 0 where
  pub key : String
  pub name : String
  pub kind : String

-- A pod with its group and its category.
pub record Placed : Type 0 where
  pub id : GroupId
  pub category : String
  pub report : PodPowerReport

unfoldable pub parse : String → GroupBy
parse raw =
    if raw == "namespace"
    then namespace
    else if raw == "workload"
    then workload
    else if raw == "application"
    then application
    else if starts_with raw "label:"
    then label (String.slice raw 6 (String.len raw))
    else application

abbrev same_value : Option String → String → Bool
same_value none v = false
same_value (some w) v = w == v

-- `selector.iter().all(…)`
unfoldable pub has_labels : Map String String → Map String String → Bool
has_labels labels [] = true
has_labels labels ((k, v) ∷ selector) =
    if same_value (get k labels) v then has_labels labels selector else false

abbrev pub is_empty_map : Map String String → Bool
is_empty_map [] = true
is_empty_map (e ∷ m) = false

unfoldable pub any_selector : Map String String → List (Map String String) → Bool
any_selector labels [] = false
any_selector labels (s ∷ ss) =
    if not (is_empty_map s) && has_labels labels s then true else any_selector labels ss

-- The first definition that names the namespace or selects the labels.
unfoldable pub find_app : String → Map String String → List ApplicationDef → Option String
find_app ns labels [] = none
find_app ns labels (d ∷ ds) =
    if contains d.namespaces ns
    then some d.name
    else if any_selector labels d.label_selectors
    then some d.name
    else find_app ns labels ds

abbrev group_id : String → String → String → GroupId
group_id key name kind = record { key = key; name = name; kind = kind }

abbrev pub by_workload : PodPowerReport → GroupId
by_workload r =
    if r.workload_uid == ""
    then group_id r.pod_uid r.pod_name "Pod"
    else group_id r.workload_uid r.workload_name r.workload_kind

abbrev or_else : Option String → Option String → Option String
or_else none o = o
or_else (some a) o = some a

abbrev by_part_of : PodPowerReport → Option String → GroupId
by_part_of r none = by_workload r
by_part_of r (some part) = group_id (String.◌++◌ "auto:" part) part "auto-detected"

abbrev by_app : PodPowerReport → Option String → GroupId
by_app r none = by_part_of r (get "app.kubernetes.io/part-of" r.labels)
by_app r (some app) = group_id (String.◌++◌ "app:" app) app "KeckApplication"

abbrev by_application : ClassificationData → PodPowerReport → Option String → GroupId
by_application cls r (some co) = group_id (String.◌++◌ "co:" co) co "ClusterOperator"
by_application cls r none =
    by_app r
      (or_else (get r.namespace cls.co_namespaces) (find_app r.namespace r.labels cls.app_defs))

abbrev by_label : String → Option String → Option GroupId
by_label k none = none
by_label k (some v) = some (group_id v v k)

-- The `match` on `group_by`; `none` is `continue`.
unfoldable pub group_of :
    GroupBy → ClassificationData → Option String → PodPowerReport → Option GroupId
group_of workload cls co r = some (by_workload r)
group_of (label k) cls co r = by_label k (get k r.labels)
group_of namespace cls co r = some (group_id r.namespace r.namespace "Namespace")
group_of application cls co r = some (by_application cls r co)

abbrev pub wanted : Option String → String → Bool
wanted none c = true
wanted (some w) c = c == w

abbrev pub placed : String → PodPowerReport → Option GroupId → Option Placed
placed c r none = none
placed c r (some id) = some (record { id = id; category = c; report = r })

-- The head of the loop's body, up to the entry; `none` is `continue`.
unfoldable pub place : GroupBy → Option String → ClassificationData → PodState → Option Placed
place by category cls s =
    let (c, co) = classify cls s.report.namespace in
    if wanted category c then placed c s.report (group_of by cls co s.report) else none

unfoldable pub place_all :
    GroupBy → Option String → ClassificationData → List PodState → List Placed
place_all by category cls [] = []
place_all by category cls (s ∷ ss) =
    let rest = place_all by category cls ss in
    elim (place by category cls s) [ none ↦ rest | some p ↦ p ∷ rest ]

unfoldable pub new_group : Placed → GroupPower
new_group p = record {
  group_key = p.id.key;
  group_name = p.id.name;
  group_kind = p.id.kind;
  namespace = p.report.namespace;
  category = p.category;
  cpu_uw = 0;
  memory_uw = 0;
  gpu_uw = 0;
  storage_uw = 0;
  io_uw = 0;
  total_uw = 0;
  pod_count = 0;
  pods = [];
}

abbrev pub pod_summary : PodPowerReport → PodPowerSummary
pod_summary r = record {
  pod_uid = r.pod_uid;
  pod_name = r.pod_name;
  cpu_uw = r.cpu_uw;
  memory_uw = r.memory_uw;
  gpu_uw = r.gpu_uw;
  total_uw = r.total_uw;
}

unfoldable pub add_to_group : Placed → GroupPower → GroupPower
add_to_group p e = record e {
  cpu_uw = add_u64 e.cpu_uw p.report.cpu_uw;
  memory_uw = add_u64 e.memory_uw p.report.memory_uw;
  gpu_uw = add_u64 e.gpu_uw p.report.gpu_uw;
  storage_uw = add_u64 e.storage_uw p.report.storage_uw;
  io_uw = add_u64 e.io_uw p.report.io_uw;
  total_uw = add_u64 e.total_uw p.report.total_uw;
  pod_count = add_u64 e.pod_count 1;
  pods = e.pods ++ pod_summary p.report ∷ [];
  namespace = if e.namespace == p.report.namespace then e.namespace else "";
}

abbrev pub group_key : Placed → Option String
group_key p = some p.id.key

module _ {ℓ} {F : Type ℓ} where
  -- The map that the loop of `group_power` fills.
  unfoldable pub group_map :
      GroupBy → Option String → ClassificationData → ClusterAggregator F → Map String GroupPower
  group_map by category cls a =
      group group_key new_group add_to_group (place_all by category cls (values a.pods)) []

  unfoldable pub group_power :
      GroupBy → Option String → ClassificationData → ClusterAggregator F → List GroupPower
  unfolding group_map
  group_power by category cls a = sort_desc (λ g. g.total_uw) (values (group_map by category cls a))
