-- ===== src/Controller/Aggregator/Grouping/Conservation.antt =====
-- keck-controller/src/aggregator/mod.rs: the groups, and the pods that are placed in them.
use keck.Base.{
  ℕ, ◌+◌, ◌≡◌, refl, sym, ap, ◌∙◌, String, string_eq, ◌==◌, Bool, true, false, Option, none, some,
  inl, inr, List, [], ◌∷◌, ◌++◌, ◌⊎◌, map, if◌then◌else◌, filter, arith, Bool-cases, Option-cases,
}
use mathlib.Core.List.{append_assoc, append-nil}
use keck.Base.Words.{add_u64, sum_u64, sum_u64-lt}
use keck.Base.Maps.{get, values}
use keck.Base.Groups.{run_steps, field-run_steps, get-group, sum-group, entry_of, keyed}
use keck.Base.Sorting.{sort_desc-IsDescending, sum-sort_by, IsDescending}
use keck.Controller.Aggregator.Types.{PodPowerReport, PodState, ClusterAggregator}
use keck.Controller.Classification.{ClassificationData, classify}
use keck.Controller.Aggregator.Grouping.{
  GroupBy, workload, label, namespace, application, GroupId, wanted, GroupPower, PodPowerSummary,
  Placed, place, place_all, group_of, new_group, add_to_group, pod_summary, group_key, group_map,
  group_power,
}
use keck.Controller.Aggregator.Grouping

-- Whether all pods are of the namespace.
abbrev pub all_in : String → List Placed → Bool
all_in ns [] = true
all_in ns (p ∷ ps) = if ns == p.report.namespace then all_in ns ps else false

abbrev pub sums_of : Placed → List Placed → GroupPower
sums_of p ps = record {
  group_key = p.id.key;
  group_name = p.id.name;
  group_kind = p.id.kind;
  namespace = if all_in p.report.namespace ps then p.report.namespace else "";
  category = p.category;
  cpu_uw = sum_u64 (map (λ q. q.report.cpu_uw) ps);
  memory_uw = sum_u64 (map (λ q. q.report.memory_uw) ps);
  gpu_uw = sum_u64 (map (λ q. q.report.gpu_uw) ps);
  storage_uw = sum_u64 (map (λ q. q.report.storage_uw) ps);
  io_uw = sum_u64 (map (λ q. q.report.io_uw) ps);
  total_uw = sum_u64 (map (λ q. q.report.total_uw) ps);
  pod_count = sum_u64 (map (λ _. 1) ps);
  pods = map (λ q. pod_summary q.report) ps;
}

-- The group that just these pods make.
abbrev pub group_from : List Placed → Option GroupPower
group_from [] = none
group_from (p ∷ ps) = some (sums_of p (p ∷ ps))

-- A group that spans namespaces loses its namespace for good.
namespace_lost :
    (ps : List Placed) (e : GroupPower)
    → e.namespace ≡ ""
    → (run_steps add_to_group ps e).namespace ≡ ""
unfolding add_to_group
namespace_lost [] e h = h
namespace_lost (p ∷ ps) e h = namespace_lost ps (add_to_group p e) (ground arith)

namespace_kept :
    (ps : List Placed) (e : GroupPower)
    → (run_steps add_to_group ps e).namespace ≡ (if all_in e.namespace ps then e.namespace else "")
unfolding add_to_group
namespace_kept [] e = refl
namespace_kept (p ∷ ps) e = elim (Bool-cases (e.namespace == p.report.namespace)) [
  | inl same ↦ rw same (namespace_kept ps (add_to_group p e) ∙ (rw same))
  | inr other ↦ rw other (namespace_lost ps (add_to_group p e) (rw other))
]

pods_listed :
    (ps : List Placed) (e : GroupPower)
    → (run_steps add_to_group ps e).pods ≡ e.pods ++ map (λ q. pod_summary q.report) ps
unfolding add_to_group
pods_listed [] e = sym (append-nil e.pods)
pods_listed (p ∷ ps) e = pods_listed ps (add_to_group p e) ∙ append_assoc e.pods _ _

id_kept :
    (ps : List Placed) (e : GroupPower)
    → let g = run_steps add_to_group ps e in
      (g.group_key ≡ e.group_key)
      × (g.group_name ≡ e.group_name)
      × (g.group_kind ≡ e.group_kind)
      × (g.category ≡ e.category)
unfolding add_to_group
id_kept [] e = (refl, refl, refl, refl)
id_kept (p ∷ ps) e = id_kept ps (add_to_group p e)

filled :
    (p : Placed) (ps : List Placed)
    → run_steps add_to_group (p ∷ ps) (new_group p) ≡ sums_of p (p ∷ ps)
unfolding new_group add_to_group
filled p ps =
    let e = new_group p in
    let field =
      λ (g : GroupPower → ℕ) (f : Placed → ℕ). field-run_steps add_to_group g f (p ∷ ps) e in
    let id = id_kept (p ∷ ps) e in
    let ns = namespace_kept (p ∷ ps) e in
    let cpu = field (λ v. v.cpu_uw) (λ q. q.report.cpu_uw) (λ _ _. refl) refl in
    let memory = field (λ v. v.memory_uw) (λ q. q.report.memory_uw) (λ _ _. refl) refl in
    let gpu = field (λ v. v.gpu_uw) (λ q. q.report.gpu_uw) (λ _ _. refl) refl in
    let storage = field (λ v. v.storage_uw) (λ q. q.report.storage_uw) (λ _ _. refl) refl in
    let io = field (λ v. v.io_uw) (λ q. q.report.io_uw) (λ _ _. refl) refl in
    let all = field (λ v. v.total_uw) (λ q. q.report.total_uw) (λ _ _. refl) refl in
    let count = field (λ v. v.pod_count) (λ _. 1) (λ _ _. refl) refl in
    let listed = pods_listed (p ∷ ps) e in
    λ i. record {
      group_key = id.0 i;
      group_name = id.1 i;
      group_kind = id.2 i;
      namespace = ns i;
      category = id.3 i;
      cpu_uw = cpu i;
      memory_uw = memory i;
      gpu_uw = gpu i;
      storage_uw = storage i;
      io_uw = io i;
      total_uw = all i;
      pod_count = count i;
      pods = listed i;
    }

entry-filled : (ps : List Placed) → entry_of new_group add_to_group ps none ≡ group_from ps
entry-filled [] = refl
entry-filled (p ∷ ps) = ap {B = Option GroupPower} some (filled p ps)

keyed_all : (ps : List Placed) → keyed group_key ps ≡ ps
keyed_all [] = refl
keyed_all (p ∷ ps) = ap {B = List Placed} (λ xs. p ∷ xs) (keyed_all ps)

module _ {ℓ} {F : Type ℓ} where
  -- Each key's group is made of just the pods placed under it, in the table's order: the sums of
  -- their fields modulo 2^64, their number, a summary of each; the name, the kind and the category
  -- of the first of them; and their namespace if it is the same for all, else none.
  pub get-group_map :
      (by : GroupBy) (category : Option String) (cls : ClassificationData) (a : ClusterAggregator F)
      (k : String)
      → get k (group_map by category cls a)
        ≡ group_from (filter (λ p. p.id.key == k) (place_all by category cls (values a.pods)))
  unfolding group_map get
  get-group_map by category cls a k =
      get-group group_key new_group add_to_group k (place_all by category cls (values a.pods)) []
      ∙ entry-filled _

  -- The groups stand in falling order of power, and their powers add up, modulo 2^64, to the power
  -- of all the pods that are placed: each of these is in one group, and in one only.
  pub group_power_total :
      (by : GroupBy) (category : Option String) (cls : ClassificationData) (a : ClusterAggregator F)
      → IsDescending (λ g. g.total_uw) (group_power by category cls a)
        × (sum_u64 (map (λ g. g.total_uw) (group_power by category cls a))
            ≡ sum_u64 (map (λ p. p.report.total_uw) (place_all by category cls (values a.pods))))
  unfolding group_power new_group add_to_group
  group_power_total by category cls a = (
    sort_desc-IsDescending (λ g. g.total_uw) _,
    sum-sort_by _ (λ g. g.total_uw) _
        ∙ sum-group group_key new_group add_to_group (λ g. g.total_uw) (λ p. p.report.total_uw)
            (place_all by category cls (values a.pods)) ((λ x. refl), λ x v. refl)
        ∙ ap (λ xs. sum_u64 (map (λ (p : Placed). p.report.total_uw) xs)) (keyed_all _),
  )

-- The power of the pods that are placed when a category is asked for.
abbrev pub power_of : GroupBy → Option String → ClassificationData → List PodState → ℕ
power_of by category cls ss = sum_u64 (map (λ p. p.report.total_uw) (place_all by category cls ss))

abbrev IsCategory : String → Type 0
IsCategory c = (c ≡ "platform") ⊎ ((c ≡ "operator") ⊎ (c ≡ "application"))

classify_cases : (cls : ClassificationData) (ns : String) → IsCategory (classify cls ns).0
unfolding classify
classify_cases cls ns = ground arith

placed_power : Option Placed → ℕ
placed_power none = 0
placed_power (some p) = p.report.total_uw

power_of-cons :
    (by : GroupBy) (category : Option String) (cls : ClassificationData) (s : PodState)
    (ss : List PodState)
    → power_of by category cls (s ∷ ss)
      ≡ add_u64 (placed_power (place by category cls s)) (power_of by category cls ss)
unfolding place_all placed_power sum_u64 add_u64
power_of-cons by category cls s ss =
    let rest = sum_u64-lt (map (λ p. p.report.total_uw) (place_all by category cls ss)) in
    elim (Option-cases (place by category cls s)) [
      | inl e ↦ rw (e, place_all) (omega arith)
      | inr (p, e) ↦ rw (e, place_all)
    ]

abbrev power_in : String → String → PodPowerReport → Option GroupId → ℕ
power_in category c r o =
    placed_power (if wanted (some category) c then Grouping.placed c r o else none)

split_of :
    (c : String) (r : PodPowerReport) (o : Option GroupId)
    → IsCategory c
    → power_in "platform" c r o + power_in "operator" c r o + power_in "application" c r o
      ≡ placed_power (Grouping.placed c r o)
unfolding placed_power
split_of c r o (inl e) = rw e (omega arith)
split_of c r o (inr (inl e)) = rw e (omega arith)
split_of c r o (inr (inr e)) = rw e (omega arith)

split_one :
    (by : GroupBy) (cls : ClassificationData) (s : PodState)
    → placed_power (place by (some "platform") cls s)
        + placed_power (place by (some "operator") cls s)
        + placed_power (place by (some "application") cls s)
      ≡ placed_power (place by none cls s)
unfolding place
split_one by cls s =
    let (c, co) = classify cls s.report.namespace in
    split_of c s.report (group_of by cls co s.report) (classify_cases cls s.report.namespace)

power_of-nil :
    (by : GroupBy) (category : Option String) (cls : ClassificationData)
    → power_of by category cls [] ≡ 0
unfolding place_all sum_u64
power_of-nil by category cls = refl

split_all :
    (by : GroupBy) (cls : ClassificationData) (ss : List PodState)
    → add_u64
        (add_u64 (power_of by (some "platform") cls ss) (power_of by (some "operator") cls ss))
        (power_of by (some "application") cls ss)
      ≡ power_of by none cls ss
unfolding add_u64
split_all by cls [] = omega (
  arith,
  power_of-nil by none cls,
  power_of-nil by (some "platform") cls,
  power_of-nil by (some "operator") cls,
  power_of-nil by (some "application") cls,
)
split_all by cls (s ∷ ss) = omega (
  arith,
  split_one by cls s,
  split_all by cls ss,
  power_of-cons by none cls s ss,
  power_of-cons by (some "platform") cls s ss,
  power_of-cons by (some "operator") cls s ss,
  power_of-cons by (some "application") cls s ss,
)

module _ {ℓ} {F : Type ℓ} where
  abbrev pub power_shown : GroupBy → Option String → ClassificationData → ClusterAggregator F → ℕ
  power_shown by category cls a = sum_u64 (map (λ g. g.total_uw) (group_power by category cls a))

  -- However the pods are grouped, the three categories share out the power that is shown without a
  -- category: nothing is in two of them or in none (modulo 2^64).
  pub categories_partition :
      (by : GroupBy) (cls : ClassificationData) (a : ClusterAggregator F)
      → add_u64
          (add_u64
            (power_shown by (some "platform") cls a)
            (power_shown by (some "operator") cls a))
          (power_shown by (some "application") cls a)
        ≡ power_shown by none cls a
  categories_partition by cls a =
      let shown = λ (c : Option String). (group_power_total by c cls a).1 in
      rw (shown (some "platform"), shown (some "operator"), shown (some "application"), shown none)
        (split_all by cls (values a.pods))

-- Only grouping by a label passes over pods.
abbrev pub is_label : GroupBy → Bool
is_label (label k) = true
is_label _ = false

group_of-some :
    (by : GroupBy) (cls : ClassificationData) (co : Option String) (r : PodPowerReport)
    → is_label by ≡ false
    → (id : GroupId) × (group_of by cls co r ≡ some id)
unfolding group_of
group_of-some workload cls co r h = (_, refl)
group_of-some (label k) cls co r h = cc
group_of-some namespace cls co r h = (_, refl)
group_of-some application cls co r h = (_, refl)

-- Without a category and not by a label, every pod of the cluster is placed.
pub place_all_complete :
    (by : GroupBy) (cls : ClassificationData) (ss : List PodState)
    → is_label by ≡ false
    → map (λ p. p.report) (place_all by none cls ss) ≡ map (λ s. s.report) ss
unfolding place_all place
place_all_complete by cls [] h = refl
place_all_complete by cls (s ∷ ss) h =
    let (id, e) = group_of-some by cls (classify cls s.report.namespace).1 s.report h in
    rw (e, place_all)
      (ap {B = List PodPowerReport} (λ xs. s.report ∷ xs) (place_all_complete by cls ss h))
