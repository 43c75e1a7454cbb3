-- ===== src/Agent/Pods/Shares.antt =====
-- keck-agent/src/main.rs: what each pod is given.
use keck.Base.{
  ℕ, ◌≡◌, refl, sym, ap, ◌∙◌, String, string_eq, nat_eq, Eq, ◌==◌, Bool, true, Option, none, some,
  List, [], ◌∷◌, map, if◌then◌else◌, unwrap_or, filter, find, All, is_some, any, not, ◌&&◌, arith,
  Bool-cases, Option-cases, inl, inr, weaken-All,
}
use keck.Base.Float.{Float64}
use keck.Base.Words.{add_u64, sum_u64}
use keck.Base.Maps.{Map, get, values, get-insert}
use keck.Base.Groups.{
  group, get-group, sum-group, members, keyed, has_key, entry_of, run_steps, field-run_steps,
}
use keck.Agent.Ebpf.{EbpfSnapshot}
use keck.Agent.Pods.{
  PodIdentity, PodPowerReport, CpuTime, find_pod, pid_pod_uid, pod_cpu_ns, pod_rss, report_of,
  share, enumerate_pods_ebpf,
}

map_id : (ns : List ℕ) → map (λ n. n) ns ≡ ns
map_id [] = refl
map_id (n ∷ ns) = ap (λ xs. n ∷ xs) (map_id ns)

module _ {ℓ} {X : Type ℓ} (amount : X → ℕ) where
  abbrev pub total_of : List X → Option ℕ
  total_of [] = none
  total_of (x ∷ xs) = some (sum_u64 (map amount (x ∷ xs)))

-- The entry of an accumulating loop that starts at 0.
module _ {ℓ κ} {X : Type ℓ} {K : Type κ} ⦃e : Eq K⦄ (key : X → Option K) (amount : X → ℕ) where
  abbrev totals : List X → Map K ℕ
  totals xs = group key (λ _. 0) (λ x n. add_u64 n (amount x)) xs []

  get-totals : (k : K) (xs : List X) → get k (totals xs) ≡ total_of amount (members key k xs)
  unfolding get
  get-totals k xs =
      get-group key (λ _. 0) (λ x n. add_u64 n (amount x)) k xs [] ∙ entry (members key k xs)
    where
      entry :
          (ys : List X)
          → entry_of (λ _. 0) (λ x n. add_u64 n (amount x)) ys none ≡ total_of amount ys
      entry [] = refl
      entry (y ∷ ys) = ap {B = Option ℕ} some (
          field-run_steps (λ x n. add_u64 n (amount x)) (λ n. n) amount (y ∷ ys) 0 (λ x v. refl)
            refl)

  sum-totals : (xs : List X) → sum_u64 (values (totals xs)) ≡ sum_u64 (map amount (keyed key xs))
  sum-totals xs =
      ap sum_u64 (sym (map_id (values (totals xs))))
      ∙ sum-group key (λ _. 0) (λ x n. add_u64 n (amount x)) (λ n. n) amount xs
          ((λ x. refl), λ x v. refl)

-- Finding a report by its pod is looking up the pod.
module _ (node_name : String) (wall : ℕ) (cache : Map String PodIdentity) (cpu : ℕ → ℕ)
    (memory : String → ℕ) where
  abbrev report : String → ℕ → PodPowerReport
  report uid n = report_of node_name wall uid (get uid cache) (cpu n) (memory uid)

  find-reports :
      (uid : String) (m : Map String ℕ)
      → find (λ r. r.pod_uid == uid) (map (λ x. report x.0 x.1) m)
        ≡ elim (get uid m) [ none ↦ none | some n ↦ some (report uid n) ]
  unfolding get
  find-reports uid [] = refl
  find-reports uid (x ∷ m) = elim (Bool-cases (x.0 == uid)) [
    | inl own ↦
        let same : x.0 ≡ uid = (string_eq.beq_iff x.0 uid).0 own in
        rw own (ap {B = Option PodPowerReport} (λ u. some (report u x.1)) same)
    | inr other ↦ rw other (find-reports uid m)
  ]

-- The pod of a process, if the loop has met it.
get-find_pod :
    (pod_of : ℕ → Option String) (x : CpuTime) (pid : ℕ) (m : Map ℕ String)
    → get pid (find_pod pod_of x m)
      ≡ (if (x.1 == pid) && not (is_some (get pid m)) then pod_of pid else get pid m)
unfolding find_pod
get-find_pod pod_of x pid m = elim (Option-cases (get x.1 m)) [
  | inl new_pid ↦ elim (Option-cases (pod_of x.1)) [
    | inl outside ↦ ground (arith, new_pid, outside, nat_eq.beq_iff x.1 pid)
    | inr (uid, inside) ↦
        ground (arith, new_pid, inside, nat_eq.beq_iff x.1 pid, get-insert x.1 pid uid m)
  ]
  | inr (uid, met) ↦ ground (arith, met, nat_eq.beq_iff x.1 pid)
]

get-find_pods :
    (pod_of : ℕ → Option String) (pid : ℕ) (xs : List CpuTime) (m : Map ℕ String)
    → get pid (run_steps (find_pod pod_of) xs m) ≡ (
        if is_some (get pid m)
        then get pid m
        else if any (λ x. x.1 == pid) xs
        then pod_of pid
        else none)
get-find_pods pod_of pid [] m = elim (Option-cases (get pid m)) [
  | inl absent ↦ rw absent refl
  | inr (uid, met) ↦ rw met refl
]
get-find_pods pod_of pid (x ∷ xs) m =
    ground (arith, get-find_pods pod_of pid xs (find_pod pod_of x m), get-find_pod pod_of x pid m)

occurs : (xs : List CpuTime) → All (λ x. any (λ y. y.1 == x.1) xs ≡ true) xs
occurs [] = tt
occurs (x ∷ xs) = (
  rw ((nat_eq.beq_iff x.1 x.1).1 refl) refl,
  weaken-All (λ z h. ground (arith, h)) xs (occurs xs),
)

filter-congr-All :
    {A : Type 0} (p q : A → Bool) (xs : List A)
    → All (λ x. p x ≡ q x) xs
    → filter p xs ≡ filter q xs
filter-congr-All p q [] h = refl
filter-congr-All p q (x ∷ xs) (h, hs) = rw (h, filter-congr-All p q xs hs) refl

filter_all : (ps : Map ℕ String) → filter (λ x. true) ps ≡ ps
filter_all [] = refl
filter_all (p ∷ ps) = ap (λ qs. p ∷ qs) (filter_all ps)

abbrev pub nanoseconds : List CpuTime → ℕ
nanoseconds xs = sum_u64 (map (λ x. x.2) xs)

-- The memory of some processes, in pages.
abbrev pub pages : (ℕ → Option ℕ) → Map ℕ String → ℕ
pages rss_of ps = sum_u64 (map (λ x. unwrap_or (rss_of x.0) 0) ps)

abbrev pub in_pod : String → Map ℕ String → Map ℕ String
in_pod uid = filter (λ x. x.1 == uid)

-- The times of the processes of a pod, and of all pods.
abbrev pub times_of : (ℕ → Option String) → String → List CpuTime → List CpuTime
times_of pod_of uid = filter (λ x. has_key uid (pod_of x.1))

abbrev pub pod_times : (ℕ → Option String) → List CpuTime → List CpuTime
pod_times pod_of = filter (λ x. is_some (pod_of x.1))

module _ (pod_of : ℕ → Option String) (times : List CpuTime) where
  abbrev pods : Map ℕ String
  pods = pid_pod_uid pod_of times

  pods_right : All (λ x. get x.1 pods ≡ pod_of x.1) times
  unfolding pid_pod_uid get
  pods_right =
      weaken-All (λ x h. get-find_pods pod_of x.1 times [] ∙ rw h refl) times (occurs times)

  members-times_of :
      (uid : String) → members (λ x. get x.1 pods) uid times ≡ times_of pod_of uid times
  members-times_of uid =
      filter-congr-All (λ x. has_key uid (get x.1 pods)) (λ x. has_key uid (pod_of x.1)) times
        (weaken-All (λ x h. ap (has_key uid) h) times pods_right)

  keyed-pod_times : keyed (λ x. get x.1 pods) times ≡ pod_times pod_of times
  keyed-pod_times =
      filter-congr-All (λ x. is_some (get x.1 pods)) (λ x. is_some (pod_of x.1)) times
        (weaken-All (λ x h. ap is_some h) times pods_right)

  get-pod_cpu_ns :
      (uid : String)
      → get uid (pod_cpu_ns pods times) ≡ total_of (λ x. x.2) (times_of pod_of uid times)
  unfolding pod_cpu_ns
  get-pod_cpu_ns uid =
      get-totals (λ x. get x.1 pods) (λ x. x.2) uid times
      ∙ ap (total_of (λ x. x.2)) (members-times_of uid)

  sum-pod_cpu_ns : sum_u64 (values (pod_cpu_ns pods times)) ≡ nanoseconds (pod_times pod_of times)
  unfolding pod_cpu_ns
  sum-pod_cpu_ns = sum-totals (λ x. get x.1 pods) (λ x. x.2) times ∙ ap nanoseconds keyed-pod_times

module _ (rss_of : ℕ → Option ℕ) (pods : Map ℕ String) where
  counted :
      (ps : Map ℕ String)
      → unwrap_or (total_of (λ x. unwrap_or (rss_of x.0) 0) ps) 0 ≡ pages rss_of ps
  unfolding sum_u64
  counted [] = refl
  counted (p ∷ ps) = refl

  get-pod_rss :
      (uid : String) → unwrap_or (get uid (pod_rss rss_of pods)) 0 ≡ pages rss_of (in_pod uid pods)
  unfolding pod_rss
  get-pod_rss uid =
      ap (λ o. unwrap_or o 0) (get-totals (λ x. some x.1) (λ x. unwrap_or (rss_of x.0) 0) uid pods)
      ∙ counted (in_pod uid pods)

  sum-pod_rss : sum_u64 (values (pod_rss rss_of pods)) ≡ pages rss_of pods
  unfolding pod_rss
  sum-pod_rss =
      sum-totals (λ x. some x.1) (λ x. unwrap_or (rss_of x.0) 0) pods
      ∙ ap (pages rss_of) (filter_all pods)

module _ {ℓ} (F : Type ℓ) ⦃f : Float64 F⦄ where
  -- A pod has a report exactly if a process whose cgroup file puts it there had time. Its CPU power is
  -- the share of the total that the times of its processes are of the times of all pods' processes,
  -- its memory power the share that the pages of its processes are of the pages of all of them, the
  -- sums modulo 2^64; its names come from the cache, if it is there.
  pub find-enumerate_pods_ebpf :
      (node_name : String) (wall : ℕ) (pod_of : ℕ → Option String) (rss_of : ℕ → Option ℕ)
      (total_cpu_uw total_mem_uw : ℕ) (cache : Map String PodIdentity) (snapshot : EbpfSnapshot)
      (uid : String)
      → let times = snapshot.pid_cpu_times in
        let pods = pid_pod_uid pod_of times in
        find
          (λ r. r.pod_uid == uid)
          (enumerate_pods_ebpf F node_name wall pod_of rss_of total_cpu_uw total_mem_uw cache
            snapshot)
        ≡ elim (total_of (λ x. x.2) (times_of pod_of uid times)) [
          | none ↦ none
          | some time ↦ some (
              report_of node_name wall uid
                (get uid cache)
                (share F total_cpu_uw time (nanoseconds (pod_times pod_of times)))
                (share F total_mem_uw (pages rss_of (in_pod uid pods)) (pages rss_of pods)))
        ]
  unfolding enumerate_pods_ebpf
  find-enumerate_pods_ebpf node_name wall pod_of rss_of total_cpu_uw total_mem_uw cache snapshot
        uid =
      let times = snapshot.pid_cpu_times in
      let pods = pid_pod_uid pod_of times in
      let rss = pod_rss rss_of pods in
      let report = λ (whole : ℕ) (part : ℕ) (all : ℕ) (time : ℕ).
        report_of node_name wall uid (get uid cache) (share F total_cpu_uw time whole)
          (share F total_mem_uw part all) in
      find-reports node_name wall cache
        (λ n. share F total_cpu_uw n (sum_u64 (values (pod_cpu_ns pods times))))
        (λ u. share F total_mem_uw (unwrap_or (get u rss) 0) (sum_u64 (values rss))) uid
        (pod_cpu_ns pods times)
      ∙ (λ i. elim (get-pod_cpu_ns pod_of times uid i) [
        | none ↦ none
        | some time ↦ some (
            report (sum-pod_cpu_ns pod_of times i) (get-pod_rss rss_of pods uid i)
              (sum-pod_rss rss_of pods i) time)
      ])
