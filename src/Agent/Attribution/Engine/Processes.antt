-- ===== src/Agent/Attribution/Engine/Processes.antt =====
-- keck-agent/src/attribution/engine.rs: the energy of the processes and the idle rest.
use mathlib.Core.List.{map-map}
use keck.Base.{
  ap, ℕ, ◌-◌, ◌<◌, ◌≡◌, refl, sym, ◌∙◌, nat_eq, ◌==◌, Bool, true, false, inl, inr, Option, none,
  some, List, [], ◌∷◌, ◌++◌, map, arith, if◌then◌else◌, eqb, unwrap_or, All, Bool-cases,
}
use Prim.Native.Nat.{max}
use keck.Base.Keys.{Eq}
use keck.Base.Float.{Float64, sum_f64}
use keck.Base.Words.{u64_mod, add_u64, sum_u64, sum_u64-lt}
use keck.Base.Maps.{Map, get, IsMap, upsert-IsMap, get-upsert, keys, values}
use keck.Base.Groups.{run_steps}
use keck.Agent.Attribution.Types.{CoreAttribution, ProcessPower}
use keck.Agent.Attribution.Energy.{EnergyInput, energy_to_power}
use keck.Agent.Attribution.Model.{
  PidCoreObservation, PidCoreWeight, AttributionModel, compute_weights,
}
use keck.Agent.Attribution.Observation.{
  ObservationSnapshot, is_nil, observe_core, build_core_pid_observations, build_core_counter_map,
  compute_core_avg_freq,
}
use keck.Agent.Attribution.Split.{range}
use keck.Agent.Attribution.Engine.{
  Attributed, credit, credit_all, attribute_core, attribute_cores, attribute_from, process_power,
}

abbrev pub spent : List CoreAttribution → ℕ
spent ds = sum_u64 (map (λ d. d.energy_uj) ds)

abbrev pub spent_all : List ProcessPower → ℕ
spent_all ps = sum_u64 (map (λ p. spent p.core_detail) ps)

abbrev spent_of : Option (List CoreAttribution) → Option ℕ
spent_of none = none
spent_of (some ds) = some (spent ds)

-- The two maps agree: a process's energy is that of its entries.
record Agrees (t : Attributed) : Type 0 where
  once : IsMap t.cpu_energy
  same : (pid : ℕ) → get pid t.cpu_energy ≡ spent_of (get pid t.core_detail)

spent-append :
    (ds : List CoreAttribution) (d : CoreAttribution)
    → spent (ds ++ d ∷ []) ≡ add_u64 (spent ds) d.energy_uj
unfolding sum_u64 add_u64
spent-append [] d = omega arith
spent-append (c ∷ ds) d = omega (arith, spent-append ds d)

credited :
    (b : Bool) (o p : Option (List CoreAttribution)) (d : CoreAttribution)
    → (if b then some (add_u64 (unwrap_or (spent_of o) 0) d.energy_uj) else spent_of p)
      ≡ spent_of (if b then some (unwrap_or o [] ++ d ∷ []) else p)
unfolding sum_u64
credited true none p d = ap (λ (n : ℕ). some n) (sym (spent-append [] d))
credited true (some ds) p d = ap (λ (n : ℕ). some n) (sym (spent-append ds d))
credited false o p d = refl

spent_or : (o : Option (List CoreAttribution)) → unwrap_or (spent_of o) 0 ≡ spent (unwrap_or o [])
unfolding sum_u64
spent_or none = refl
spent_or (some ds) = refl

credit-Agrees :
    (pid : ℕ) (d : CoreAttribution) (t : Attributed) → Agrees t → Agrees (credit pid d t)
unfolding credit
credit-Agrees pid d t v = record {
  once = upsert-IsMap pid 0 _ t.cpu_energy v.once;
  same = λ j.
      rw
        (
          get-upsert pid j 0 (λ e. add_u64 e d.energy_uj) t.cpu_energy,
          get-upsert pid j [] (λ ds. ds ++ d ∷ []) t.core_detail,
          v.same pid,
          v.same j,
        )
        (credited (pid == j) (get pid t.core_detail) (get j t.core_detail) d);
}

map_congr {ℓ κ} :
    {A : Type ℓ} {B : Type κ} (f g : A → B) (xs : List A)
    → ((x : A) → f x ≡ g x)
    → map f xs ≡ map g xs
map_congr f g [] h = refl
map_congr f g (x ∷ xs) h = rw (h x, map_congr f g xs h)

whole : (t a : ℕ) → t < u64_mod → a < u64_mod → add_u64 a (t - a) ≡ max t a
unfolding add_u64
whole t a h k = omega arith

-- The values of a map, by its keys.
module _ {ℓ κ} {K : Type ℓ} {V : Type κ} ⦃e : Eq K⦄ where
  not_key :
      (d v : V) (k : K) (m n : Map K V)
      → get k m ≡ none
      → map (λ j. unwrap_or (get j ((k, v) ∷ n)) d) (keys m)
        ≡ map (λ j. unwrap_or (get j n) d) (keys m)
  unfolding get
  not_key d v k [] n h = refl
  not_key d v k ((i, w) ∷ m) n h = elim (Bool-cases (k == i)) [
    | inl hit ↦ ground (arith, e.beq_iff k i, e.beq_iff i k)
    | inr miss ↦ rw (miss, not_key d v k m n (ground (arith, e.beq_iff k i, e.beq_iff i k))) refl
  ]

  map-get-values :
      (d : V) (m : Map K V) → IsMap m → map (λ k. unwrap_or (get k m) d) (keys m) ≡ values m
  unfolding get
  map-get-values d [] h = refl
  map-get-values d ((k, v) ∷ m) h =
      rw (not_key d v k m m h.0, map-get-values d m h.1, (e.beq_iff k k).1 refl) refl

module _ {ℓ} {F : Type ℓ} ⦃f : Float64 F⦄ where
  credit_all-Agrees :
      (core energy freq : ℕ) (total : F) (ws : List (PidCoreWeight F))
      (os : List PidCoreObservation) (t : Attributed)
      → Agrees t
      → Agrees (credit_all core energy freq total ws os t)
  unfolding credit_all
  credit_all-Agrees core energy freq total [] os t v = v
  credit_all-Agrees core energy freq total (w ∷ ws) [] t v = v
  credit_all-Agrees core energy freq total (w ∷ ws) (o ∷ os) t v =
      credit_all-Agrees core energy freq total ws os _ (credit-Agrees w.pid _ t v)

  attribute_core-Agrees :
      (model : AttributionModel F) (obs : ObservationSnapshot) (cores : Map ℕ ℕ) (core : ℕ)
      (t : Attributed)
      → Agrees t
      → Agrees (attribute_core model obs cores core t)
  unfolding attribute_core
  attribute_core-Agrees model obs cores core t v =
      let energy = unwrap_or (get core cores) 0 in
      let freq = unwrap_or (get core (compute_core_avg_freq f obs)) 1000000 in
      let os =
        observe_core (get core (build_core_pid_observations obs))
          (get core (build_core_counter_map f obs)) in
      let ws = compute_weights model os freq in
      let total = sum_f64 (map (λ w. w.raw_weight) ws) in
      let done = credit_all core energy freq total ws os t in
      let weighed = if f.le total (f.lit 0 0) then t else done in
      either (eqb energy 0) t (if is_nil os then t else weighed) v (
        either (is_nil os) t weighed v (
          either (f.le total (f.lit 0 0)) t done v
            (credit_all-Agrees core energy freq total ws os t v)))
    where
      either : (b : Bool) (x y : Attributed) → Agrees x → Agrees y → Agrees (if b then x else y)
      either true x y h k = h
      either false x y h k = k

  cores-Agrees :
      (model : AttributionModel F) (obs : ObservationSnapshot) (cores : Map ℕ ℕ) (cs : List ℕ)
      (t : Attributed)
      → Agrees t
      → Agrees (run_steps (attribute_core model obs cores) cs t)
  cores-Agrees model obs cores [] t v = v
  cores-Agrees model obs cores (c ∷ cs) t v =
      cores-Agrees model obs cores cs _ (attribute_core-Agrees model obs cores c t v)

  attribute_cores-Agrees :
      (model : AttributionModel F) (obs : ObservationSnapshot) (cores : Map ℕ ℕ) (n : ℕ)
      → Agrees (attribute_cores model obs cores n)
  unfolding attribute_cores get
  attribute_cores-Agrees model obs cores n =
      cores-Agrees model obs cores (range 0 n) _ (record { once = tt; same = λ pid. refl })

  -- A process's energy in the map is that of its entries.
  energy_of_process :
      (model : AttributionModel F) (obs : ObservationSnapshot) (interval : ℕ) (memory : Map ℕ ℕ)
      (t : Attributed) (pid : ℕ)
      → Agrees t
      → unwrap_or (get pid t.cpu_energy) 0
        ≡ spent (process_power model obs interval memory t pid).core_detail
  unfolding process_power sum_u64
  energy_of_process model obs interval memory t pid v =
      ap (λ o. unwrap_or o 0) (v.same pid) ∙ spent_or (get pid t.core_detail)

  spent_all-values :
      (model : AttributionModel F) (obs : ObservationSnapshot) (interval : ℕ) (memory : Map ℕ ℕ)
      (t : Attributed)
      → Agrees t
      → spent_all (map (process_power model obs interval memory t) (keys t.cpu_energy))
        ≡ sum_u64 (values t.cpu_energy)
  spent_all-values model obs interval memory t v = ap sum_u64 (
      map-map (λ p. spent p.core_detail) (process_power model obs interval memory t)
        (keys t.cpu_energy)
      ∙ map_congr _ _ (keys t.cpu_energy)
          (λ pid. sym (energy_of_process model obs interval memory t pid v))
      ∙ map-get-values 0 t.cpu_energy v.once)

  shown :
      (model : AttributionModel F) (obs : ObservationSnapshot) (interval : ℕ) (memory : Map ℕ ℕ)
      (t : Attributed) (pids : List ℕ)
      → Agrees t
      → All
          (λ p. p.power.cpu_uw ≡ energy_to_power (spent p.core_detail) interval)
          (map (process_power model obs interval memory t) pids)
  unfolding process_power
  shown model obs interval memory t [] v = tt
  shown model obs interval memory t (pid ∷ pids) v = (
    ap (λ e. energy_to_power e interval) (energy_of_process model obs interval memory t pid v),
    shown model obs interval memory t pids v,
  )

  -- The power of each process is that of the energy of its entries for the cores; the idle power is
  -- that of the cores' energy that no entry of any process has; and the attributed power is that of
  -- the cores' whole energy, or of the entries' if rounding made these more. Sums are modulo 2^64.
  pub attribute_from_accounts :
      (now : ℕ) (model : AttributionModel F) (n : ℕ) (obs : ObservationSnapshot)
      (energy : EnergyInput) (cores : Map ℕ ℕ)
      → let s = attribute_from now model n obs energy cores in
        let used = spent_all s.processes in
        let measured = sum_u64 (values cores) in
        All
          (λ p. p.power.cpu_uw ≡ energy_to_power (spent p.core_detail) energy.interval_ns)
          s.processes
        × (s.idle_power.cpu_uw ≡ energy_to_power (measured - used) energy.interval_ns)
        × (s.reconciliation.attributed_sum_uw
            ≡ energy_to_power (max measured used) energy.interval_ns)
        × (s.node.attributed_total_uw ≡ s.reconciliation.attributed_sum_uw)
  unfolding attribute_from
  attribute_from_accounts now model n obs energy cores =
      let t = attribute_cores model obs cores n in
      let v = attribute_cores-Agrees model obs cores n in
      let measured = sum_u64 (values cores) in
      let used = spent_all-values model obs energy.interval_ns _ t v in
      (
        shown model obs energy.interval_ns _ t (keys t.cpu_energy) v,
        ap (λ e. energy_to_power (measured - e) energy.interval_ns) (sym used),
        ap (λ e. energy_to_power e energy.interval_ns)
            (whole measured (sum_u64 (values t.cpu_energy)) (sum_u64-lt _) (sum_u64-lt _)
              ∙ ap (max measured) (sym used)),
        refl,
      )
