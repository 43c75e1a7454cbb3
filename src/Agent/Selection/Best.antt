-- ===== src/Agent/Selection/Best.antt =====
-- keck-agent/src/main.rs: which reading a round selects for each component.
use keck.Base.{
  ℕ, ◌≤◌, ◌≡◌, ◌⊎◌, refl, sym, ap, ◌∙◌, String, string_eq, nat_eq, Bool, true, Option, none, some,
  List, [], ◌∷◌, map, if◌then◌else◌, ltb, eqb, find, All, contains, Bool-cases, inl, inr, arith,
}
use mathlib.Core.Path.{subst}
use keck.Base.Maps.{Map}
use keck.Base.Groups.{run_steps}
use keck.Agent.Collector.{
  ReadingType, measured, estimated, derived, Component, cpu, memory, gpu, nic, storage, fan,
  platform, PowerReading,
}
use keck.Agent.Selection.{
  Source, ComponentReading, nothing_selected, rank, take_better, take_stronger, read_sources,
}
use keck.Agent.Selection.Offers.{
  offers, take, chosen, of_component, selection-offers, chosen-choose_all,
}

-- The first reading of a type.
abbrev pub first : ReadingType → List ComponentReading → Option ComponentReading
first t = find (λ r. eqb (rank r.reading_type) (rank t))

abbrev pub or_first : Option ComponentReading → Option ComponentReading → Option ComponentReading
or_first none o = o
or_first (some r) o = some r

-- The first measured reading, or else the first estimated one, or else the first derived one.
abbrev pub best : List ComponentReading → Option ComponentReading
best rs = or_first (first measured rs) (or_first (first estimated rs) (first derived rs))

ReadingType-cases : (t : ReadingType) → (t ≡ measured) ⊎ (t ≡ estimated) ⊎ (t ≡ derived)
ReadingType-cases measured = inl refl
ReadingType-cases estimated = inr (inl refl)
ReadingType-cases derived = inr (inr refl)

best_of_two :
    (r x : ComponentReading) (rs : List ComponentReading)
    → best (r ∷ x ∷ rs)
      ≡ best ((if ltb (rank r.reading_type) (rank x.reading_type) then x else r) ∷ rs)
best_of_two r x rs = elim (ReadingType-cases r.reading_type) [
  | inl m ↦ elim (ReadingType-cases x.reading_type) [
    | inl n ↦ rw (m, n) refl
    | inr (inl n) ↦ rw (m, n) refl
    | inr (inr n) ↦ rw (m, n) refl
  ]
  | inr (inl m) ↦ elim (ReadingType-cases x.reading_type) [
    | inl n ↦ rw (m, n) refl
    | inr (inl n) ↦ rw (m, n) refl
    | inr (inr n) ↦ rw (m, n) refl
  ]
  | inr (inr m) ↦ elim (ReadingType-cases x.reading_type) [
    | inl n ↦ rw (m, n) refl
    | inr (inl n) ↦ rw (m, n) refl
    | inr (inr n) ↦ rw (m, n) refl
  ]
]

run-take_better :
    (r : ComponentReading) (rs : List ComponentReading)
    → run_steps take_better rs (some r) ≡ best (r ∷ rs)
unfolding take_better
run-take_better r [] = elim (ReadingType-cases r.reading_type) [
  | inl m ↦ rw m refl
  | inr (inl m) ↦ rw m refl
  | inr (inr m) ↦ rw m refl
]
run-take_better r (x ∷ rs) = elim (Bool-cases (ltb (rank r.reading_type) (rank x.reading_type))) [
  | inl better ↦ rw (better, take_better) (run-take_better x rs ∙ sym (two better))
  | inr worse ↦ rw (worse, take_better) (run-take_better r rs ∙ sym (two worse))
]
  where
    two :
        {b : Bool}
        → ltb (rank r.reading_type) (rank x.reading_type) ≡ b
        → best (r ∷ x ∷ rs) ≡ best ((if b then x else r) ∷ rs)
    two h = best_of_two r x rs ∙ ap (λ b. best ((if b then x else r) ∷ rs)) h

run-take_better-none : (rs : List ComponentReading) → run_steps take_better rs none ≡ best rs
unfolding take_better
run-take_better-none [] = refl
run-take_better-none (r ∷ rs) = run-take_better r rs

-- One of the readings, with no higher power among them; none if there are none.
abbrev pub IsStrongest : List ComponentReading → Option ComponentReading → Type 0
IsStrongest rs none = rs ≡ []
IsStrongest rs (some r) =
    All (λ q. q.power_uw ≤ r.power_uw) rs × (contains (map (λ q. q.power_uw) rs) r.power_uw ≡ true)

-- A reading that is not above one of the others.
weaker_before :
    (r x : ComponentReading) (rs : List ComponentReading) (o : Option ComponentReading)
    → r.power_uw ≤ x.power_uw
    → IsStrongest (x ∷ rs) o
    → IsStrongest (r ∷ x ∷ rs) o
weaker_before r x rs none le h = cc
weaker_before r x rs (some s) le ((a, qs), b) = ((omega (arith, a), (a, qs)), ground (arith, b))

weaker_behind :
    (r x : ComponentReading) (rs : List ComponentReading) (o : Option ComponentReading)
    → x.power_uw ≤ r.power_uw
    → IsStrongest (r ∷ rs) o
    → IsStrongest (r ∷ x ∷ rs) o
weaker_behind r x rs none le h = cc
weaker_behind r x rs (some s) le ((a, qs), b) = ((a, (omega (arith, a), qs)), ground (arith, b))

run-take_stronger :
    (r : ComponentReading) (rs : List ComponentReading)
    → IsStrongest (r ∷ rs) (run_steps take_stronger rs (some r))
unfolding take_stronger
run-take_stronger r [] =
    ((omega arith, tt), rw ((nat_eq.beq_iff r.power_uw r.power_uw).1 refl) refl)
run-take_stronger r (x ∷ rs) = elim (Bool-cases (ltb r.power_uw x.power_uw)) [
  | inl higher ↦
      rw (higher, take_stronger) (weaker_before r x rs _ (ground arith) (run-take_stronger x rs))
  | inr lower ↦
      rw (lower, take_stronger) (weaker_behind r x rs _ (ground arith) (run-take_stronger r rs))
]

run-take_stronger-none :
    (rs : List ComponentReading) → IsStrongest rs (run_steps take_stronger rs none)
unfolding take_stronger
run-take_stronger-none [] = refl
run-take_stronger-none (r ∷ rs) = run-take_stronger r rs

module _ (interval : ℕ) (prev : Map String ℕ) (xs : List (Source × Option PowerReading)) where
  abbrev pub readings_of : Component → List ComponentReading
  readings_of c = of_component c (offers interval prev xs)

  selected : Component → Option ComponentReading
  selected c = chosen c (read_sources interval prev xs).selection

  selected-run :
      (c : Component) → selected c ≡ run_steps (take c) (readings_of c) (chosen c nothing_selected)
  unfolding selected read_sources
  selected-run c =
      ap (chosen c) (
        selection-offers interval xs
          (record { prev_readings = prev; all_source_readings = []; selection = nothing_selected }))
      ∙ chosen-choose_all c (offers interval prev xs) nothing_selected

  pub read_sources-best :
      let s = (read_sources interval prev xs).selection in
      (s.cpu_best ≡ best (readings_of cpu))
      × (s.mem_best ≡ best (readings_of memory))
      × (s.gpu_best ≡ best (readings_of gpu))
      × (s.io_best ≡ best (readings_of nic))
      × (s.storage_best ≡ best (readings_of storage))
      × (s.fan_best ≡ best (readings_of fan))
      × IsStrongest (readings_of platform) s.platform_reading
  unfolding selected
  read_sources-best = (
    selected-run cpu ∙ run-take_better-none (readings_of cpu),
    selected-run memory ∙ run-take_better-none (readings_of memory),
    selected-run gpu ∙ run-take_better-none (readings_of gpu),
    selected-run nic ∙ run-take_better-none (readings_of nic),
    selected-run storage ∙ run-take_better-none (readings_of storage),
    selected-run fan ∙ run-take_better-none (readings_of fan),
    subst (IsStrongest (readings_of platform)) (sym (selected-run platform))
        (run-take_stronger-none (readings_of platform)),
  )
