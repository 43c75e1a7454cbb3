-- ===== src/Agent/Selection/Offers.antt =====
-- keck-agent/src/main.rs: what a round over the sources offers to each component.
use keck.Base.{
  ℕ, ◌≡◌, refl, ◌∙◌, String, string_eq, nat_eq, Option, none, some, List, [], ◌∷◌, if◌then◌else◌,
  ltb, eqb, Bool-cases, inl, inr,
}
use keck.Base.Maps.{Map}
use keck.Base.Groups.{run_steps}
use keck.Agent.Collector.{Component, cpu, memory, gpu, nic, storage, fan, platform, PowerReading}
use keck.Agent.Selection.{
  Source, ComponentReading, Selection, Round, take_better, take_stronger, choose, power_of,
  remember_energy, choose_positive, read_source,
}

-- The readings with a power above 0, in the order of the sources, each with its component.
abbrev pub offers :
    ℕ → Map String ℕ → List (Source × Option PowerReading) → List (Component × ComponentReading)
offers interval prev [] = []
offers interval prev ((s, none) ∷ xs) = offers interval prev xs
offers interval prev ((s, some r) ∷ xs) =
    let power = power_of interval prev s r in
    let rest = offers interval (remember_energy s r prev) xs in
    if ltb 0 power
    then (s.component, record { power_uw = power; source = s.name; reading_type = r.reading_type })
      ∷ rest
    else rest

abbrev pub choose_all : List (Component × ComponentReading) → Selection → Selection
choose_all = run_steps (λ o. choose o.0 o.1)

pub selection-offers :
    (interval : ℕ) (xs : List (Source × Option PowerReading)) (t : Round)
    → (run_steps (read_source interval) xs t).selection
      ≡ choose_all (offers interval t.prev_readings xs) t.selection
unfolding read_source
selection-offers interval [] t = refl
selection-offers interval ((s, none) ∷ xs) t =
    selection-offers interval xs (read_source interval (s, none) t)
selection-offers interval ((s, some r) ∷ xs) t =
    elim (Bool-cases (ltb 0 (power_of interval t.prev_readings s r))) [
      | inl positive ↦
          selection-offers interval xs (read_source interval (s, some r) t)
          ∙ rw (positive, choose_positive) refl
      | inr nothing ↦
          selection-offers interval xs (read_source interval (s, some r) t)
          ∙ rw (nothing, choose_positive) refl
    ]

abbrev pub index : Component → ℕ
index cpu = 0
index memory = 1
index gpu = 2
index nic = 3
index storage = 4
index fan = 5
index platform = 6

abbrev pub chosen : Component → Selection → Option ComponentReading
chosen cpu s = s.cpu_best
chosen memory s = s.mem_best
chosen gpu s = s.gpu_best
chosen nic s = s.io_best
chosen storage s = s.storage_best
chosen fan s = s.fan_best
chosen platform s = s.platform_reading

abbrev pub take : Component → ComponentReading → Option ComponentReading → Option ComponentReading
take platform = take_stronger
take _ = take_better

chosen-choose :
    (c d : Component) (cr : ComponentReading) (s : Selection)
    → chosen c (choose d cr s)
      ≡ (if eqb (index d) (index c) then take c cr (chosen c s) else chosen c s)
unfolding choose
chosen-choose cpu cpu cr s = refl
chosen-choose _ cpu cr s = refl
chosen-choose cpu memory cr s = refl
chosen-choose _ memory cr s = refl
chosen-choose cpu gpu cr s = refl
chosen-choose _ gpu cr s = refl
chosen-choose cpu nic cr s = refl
chosen-choose _ nic cr s = refl
chosen-choose cpu storage cr s = refl
chosen-choose _ storage cr s = refl
chosen-choose cpu fan cr s = refl
chosen-choose _ fan cr s = refl
chosen-choose cpu platform cr s = refl
chosen-choose _ platform cr s = refl

-- The readings of a component.
abbrev pub of_component : Component → List (Component × ComponentReading) → List ComponentReading
of_component c [] = []
of_component c ((d, r) ∷ os) =
    if eqb (index d) (index c) then r ∷ of_component c os else of_component c os

pub chosen-choose_all :
    (c : Component) (os : List (Component × ComponentReading)) (s : Selection)
    → chosen c (choose_all os s) ≡ run_steps (take c) (of_component c os) (chosen c s)
chosen-choose_all c [] s = refl
chosen-choose_all c ((d, r) ∷ os) s = elim (Bool-cases (eqb (index d) (index c))) [
  | inl own ↦ chosen-choose_all c os (choose d r s) ∙ rw (chosen-choose, own) refl
  | inr other ↦ chosen-choose_all c os (choose d r s) ∙ rw (chosen-choose, other) refl
]
