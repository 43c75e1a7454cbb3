-- ===== src/Tests/Tuner.antt =====
-- The theorem about the tuner at concrete intervals.
use keck.Base.{ℕ, ◌≡◌, ◌%◌, refl, none, List, [], ◌∷◌, arith, eqb}
use keck.Base.Words.{u64_mod, sum}
use keck.Base.Maps.{get}
use keck.Base.Groups.{group}
use keck.Agent.Attribution.Tuner.{
  Counters, CpuTime, core_of, core_pids, observation, qualifies, new,
}
use keck.Agent.Attribution.Tuner.Bounds.{LawfulOrder, IsBounded, run, run-new_lem}
use keck.Tests.Fixed.{fixed}

lawful : LawfulOrder ℕ
lawful = record { irreflexive = λ x. ground arith; alpha_range = refl; beta_range = refl }

-- A process with many instructions per cycle and one with few on core 0, and a third alone on core 1.
abbrev diverse : Counters × List CpuTime
diverse = (
  ((0, 100), (30000, 10000, 30)) ∷ ((0, 200), (5000, 10000, 500)) ∷ ((1, 300), (10, 10, 0)) ∷ [],
  (0, 100, 1000) ∷ (0, 200, 1000) ∷ (1, 300, 1000) ∷ [],
)

abbrev empty_interval : Counters × List CpuTime
empty_interval = ([], (0, 100, 1000) ∷ [])

run-new_lem_example :
    let t = run {F = ℕ} (diverse ∷ empty_interval ∷ diverse ∷ []) (new none 300 1500) in
    IsBounded t × (t.qualifying_cores % u64_mod ≡ 2)
unfolding sum qualifies core_pids group core_of get keck.Base.Maps.upsert observation
run-new_lem_example =
    run-new_lem lawful none 300 1500 (diverse ∷ empty_interval ∷ diverse ∷ []) (refl, refl)
      (refl, refl)
